-- ===== src/Frontend.antt =====
-- The front end of Code Delta (frontend/app).
pub mod Migration
pub mod Run
pub mod Auth
pub mod Public
pub mod Shell
pub mod Format
pub mod Event
pub mod Markup
pub mod Detail
pub mod RunList
pub mod Sort
pub mod RunPages
pub mod Layout
pub mod App
pub mod WorkspacePages
pub mod MigrationPages
pub mod Samples
pub mod Api
pub mod Routes
pub mod Decision
pub mod Inbox
pub mod Groups
mod Tests
mod PageTests
