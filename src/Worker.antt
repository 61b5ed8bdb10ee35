-- ===== src/Worker.antt =====
-- sandbox-worker/src: the worker that runs the checks of a migration attempt in a sandbox.
pub mod Fault
pub mod Path
pub mod Request
pub mod Shell
pub mod Regex
pub mod Redact
pub mod Sandbox
pub mod Files
pub mod Execute
pub mod Handler
mod Tests
