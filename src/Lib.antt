-- ===== src/Lib.antt =====
-- The verification library of Code Delta: models of its TypeScript code and what holds of them.
--
-- The sandbox worker (sandbox-worker/src) runs the checks of a migration attempt. Its handler
-- `fetch` takes one POST request, compares the bearer token, reads a bounded body, parses it into
-- an execution request, and `execute` writes the files into a fresh sandbox, runs the checks one
-- after the other and destroys the sandbox.
--
--   Worker/Path      policy.ts: normalizePath and its deny lists
--   Worker/Request   policy.ts: the types of a request, parseFile, parseCommand,
--                    parseExecutionRequest
--   Worker/Shell     policy.ts: shellQuote; index.ts: the command line of a check
--   Worker/Regex     the matcher of JavaScript's regular expressions, as far as policy.ts uses it
--   Worker/Redact    policy.ts: SECRET_PATTERNS and redactLog
--   Worker/Sandbox   the sandbox SDK and the platform's functions: parameters of the model
--   Worker/Files     index.ts: digest, writeFiles
--   Worker/Execute   index.ts: execute, with destroyWithTimeout as one call of the sandbox
--   Worker/Handler   index.ts: secureEqual, readBoundedJson, fetch
--   Worker/Tests     runs and concrete instances
--
-- The front end (frontend/app) shows the migrations of the control plane and lets a developer
-- decide on them.
--
--   Frontend/Migration  lib/migrations.ts: the record types
--   Frontend/Run        lib/data.ts: the record types
--   Frontend/Api        lib/data.ts, lib/migrations.ts: what a request makes of its response
--   Frontend/Auth       chatgpt-auth.ts
--   Frontend/Groups     the grouping of MigrationWorkspace.tsx and DeltaCodeApp.tsx
--   Frontend/Inbox      MigrationWorkspace.tsx: StatusPill, InboxMetrics, MigrationInbox
--   Frontend/Decision   MigrationWorkspace.tsx: ActionPanel
--   Frontend/Samples    lib/migrations.ts, lib/data.ts: the data of the preview
--   Frontend/RunList    DeltaCodeApp.tsx: RunsPage, DashboardSummary, RunVerdict, the
--                       repositories of a user and their filter
--   Frontend/Detail     MigrationWorkspace.tsx: ProgressRail, the attempt that is shown;
--                       DeltaCodeApp.tsx: repoParts, userDisplayName, the run behind a retry
--   Frontend/Routes     DeltaCodeApp.tsx: the navigation and the route table
--   Frontend/Event, Frontend/Markup   what a user can do, and the markup that components return
--   Frontend/Format     the formatting functions of MigrationWorkspace.tsx and DeltaCodeApp.tsx
--   Frontend/Sort       the sorts by date and by text
--   Frontend/Shell      DeltaCodeApp.tsx: Wordmark to UserAvatar, AppHeader, the badges
--   Frontend/Public     DeltaCodeApp.tsx: the shells, the public pages, login and onboarding
--   Frontend/RunPages   DeltaCodeApp.tsx: RunsPage, RunDetailPage and their parts
--   Frontend/MigrationPages   MigrationWorkspace.tsx: the components with their states
--   Frontend/WorkspacePages   DeltaCodeApp.tsx: useWorkspaceData, the overview, the repositories,
--                       the integrations and the settings
--   Frontend/App        DeltaCodeApp.tsx: DeltaCodeApp
--   Frontend/Layout     layout.tsx
--   Frontend/Tests, Frontend/PageTests   runs and concrete instances
--
--   Prelude, Text, Json   lists, results, texts as lists of UTF-16 code units, JSON values
--
-- A child module of a part (Worker/Path/Normal) holds lemmas and theorems about that part.
-- A text is a list of code units. A JSON number is a natural number or something else, as the
-- worker reads only natural numbers. A limit of the environment that is no number is `none`, and
-- then no comparison with it holds, as with NaN. Code that throws returns `err` with its fault,
-- and code that calls the sandbox also returns the calls made so far, in order. The loops are
-- structural on the lists that they walk through; only the digits of a number use fuel, one round
-- for each unit of the number and one more.
--
-- A component of the front end is a record for its state, a function for each handler and for the
-- answer to each request, and a function from the state to its markup. Markup is a tree of elements
-- with their attributes in the order of the source; handlers are events, React's keys and refs are
-- left out. A component's parameters stand in the record Site (Frontend/Format).
--
-- Parameters: the URL parser, percent coding, the dates and the floating-point texts of the front
-- end, `Number(text)`, the order of `localeCompare` and that of the repositories on the overview,
-- `toLowerCase` and
-- `toUpperCase` (known on ASCII only), SHA-256, UTF-8, `atob`, the JSON parser, the clock, and the
-- sandbox, which may answer or throw at any call. The sort of the language is a stable insertion
-- sort here; with dates that cannot be read the order of Array.prototype.sort is its own affair.
-- Not modelled: the sending of the requests of the front end, the headers' store, pointer effects,
-- focus and the stored theme, console output, the random sandbox name, the sandbox's network
-- settings, and the Python back end (app/).

pub mod Prelude
pub mod Text
pub mod Json
pub mod Worker
pub mod Frontend
