-- ===== src/Lib.antt =====
-- The control plane of an editor in the browser (apps/web): it keeps workspaces in a database, each
-- on a sandbox (a virtual machine) of a platform, and drives them by durable workflows.
--
-- Parts. Routes and timers start the lifecycle workflows (apps/web/workflows); a workflow is a
-- `try … catch` over steps (apps/web/workflows/steps), which read and write the database, call the
-- sandbox platform, and share the key-value table (apps/web/lib/kv.ts) for locks and tokens. A
-- workflow runs another one as its child and polls the run store for its end. The supervisor on a
-- sandbox reports health and listening ports, from which the control plane keeps the preview ports.
--
-- Files and sources:
--   Base         helpers: Boolean tests, lists over native numbers, text as UTF-16 units, decimals
--   Schema       rows (apps/web/lib/schema.ts: workspaces, sessions, forwards, kv, users, documents,
--                audit and sign-in rows), the environment and reserved ports (lib/env.ts), releases (lib/builds.ts, lib/release.ts), sandbox
--                names (lib/ids.ts: newSandboxName)
--   Json         a parsed JSON value
--   Effects      state passing with exceptions over the tables, a platform and a record of the
--                removals; Effects/Api is the platform: SandboxApi and SandboxHandle of
--                lib/sandbox.ts, the blob store, fetch, clock and randomness, all parameters
--   Effects/Hoare, Effects/Keeps, Effects/Ends   triples, invariants of a row and of the removals,
--                and computations that end
--   Kv           lib/kv.ts (SqlKv, sweepExpiredKv); Kv/Laws its reads and writes, Kv/Lock withLock
--   Sessions     lib/connect.ts (arbitrateSession, insertSession, closeOpenSession); Sessions/Unique
--                its proofs
--   Health       lib/connect.ts (parseHealthBody, probeHealth)
--   Steps        workflows/steps/db-steps.ts (Db) and sandbox-steps.ts (Supervisor, Sandbox,
--                Commands, Archive, Gc), one function for each step; Steps/Keeps is
--                what they keep, Steps/Orphans what the collector may delete
--   Workflows    create-, connect-, stop-, delete-, rebuild-workspace.ts, restart-session.ts and
--                child.ts with child-steps.ts; Ready is the readiness loop that create and connect
--                share; Gc is gc.ts; Keeps, Ending, Children, Safety, Rebuilding,
--                Loops, Prompt, Ended and Restarted hold proofs
--   Lifecycle    lib/lifecycle.ts (startLifecycle) and lib/workspace-budget.ts;
--                Lifecycle/Budget (the code's count), Lifecycle/Occupancy and Lifecycle/Keeps hold
--                proofs
--   Forwards     lib/ports.ts and lib/forwards.ts; Forwards/Sync is syncListeningForwards
--   RateLimit    lib/ratelimit.ts; RateLimit/Window and RateLimit/Retry its proofs
--   Jsonc        lib/jsonc.ts (stripJsonc, isJsonc)
--   Archive      lib/archive.ts; Archive/Naming its round trip
--   Ids          lib/ids.ts (newId and the shapes of ids); Ids/Shapes its proofs
--   Concurrency  lib/concurrency.ts (mapConcurrent) as steps of its workers; Concurrency/Invariant
--                and Concurrency/Results its proofs
--   Sweep        app/api/cron/sweep/route.ts: the runs and the request here, the conditions in
--                Sweep/Decision, the work on a running workspace in Sweep/Running; Sweep/Live and
--                Sweep/Capped hold proofs
--   Activity     app/api/sandboxes/[name]/activity/route.ts: the instants here, the writes and the
--                request in Activity/Post; Activity/Bounds joins it with the sweep
--   Documents    lib/settings-docs.ts (readDoc, writeDoc); Documents/Versions its proofs
--   Connect      app/api/workspaces/[id]/connect/route.ts; Connect/Request its input, answers and
--                tests, Connect/Liveness detectDeadSandbox and markWorkspaceLost of lib/connect.ts,
--                Connect/Reconnect its proofs
--   Updater      app/(editor)/w/[id]/editor-updater.ts (EditorUpdater) as steps between its awaits;
--                Updater/Staged and Updater/Disposed its proofs
--   Examples     a small platform and concrete runs
--
-- State. A world is the tables, the platform's own state, and the removals asked for so far, which
-- is a record for the proofs only. A platform call may change the platform's state and may fail, so
-- a theorem over every platform covers every failure. Times are milliseconds as natural numbers.
--
-- Fuel. The polling loops (await_child, wait_ready, wait_archive, wait_shutdown) run on fuel; when
-- it is used up the run is `hung`, of which the triples say nothing: they bind a run that returns or
-- throws. Workflows/Loops is about the loops with a deadline, which pause between two rounds: fuel
-- for the ceiling divided by the pause, and two, is enough (422 for creating, 38 for resuming, 242
-- for archiving, 14 for stopping), and Workflows/Ended is about whole runs. await_child has no
-- deadline in the source while the run store reports the child as running; Workflows/Restarted is
-- about a run store that reports each run it is asked about as ended, or as unknown, for which the
-- source has a ceiling of 45 minutes (fuel 542). The connection route waits on fuel 32 for a resume:
-- 45 seconds by pauses of 1.5.
--
-- Not modelled: the workflow runtime's replay and retries of a step (a step is its last attempt);
-- concurrent writers of a workspace's row during a run (the row is changed by the run alone); a
-- child runs between its start and the parent's first poll; the JSON text of the muted ports and of
-- the rate limit's hits, which appear decoded; the interleaving of the effects of one sweep (its
-- rows are taken in order); `NaN` but for the instants that the routes compare; the other routes,
-- authentication, GitHub, the sandbox backends and the user interface.
mod Base
pub mod Schema
pub mod Json
pub mod Effects
pub mod Kv
pub mod Archive
pub mod Ids
pub mod Concurrency
pub mod Sessions
pub mod Health
pub mod Steps
pub mod Workflows
pub mod Forwards
pub mod Sweep
pub mod Documents
pub mod Activity
pub mod Connect
pub mod Updater
pub mod RateLimit
pub mod Lifecycle
pub mod Jsonc
mod Examples
