-- ===== src/Workflows.antt =====
-- The lifecycle workflows of apps/web/workflows: each is its body, a `try … catch` over steps.
pub mod Child
pub mod Ready
pub mod Create
pub mod Connect
pub mod Stop
pub mod Delete
pub mod Rebuild
pub mod Gc
pub mod Restart
pub mod Keeps
pub mod Ending
pub mod Children
pub mod Safety
pub mod Rebuilding
pub mod Loops
pub mod Prompt
pub mod Ended
pub mod Restarted
