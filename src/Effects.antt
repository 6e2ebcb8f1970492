-- ===== src/Effects.antt =====
-- The effects of the control plane's server code: the database, the sandbox platform behind the
-- `SandboxApi` interface (apps/web/lib/sandbox.ts), the blob store, the clock, and exceptions.
mod Errors
mod Api
mod Monad
pub mod Table
pub mod Hoare
pub mod Keeps
pub mod Ends
pub use Errors.*
pub use Api.*
unfoldable pub use Monad.*
