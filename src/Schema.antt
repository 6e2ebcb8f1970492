-- ===== src/Schema.antt =====
-- The tables of the control plane (apps/web/lib/schema.ts): enumerations, rows and the process
-- environment (apps/web/lib/env.ts). A timestamp is a number of milliseconds; a nullable column is
-- an `Option`; an id and every other string is a `Text`.
mod Rows
mod Settings
pub use Rows.*
unfoldable pub use Settings.*
