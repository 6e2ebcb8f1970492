-- ===== src/Steps/Keeps.antt =====
-- What the steps keep of a workspace's row and of the removals.
mod Rows
mod Boot
mod Commands
mod Archive
pub use Rows.*
pub use Boot.*
pub use Commands.*
pub use Archive.*
