-- ===== src/Base/Query.antt =====
-- Laws of the queries, passed on from the children.
mod Rows
mod Others
mod Kept
pub use Rows.*
pub use Others.*
pub use Kept.*
