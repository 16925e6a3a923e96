-- ===== src/Compute.antt =====
-- src/compute.rs: the compute engine, shader programs, fences and kernel dispatch.
mod Methods
mod Engine
pub mod Commands
pub mod Dispatch
pub mod Room
pub mod Checked
pub use Methods.*
unfoldable pub use Engine.*
