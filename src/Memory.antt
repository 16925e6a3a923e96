-- ===== src/Memory.antt =====
-- src/memory.rs: VRAM description, page table entries, and the VRAM allocator. Each `Mutex` field
-- is a plain field, and an operation is one call from its first lock to its return; Threads takes
-- `allocate` apart into its two atomic steps.
mod Vram
mod Allocator
pub mod Pte
pub mod Detect
pub mod Regions
pub mod Laws
pub mod Sequence
pub mod Bump
pub mod Invariant
pub mod Threads
pub mod Checked
pub mod Bar1
pub mod Aperture
pub use Vram.*
unfoldable pub use Allocator.*
