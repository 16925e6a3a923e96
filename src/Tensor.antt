-- ===== src/Tensor.antt =====
-- src/tensor.rs: tensor descriptors, and the engine that allocates and moves tensors. `usize` is
-- the 64-bit one, and sums and products are those of a build without overflow checks, but in Checked.
pub mod Shape
pub mod Descriptor
pub mod Operations
pub mod Strides
pub mod Allocation
pub mod Accounting
pub mod Transfer
pub mod Launch
pub mod Text
pub mod Checked
