-- ===== src/Examples.antt =====
-- Concrete machines, runs of the models, and the theorems at inputs that meet their hypotheses.
mod Machines
mod Registers
mod Vram
mod Windows
mod Texts
mod Card
mod Channels
mod Firmware
mod Kernels
mod Tensors
mod Boards
mod Sessions
mod Checked
mod CheckedSessions
