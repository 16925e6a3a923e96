-- ===== src/Lib.antt =====
-- gpu-compute-nostd, a bare-metal driver for NVIDIA GPUs in Rust, as checked definitions with the
-- theorems that make its parts correct.
--
-- The program finds a card on the PCI bus (src/pci_config.rs), reaches its registers through BAR0
-- (src/mmio.rs), detects and hands out its VRAM (src/memory.rs), starts firmware on its Falcon
-- microcontrollers (src/falcon.rs), submits commands through channels (src/fifo.rs), builds and
-- dispatches kernels (src/compute.rs), and keeps tensors in VRAM (src/tensor.rs). `GpuDevice` of
-- src/driver.rs puts these together.
--
-- Which file models what:
--   Hardware            the machine below: loads, stores and port accesses, each recorded in a
--                       history. A device answers as a function of the history, so a register may
--                       change by itself or react to reads. An operation with hardware access is an
--                       action `Io A` over a device and a history.
--   Mmio                `GpuRegs`; Registers the NV_* constants, Timer and Laws the theorems.
--   Pci                 Config the accessors of configuration space, Config.Halves those of 16 bits,
--                       Bar `decode_bar64` and `probe_bar_size`, Family the tables by device ID, Scan
--                       `scan_for_nvidia_gpu`, its loop body split into `read_bars`,
--                       `enable_device` and `scan_slot`; Scan.Enable what it does to the command
--                       register, Scan.First which card it returns; Bar.Granule, Bar.Probe,
--                       Scan.Windows and Scan.Card what it takes down of the BARs.
--   Memory              Vram the data, Allocator the operations of `VramAllocator`, Detect
--                       `detect_and_init`, Pte `GpuPte`. Regions has the free list as a set of
--                       addresses, Laws one call of `allocate`, Sequence any sequence of calls,
--                       Threads the same from any number of threads, with `allocate` as two atomic
--                       steps, Bump whole calls next to a reference allocator that has no free
--                       list, Invariant what a client asks of an invariant of the allocator, as a
--                       record of laws with two that have them, Bar1 one call of `map_to_cpu`, and
--                       Aperture every block behind the aperture, a third such invariant. Checked has
--                       the operations with overflow checks, Checked.Laws each of them and
--                       Checked.Sequence any sequence of calls.
--   Falcon              `Falcon` with its operations; Registers its constants, Upload and Boot the
--                       theorems on the accesses, Memory what they leave in IMEM and DMEM.
--   Fifo                Method the command headers, Gpfifo `GpfifoEntry`, Channel `Channel`, Runlist
--                       `Runlist` and `init_fifo`; Encoding, Headers and Submit the theorems; Race
--                       `submit` as four atomic steps of two threads, Crowd the same for any number
--                       of calls, Race.Overlap two threads that load the same offset;
--                       Runlist.Order the order of the entries under edits, and Runlist.Commit
--                       `commit`. Checked has the operations with
--                       overflow checks, Checked.Laws the theorems.
--   Compute             Methods the NVC6C0_* constants, Engine the data and operations; Commands,
--                       Room and Dispatch the theorems. Checked has the operations with
--                       overflow checks, Checked.Laws and Checked.Exact the theorems.
--   Tensor              Shape element types, strides and sizes, Descriptor `TensorDescriptor` and
--                       `TensorEngine`, Operations the kernels as far as they go, Text the
--                       texts; Strides, Allocation, Accounting, Transfer and Launch the theorems.
--                       Checked has tensors with overflow checks, Checked.Laws and Checked.Exact the
--                       theorems.
--   Driver              `GpuDevice`, Text how `GpuInfo` is displayed; Init, Start, Trace, Windows,
--                       Interrupts and Quiet the theorems. Session is a client of the device: its
--                       calls on the allocator, the engines, the channel and a runlist, as a
--                       relation between states; Session.Demand has what a call allocates,
--                       Session.Laws takes any invariant of the allocator through each call and
--                       Session.Opened from `init` on, Session.Safety, Session.Pages and
--                       Session.Aperture say what holds of every state that the calls lead to.
--                       Checked has `init` and `query_info` with overflow checks, with
--                       Checked.Topology their first half, Checked.Init and Checked.Info the
--                       theorems; Session.Checked has the calls of a session,
--                       Session.Checked.Allocations what a call that returns has allocated, and
--                       Equivalence, Exact, Kept and Safety below it the theorems.
--   Base                numbers, lists, words, and the laws of `&` and `|` on bit fields; Checked the
--                       sums of a build with overflow checks.
--   Examples            concrete devices, runs, and the theorems at concrete inputs.
--
-- A struct is a record of the same name and fields, an enum a data type, and a function keeps its
-- name; where two types have a `new` or an `allocate`, the model writes `new_fence`,
-- `allocate_channel` and so on, as said beside each. `&mut self` is a record returned. A word of w
-- bits is a natural number, and each cast and each sum that may wrap carries its `% 2 ^ w`. `usize`
-- has 64 bits.
--
-- That is the build without overflow checks; with them, as in a debug build, a sum that does not fit
-- its type is a panic. Cargo.toml sets no profile, so either build may be made, and the operations whose
-- sums can overflow stand here a second time: the modules Checked of Memory, Fifo, Compute, Tensor,
-- Driver and Driver.Session have each of them as a `Run`, which returns or panics, under its name with
-- `_checked`. A panic ends the program, and what came before it is not kept. Modelled without the
-- checks only are the kernel operations of src/tensor.rs, the scan, the register accesses and the
-- Falcons.
--
-- Bounds and fuel: `read_timer_ns` loops without a limit in the code and takes fuel here, and 2^32
-- rounds are enough for any device whose timer is a 64-bit counter, since each further round has seen
-- the upper half rise. `wait_ready` and `GpuFence::wait` have limits of their own in the code, which
-- the model takes over. The scan is a recursion on the buses and devices left.
--
-- Not modelled: what is written to the log, but for the line of `TensorEngine::status`; the crate
-- root src/lib.rs; the mutexes and atomic counters, whose calls do not overlap except in
-- Memory.Threads, Fifo.Race and Fifo.Crowd; page tables and caches of the CPU, since the code maps BAR0 by
-- identity. Where the code has a `TODO` for a hardware access, as in `submit` for the words of the
-- push buffer, in `upload` for the bytes, in `is_signaled` for the semaphore and in the tensor
-- kernels for the dispatch, it does nothing there, and neither does the model.
pub mod Base
pub mod Hardware
pub mod Mmio
pub mod Pci
pub mod Memory
pub mod Falcon
pub mod Fifo
pub mod Compute
pub mod Tensor
pub mod Driver
mod Examples
