-- ===== src/Examples/Sessions.antt =====
-- The theorem on sessions of src/driver.rs, after an initialization of a card in memory.
use gpu_compute_nostd.Base.{
  All, ℕ, ◌+◌, ◌^◌, ◌<◌, ◌≡◌, refl, true, false, some, [], ◌∷◌, arith, length,
}
use gpu_compute_nostd.Hardware.{History}
use gpu_compute_nostd.Memory.{GpuAllocation, allocate, align_page, first_fit}
use gpu_compute_nostd.Memory.Detect.{decode_vram_size, init_from, detect_and_init}
use gpu_compute_nostd.Mmio.{new, read_chip_id, disable_interrupts}
use gpu_compute_nostd.Falcon.{is_halted}
use gpu_compute_nostd.Fifo.Channel.{Channel, opened, allocate_channel, submit}
use gpu_compute_nostd.Fifo.Runlist.{add_channel, new_runlist}
use gpu_compute_nostd.Compute.{
  ShaderProgram, bind_to_channel, dispatch, new_fence, build_dispatch_commands,
}
use gpu_compute_nostd.Tensor.Shape.{float32, total_elements, size_bytes}
use gpu_compute_nostd.Tensor.Descriptor.{allocate_tensor}
use gpu_compute_nostd.Driver.{GpuDevice, needs_gsp_rm, check_pmu, bind_if, init_device}
use gpu_compute_nostd.Driver
use gpu_compute_nostd.Driver.Session.{
  Session, Call, make_tensor, launch, open_channel, list_channel, commit_runlist, perform, demand,
  Reach, here, step,
}
use gpu_compute_nostd.Driver.Session.Demand.{owned}
use gpu_compute_nostd.Driver.Session.Pages.{IsMappable, init_device-IsMappable}
use gpu_compute_nostd.Driver.Session.Safety.{IsSafe, init_device-IsSafe}
use gpu_compute_nostd.Examples.Machines.{ram, card}

abbrev pub device : GpuDevice
device = (init_device card ram []).0

abbrev pub begun : History
begun = (init_device card ram []).1

abbrev pub buffer : ℕ → ℕ → GpuAllocation
buffer offset size = record {
  gpu_va = 0x1_0000_0000 + offset;
  phys_addr = 0x100000 + offset;
  size = size;
  cpu_mapped = false;
  cpu_va = 0;
}

-- the channel with the class bound to it
abbrev pub channel : Channel
channel = record (opened 0 0 (buffer 0 0x2000) (buffer 0x2000 0x40000)) {
  gpfifo_put = 1;
  push_offset = 8;
}

pub has_channel : device.compute_channel ≡ some channel
unfolding init_device detect_and_init init_from decode_vram_size allocate_channel allocate first_fit
    align_page needs_gsp_rm bind_if bind_to_channel submit is_halted disable_interrupts new
    read_chip_id
has_channel = refl

abbrev pub opening : Session
opening = Driver.Session.opened device channel

abbrev pub tensor_call : Call
tensor_call = make_tensor "x" (64 ∷ 64 ∷ []) float32

abbrev pub with_tensor : Session × History
with_tensor = perform device.regs tensor_call opening ram begun

abbrev pub program : ShaderProgram
program = record {
  allocation = buffer 0x100000 64;
  size = 64;
  entry_offset = 0;
  shared_mem_size = 0;
  num_registers = 16;
  num_const_buffers = 0;
}

abbrev pub launch_call : Call
launch_call =
    launch program (record { x = 4; y = 1; z = 1 }) (record { x = 64; y = 1; z = 1 }) [] true

abbrev pub launched : Session × History
launched = perform device.regs launch_call with_tensor.0 ram with_tensor.1

pub first_room : opening.vram.next_gpu_va + demand opening tensor_call + 0xFFF < 2 ^ 64
unfolding init_device detect_and_init init_from decode_vram_size allocate_channel allocate first_fit
    align_page needs_gsp_rm is_halted disable_interrupts new read_chip_id total_elements size_bytes
first_room = omega arith

pub second_room : with_tensor.0.vram.next_gpu_va + demand with_tensor.0 launch_call + 0xFFF < 2 ^ 64
unfolding init_device detect_and_init init_from decode_vram_size allocate_channel allocate first_fit
    align_page needs_gsp_rm is_halted disable_interrupts new read_chip_id total_elements size_bytes
    perform allocate_tensor
second_room = omega arith

launched-Reach : Reach device.regs ram opening begun launched.0 launched.1
launched-Reach =
    step launch_call (step tensor_call here first_room tt refl) second_room (omega arith) refl

-- a second channel, on a runlist of its own
abbrev pub opened_second : Session × History
opened_second = perform device.regs (open_channel 1 0) launched.0 ram launched.1

abbrev pub listed : Session × History
listed = perform device.regs (list_channel 1) opened_second.0 ram opened_second.1

abbrev pub committed : Session × History
committed = perform device.regs commit_runlist listed.0 ram listed.1

third_room : launched.0.vram.next_gpu_va + demand launched.0 (open_channel 1 0) + 0xFFF < 2 ^ 64
unfolding init_device detect_and_init init_from decode_vram_size allocate_channel allocate first_fit
    align_page needs_gsp_rm is_halted disable_interrupts new read_chip_id total_elements size_bytes
    perform allocate_tensor dispatch new_fence
third_room = omega arith

fourth_room : opened_second.0.vram.next_gpu_va + 0 + 0xFFF < 2 ^ 64
unfolding init_device detect_and_init init_from decode_vram_size allocate_channel allocate first_fit
    align_page needs_gsp_rm is_halted disable_interrupts new read_chip_id total_elements size_bytes
    perform allocate_tensor dispatch new_fence
fourth_room = omega arith

fifth_room : listed.0.vram.next_gpu_va + demand listed.0 commit_runlist + 0xFFF < 2 ^ 64
unfolding init_device detect_and_init init_from decode_vram_size allocate_channel allocate first_fit
    align_page needs_gsp_rm is_halted disable_interrupts new read_chip_id total_elements size_bytes
    perform allocate_tensor dispatch new_fence add_channel new_runlist
fifth_room = omega arith

pub committed-Reach : Reach device.regs ram opening begun committed.0 committed.1
committed-Reach =
    step commit_runlist
      (step (list_channel 1) (step (open_channel 1 0) launched-Reach third_room (omega arith) refl)
        fourth_room tt refl)
      fifth_room tt refl

-- A tensor and a fence are handed out, and the dispatch takes 120 bytes behind the bound class.
launched_blocks :
    (length launched.0.blocks ≡ 2) × (launched.0.segments ≡ ((0x1_0000_2008, 120) ∷ []))
unfolding init_device detect_and_init init_from decode_vram_size allocate_channel allocate first_fit
    align_page needs_gsp_rm is_halted disable_interrupts new read_chip_id total_elements size_bytes
    perform allocate_tensor dispatch new_fence build_dispatch_commands submit
launched_blocks = (refl, refl)

init_device-IsSafe_example : IsSafe device.vram.info.total_bytes committed.0
init_device-IsSafe_example = init_device-IsSafe card ram [] has_channel committed-Reach

init_device-IsMappable_example : All IsMappable (owned committed.0)
init_device-IsMappable_example = init_device-IsMappable card ram [] has_channel committed-Reach
