-- ===== src/Examples/CheckedSessions.antt =====
-- The theorems on sessions of src/driver.rs in a build with overflow checks.
use gpu_compute_nostd.Base.{◌+◌, ◌*◌, ◌^◌, ◌<◌, ◌≡◌, refl, inr, true, [], ◌∷◌, arith}
use gpu_compute_nostd.Base.Checked.{done}
use gpu_compute_nostd.Mmio.{new, read32, read_chip_id, disable_interrupts, gpc_count, tpc_per_gpc}
use gpu_compute_nostd.Memory.{allocate, align_page, first_fit}
use gpu_compute_nostd.Memory.Detect.{detect_and_init, init_from, decode_vram_size}
use gpu_compute_nostd.Falcon.{is_halted}
use gpu_compute_nostd.Fifo.Channel.{allocate_channel}
use gpu_compute_nostd.Fifo.Runlist.{add_channel, new_runlist, commit}
use gpu_compute_nostd.Tensor.Shape.{float32, total_elements, size_bytes}
use gpu_compute_nostd.Tensor.Descriptor.{allocate_tensor, new_tensors}
use gpu_compute_nostd.Compute.{new_engine, new_fence, dispatch}
use gpu_compute_nostd.Driver.{needs_gsp_rm, init_device, sms_per_tpc}
use gpu_compute_nostd.Driver.Checked.Init.{init_device_checked_iff}
use gpu_compute_nostd.Driver.Session.Safety.{IsSafe}
use gpu_compute_nostd.Driver.Session.Checked.Safety.{
  ReachChecked, here, step, init_device-IsSafe_checked,
}
use gpu_compute_nostd.Driver.Session.{Reach, perform, demand}
use gpu_compute_nostd.Driver.Session.Checked.{perform_checked}
use gpu_compute_nostd.Driver.Session.Checked.Exact.{init_device-perform_checked}
use gpu_compute_nostd.Examples.Machines.{ram, card}
use gpu_compute_nostd.Examples.Sessions.{
  first_room, second_room, launched, with_tensor, device, begun, has_channel, opening, tensor_call,
  launch_call, committed, committed-Reach,
}

next_room : committed.0.vram.next_gpu_va + demand committed.0 launch_call + 0xFFF < 2 ^ 64
unfolding init_device detect_and_init init_from decode_vram_size allocate_channel allocate first_fit
    align_page needs_gsp_rm is_halted disable_interrupts new read_chip_id total_elements size_bytes
    perform allocate_tensor dispatch new_fence add_channel new_runlist commit
next_room = omega arith

next_fence : committed.0.compute.next_fence_value + 1 < 2 ^ 32
unfolding init_device detect_and_init init_from decode_vram_size allocate_channel allocate first_fit
    align_page needs_gsp_rm is_halted disable_interrupts new read_chip_id total_elements size_bytes
    perform allocate_tensor dispatch new_fence add_channel new_runlist commit new_engine
next_fence = omega arith

init_device-perform_checked_example :
    perform_checked true device.regs launch_call committed.0 ram committed.1
    ≡ done (perform device.regs launch_call committed.0 ram committed.1)
init_device-perform_checked_example =
    init_device-perform_checked true card ram [] launch_call (omega arith) has_channel
      committed-Reach next_room (omega arith)
      (next_fence, inr ((omega arith, omega arith), (omega arith, omega arith)))

opening_counters :
    (opening.tensors.total_allocated + size_bytes float32 (total_elements (64 ∷ 64 ∷ [])) < 2 ^ 64)
    × (opening.tensors.tensor_count + 1 < 2 ^ 32)
unfolding init_device new_tensors total_elements size_bytes
opening_counters = (omega arith, omega arith)

opening_fence : with_tensor.0.compute.next_fence_value + 1 < 2 ^ 32
unfolding init_device new_engine perform
opening_fence = omega arith

-- The same calls as in the run without the checks, none of which panics.
launched-ReachChecked : ReachChecked true device.regs ram opening begun launched.0 launched.1
launched-ReachChecked =
    step launch_call
      (step tensor_call here tt (
        init_device-perform_checked true card ram [] tensor_call (omega arith) has_channel
          Reach.here first_room tt (omega arith, omega arith, opening_counters)))
      (omega arith)
      (init_device-perform_checked true card ram [] launch_call (omega arith) has_channel
        (Reach.step tensor_call Reach.here first_room tt refl) second_room (omega arith)
        (opening_fence, inr ((omega arith, omega arith), (omega arith, omega arith))))

device_counts : device.gpc_count * device.tpc_per_gpc * sms_per_tpc card.family ≡ 0
unfolding init_device gpc_count tpc_per_gpc read32 new sms_per_tpc needs_gsp_rm is_halted
    disable_interrupts read_chip_id detect_and_init
device_counts = refl

init_device-IsSafe_checked_example : IsSafe device.vram.info.total_bytes launched.0
init_device-IsSafe_checked_example =
    init_device-IsSafe_checked true card ram []
      ((init_device_checked_iff card ram []).0.1 (omega (arith, device_counts))) has_channel
      launched-ReachChecked
