-- ===== src/Examples/Checked.antt =====
-- The theorems on a build with overflow checks, and runs that panic in it.
use gpu_compute_nostd.Base.{
  ℕ, ◌-◌, ◌*◌, ◌^◌, ◌<◌, ◌≡◌, ◌↔◌, refl, true, false, some, [], ◌∷◌, arith,
}
use gpu_compute_nostd.Base.Checked.{done, panicked, >>=_after}
use gpu_compute_nostd.Hardware.{Device, History}
use gpu_compute_nostd.Mmio.{read32, gpc_count, tpc_per_gpc}
use gpu_compute_nostd.Base.Text.{hex4}
use gpu_compute_nostd.Pci.Config.{config_address, pci_config_read32, pci_config_write32}
use gpu_compute_nostd.Pci.Family.{device_id_to_family, device_id_to_name}
use gpu_compute_nostd.Pci.Bar.{probe_bar_size, decode_bar64}
use gpu_compute_nostd.Pci.Scan.{scan_for_nvidia_gpu, scan_buses, scan_bus, scan_slot, read_bars}
use gpu_compute_nostd.Memory.Checked.{allocate_checked, align_page_checked}
use gpu_compute_nostd.Memory.Checked.Laws.{Outcome, allocate_checked_cases}
use gpu_compute_nostd.Compute.{GridDim, build_dispatch_commands}
use gpu_compute_nostd.Compute.Checked.{build_checked, log_launch}
use gpu_compute_nostd.Compute.Checked.Exact.{IsLoggable, build_checked_iff}
use gpu_compute_nostd.Tensor.Checked.{
  compute_strides_checked, push_strides_checked, total_elements_checked, multiply_checked,
}
use gpu_compute_nostd.Driver.{GpuDevice, init, init_device, query_info, sms_per_tpc}
use gpu_compute_nostd.Driver.Checked.{init_device_checked, init_checked, query_info_checked}
use gpu_compute_nostd.Driver.Checked.Topology.{read_topology}
use gpu_compute_nostd.Driver.Checked.Init.{HasCountableSms, init_device_checked_iff}
use gpu_compute_nostd.Driver.Checked.Info.{init_checked-query_info}
use gpu_compute_nostd.Examples.Machines.{ram, card}
use gpu_compute_nostd.Examples.Vram.{pool}
use gpu_compute_nostd.Examples.Kernels.{engine, program, grid, block, buffers, fence}
use gpu_compute_nostd.Examples.Windows.{found}
use gpu_compute_nostd.Examples.Card.{barred}

-- A size that rounds up to nothing without the checks.
huge_panics : allocate_checked pool (2 ^ 64 - 1) ≡ panicked
unfolding allocate_checked align_page_checked
huge_panics = refl

allocate_checked_cases_example : Outcome pool 5000
allocate_checked_cases_example =
    allocate_checked_cases 0x100000 0x800000 pool 5000 (omega arith)
      ((omega arith, omega arith), ((omega arith, omega arith), tt))

-- A shape without elements whose strides overflow, though the number of elements does not.
empty_panics :
    let shape = 0 ∷ 2 ^ 40 ∷ 2 ^ 40 ∷ [] in
    (total_elements_checked shape ≡ done 0) × (compute_strides_checked shape ≡ panicked)
unfolding total_elements_checked multiply_checked compute_strides_checked push_strides_checked
empty_panics = (refl, refl)

abbrev wide : GridDim
wide = record { x = 2 ^ 16; y = 2 ^ 16; z = 1 }

-- The same launch without and with its line in the log.
wide_panics :
    (build_checked false engine program wide block buffers fence
      ≡ done (build_dispatch_commands engine program wide block buffers fence))
    × (build_checked true engine program wide block buffers fence ≡ panicked)
unfolding build_checked log_launch
wide_panics = (refl, refl)

build_checked_iff_example :
    (build_checked true engine program grid block buffers fence
      ≡ done (build_dispatch_commands engine program grid block buffers fence))
    ↔ IsLoggable true grid block
build_checked_iff_example = build_checked_iff true engine program grid block buffers fence

-- A card that does not answer reads as ones.
ones_lt : (h : History) (a : ℕ) → 2 ^ 32 - 1 < 2 ^ 32
ones_lt h a = omega arith

abbrev ones : Device
ones = record {
  loads = λ h a. 2 ^ 32 - 1;
  ports = ram.ports;
  loads_word = ones_lt;
  ports_word = ram.ports_word;
}

silent_panics : init_device_checked card ones [] ≡ panicked
unfolding init_device_checked read_topology gpc_count tpc_per_gpc
silent_panics = refl

init_device_checked_iff_example :
    let g = (init_device card ram []).0 in
    ((init_device_checked card ram [] ≡ done (init_device card ram []))
      ↔ HasCountableSms card.family g.gpc_count g.tpc_per_gpc)
    × ((init_device_checked card ram [] ≡ panicked)
        ↔ ¬ HasCountableSms card.family g.gpc_count g.tpc_per_gpc)
init_device_checked_iff_example = init_device_checked_iff card ram []

-- The card of the examples with six GPCs of six TPCs: each of its registers reads as 6.
six_lt : (h : History) (a : ℕ) → 6 < 2 ^ 32
six_lt h a = omega arith

abbrev lit : Device
lit = record {
  loads = λ h a. 6;
  ports = barred.ports;
  loads_word = six_lt;
  ports_word = barred.ports_word;
}

lit-found : (scan_for_nvidia_gpu lit []).0 ≡ some found
unfolding scan_for_nvidia_gpu scan_buses scan_bus scan_slot read_bars pci_config_read32
    config_address probe_bar_size decode_bar64 device_id_to_family device_id_to_name hex4
    pci_config_write32
lit-found = refl

abbrev started : GpuDevice
started = (init_device found lit (scan_for_nvidia_gpu lit []).1).0

abbrev after : History
after = (init_device found lit (scan_for_nvidia_gpu lit []).1).1

started_counts : started.gpc_count * started.tpc_per_gpc * sms_per_tpc found.family ≡ 36
unfolding init_device gpc_count tpc_per_gpc read32 sms_per_tpc
started_counts = refl

started_returns : init_checked lit [] ≡ done (some started, after)
unfolding init_checked init_device
started_returns =
    let h1 : History = (scan_for_nvidia_gpu lit []).1 in
    rw (lit-found, init_checked)
      (>>=_after (init_device_checked found lit h1) _ _ _
        ((init_device_checked_iff found lit h1).0.1 (omega (arith, started_counts))) refl)

init_checked-query_info_example :
    (init lit [] ≡ (some started, after))
    × (query_info_checked started ≡ done (query_info started))
    × ((query_info started).sm_count
        ≡ started.gpc_count * started.tpc_per_gpc * sms_per_tpc started.pci.family)
init_checked-query_info_example = init_checked-query_info lit [] started_returns
