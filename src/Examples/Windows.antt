-- ===== src/Examples/Windows.antt =====
-- The theorems on the windows of a card, from the scan of src/pci_config.rs to a session on the
-- device of src/driver.rs.
use gpu_compute_nostd.Base.{ℕ, ◌+◌, ◌^◌, ◌<◌, ◌≡◌, refl, [], ◌∷◌, arith, some, false}
use gpu_compute_nostd.Hardware.{History}
use gpu_compute_nostd.Pci.Config.{
  config_address, pci_config_read32, pci_config_write32, pci_config_read16, pci_config_write16,
}
use gpu_compute_nostd.Base.Text.{hex4}
use gpu_compute_nostd.Pci.Family.{pascal, device_id_to_family, device_id_to_name}
use gpu_compute_nostd.Pci.Bar.{probe_bar_size, decode_bar64}
use gpu_compute_nostd.Pci.Scan.{
  GpuPciDevice, read_bars, scan_slot, enable_device, scan_bus, scan_buses, scan_for_nvidia_gpu,
}
use gpu_compute_nostd.Pci.Scan.Card.{HasWindows, Stays, scan_for_nvidia_gpu-windows}
use gpu_compute_nostd.Driver.{GpuDevice, init, init_device}
use gpu_compute_nostd.Memory.{GpuAllocation, allocate, align_page, first_fit}
use gpu_compute_nostd.Memory.Detect.{decode_vram_size, init_from, detect_and_init}
use gpu_compute_nostd.Mmio.{new, read_chip_id, disable_interrupts}
use gpu_compute_nostd.Falcon.{is_halted}
use gpu_compute_nostd.Fifo.Channel.{Channel, opened, allocate_channel, submit}
use gpu_compute_nostd.Compute.{bind_to_channel}
use gpu_compute_nostd.Tensor.Shape.{float32, total_elements, size_bytes}
use gpu_compute_nostd.Driver.{needs_gsp_rm, bind_if}
use gpu_compute_nostd.Driver
use gpu_compute_nostd.Driver.Session.{
  Session, Call, make_tensor, perform, demand, Reach, here, step,
}
use gpu_compute_nostd.Driver.Session.Aperture.{AreShown, init-AreShown}
use gpu_compute_nostd.Examples.Card.{barred, barred_windows}

abbrev pub found : GpuPciDevice
found = record {
  bus = 0;
  device = 1;
  function = 0;
  device_id = 0x1B80;
  revision = 0xA1;
  family = pascal;
  bar0_base = 0xF600_0000;
  bar0_size = 2 ^ 24;
  bar1_base = 0x80_0000_0000;
  bar1_size = 2 ^ 28;
  bar2_base = 0xF800_0000;
  bar2_size = 2 ^ 25;
  name = "NVIDIA GPU (device_id=0x1B80)";
}

scan_found : (scan_for_nvidia_gpu barred []).0 ≡ some found
unfolding scan_for_nvidia_gpu scan_buses scan_bus scan_slot read_bars pci_config_read32
    config_address probe_bar_size decode_bar64 device_id_to_family device_id_to_name hex4
    pci_config_write32
scan_found = refl

scan_for_nvidia_gpu-windows_example :
    HasWindows barred_windows [] found × Stays barred_windows [] (scan_for_nvidia_gpu barred []).1
scan_for_nvidia_gpu-windows_example =
    scan_for_nvidia_gpu-windows barred [] scan_found barred_windows

abbrev started : GpuDevice
started = (init_device found barred (scan_for_nvidia_gpu barred []).1).0

init-started : (init barred []).0 ≡ some started
unfolding init
init-started = rw (scan_found, init) refl

abbrev buffer : ℕ → ℕ → GpuAllocation
buffer offset size = record {
  gpu_va = 0x1_0000_0000 + offset;
  phys_addr = 0x100000 + offset;
  size = size;
  cpu_mapped = false;
  cpu_va = 0;
}

-- the channel with the class bound to it
abbrev channel : Channel
channel = record (opened 0 0 (buffer 0 0x2000) (buffer 0x2000 0x40000)) {
  gpfifo_put = 1;
  push_offset = 8;
}

has_channel : started.compute_channel ≡ some channel
unfolding init_device detect_and_init init_from decode_vram_size allocate_channel allocate first_fit
    align_page needs_gsp_rm bind_if bind_to_channel submit is_halted disable_interrupts new
    read_chip_id scan_for_nvidia_gpu scan_buses scan_bus scan_slot pci_config_read32 config_address
    enable_device pci_config_read16 pci_config_write16 read_bars probe_bar_size
has_channel = refl

abbrev opening : Session
opening = Driver.Session.opened started channel

abbrev tensor_call : Call
tensor_call = make_tensor "x" (64 ∷ 64 ∷ []) float32

abbrev with_tensor : Session × History
with_tensor = perform started.regs tensor_call opening barred (init barred []).1

room : opening.vram.next_gpu_va + demand opening tensor_call + 0xFFF < 2 ^ 64
unfolding init_device detect_and_init init_from decode_vram_size allocate_channel allocate first_fit
    align_page needs_gsp_rm is_halted disable_interrupts new read_chip_id total_elements size_bytes
    scan_for_nvidia_gpu scan_buses scan_bus scan_slot pci_config_read32 config_address enable_device
    pci_config_read16 pci_config_write16 read_bars probe_bar_size
room = omega arith

init-AreShown_example : AreShown (0x80_0000_0000, 2 ^ 28) with_tensor.0
unfolding init_device
init-AreShown_example =
    init-AreShown barred [] init-started barred_windows (omega arith) has_channel
      (step tensor_call here room tt refl)
