-- ===== src/Examples/Boards.antt =====
-- The theorems on src/pci_config.rs and src/driver.rs at concrete cards.
use gpu_compute_nostd.Base.{
  ◌⊎◌, ◌==◌, some, refl, ℕ, ◌+◌, ◌*◌, ◌^◌, ◌≤◌, ◌<◌, ◌≡◌, ◌≢◌, ◌↔◌, false, none, [], ◌∷◌, arith,
  if◌then◌else◌,
}
use gpu_compute_nostd.Base.Text.{hex4}
use gpu_compute_nostd.Hardware.{Access, load, store, port_in, port_out, Device, History}
use gpu_compute_nostd.Mmio.{
  enable_interrupts, nv_pmc_intr_en_0, nv_pmc_intr_0, nv_pfifo_intr_0, nv_pgraph_intr,
  nv_ptimer_intr_0,
}
use gpu_compute_nostd.Memory.Detect.{init_from}
use gpu_compute_nostd.Pci.Family.{
  volta, ampere, ada, pascal, device_id_to_family, device_id_to_name,
}
use gpu_compute_nostd.Pci.Family.Ranges.{device_id_to_family_ranges}
use gpu_compute_nostd.Pci.Config.{config_address, pci_config_read32}
use gpu_compute_nostd.Pci.Bar.{decode_bar64, probe_bar_size}
use gpu_compute_nostd.Pci.Scan.{
  GpuPciDevice, scan_for_nvidia_gpu, scan_buses, scan_bus, scan_slot, read_bars,
}
use gpu_compute_nostd.Pci.Scan.First.{
  IsConfiguration, IsEmpty, IsFirst, scan_for_nvidia_gpu-IsFirst,
}
use gpu_compute_nostd.Driver.{GpuDevice, init, needs_gsp_rm, init_device, handle_interrupt}
use gpu_compute_nostd.Driver.Start.{IsDeviceOf, init_lem}
use gpu_compute_nostd.Driver.Trace.{finished, begun, init_device-trace}
use gpu_compute_nostd.Driver.Quiet.{IsSource, handle_interrupt-quiet}
use gpu_compute_nostd.Base.Bits.{bit}
use gpu_compute_nostd.Examples.Machines.{ram, board, card}

-- an RTX 4090
device_id_to_family_ranges_example :
    (device_id_to_family 0x2684 ≢ volta)
    × ((device_id_to_family 0x2684 ≡ ada) ↔ ((0x2800 ≤ 0x2684) × (0x2684 < 0x2900)))
    × ((device_id_to_family 0x2684 ≡ ampere) ↔ ((0x2200 ≤ 0x2684) × (0x2684 < 0x2800)))
device_id_to_family_ranges_example = device_id_to_family_ranges 0x2684 (omega arith)

abbrev running : GpuDevice
running = record {
  pci = card;
  regs = board;
  vram = init_from 0 8 0 0 0;
  compute = record { class_id = 0xC0C0; family = pascal; subchannel = 0; next_fence_value = 1 };
  tensors = record { total_allocated = 0; tensor_count = 0 };
  compute_channel = none;
  compute_ready = false;
  chip_id = 0x134;
  gpc_count = 4;
  tpc_per_gpc = 5;
}

-- a bus with one NVIDIA card in slot 1 of bus 0: what the address port was set to last
abbrev selected : History → ℕ
selected [] = 0
selected (port_out q v ∷ h) = let rest = selected h in if q == 0xCF8 then v else rest
selected (load a ∷ h) = selected h
selected (store a v ∷ h) = selected h
selected (port_in q ∷ h) = selected h

abbrev space : ℕ → ℕ
space a = if a == 0x8000_0800 then 0x1B80_10DE else if a == 0x8000_0808 then 0x0300_00A1 else 0

abbrev one_card_ports : History → ℕ → ℕ
one_card_ports h q = space (selected h)

one_card_word : (h : History) (q : ℕ) → one_card_ports h q < 2 ^ 32
one_card_word h q = ground arith

abbrev one_card : Device
one_card = record {
  loads = ram.loads;
  ports = one_card_ports;
  loads_word = ram.loads_word;
  ports_word = one_card_word;
}

-- what the scan finds there: no BAR answers
abbrev found : GpuPciDevice
found = record card {
  device_id = 0x1B80;
  bus = 0;
  device = 1;
  bar1_base = 0;
  bar0_size = 0;
  bar1_size = 0;
}

scan_found : (scan_for_nvidia_gpu one_card []).0 ≡ some found
unfolding scan_for_nvidia_gpu scan_buses scan_bus scan_slot read_bars pci_config_read32
    config_address probe_bar_size decode_bar64 device_id_to_family device_id_to_name hex4
scan_found = refl

init_device-trace_example :
    let (g, h') = init_device card ram [] in
    h' ≡ finished g.regs g.compute_ready (begun g.regs (needs_gsp_rm card.family) [])
init_device-trace_example = init_device-trace card ram []

-- three sources that are pending until their status register is written
abbrev flag : ℕ → History → ℕ
flag r [] = 1
flag r (store a v ∷ h) = let rest = flag r h in if a == r then 0 else rest
flag r (load a ∷ h) = flag r h
flag r (port_in q ∷ h) = flag r h
flag r (port_out q v ∷ h) = flag r h

flag_lt : (r : ℕ) (h : History) → flag r h < 2
flag_lt r [] = omega arith
flag_lt r (store a v ∷ h) = ground (arith, flag_lt r h)
flag_lt r (load a ∷ h) = flag_lt r h
flag_lt r (port_in q ∷ h) = flag_lt r h
flag_lt r (port_out q v ∷ h) = flag_lt r h

flag_lowers : (r : ℕ) (e : Access) (h : History) → flag r (e ∷ h) ≤ flag r h
flag_lowers r (store a v) h = ground arith
flag_lowers r (load a) h = omega arith
flag_lowers r (port_in q) h = omega arith
flag_lowers r (port_out q v) h = omega arith

abbrev raised : History → ℕ
raised h =
    flag nv_pfifo_intr_0 h * 2 ^ 8
    + flag nv_pgraph_intr h * 2 ^ 12
    + flag nv_ptimer_intr_0 h * 2 ^ 20

raised_lt : (h : History) (a : ℕ) → raised h < 2 ^ 32
raised_lt h a =
    omega (arith, flag_lt nv_pfifo_intr_0 h, flag_lt nv_pgraph_intr h, flag_lt nv_ptimer_intr_0 h)

abbrev alarmed : Device
alarmed = record {
  loads = λ h a. raised h;
  ports = ram.ports;
  loads_word = raised_lt;
  ports_word = ram.ports_word;
}

raised_bits :
    (h : History)
    → (bit 8 (raised h) ≡ flag nv_pfifo_intr_0 h)
      × (bit 12 (raised h) ≡ flag nv_pgraph_intr h)
      × (bit 20 (raised h) ≡ flag nv_ptimer_intr_0 h)
raised_bits h =
    omega (arith, flag_lt nv_pfifo_intr_0 h, flag_lt nv_pgraph_intr h, flag_lt nv_ptimer_intr_0 h)

alarmed-pfifo : IsSource running.regs alarmed 8 nv_pfifo_intr_0
alarmed-pfifo = record {
  cleared = λ h. (raised_bits (store nv_pfifo_intr_0 0xFFFF_FFFF ∷ h)).0;
  lowers =
      λ e h. omega (arith, raised_bits (e ∷ h), raised_bits h, flag_lowers nv_pfifo_intr_0 e h);
}

alarmed-pgraph : IsSource running.regs alarmed 12 nv_pgraph_intr
alarmed-pgraph = record {
  cleared = λ h. (raised_bits (store nv_pgraph_intr 0xFFFF_FFFF ∷ h)).1;
  lowers = λ e h. omega (arith, raised_bits (e ∷ h), raised_bits h, flag_lowers nv_pgraph_intr e h);
}

alarmed-ptimer : IsSource running.regs alarmed 20 nv_ptimer_intr_0
alarmed-ptimer = record {
  cleared = λ h. (raised_bits (store nv_ptimer_intr_0 0xFFFF_FFFF ∷ h)).2;
  lowers =
      λ e h. omega (arith, raised_bits (e ∷ h), raised_bits h, flag_lowers nv_ptimer_intr_0 e h);
}

handle_interrupt-quiet_example :
    let h' = (handle_interrupt running alarmed []).1 in
    ((enable_interrupts running.regs alarmed []).1
      ≡ store (running.regs.bar0 + nv_pmc_intr_en_0) (2 ^ 8 + 2 ^ 12 + 2 ^ 20) ∷ [])
    × (bit 8 (alarmed.loads h' (running.regs.bar0 + nv_pmc_intr_0)) ≡ 0)
    × (bit 12 (alarmed.loads h' (running.regs.bar0 + nv_pmc_intr_0)) ≡ 0)
    × (bit 20 (alarmed.loads h' (running.regs.bar0 + nv_pmc_intr_0)) ≡ 0)
    × ((handle_interrupt running alarmed h').1 ≡ load (running.regs.bar0 + nv_pmc_intr_0) ∷ h')
handle_interrupt-quiet_example =
    handle_interrupt-quiet running alarmed [] alarmed-pfifo alarmed-pgraph alarmed-ptimer

-- what its slots hold
abbrev slots : ℕ → ℕ → ℕ → ℕ
slots bus device register = space (config_address bus device 0 register)

one_card-IsConfiguration : IsConfiguration one_card slots
unfolding pci_config_read32
one_card-IsConfiguration = record {
  vendor = λ bus device h b e. refl;
  class = λ bus device h b e. refl;
}

scan_for_nvidia_gpu-IsFirst_example : IsFirst slots 0 (256 * 32) (scan_for_nvidia_gpu one_card []).0
scan_for_nvidia_gpu-IsFirst_example =
    scan_for_nvidia_gpu-IsFirst one_card slots [] one_card-IsConfiguration

init_lem_example :
    (((init one_card []).0 ≡ none) × IsEmpty slots 0 (256 * 32))
    ⊎ ((g : GpuDevice) × ((init one_card []).0 ≡ some g) × IsDeviceOf slots g)
init_lem_example = init_lem one_card slots [] one_card-IsConfiguration
