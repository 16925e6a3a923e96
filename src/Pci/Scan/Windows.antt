-- ===== src/Pci/Scan/Windows.antt =====
-- The windows of a card that `scan_for_nvidia_gpu` (src/pci_config.rs) takes down.
use gpu_compute_nostd.Base.{ℕ, ◌≡◌, refl, sym, ap, ◌∙◌, arith, bit_and, ◌==◌, true}
use gpu_compute_nostd.Base.Bits.{bit_and_field}
use gpu_compute_nostd.Hardware.{Device, History}
use gpu_compute_nostd.Pci.Config.{
  config_address, pci_config_read32, pci_bar0, pci_bar1, pci_bar2, pci_bar3, pci_bar4, pci_bar5,
}
use gpu_compute_nostd.Pci.Config.Halves.{config_word}
use gpu_compute_nostd.Pci.Bar.{probe_bar_size, decode_bar64}
use gpu_compute_nostd.Pci.Bar.Probe.{
  Window, registers, aperture, io, lo, hi, BarSpace, told, probe_of, read_of, probe_of-base,
  probe_bar_size-probe_of, decode_bar64-window, base_sixteen,
}
use gpu_compute_nostd.Pci.Scan.{Bars, read_bars}

module _ {bus device : ℕ} {d : Device} (s : BarSpace d bus device) where
  wide_test :
      (b : Window) (h : History)
      → (bit_and (config_word d (config_address bus device 0 (lo b)) h) 0x06 == 0x04) ≡ true
  wide_test b h =
      let (f, wide, mem) = s.is_memory64 b in
      let word : ℕ = config_word d (config_address bus device 0 (lo b)) h in
      let field : bit_and word 0x06 ≡ 4 =
        bit_and_field 1 2 word ∙ omega (arith, s.low_word b h, base_sixteen s b h, f, wide) in
      ground (arith, field)

  -- the accesses up to each probe, and after the last
  abbrev before_registers : History → History
  before_registers h =
      read_of s pci_bar3 (read_of s pci_bar2 (read_of s pci_bar1 (read_of s pci_bar0 h)))

  abbrev before_aperture : History → History
  before_aperture h = read_of s pci_bar3 (probe_of s registers (before_registers h))

  abbrev before_io : History → History
  before_io h = read_of s pci_bar5 (read_of s pci_bar4 (probe_of s aperture (before_aperture h)))

  abbrev pub bars_of : History → Bars
  bars_of h = record {
    bar0_base = s.base registers h;
    bar0_size = told s registers;
    bar1_base = s.base aperture h;
    bar1_size = told s aperture;
    bar2_base = s.base io h;
    bar2_size = told s io;
  }

  -- the base of each window is the same all along
  before_aperture-base : (b : Window) (h : History) → s.base b (before_aperture h) ≡ s.base b h
  before_aperture-base b h =
      s.read_keeps b _ _
      ∙ probe_of-base s b registers _
      ∙ s.read_keeps b _ _
      ∙ s.read_keeps b _ _
      ∙ s.read_keeps b _ _
      ∙ s.read_keeps b _ h

  after_aperture-base :
      (b : Window) (h : History) → s.base b (probe_of s aperture (before_aperture h)) ≡ s.base b h
  after_aperture-base b h = probe_of-base s b aperture _ ∙ before_aperture-base b h

  pub scanned-base :
      (b : Window) (h : History) → s.base b (probe_of s io (before_io h)) ≡ s.base b h
  scanned-base b h =
      probe_of-base s b io _ ∙ s.read_keeps b _ _ ∙ s.read_keeps b _ _ ∙ after_aperture-base b h

  decoded :
      (b : Window) (h h0 h1 : History)
      → s.base b h0 ≡ s.base b h
      → s.base b h1 ≡ s.base b h
      → decode_bar64
          (config_word d (config_address bus device 0 (lo b)) h0)
          (config_word d (config_address bus device 0 (hi b)) h1)
        ≡ (s.base b h, true)
  decoded b h h0 h1 e0 e1 = decode_bar64-window s b h0 h1 (e1 ∙ sym e0) ∙ ap (λ t. (t, true)) e0

  read_bars_cases :
      (h : History) → read_bars bus device d h ≡ (bars_of h, probe_of s io (before_io h))
  unfolding read_bars pci_config_read32
  read_bars_cases h =
      let p0 : probe_bar_size bus device 0 0x10 d (before_registers h)
          ≡ (told s registers, probe_of s registers (before_registers h)) =
        probe_bar_size-probe_of s registers (before_registers h) in
      let p1 : probe_bar_size bus device 0 0x18 d (before_aperture h)
          ≡ (told s aperture, probe_of s aperture (before_aperture h)) =
        probe_bar_size-probe_of s aperture (before_aperture h) in
      let p2 : probe_bar_size bus device 0 0x20 d (before_io h)
          ≡ (told s io, probe_of s io (before_io h)) =
        probe_bar_size-probe_of s io (before_io h) in
      let h1 = read_of s pci_bar0 h in
      let h2 = read_of s pci_bar1 h1 in
      let h5 = probe_of s registers (before_registers h) in
      let h7 = probe_of s aperture (before_aperture h) in
      let d0 = decoded registers h h h1 refl (s.read_keeps registers _ h) in
      let d1 =
        decoded aperture h h2 h5 (s.read_keeps aperture _ h1 ∙ s.read_keeps aperture _ h)
          (sym (s.read_keeps aperture _ h5) ∙ before_aperture-base aperture h) in
      let d2 =
        decoded io h h7 (read_of s pci_bar4 h7) (after_aperture-base io h)
          (s.read_keeps io _ h7 ∙ after_aperture-base io h) in
      rw (wide_test registers h, p0, p1, p2, d0, d1, d2) refl

  -- On a card with 64-bit BARs the scan takes down the base of each of the three windows and its size,
  -- with 0 for a window of 4 GiB or more; and each base is afterwards what it was, also though the
  -- probes write to the registers.
  pub read_bars_lem :
      (h : History)
      → let (bars, h') = read_bars bus device d h in
        (bars.bar0_base ≡ s.base registers h)
        × (bars.bar0_size ≡ told s registers)
        × (bars.bar1_base ≡ s.base aperture h)
        × (bars.bar1_size ≡ told s aperture)
        × (bars.bar2_base ≡ s.base io h)
        × (bars.bar2_size ≡ told s io)
        × ((b : Window) → s.base b h' ≡ s.base b h)
  read_bars_lem h =
      rw (read_bars_cases h) (refl, refl, refl, refl, refl, refl, λ b. scanned-base b h)
