-- ===== src/Pci/Bar/Probe.antt =====
-- What the probing of base address registers in src/pci_config.rs finds on a card, and that it leaves
-- them as they were.
use gpu_compute_nostd.Base.{
  ℕ, ◌+◌, ◌-◌, ◌*◌, ◌/◌, ◌%◌, ◌^◌, ◌≤◌, ◌<◌, ◌≡◌, ◌⊎◌, ◌≢◌, sym, ap, ◌∙◌, ◌∷◌, arith, inl, inr, ltb,
  true, if◌then◌else◌,
}
use mathlib.Core.Path.{ap₂}
use native.Mathlib.Nat.{dvd_of_mod-eq-zero, mod-eq-zero_of_dvd, dvd_trans}
use gpu_compute_nostd.Hardware.{port_in, port_out, Device, History}
use gpu_compute_nostd.Pci.Config.{
  config_address, pci_config_read32, pci_config_write32, pci_bar0, pci_bar1, pci_bar2, pci_bar3,
  pci_bar4, pci_bar5,
}
use gpu_compute_nostd.Pci.Config.Halves.{config_word}
use gpu_compute_nostd.Pci.Bar.{decode_bar64, probe_bar_size, size_of_mask}
use gpu_compute_nostd.Pci.Bar.Granule.{
  granule, cut-add, cut-ones, granule_cases, granule-divides, low-aligned,
}
use gpu_compute_nostd.Pci.Bar.Laws.{read_back, size_of_mask-read_back, decode_bar64_base}

-- the three 64-bit BARs of a card whose BAR0 is a 64-bit one
pub data Window : Type 0 where
  registers aperture io : Window

-- the register with the low word of the base, and the one with the high word
abbrev pub lo : Window → ℕ
lo registers = pci_bar0
lo aperture = pci_bar2
lo io = pci_bar4

abbrev pub hi : Window → ℕ
hi registers = pci_bar1
hi aperture = pci_bar3
hi io = pci_bar5

-- The BARs of a function of a PCI device as the PCI specification has them: the low register is the
-- flags with the low word of the base, the high register is its high word. A write to the low
-- register changes the bits of the base that are not fixed by the size. No read of
-- configuration space changes a base, and neither does a write to a register that is no part of
-- it.
pub record BarSpace (d : Device) (bus device : ℕ) : Type 0 where
  pub size : Window → ℕ
  pub flags : Window → ℕ
  pub base : Window → History → ℕ
  pub size_bounds : (b : Window) → (16 < size b) × (size b ≤ 2 ^ 63)
  pub shape : (b : Window) → ((2 ^ 32 % size b ≡ 0) × (size b % 16 ≡ 0)) ⊎ (size b % 2 ^ 32 ≡ 0)
  pub is_memory64 : (b : Window) → (flags b < 16) × (flags b / 2 % 4 ≡ 2) × (flags b % 2 ≡ 0)
  pub base_bound : (b : Window) (h : History) → base b h < 2 ^ 64
  pub aligned : (b : Window) (h : History) → base b h % size b ≡ 0
  pub low_word :
      (b : Window) (h : History)
      → config_word d (config_address bus device 0 (lo b)) h ≡ base b h % 2 ^ 32 + flags b
  pub high_word :
      (b : Window) (h : History)
      → config_word d (config_address bus device 0 (hi b)) h ≡ base b h / 2 ^ 32
  pub read_keeps :
      (b : Window) (a : ℕ) (h : History) → base b (port_in 0xCFC ∷ port_out 0xCF8 a ∷ h) ≡ base b h
  pub written :
      (b : Window) (v : ℕ) (h : History)
      → v < 2 ^ 32
      → base b (port_out 0xCFC v ∷ port_out 0xCF8 (config_address bus device 0 (lo b)) ∷ h)
        ≡ base b h / 2 ^ 32 * 2 ^ 32 + v / granule (size b) * granule (size b)
  pub write_keeps :
      (b : Window) (register v : ℕ) (h : History)
      → register < 256
      → register / 4 ≢ lo b / 4
      → register / 4 ≢ hi b / 4
      → base b (port_out 0xCFC v ∷ port_out 0xCF8 (config_address bus device 0 register) ∷ h)
        ≡ base b h

module _ {bus device : ℕ} {d : Device} (s : BarSpace d bus device) where
  -- the history after a read, a write, and a probe of a register
  abbrev pub read_of : ℕ → History → History
  read_of register h = port_in 0xCFC ∷ port_out 0xCF8 (config_address bus device 0 register) ∷ h

  abbrev write_of : ℕ → ℕ → History → History
  write_of register v h =
      port_out 0xCFC v ∷ port_out 0xCF8 (config_address bus device 0 register) ∷ h

  abbrev pub probe_of : Window → History → History
  probe_of b h =
      write_of (lo b) (s.base b h % 2 ^ 32 + s.flags b)
        (read_of (lo b) (write_of (lo b) 0xFFFF_FFFF (read_of (lo b) h)))

  low_lt : (b : Window) (h : History) → s.base b h % 2 ^ 32 + s.flags b < 2 ^ 32
  low_lt b h = omega (
    arith,
    s.low_word b h,
    d.ports_word (port_out 0xCF8 (config_address bus device 0 (lo b)) ∷ h) 0xCFC,
  )

  -- the base between the two writes of a probe
  cleared :
      (b : Window) (h : History)
      → s.base b (read_of (lo b) (write_of (lo b) 0xFFFF_FFFF (read_of (lo b) h)))
        ≡ s.base b h / 2 ^ 32 * 2 ^ 32 + (2 ^ 32 - granule (s.size b))
  cleared b h =
      let g : ℕ = granule (s.size b) in
      let bounds = s.size_bounds b in
      s.read_keeps b _ _
      ∙ s.written b 0xFFFF_FFFF (read_of (lo b) h) (omega arith)
      ∙ ap (λ t. t / 2 ^ 32 * 2 ^ 32 + 0xFFFF_FFFF / g * g) (s.read_keeps b _ h)
      ∙ ap (λ t. s.base b h / 2 ^ 32 * 2 ^ 32 + t)
          (cut-ones g (ground (arith, bounds)) (ground arith)
            (granule-divides (s.size b) (s.shape b) bounds.0))

  probe_of-same : (b : Window) (h : History) → s.base b (probe_of b h) ≡ s.base b h
  probe_of-same b h =
      let g : ℕ = granule (s.size b) in
      let bounds = s.size_bounds b in
      let low : ℕ = s.base b h % 2 ^ 32 in
      let whole = low-aligned (s.size b) (s.base b h) (s.shape b) bounds.0 (s.aligned b h) in
      let cut : (low + s.flags b) / g * g ≡ low =
        cut-add low (s.flags b) g whole (ground (arith, bounds, (s.is_memory64 b).0)) in
      let pos : 0 < g = ground (arith, bounds) in
      s.written b (low + s.flags b) _ (low_lt b h)
      ∙ ap (λ t. t / 2 ^ 32 * 2 ^ 32 + (low + s.flags b) / g * g) (cleared b h)
      ∙ omega (arith, cut, pos)

  probe_of-other :
      (b c : Window) (h : History)
      → lo c < 256
      → lo c / 4 ≢ lo b / 4
      → lo c / 4 ≢ hi b / 4
      → s.base b (probe_of c h) ≡ s.base b h
  probe_of-other b c h byte low high =
      s.write_keeps b (lo c) _ _ byte low high
      ∙ s.read_keeps b _ _
      ∙ s.write_keeps b (lo c) _ _ byte low high
      ∙ s.read_keeps b _ h

  -- A probe leaves each base as it was.
  pub probe_of-base : (b c : Window) (h : History) → s.base b (probe_of c h) ≡ s.base b h
  probe_of-base registers registers h = probe_of-same registers h
  probe_of-base registers aperture h =
      probe_of-other registers aperture h (omega arith) (omega arith) (omega arith)
  probe_of-base registers io h =
      probe_of-other registers io h (omega arith) (omega arith) (omega arith)
  probe_of-base aperture registers h =
      probe_of-other aperture registers h (omega arith) (omega arith) (omega arith)
  probe_of-base aperture aperture h = probe_of-same aperture h
  probe_of-base aperture io h =
      probe_of-other aperture io h (omega arith) (omega arith) (omega arith)
  probe_of-base io registers h =
      probe_of-other io registers h (omega arith) (omega arith) (omega arith)
  probe_of-base io aperture h =
      probe_of-other io aperture h (omega arith) (omega arith) (omega arith)
  probe_of-base io io h = probe_of-same io h

  -- the size that a probe tells: 0 stands for 4 GiB and more
  abbrev pub told : Window → ℕ
  told b = if ltb (s.size b) (2 ^ 32) then s.size b else 0

  -- the word that the probe reads back
  probe_word :
      (b : Window) (h : History)
      → config_word d
          (config_address bus device 0 (lo b))
          (write_of (lo b) 0xFFFF_FFFF (read_of (lo b) h))
        ≡ read_back (s.size b) (s.flags b)
  probe_word b h =
      let bounds = s.size_bounds b in
      let base_then : s.base b (write_of (lo b) 0xFFFF_FFFF (read_of (lo b) h))
          ≡ s.base b h / 2 ^ 32 * 2 ^ 32 + (2 ^ 32 - granule (s.size b)) =
        sym (s.read_keeps b _ _) ∙ cleared b h in
      s.low_word b (write_of (lo b) 0xFFFF_FFFF (read_of (lo b) h))
      ∙ ap (λ t. t % 2 ^ 32 + s.flags b) base_then
      ∙ elim (granule_cases (s.size b) (s.shape b) bounds.0) [
        | inl (same, small, divides, whole) ↦ omega (arith, same, small, bounds)
        | inr (same, multiple, large) ↦ omega (arith, same, multiple, large, bounds)
      ]

  -- A probe tells the size of a window below 4 GiB, and 0 for a larger one.
  pub probe_bar_size-probe_of :
      (b : Window) (h : History) → probe_bar_size bus device 0 (lo b) d h ≡ (told b, probe_of b h)
  unfolding probe_bar_size pci_config_read32 pci_config_write32
  probe_bar_size-probe_of b h =
      let bounds = s.size_bounds b in
      let size_told : size_of_mask (read_back (s.size b) (s.flags b)) ≡ told b =
        size_of_mask-read_back (s.size b) (s.flags b) (s.is_memory64 b).0 bounds.0 bounds.1
          (elim (granule_cases (s.size b) (s.shape b) bounds.0) [
            | inl (same, small, divides, whole) ↦ inl (whole, small)
            | inr (same, multiple, large) ↦ inr multiple
          ]) in
      ap₂ (λ x y. (x, y)) (ap size_of_mask (probe_word b h) ∙ size_told)
        (ap
          (λ w. write_of (lo b) w (read_of (lo b) (write_of (lo b) 0xFFFF_FFFF (read_of (lo b) h))))
          (s.low_word b h))

  pub base_sixteen : (b : Window) (h : History) → s.base b h % 16 ≡ 0
  base_sixteen b h =
      let size_sixteen : s.size b % 16 ≡ 0 = ground (arith, s.shape b) in
      mod-eq-zero_of_dvd 16 (
        dvd_trans 16 (dvd_of_mod-eq-zero 16 size_sixteen)
          (dvd_of_mod-eq-zero (s.size b) (s.aligned b h)))

  -- The two registers of a window, read at any two times, decode to its base if that is the same
  -- at both.
  pub decode_bar64-window :
      (b : Window) (h h' : History)
      → s.base b h' ≡ s.base b h
      → decode_bar64
          (config_word d (config_address bus device 0 (lo b)) h)
          (config_word d (config_address bus device 0 (hi b)) h')
        ≡ (s.base b h, true)
  decode_bar64-window b h h' same =
      let (f, wide, mem) = s.is_memory64 b in
      ap₂ decode_bar64 (s.low_word b h) (s.high_word b h' ∙ ap (λ t. t / 2 ^ 32) same)
      ∙ decode_bar64_base (s.base b h) (s.flags b) (s.base_bound b h) (base_sixteen b h) f wide mem
