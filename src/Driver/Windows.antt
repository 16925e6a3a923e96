-- ===== src/Driver/Windows.antt =====
-- Where the device that `GpuDevice::init` (src/driver.rs) returns takes its registers and its VRAM
-- aperture to be.
use gpu_compute_nostd.Base.{ℕ, ◌*◌, ◌≡◌, refl, ap, sym, ◌∙◌, some, Option-cases, inl, inr}
use mathlib.Core.Option.{some-injective, none-ne-some}
use gpu_compute_nostd.Hardware.{Device, History}
use gpu_compute_nostd.Memory.{VramAllocator, allocate, first_fit, align_page}
use gpu_compute_nostd.Memory.Detect.{detect_and_init, init_from}
use gpu_compute_nostd.Fifo.Channel.{
  allocate_channel, default_gpfifo_entries, default_push_buffer_size,
}
use gpu_compute_nostd.Mmio.{new}
use gpu_compute_nostd.Pci.Bar.Probe.{registers, aperture, BarSpace, told}
use gpu_compute_nostd.Pci.Scan.{GpuPciDevice, scan_for_nvidia_gpu}
use gpu_compute_nostd.Pci.Scan.Card.{scan_for_nvidia_gpu-windows}
use gpu_compute_nostd.Driver.{GpuDevice, init, init_device}

-- the part of the allocator that says where the aperture is
abbrev window_of : VramAllocator → ℕ × ℕ
window_of v = (v.bar1_cpu_base, v.bar1_size)

allocate-window_of : (v : VramAllocator) (n : ℕ) → window_of (allocate v n).1 ≡ window_of v
unfolding allocate
allocate-window_of v n = elim (Option-cases (first_fit v.free_list (align_page n))) [
  | inl full ↦ rw (full, allocate) refl
  | inr (fit, found) ↦ rw (found, allocate) refl
]

allocate_channel-window_of :
    (v : VramAllocator) (id engine : ℕ) → window_of (allocate_channel v id engine).1 ≡ window_of v
unfolding allocate_channel
allocate_channel-window_of v id engine =
    let v1 : VramAllocator = (allocate v (default_gpfifo_entries * 8)).1 in
    let first = allocate-window_of v (default_gpfifo_entries * 8) in
    let second = allocate-window_of v1 default_push_buffer_size in
    elim (Option-cases (allocate v (default_gpfifo_entries * 8)).0) [
      | inl none1 ↦ rw (none1, allocate_channel) first
      | inr (a, some1) ↦ elim (Option-cases (allocate v1 default_push_buffer_size).0) [
        | inl none2 ↦ rw (some1, none2, allocate_channel) (second ∙ first)
        | inr (b, some2) ↦ rw (some1, some2, allocate_channel) (second ∙ first)
      ]
    ]

init_device-places :
    (pci : GpuPciDevice) (d : Device) (h : History)
    → let g = (init_device pci d h).0 in
      (g.pci ≡ pci)
      × (g.regs.bar0 ≡ pci.bar0_base)
      × (window_of g.vram ≡ (pci.bar1_base, pci.bar1_size))
unfolding init_device detect_and_init init_from new
init_device-places pci d h = (refl, refl, allocate_channel-window_of _ 0 0)

-- A device that `init` returns drives the registers at the base of its card's register window, and
-- its allocator takes the VRAM aperture to be at the base of the card's second window and of its size,
-- or of size 0 if it has 4 GiB or more: for a card whose BARs are 64-bit ones.
pub init-windows :
    (d : Device) (h : History) {g : GpuDevice}
    → (init d h).0 ≡ some g
    → (s : BarSpace d g.pci.bus g.pci.device)
    → (g.regs.bar0 ≡ s.base registers h)
      × (g.vram.bar1_cpu_base ≡ s.base aperture h)
      × (g.vram.bar1_size ≡ told s aperture)
unfolding init
init-windows d h {g} e s =
    let h1 : History = (scan_for_nvidia_gpu d h).1 in
    elim (Option-cases (scan_for_nvidia_gpu d h).0) [
      | inl nothing ↦ absurd (none-ne-some g ((rw (nothing, init) refl) ∙ e))
      | inr (pci, found) ↦
          let ready : (init d h).0 ≡ some (init_device pci d h1).0 = rw (found, init) refl in
          let same : (init_device pci d h1).0 ≡ g = some-injective _ _ (sym ready ∙ e) in
          let (p, b, w) = init_device-places pci d h1 in
          let of_init : (A : Type 0) (f : GpuDevice → A) → f g ≡ f (init_device pci d h1).0 =
            λ A f. ap f (sym same) in
          let card : g.pci ≡ pci = of_init _ (λ t. t.pci) ∙ p in
          let taken = scan_for_nvidia_gpu-windows d h (found ∙ ap some (sym card)) s in
          let window : window_of g.vram ≡ (g.pci.bar1_base, g.pci.bar1_size) =
            of_init _ (λ t. window_of t.vram)
            ∙ w
            ∙ ap (λ (t : GpuPciDevice). (t.bar1_base, t.bar1_size)) (sym card) in
          (
            of_init _ (λ t. t.regs.bar0)
                ∙ b
                ∙ ap (λ (t : GpuPciDevice). t.bar0_base) (sym card)
                ∙ taken.0.0,
            ap (λ t. t.0) window ∙ taken.0.2,
            ap (λ t. t.1) window ∙ taken.0.3,
          )
    ]
