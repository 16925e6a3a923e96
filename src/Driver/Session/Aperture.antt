-- ===== src/Driver/Session/Aperture.antt =====
-- What a client of a `GpuDevice` (src/driver.rs) reaches of its blocks through the card's aperture.
use gpu_compute_nostd.Base.{
  ℕ, ◌+◌, ◌^◌, ◌<◌, ◌≡◌, refl, sym, ap, subst, ◌∙◌, none, some, [], All, Option-cases, inl, inr,
}
use mathlib.Core.Path.{ap₂}
use mathlib.Core.Option.{some-injective, none-ne-some}
use gpu_compute_nostd.Hardware.{Device, History}
use gpu_compute_nostd.Pci.Bar.Probe.{aperture, BarSpace, told}
use gpu_compute_nostd.Pci.Scan.{GpuPciDevice, scan_for_nvidia_gpu}
use gpu_compute_nostd.Pci.Scan.Card.{scan_for_nvidia_gpu-windows}
use gpu_compute_nostd.Memory.{map_to_cpu}
use gpu_compute_nostd.Memory.Detect.{init_from}
use gpu_compute_nostd.Memory.Sequence.{init_from-IsValid}
use gpu_compute_nostd.Memory.Aperture.{IsShown, IsShown-IsInvariant, IsShown-shown_at, shown_at}
use gpu_compute_nostd.Fifo.Channel.{Channel}
use gpu_compute_nostd.Driver.{GpuDevice, init, init_device}
use gpu_compute_nostd.Driver.Start.{init_device-pci}
use gpu_compute_nostd.Driver.Session.{Session, Reach, opened}
use gpu_compute_nostd.Driver.Session.Demand.{owned}
use gpu_compute_nostd.Driver.Session.Opened.{Reach_kept}

-- `map_to_cpu` gives each block of the session its place behind this aperture, or none.
abbrev pub AreShown : ℕ × ℕ → Session → Type 0
AreShown w s = All (λ a. (map_to_cpu s.vram a).0 ≡ shown_at w a) (owned s)

-- what the scan takes for the aperture
abbrev bar1_of : GpuPciDevice → ℕ × ℕ
bar1_of pci = (pci.bar1_base, pci.bar1_size)

init_from-IsShown :
    (w : ℕ × ℕ) (fits : w.0 + w.1 < 2 ^ 64) (cfg0 size_reg nparts : ℕ)
    → IsShown w (init_from cfg0 size_reg nparts w.0 w.1) []
unfolding init_from
init_from-IsShown w fits cfg0 size_reg nparts = record {
  top = _;
  valid = init_from-IsValid cfg0 size_reg nparts w.0 w.1;
  base = refl;
  size = refl;
  mapping = tt;
}

init_device-AreShown :
    (pci : GpuPciDevice) (d : Device) (h : History) {ch : Channel} {s : Session} {h' : History}
    → pci.bar1_base + pci.bar1_size < 2 ^ 64
    → let (g, h1) = init_device pci d h in
      g.compute_channel ≡ some ch
      → Reach g.regs d (opened g ch) h1 s h'
      → AreShown (pci.bar1_base, pci.bar1_size) s
init_device-AreShown pci d h {ch} {s} fits e r =
    let w : ℕ × ℕ = (pci.bar1_base, pci.bar1_size) in
    let shown =
      Reach_kept (IsShown w) (IsShown-IsInvariant w fits) pci d h (init_from-IsShown w fits) e r in
    IsShown-shown_at w fits shown.top s.vram (owned s) shown.valid.word shown.base shown.size
      shown.valid.held shown.mapping

-- what `init` returns when the scan has found a card, and when it has not
init_nothing : (d : Device) (h : History) → (scan_for_nvidia_gpu d h).0 ≡ none → (init d h).0 ≡ none
unfolding init
init_nothing d h nothing = rw (nothing, init) refl

init_found :
    (d : Device) (h : History) {pci : GpuPciDevice} {g : GpuDevice}
    → (scan_for_nvidia_gpu d h).0 ≡ some pci
    → (init d h).0 ≡ some g
    → init_device pci d (scan_for_nvidia_gpu d h).1 ≡ (g, (init d h).1)
unfolding init
init_found d h {pci} {g} found e =
    let t : GpuDevice × History = init_device pci d (scan_for_nvidia_gpu d h).1 in
    let whole : init d h ≡ (some t.0, t.1) = rw (found, init) refl in
    ap₂ (λ x y. (x, y)) (some-injective t.0 g (sym (ap (λ r. r.0) whole) ∙ e))
      (sym (ap (λ r. r.1) whole))

-- In a session on a device that `init` returns with a channel, on a card whose BARs are 64-bit ones:
-- after whatever calls, `map_to_cpu` maps a block that was handed out exactly if the card's aperture
-- shows all of it, and then at the block's place behind the base of the card's second window; an
-- aperture of 4 GiB or more it takes for one of size 0. This is while GPU addresses last, a
-- submission has less than 2 GiB, a dispatch less than 2^24 constant buffers, channel numbers are
-- below 2^16, and if the aperture fits the CPU's addresses.
pub init-AreShown :
    (d : Device) (h : History) {g : GpuDevice} {ch : Channel} {s : Session} {h' : History}
    → (init d h).0 ≡ some g
    → (b : BarSpace d g.pci.bus g.pci.device) → b.base aperture h + told b aperture < 2 ^ 64
    → g.compute_channel ≡ some ch
    → Reach g.regs d (opened g ch) (init d h).1 s h'
    → AreShown (b.base aperture h, told b aperture) s
init-AreShown d h {g} {ch} {s} {h'} e b fits has r =
    elim (Option-cases (scan_for_nvidia_gpu d h).0) [
      | inl nothing ↦ absurd (none-ne-some g (sym (init_nothing d h nothing) ∙ e))
      | inr (pci, found) ↦
          let same = init_found d h found e in
          let card : pci ≡ g.pci =
            sym (init_device-pci pci d (scan_for_nvidia_gpu d h).1) ∙ ap (λ t. t.0.pci) same in
          let taken = (scan_for_nvidia_gpu-windows d h (found ∙ ap some card) b).0 in
          let window : bar1_of pci ≡ (b.base aperture h, told b aperture) =
            ap bar1_of card ∙ ap₂ {C = ℕ × ℕ} (λ x y. (x, y)) taken.2 taken.3 in
          let room = subst (λ w. w.0 + w.1 < 2 ^ 64) (sym window) fits in
          let here =
            subst
              (λ (t : GpuDevice × History).
                t.0.compute_channel ≡ some ch
                → Reach t.0.regs d (opened t.0 ch) t.1 s h'
                → AreShown (bar1_of pci) s)
              same (init_device-AreShown pci d (scan_for_nvidia_gpu d h).1 room) in
          subst (λ w. AreShown w s) window (here has r)
    ]
