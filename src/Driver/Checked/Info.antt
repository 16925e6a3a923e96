-- ===== src/Driver/Checked/Info.antt =====
-- `GpuDevice::init` with its scan, and `query_info` after it (src/driver.rs), in a build with overflow
-- checks.
use gpu_compute_nostd.Base.{
  ◌*◌, ◌≡◌, inl, inr, refl, sym, ap, ◌∙◌, subst, Option, none, some, arith, Option-cases,
}
use gpu_compute_nostd.Base.Checked.{Run, done, ◌>>=◌, Agrees-done, >>=_after, >>=-done, done_inj}
use gpu_compute_nostd.Hardware.{Device, History}
use gpu_compute_nostd.Pci.Scan.{GpuPciDevice, scan_for_nvidia_gpu}
use gpu_compute_nostd.Memory.Laws.{some_pair}
use gpu_compute_nostd.Driver.{GpuDevice, sms_per_tpc, init_device, init, query_info}
use gpu_compute_nostd.Driver.Checked.{
  sm_count_checked, init_device_checked, init_checked, query_info_checked,
}
use gpu_compute_nostd.Driver.Checked.Init.{
  HasCountableSms, sms-cases, sm_count_exact, init_device_done, init_device-Agrees,
}

init_device_started :
    (pci : GpuPciDevice) (d : Device) (h : History) {r : GpuDevice × History}
    → init_device_checked pci d h ≡ done r
    → (r ≡ init_device pci d h) × HasCountableSms r.0.pci.family r.0.gpc_count r.0.tpc_per_gpc
unfolding init_device
init_device_started pci d h {r} e =
    let same = Agrees-done (init_device pci d h) (init_device-Agrees pci d h) e in
    (
      same,
      subst (λ x. HasCountableSms x.0.pci.family x.0.gpc_count x.0.tpc_per_gpc) (sym same)
          (init_device_done pci d h e),
    )

query_info_exact :
    (g : GpuDevice)
    → HasCountableSms g.pci.family g.gpc_count g.tpc_per_gpc
    → (query_info_checked g ≡ done (query_info g))
      × ((query_info g).sm_count ≡ g.gpc_count * g.tpc_per_gpc * sms_per_tpc g.pci.family)
unfolding query_info_checked query_info
query_info_exact g fits = (
  >>=_after (sm_count_checked g.gpc_count g.tpc_per_gpc g.pci.family) _ _ _
      (sm_count_exact g.gpc_count g.tpc_per_gpc g.pci.family fits) refl,
  ground (arith, fits, sms-cases g.pci.family),
)

-- what `init` does with the result of the scan, with and without the checks
abbrev started_checked : Option GpuPciDevice → Device → History → Run (Option GpuDevice × History)
started_checked none d h = done (none, h)
started_checked (some pci) d h = init_device_checked pci d h >>= λ g. done (some g.0, g.1)

abbrev started : Option GpuPciDevice → Device → History → Option GpuDevice × History
started none d h = (none, h)
started (some pci) d h = let (g, h') = init_device pci d h in (some g, h')

started-done :
    (found : Option GpuPciDevice) (d : Device) (h : History) {g : GpuDevice} {h' : History}
    → started_checked found d h ≡ done (some g, h')
    → (started found d h ≡ (some g, h')) × HasCountableSms g.pci.family g.gpc_count g.tpc_per_gpc
started-done none d h {g} {h'} e = absurd (ground (arith, done_inj e))
started-done (some pci) d h {g} {h'} e =
    let (r, made, rest) = >>=-done (init_device_checked pci d h) e in
    let (same, fits) = init_device_started pci d h made in
    let pair : ◌≡◌ {A = Option GpuDevice × History} (some r.0, r.1) (some g, h') = done_inj rest in
    let (device, history) = some_pair pair in
    (
      ap (λ x. (some x.0, x.1)) (sym same) ∙ pair,
      subst (λ x. HasCountableSms x.pci.family x.gpc_count x.tpc_per_gpc) device fits,
    )

init_checked_lem :
    (d : Device) (h : History)
    → let (found, h1) = scan_for_nvidia_gpu d h in
      (init_checked d h ≡ started_checked found d h1) × (init d h ≡ started found d h1)
unfolding init_checked init
init_checked_lem d h = elim (Option-cases (scan_for_nvidia_gpu d h).0) [
  | inl missing ↦ rw (missing, init_checked, init) (refl, refl)
  | inr (pci, found) ↦ rw (found, init_checked, init) (refl, refl)
]

-- If a checked initialization returns a device, it is the one of the unchecked initialization, and
-- querying its info does not panic either: it is what it is without the checks, and the number of
-- streaming multiprocessors in it is the exact product.
pub init_checked-query_info :
    (d : Device) (h : History) {g : GpuDevice} {h' : History}
    → init_checked d h ≡ done (some g, h')
    → (init d h ≡ (some g, h'))
      × (query_info_checked g ≡ done (query_info g))
      × ((query_info g).sm_count ≡ g.gpc_count * g.tpc_per_gpc * sms_per_tpc g.pci.family)
init_checked-query_info d h {g} {h'} e =
    let (found, h1) = scan_for_nvidia_gpu d h in
    let (checked, plain) = init_checked_lem d h in
    let (same, fits) = started-done found d h1 (sym checked ∙ e) in
    let info = query_info_exact g fits in (plain ∙ same, info.0, info.1)
