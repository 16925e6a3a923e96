-- ===== src/Driver/Start.antt =====
-- `GpuDevice::init` of src/driver.rs as a whole: the scan and what it sets up on the card found.
use gpu_compute_nostd.Base.{
  ℕ, ◌*◌, ◌≡◌, ◌≢◌, ◌↔◌, ◌⊎◌, refl, subst, true, false, none, some, Option-cases, inl, inr,
}
use gpu_compute_nostd.Hardware.{Device, History}
use gpu_compute_nostd.Pci.Family.{device_id_to_family}
use gpu_compute_nostd.Pci.Scan.{GpuPciDevice, scan_for_nvidia_gpu}
use gpu_compute_nostd.Pci.Scan.First.{
  IsConfiguration, IsEmpty, IsFirst, scan_for_nvidia_gpu-IsFirst,
}
use gpu_compute_nostd.Pci.Scan.Laws.{scan_for_nvidia_gpu_lem}
use gpu_compute_nostd.Driver.{GpuDevice, needs_gsp_rm, init_device, init}
use gpu_compute_nostd.Driver.Init.{init_device-ready}

-- The device is the one of the first card, with the ID that the card's registers show and the family
-- of that ID, and it is ready for compute exactly if the family does without GSP-RM firmware and a
-- channel could be opened.
pub record IsDeviceOf (space : ℕ → ℕ → ℕ → ℕ) (g : GpuDevice) : Type 0 where
  pub first : IsFirst space 0 (256 * 32) (some g.pci)
  pub family : g.pci.family ≡ device_id_to_family g.pci.device_id
  pub ready :
      (g.compute_ready ≡ true) ↔ ((needs_gsp_rm g.pci.family ≡ false) × (g.compute_channel ≢ none))

pub init_device-pci :
    (pci : GpuPciDevice) (d : Device) (h : History) → (init_device pci d h).0.pci ≡ pci
unfolding init_device
init_device-pci pci d h = refl

-- On a machine whose vendor and class registers read the same every time, `init` returns nothing
-- exactly if function 0 of no slot is an NVIDIA display controller or processing accelerator;
-- otherwise it returns the device of the first such card in the order of the buses, with the device ID
-- in the upper half of the card's first register and the family that this ID stands for, ready for
-- compute exactly if that family needs no GSP-RM firmware and a channel could be opened.
pub init_lem :
    (d : Device) (space : ℕ → ℕ → ℕ → ℕ) (h : History)
    → IsConfiguration d space
    → (((init d h).0 ≡ none) × IsEmpty space 0 (256 * 32))
      ⊎ ((g : GpuDevice) × ((init d h).0 ≡ some g) × IsDeviceOf space g)
unfolding init
init_lem d space h config =
    let scanned = scan_for_nvidia_gpu-IsFirst d space h config in
    let h1 : History = (scan_for_nvidia_gpu d h).1 in
    elim (Option-cases (scan_for_nvidia_gpu d h).0) [
      | inl nothing ↦
          inl (rw (nothing, init) refl, subst (IsFirst space 0 (256 * 32)) nothing scanned)
      | inr (pci, found) ↦
          let g : GpuDevice = (init_device pci d h1).0 in
          let same : g.pci ≡ pci = init_device-pci pci d h1 in
          inr (
            g,
            rw (found, init) refl,
            record {
              first = rw same (subst (IsFirst space 0 (256 * 32)) found scanned);
              family = rw same (scan_for_nvidia_gpu_lem d h found).2.family;
              ready = rw same (init_device-ready pci d h1);
            },
          )
    ]
