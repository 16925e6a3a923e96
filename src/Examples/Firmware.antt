-- ===== src/Examples/Firmware.antt =====
-- The theorems on src/falcon.rs at the PMU, on a device whose registers are memory.
use gpu_compute_nostd.Base.{
  ℕ, suc, ◌+◌, ◌*◌, ◌/◌, ◌%◌, ◌^◌, ◌<◌, ◌≡◌, ◌≢◌, ◌⊎◌, some, none, List, [], ◌∷◌, refl, length,
  arith, All, Bool, true, false, ◌==◌, ◌&&◌, if◌then◌else◌,
}
use gpu_compute_nostd.Hardware.{History, store, load, port_in, port_out}
use gpu_compute_nostd.Falcon
use gpu_compute_nostd.Falcon.{
  Falcon, pmu, upload_imem, upload_dmem, wait_ready, init_with_firmware, ready_iters, falcon_os,
  falcon_imemc, falcon_imemd, falcon_dmemc, falcon_dmemd, falcon_cpuctl, falcon_cpuctl_start,
  falcon_bootvec,
}
use gpu_compute_nostd.Falcon.Upload.{reg}
use gpu_compute_nostd.Falcon.Memory.{Port, peek, dump}
use gpu_compute_nostd.Falcon.Memory.Loads.{
  UnitPort, AfterImem, AfterDmem, upload_imem-dump, init_with_firmware-dump,
}
use gpu_compute_nostd.Falcon.Boot.{
  polls, AreZero, started, is_some, wait_ready_lem, init_with_firmware_lem,
}
use gpu_compute_nostd.Examples.Machines.{ram, board}

abbrev unit : Falcon
unit = Falcon.new pmu

abbrev code : List ℕ
code = 0x11 ∷ 0x22 ∷ 0x33 ∷ 0x44 ∷ 0x55 ∷ 0x66 ∷ 0x77 ∷ 0x88 ∷ []

-- the firmware has left a word in FALCON_OS
abbrev signalled : History
signalled = store (reg unit board falcon_os) 7 ∷ []

wait_ready_lem_example :
    let (r, h') = wait_ready unit board 5 ram signalled in
    ((k : ℕ) × (v : ℕ) × (k < 5)
      × AreZero unit board k ram signalled
      × (v ≢ 0)
      × (ram.loads (polls unit board k signalled) (reg unit board falcon_os) ≡ v)
      × (r ≡ some v)
      × (h' ≡ polls unit board (suc k) signalled))
    ⊎ (AreZero unit board 5 ram signalled × (r ≡ none) × (h' ≡ polls unit board 5 signalled))
wait_ready_lem_example = wait_ready_lem unit board 5 ram signalled

init_with_firmware_lem_example :
    let (r, h') =
      wait_ready unit board ready_iters ram (started unit board code [] ram signalled) in
    init_with_firmware unit board code [] ram signalled ≡ (some (is_some r), h')
init_with_firmware_lem_example = init_with_firmware_lem unit board code [] ram signalled

module _ (control port : ℕ) where
  -- the auto-increment of a memory behind two registers
  abbrev increments_of : History → Bool
  increments_of [] = false
  increments_of (store a v ∷ h) =
      let rest = increments_of h in if a == control then v / 2 ^ 25 % 2 == 1 else rest
  increments_of (load a ∷ h) = increments_of h
  increments_of (port_in p ∷ h) = increments_of h
  increments_of (port_out p v ∷ h) = increments_of h

  -- its place
  abbrev place_of : History → ℕ
  place_of [] = 0
  place_of (store a v ∷ h) =
      let rest = place_of h in
      if a == control
      then v / 4 % 2 ^ 14 * 64
      else if a == port && increments_of h
      then (rest + 1) % 2 ^ 20
      else rest
  place_of (load a ∷ h) = place_of h
  place_of (port_in p ∷ h) = place_of h
  place_of (port_out p v ∷ h) = place_of h

  -- its words
  abbrev cells_of : History → ℕ → ℕ
  cells_of [] i = 0
  cells_of (store a v ∷ h) i =
      let rest = cells_of h i in if a == port && i == place_of h then v else rest
  cells_of (load a ∷ h) i = cells_of h i
  cells_of (port_in p ∷ h) i = cells_of h i
  cells_of (port_out p v ∷ h) i = cells_of h i

  seek_of : (v : ℕ) (h : History) → place_of (store control v ∷ h) ≡ v / 4 % 2 ^ 14 * 64
  seek_of v h = ground arith

  mode_of : (v : ℕ) (h : History) → increments_of (store control v ∷ h) ≡ (v / 2 ^ 25 % 2 == 1)
  mode_of v h = ground arith

  mode_kept_of :
      control ≢ port → (w : ℕ) (h : History) → increments_of (store port w ∷ h) ≡ increments_of h
  mode_kept_of ne w h = ground arith

  here_of : (w : ℕ) (h : History) → cells_of (store port w ∷ h) (place_of h) ≡ w
  here_of w h = ground arith

  elsewhere_of :
      (w i : ℕ) (h : History) → i ≢ place_of h → cells_of (store port w ∷ h) i ≡ cells_of h i
  elsewhere_of w i h ne = ground arith

  next_of :
      control ≢ port
      → (w : ℕ) (h : History) → increments_of h ≡ true
      → place_of h + 1 < 2 ^ 14 * 64
      → place_of (store port w ∷ h) ≡ place_of h + 1
  next_of ne w h on room = ground arith

  cells_of-keeps : (a v i : ℕ) (h : History) → a ≢ port → cells_of (store a v ∷ h) i ≡ cells_of h i
  cells_of-keeps a v i h ne = ground arith

  abbrev memory :
      (Spared : ℕ → Type 0)
      → control ≢ port
      → ((a : ℕ) → Spared a → a ≢ port)
      → Port 64 control port Spared
  memory Spared ne far = record {
    cells = cells_of;
    place = place_of;
    increments = increments_of;
    seek = seek_of;
    mode = mode_of;
    mode_kept = mode_kept_of ne;
    here = here_of;
    elsewhere = elsewhere_of;
    next = next_of ne;
    control_keeps = λ v i h. cells_of-keeps control v i h ne;
    keeps = λ a v i h s. cells_of-keeps a v i h (far a s);
  }

imem_apart : reg unit board falcon_imemc ≢ reg unit board falcon_imemd
unfolding Falcon.new Falcon.base_offset
imem_apart = omega arith

imem_far : (a : ℕ) → AfterImem unit board a → a ≢ reg unit board falcon_imemd
unfolding Falcon.new Falcon.base_offset
imem_far a s = ground arith

dmem_apart : reg unit board falcon_dmemc ≢ reg unit board falcon_dmemd
unfolding Falcon.new Falcon.base_offset
dmem_apart = omega arith

dmem_far : (a : ℕ) → AfterDmem unit board a → a ≢ reg unit board falcon_dmemd
unfolding Falcon.new Falcon.base_offset
dmem_far a s = ground arith

abbrev imem : UnitPort unit board 64 falcon_imemc falcon_imemd (AfterImem unit board)
imem =
    memory (reg unit board falcon_imemc) (reg unit board falcon_imemd) (AfterImem unit board)
      imem_apart imem_far

abbrev dmem : UnitPort unit board 64 falcon_dmemc falcon_dmemd (AfterDmem unit board)
dmem =
    memory (reg unit board falcon_dmemc) (reg unit board falcon_dmemd) (AfterDmem unit board)
      dmem_apart dmem_far

small : All (λ b. b < 256) code
small = ground arith

init_with_firmware-dump_example :
    (before : History) × (init_with_firmware unit board code (9 ∷ 8 ∷ 7 ∷ 6 ∷ []) ram signalled ≡ (
      let (r, h') =
        wait_ready unit board ready_iters ram
          (store (reg unit board falcon_cpuctl) falcon_cpuctl_start ∷ before) in
      (some (is_some r), h')))
    × (dump (imem.cells before) 0 2 ≡ code)
    × (dump (dmem.cells before) 0 1 ≡ 9 ∷ 8 ∷ 7 ∷ 6 ∷ [])
init_with_firmware-dump_example =
    init_with_firmware-dump unit board imem dmem code (9 ∷ 8 ∷ 7 ∷ 6 ∷ []) ram signalled refl small
      (omega arith) refl (ground arith) (omega arith)

-- at the second block of an IMEM whose offsets count blocks of 256 bytes
upload_imem-dump_example :
    let h' = (upload_imem unit board code 4 ram []).1 in
    let p = 4 / 4 % 2 ^ 14 * 64 in
    let n = length code / 4 in
    (peek (imem.cells h') 0 p ≡ peek (imem.cells []) 0 p)
    × (dump (imem.cells h') p n ≡ code)
    × (peek (imem.cells h') (p + n) 3 ≡ peek (imem.cells []) (p + n) 3)
upload_imem-dump_example = upload_imem-dump unit board imem code 4 3 ram [] refl small (omega arith)
