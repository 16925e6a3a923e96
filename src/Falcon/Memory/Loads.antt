-- ===== src/Falcon/Memory/Loads.antt =====
-- The uploads and the start-up of src/falcon.rs, at the memories behind the unit's ports.
use gpu_compute_nostd.Base.{
  ℕ, ◌+◌, ◌*◌, ◌/◌, ◌%◌, ◌^◌, ◌≤◌, ◌<◌, ◌≡◌, ◌⊎◌, refl, ap, ◌∙◌, false, some, List, [], ◌∷◌, arith,
  All, length, inl, inr, ◌!=◌, if◌then◌else◌, is_empty, Bool-cases,
}
use gpu_compute_nostd.Hardware.{store, Device, History}
use gpu_compute_nostd.Mmio.{GpuRegs}
use gpu_compute_nostd.Falcon.{
  Falcon, upload_imem, init_with_firmware, wait_ready, ready_iters, falcon_imemc, falcon_imemd,
  falcon_dmemc, falcon_dmemd, falcon_bootvec, falcon_cpuctl, falcon_cpuctl_start,
}
use gpu_compute_nostd.Falcon.Upload.{reg, words, upload_imem_lem}
use gpu_compute_nostd.Falcon.Boot.{quiesced, sent, is_some, init_with_firmware_lem}
use gpu_compute_nostd.Falcon.Memory.{Port, peek, dump, dump_ext, loaded, stores-Spared}

-- Firmware of whole words that fits from the offset on stands in IMEM after its upload, byte by byte
-- and in order, at the place that bits 2 to 15 of the offset stand for; the words before and behind it
-- are as they were. This is for an IMEM that increments as the code's comments say, whatever number
-- of words those bits count by.
pub upload_imem-dump :
    (f : Falcon) (regs : GpuRegs) {step : ℕ} {Spared : ℕ → Type 0}
    (m : Port step (reg f regs falcon_imemc) (reg f regs falcon_imemd) Spared) (firmware : List ℕ)
    (offset k : ℕ) (d : Device) (h : History)
    → length firmware % 4 ≡ 0
    → All (λ b. b < 256) firmware
    → offset / 4 % 2 ^ 14 * step + length firmware / 4 ≤ 2 ^ 14 * step
    → let h' = (upload_imem f regs firmware offset d h).1 in
      let p = offset / 4 % 2 ^ 14 * step in
      let n = length firmware / 4 in
      (peek (m.cells h') 0 p ≡ peek (m.cells h) 0 p)
      × (dump (m.cells h') p n ≡ firmware)
      × (peek (m.cells h') (p + n) k ≡ peek (m.cells h) (p + n) k)
upload_imem-dump f regs {step} m firmware offset k d h whole small room =
    elim (upload_imem_lem f regs firmware offset d h).1 [
      | inr (odd, same) ↦ absurd (odd whole)
      | inl (even, sent_all) ↦ rw sent_all (
          loaded m firmware h (2 ^ 25 + offset / 4 % 2 ^ 14 * 4) (offset / 4 % 2 ^ 14 * step)
            (length firmware / 4) k (ap (λ t. t * step) (omega arith)) (omega arith) refl room whole
            small)
    ]

module _ (f : Falcon) (regs : GpuRegs) where
  -- a memory behind two registers of the unit
  abbrev pub UnitPort : ℕ → ℕ → ℕ → (ℕ → Type 0) → Type 0
  UnitPort step control port Spared = Port step (reg f regs control) (reg f regs port) Spared

  -- the registers written between the upload to IMEM, or to DMEM, and the start
  abbrev pub AfterImem : ℕ → Type 0
  AfterImem a =
      (a ≡ reg f regs falcon_dmemc)
      ⊎ (a ≡ reg f regs falcon_dmemd)
      ⊎ (a ≡ reg f regs falcon_bootvec)

  abbrev pub AfterDmem : ℕ → Type 0
  AfterDmem a = a ≡ reg f regs falcon_bootvec

  sent-dump :
      (control port : ℕ) {step : ℕ} {Spared : ℕ → Type 0} (m : UnitPort step control port Spared)
      (bytes : List ℕ) (h : History)
      → length bytes % 4 ≡ 0
      → All (λ b. b < 256) bytes
      → length bytes / 4 ≤ 2 ^ 14 * step
      → dump (m.cells (sent f regs control port bytes h)) 0 (length bytes / 4) ≡ bytes
  sent-dump control port m bytes h whole small room =
      let test : (length bytes % 4 != 0) ≡ false = ground (arith, whole) in
      rw test
        (loaded m bytes h (2 ^ 25) 0 (length bytes / 4) 0 (omega arith) refl refl (omega arith)
          whole small).1

  sent-Spared :
      (control port : ℕ) {step c p : ℕ} {Spared : ℕ → Type 0} (m : Port step c p Spared)
      (bytes : List ℕ) (h : History) (i : ℕ)
      → Spared (reg f regs control)
      → Spared (reg f regs port)
      → m.cells (sent f regs control port bytes h) i ≡ m.cells h i
  sent-Spared control port m bytes h i far far' = elim (Bool-cases (length bytes % 4 != 0)) [
    | inl odd ↦ rw odd refl
    | inr even ↦ rw even (
        stores-Spared m (reg f regs port) (words bytes) _ i far'
        ∙ m.keeps (reg f regs control) (2 ^ 25) i h far)
  ]

  -- the history after the upload of the data, if there is any
  abbrev pub after_data : List ℕ → History → History
  after_data bytes h = if is_empty bytes then h else sent f regs falcon_dmemc falcon_dmemd bytes h

  after_data-AfterImem :
      {step : ℕ} (imem : UnitPort step falcon_imemc falcon_imemd AfterImem) (bytes : List ℕ)
      (h : History) (i : ℕ)
      → imem.cells (after_data bytes h) i ≡ imem.cells h i
  after_data-AfterImem imem [] h i = refl
  after_data-AfterImem imem (b ∷ bs) h i =
      sent-Spared falcon_dmemc falcon_dmemd imem (b ∷ bs) h i (inl refl) (inr (inl refl))

  after_data-dump :
      {step : ℕ} (dmem : UnitPort step falcon_dmemc falcon_dmemd AfterDmem) (bytes : List ℕ)
      (h : History)
      → length bytes % 4 ≡ 0
      → All (λ b. b < 256) bytes
      → length bytes / 4 ≤ 2 ^ 14 * step
      → dump (dmem.cells (after_data bytes h)) 0 (length bytes / 4) ≡ bytes
  after_data-dump dmem [] h whole small room = refl
  after_data-dump dmem (b ∷ bs) h whole small room =
      sent-dump falcon_dmemc falcon_dmemd dmem (b ∷ bs) h whole small room

  -- When `init_with_firmware` sends the start command, both files stand in the unit's memories from
  -- their first word on, for files of whole words that fit; the answer is that of the wait
  -- from there. This is for memories that increment as the code's comments say. It holds whatever
  -- number of words bits 2 to 15 of the control register count by, 64 as the code's comment says or
  -- another one, since both uploads start at offset 0.
  pub init_with_firmware-dump :
      {step step' : ℕ} (imem : UnitPort step falcon_imemc falcon_imemd AfterImem)
      (dmem : UnitPort step' falcon_dmemc falcon_dmemd AfterDmem) (code bytes : List ℕ) (d : Device)
      (h : History)
      → length code % 4 ≡ 0
      → All (λ b. b < 256) code
      → length code / 4 ≤ 2 ^ 14 * step
      → length bytes % 4 ≡ 0
      → All (λ b. b < 256) bytes
      → length bytes / 4 ≤ 2 ^ 14 * step'
      → (before : History) × (init_with_firmware f regs code bytes d h ≡ (
          let (r, h') =
            wait_ready f regs ready_iters d
              (store (reg f regs falcon_cpuctl) falcon_cpuctl_start ∷ before) in
          (some (is_some r), h')))
        × (dump (imem.cells before) 0 (length code / 4) ≡ code)
        × (dump (dmem.cells before) 0 (length bytes / 4) ≡ bytes)
  init_with_firmware-dump imem dmem code bytes d h whole small room whole' small' room' =
      let h1 = sent f regs falcon_imemc falcon_imemd code (quiesced f regs d h) in
      let h2 = after_data bytes h1 in
      let boot_at : History = store (reg f regs falcon_bootvec) 0 ∷ h2 in
      (
        boot_at,
        init_with_firmware_lem f regs code bytes d h,
        dump_ext (imem.cells boot_at) (imem.cells h1) 0 (length code / 4) (λ i.
              imem.keeps (reg f regs falcon_bootvec) 0 i h2 (inr (inr refl))
              ∙ after_data-AfterImem imem bytes h1 i)
            ∙ sent-dump falcon_imemc falcon_imemd imem code (quiesced f regs d h) whole small room,
        dump_ext (dmem.cells boot_at) (dmem.cells h2) 0 (length bytes / 4)
              (λ i. dmem.keeps (reg f regs falcon_bootvec) 0 i h2 refl)
            ∙ after_data-dump dmem bytes h1 whole' small' room',
      )
