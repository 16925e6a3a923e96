-- ===== src/Falcon/Boot.antt =====
-- Waiting for a Falcon, and the whole start-up sequence of src/falcon.rs.
use gpu_compute_nostd.Base.{
  ℕ, zero, suc, ◌%◌, ◌^◌, ◌<◌, ◌≡◌, ◌⊎◌, ◌≢◌, refl, ap, ◌∙◌, Bool, true, false, Option, none, some,
  List, [], ◌∷◌, arith, length, ◌!=◌, Bool-cases, inl, inr, if◌then◌else◌, is_empty,
}
use mathlib.Core.Path.{ap₂}
use gpu_compute_nostd.Hardware.{Io, pure, ◌>>=◌, ◌>>◌, load, store, Device, History}
use gpu_compute_nostd.Mmio.{GpuRegs}
use gpu_compute_nostd.Falcon.{
  Falcon, halt, clear_interrupts, boot, wait_ready, upload_imem, upload_dmem, init_with_firmware,
  ◌>>?◌, ready_iters, falcon_os, falcon_cpuctl, falcon_cpuctl_halt, falcon_cpuctl_start,
  falcon_bootvec, falcon_irqsrd, falcon_irqsclr, falcon_imemc, falcon_imemd, falcon_dmemc,
  falcon_dmemd,
}
use gpu_compute_nostd.Falcon.Upload.{reg, words, stores, upload_imem_lem, upload_dmem_lem}

abbrev pair : {A B : Type 0} → A → B → A × B
pair a b = (a, b)

-- What follows an action that has not panicked.
then_some :
    {A : Type 0} (m : Io (Option (Unit {0}))) (k : Io (Option A)) (d : Device) (h h' : History)
    → m d h ≡ (some tt, h')
    → (m >>? k) d h ≡ k d h'
then_some m k d h h' e = rw (e, ◌>>?◌) (ap (λ t. k d t.1) e)

abbrev pub is_some : {A : Type 0} → Option A → Bool
is_some none = false
is_some (some _) = true

answered :
    (r : Option ℕ) → elim r [ some os_val ↦ some true | none ↦ some false ] ≡ some (is_some r)
answered none = refl
answered (some v) = refl

module _ (f : Falcon) (regs : GpuRegs) where
  -- the history after `k` polls of FALCON_OS
  abbrev pub polls : ℕ → History → History
  polls zero h = h
  polls (suc k) h = polls k (load (reg f regs falcon_os) ∷ h)

  -- the next `k` polls all read 0
  abbrev pub AreZero : ℕ → Device → History → Type 0
  AreZero zero d h = Unit
  AreZero (suc k) d h =
      (d.loads h (reg f regs falcon_os) ≡ 0) × AreZero k d (load (reg f regs falcon_os) ∷ h)

  -- what the wait comes to, by its result and the history it leaves
  abbrev Waited : ℕ → Device → History → Option ℕ × History → Type 0
  Waited iters d h (r, h') =
      ((k : ℕ) × (v : ℕ) × (k < iters)
        × AreZero k d h
        × (v ≢ 0)
        × (d.loads (polls k h) (reg f regs falcon_os) ≡ v)
        × (r ≡ some v)
        × (h' ≡ polls (suc k) h))
      ⊎ (AreZero iters d h × (r ≡ none) × (h' ≡ polls iters h))

  one_more :
      (iters : ℕ) (d : Device) (h : History) {t : Option ℕ × History}
      → d.loads h (reg f regs falcon_os) ≡ 0
      → Waited iters d (load (reg f regs falcon_os) ∷ h) t
      → Waited (suc iters) d h t
  one_more iters d h zero_read (inl (k, v, lt, zeros, ne, e, r, p)) =
      inl (suc k, v, omega arith, (zero_read, zeros), ne, e, r, p)
  one_more iters d h zero_read (inr (zeros, r, p)) = inr ((zero_read, zeros), r, p)

  -- The wait returns the first nonzero value within its limit, after as many polls as that takes;
  -- or all polls up to the limit have read 0 and it returns nothing.
  pub wait_ready_lem :
      (iters : ℕ) (d : Device) (h : History) → Waited iters d h (wait_ready f regs iters d h)
  unfolding wait_ready
  wait_ready_lem zero d h = inr (tt, refl, refl)
  wait_ready_lem (suc iters) d h = elim (Bool-cases (d.loads h (reg f regs falcon_os) != 0)) [
    | inl ready ↦
        rw (ready, wait_ready)
          (inl
            (0, d.loads h (reg f regs falcon_os), omega arith, tt, ground arith, refl, refl, refl))
    | inr waits ↦
        rw (waits, wait_ready)
          (one_more iters d h (ground arith)
            (wait_ready_lem iters d (load (reg f regs falcon_os) ∷ h)))
  ]

  -- the history after the halt and the clearing of interrupts
  abbrev pub quiesced : Device → History → History
  quiesced d h =
      let h2 =
        load (reg f regs falcon_irqsrd)
        ∷ load (reg f regs falcon_cpuctl)
        ∷ store (reg f regs falcon_cpuctl) falcon_cpuctl_halt
        ∷ h in
      let pending =
        d.loads
          (load (reg f regs falcon_cpuctl)
            ∷ store (reg f regs falcon_cpuctl) falcon_cpuctl_halt
            ∷ h)
          (reg f regs falcon_irqsrd) in
      if pending != 0 then store (reg f regs falcon_irqsclr) pending ∷ h2 else h2

  -- the history after an upload through a control and a data register
  abbrev pub sent : ℕ → ℕ → List ℕ → History → History
  sent control port bytes h =
      if length bytes % 4 != 0
      then h
      else stores (reg f regs port) (words bytes) (store (reg f regs control) (2 ^ 25) ∷ h)

  -- the history when the start command is out
  abbrev pub started : List ℕ → List ℕ → Device → History → History
  started imem dmem d h =
      let h1 = sent falcon_imemc falcon_imemd imem (quiesced d h) in
      let h2 = if is_empty dmem then h1 else sent falcon_dmemc falcon_dmemd dmem h1 in
      store (reg f regs falcon_cpuctl) falcon_cpuctl_start
      ∷ store (reg f regs falcon_bootvec) 0
      ∷ h2

  upload_imem-sent :
      (bytes : List ℕ) (d : Device) (h : History)
      → upload_imem f regs bytes 0 d h ≡ (some tt, sent falcon_imemc falcon_imemd bytes h)
  upload_imem-sent bytes d h =
      let (done, cases) = upload_imem_lem f regs bytes 0 d h in
      elim cases [
        | inl (even, e) ↦
            let whole : (length bytes % 4 != 0) ≡ false = ground arith in rw whole (ap₂ pair done e)
        | inr (odd, e) ↦
            let part : (length bytes % 4 != 0) ≡ true = ground arith in rw part (ap₂ pair done e)
      ]

  upload_dmem-sent :
      (bytes : List ℕ) (d : Device) (h : History)
      → upload_dmem f regs bytes 0 d h ≡ (some tt, sent falcon_dmemc falcon_dmemd bytes h)
  upload_dmem-sent bytes d h =
      let (done, cases) = upload_dmem_lem f regs bytes 0 d h in
      elim cases [
        | inl (even, e) ↦
            let whole : (length bytes % 4 != 0) ≡ false = ground arith in rw whole (ap₂ pair done e)
        | inr (odd, e) ↦
            let part : (length bytes % 4 != 0) ≡ true = ground arith in rw part (ap₂ pair done e)
      ]

  -- halting and clearing, as one action
  quiesced_lem :
      (d : Device) (h : History) → (halt f regs >> clear_interrupts f regs) d h ≡ (tt, quiesced d h)
  unfolding halt clear_interrupts
  quiesced_lem d h = ground arith

  -- the upload of the data, if there is any
  upload_dmem_if :
      (dmem : List ℕ) (d : Device) (h : History)
      → (if is_empty dmem then pure (some tt) else upload_dmem f regs dmem 0) d h
        ≡ (some tt, if is_empty dmem then h else sent falcon_dmemc falcon_dmemd dmem h)
  upload_dmem_if [] d h = refl
  upload_dmem_if (b ∷ bs) d h = upload_dmem-sent (b ∷ bs) d h

  abbrev upload_rest : List ℕ → Io (Option (Unit {0}))
  upload_rest dmem = if is_empty dmem then pure (some tt) else upload_dmem f regs dmem 0

  abbrev uploads : List ℕ → List ℕ → Io (Option (Unit {0}))
  uploads imem dmem = upload_imem f regs imem 0 >>? upload_rest dmem

  abbrev finish : Io (Option Bool)
  finish = boot f regs 0 >> wait_ready f regs ready_iters >>= λ r.
      pure (elim r [ some os_val ↦ some true | none ↦ some false ])

  -- The sequence is: halt, clear what is pending, upload each file whose size is a multiple of four
  -- (another is dropped, and empty data is not sent), start at 0, and wait. It never panics,
  -- and its answer is whether the wait has seen the firmware's signal.
  pub init_with_firmware_lem :
      (imem dmem : List ℕ) (d : Device) (h : History)
      → let (r, h') = wait_ready f regs ready_iters d (started imem dmem d h) in
        init_with_firmware f regs imem dmem d h ≡ (some (is_some r), h')
  unfolding init_with_firmware boot
  init_with_firmware_lem imem dmem d h =
      let q = quiesced d h in
      let h1 = sent falcon_imemc falcon_imemd imem q in
      let h2 = if is_empty dmem then h1 else sent falcon_dmemc falcon_dmemd dmem h1 in
      ap (λ (t : Unit {0} × History). (uploads imem dmem >>? finish) d t.1) (quiesced_lem d h)
      ∙ then_some (uploads imem dmem) finish d q h2 (
          then_some (upload_imem f regs imem 0) (upload_rest dmem) d q h1
            (upload_imem-sent imem d q)
          ∙ upload_dmem_if dmem d h1)
      ∙ ap₂ pair (answered (wait_ready f regs ready_iters d (started imem dmem d h)).0) refl

  -- Firmware whose size is not a multiple of four is dropped, and the Falcon is started all the
  -- same: the start command follows the halt with nothing uploaded, and the answer is that of the
  -- wait, as if there had been no error.
  pub init_with_firmware_misaligned :
      (imem : List ℕ) (d : Device) (h : History)
      → length imem % 4 ≢ 0
      → let (r, h') = wait_ready f regs ready_iters d (
          store (reg f regs falcon_cpuctl) falcon_cpuctl_start
          ∷ store (reg f regs falcon_bootvec) 0
          ∷ quiesced d h) in
        init_with_firmware f regs imem [] d h ≡ (some (is_some r), h')
  init_with_firmware_misaligned imem d h odd =
      let dropped : sent falcon_imemc falcon_imemd imem (quiesced d h) ≡ quiesced d h =
        (let e : (length imem % 4 != 0) ≡ true = ground arith in rw e) in
      init_with_firmware_lem imem [] d h
      ∙ ap
          (λ t.
            let (r, h') = wait_ready f regs ready_iters d (
              store (reg f regs falcon_cpuctl) falcon_cpuctl_start
              ∷ store (reg f regs falcon_bootvec) 0
              ∷ t) in
            pair (some (is_some r)) h')
          dropped
