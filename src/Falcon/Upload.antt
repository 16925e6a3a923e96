-- ===== src/Falcon/Upload.antt =====
-- The firmware uploads of src/falcon.rs: what reaches the data ports of IMEM and DMEM.
use gpu_compute_nostd.Base.{
  ℕ, zero, suc, ◌+◌, ◌*◌, ◌/◌, ◌%◌, ◌^◌, ◌≤◌, ◌≡◌, ◌⊎◌, ◌≢◌, refl, sym, ap, ◌∙◌, some, List, [],
  ◌∷◌, arith, length, get_elem?, drop, get_elem?-drop, bit_and, bit_or, u32, ◌<<◌, ◌!=◌, Bool-cases,
  inl, inr,
}
use Prim.Native.Nat.add
use gpu_compute_nostd.Base.Bits.{bit_and_field, bit_or_sum}
use gpu_compute_nostd.Hardware.{store, Device, History}
use gpu_compute_nostd.Mmio.{GpuRegs}
use gpu_compute_nostd.Falcon.{
  Falcon, word_at, write_words, upload_imem, upload_dmem, falcon_imemc, falcon_imemd, falcon_dmemc,
  falcon_dmemd,
}

-- the address of a register of the unit
abbrev pub reg : Falcon → GpuRegs → ℕ → ℕ
reg f regs offset = regs.bar0 + u32 (f.base + offset)

-- the little-endian words of a list of bytes, a rest of fewer than four left out
abbrev pub words : List ℕ → List ℕ
words (a ∷ b ∷ c ∷ e ∷ rest) = (a + b * 2 ^ 8 + c * 2 ^ 16 + e * 2 ^ 24) ∷ words rest
words _ = []

-- words stored at one address one after the other
abbrev pub stores : ℕ → List ℕ → History → History
stores a [] h = h
stores a (w ∷ ws) h = stores a ws (store a w ∷ h)

drop_all : (n : ℕ) (xs : List ℕ) → length xs ≡ n → drop n xs ≡ []
drop_all zero [] e = refl
drop_all zero (x ∷ xs) e = absurd (omega arith)
drop_all (suc n) [] e = refl
drop_all (suc n) (x ∷ xs) e = drop_all n xs (omega arith)

-- four bytes from an offset on
record Four (n : ℕ) (xs : List ℕ) : Type 0 where
  b0 : ℕ
  b1 : ℕ
  b2 : ℕ
  b3 : ℕ
  here : drop n xs ≡ b0 ∷ b1 ∷ b2 ∷ b3 ∷ drop (n + 4) xs

four : (n : ℕ) (xs : List ℕ) → n + 4 ≤ length xs → Four n xs
four zero (a ∷ b ∷ c ∷ e ∷ rest) h = record { b0 = a; b1 = b; b2 = c; b3 = e; here = refl }
four zero (a ∷ b ∷ c ∷ []) h = absurd (omega arith)
four zero (a ∷ b ∷ []) h = absurd (omega arith)
four zero (a ∷ []) h = absurd (omega arith)
four zero [] h = absurd (omega arith)
four (suc n) [] h = absurd (omega arith)
four (suc n) (x ∷ xs) h =
    let r = four n xs (omega arith) in
    record {
      b0 = r.b0;
      b1 = r.b1;
      b2 = r.b2;
      b3 = r.b3;
      here = r.here ∙ ap (λ t. r.b0 ∷ r.b1 ∷ r.b2 ∷ r.b3 ∷ drop t (x ∷ xs)) (sym (add.suc n 4));
    }

word_at-Four :
    (n : ℕ) (xs : List ℕ) (r : Four n xs)
    → word_at xs n ≡ some (r.b0 + r.b1 * 2 ^ 8 + r.b2 * 2 ^ 16 + r.b3 * 2 ^ 24)
unfolding word_at
word_at-Four n xs r =
    let at = λ (k : ℕ). sym (get_elem?-drop n k xs) ∙ ap (λ t. get_elem? t k) r.here in
    let at0 : get_elem? xs n ≡ some r.b0 = ap (get_elem? xs) (omega arith) ∙ at 0 in
    ground (arith, at0, at 1, at 2, at 3)

module _ (f : Falcon) (regs : GpuRegs) (port : ℕ) (d : Device) where
  write_words_lem :
      (bytes : List ℕ) (left i : ℕ) (h : History)
      → length bytes ≡ (i + left) * 4
      → write_words f regs port bytes left i d h
        ≡ (some tt, stores (reg f regs port) (words (drop (i * 4) bytes)) h)
  unfolding write_words
  write_words_lem bytes zero i h e = rw (drop_all (i * 4) bytes (omega arith))
  write_words_lem bytes (suc left) i h e =
      let r = four (i * 4) bytes (omega arith) in
      let next : drop (i * 4 + 4) bytes ≡ drop ((i + 1) * 4) bytes =
        ap (λ t. drop t bytes) (omega arith) in
      rw (word_at-Four (i * 4) bytes r, r.here, next, write_words)
        (write_words_lem bytes left (i + 1) _ (omega arith))

-- the control word of both uploads
control : (offset : ℕ) → bit_or (1 << 25) (bit_and offset 0xFFFC) ≡ 2 ^ 25 + offset / 4 % 2 ^ 14 * 4
control offset =
    ap (bit_or (2 ^ 25)) (bit_and_field 2 14 offset)
    ∙ bit_or_sum 25 (2 ^ 25) (offset / 4 % 2 ^ 14 * 4) refl (omega arith)

-- A file whose size is a multiple of four is written to IMEM as its little-endian words in order,
-- behind the address with auto-increment, and no index is out of range; with any other size the
-- device is not touched. Both ways the call returns.
pub upload_imem_lem :
    (f : Falcon) (regs : GpuRegs) (firmware : List ℕ) (offset : ℕ) (d : Device) (h : History)
    → let (r, h') = upload_imem f regs firmware offset d h in
      (r ≡ some tt)
      × (((length firmware % 4 ≡ 0)
            × (h'
                ≡ stores
                    (reg f regs falcon_imemd)
                    (words firmware)
                    (store (reg f regs falcon_imemc) (2 ^ 25 + offset / 4 % 2 ^ 14 * 4) ∷ h)))
          ⊎ ((length firmware % 4 ≢ 0) × (h' ≡ h)))
unfolding upload_imem
upload_imem_lem f regs firmware offset d h = elim (Bool-cases (length firmware % 4 != 0)) [
  | inl odd ↦ rw (odd, upload_imem) (refl, inr (ground arith, refl))
  | inr even ↦
      rw
        (
          even,
          upload_imem,
          control offset,
          write_words_lem f regs falcon_imemd d firmware (length firmware / 4) 0 _ (ground arith),
        )
        (refl, inl (ground arith, refl))
]

-- The upload to DMEM does the same at its own two registers.
pub upload_dmem_lem :
    (f : Falcon) (regs : GpuRegs) (bytes : List ℕ) (offset : ℕ) (d : Device) (h : History)
    → let (r, h') = upload_dmem f regs bytes offset d h in
      (r ≡ some tt)
      × (((length bytes % 4 ≡ 0)
            × (h'
                ≡ stores
                    (reg f regs falcon_dmemd)
                    (words bytes)
                    (store (reg f regs falcon_dmemc) (2 ^ 25 + offset / 4 % 2 ^ 14 * 4) ∷ h)))
          ⊎ ((length bytes % 4 ≢ 0) × (h' ≡ h)))
unfolding upload_dmem
upload_dmem_lem f regs bytes offset d h = elim (Bool-cases (length bytes % 4 != 0)) [
  | inl odd ↦ rw (odd, upload_dmem) (refl, inr (ground arith, refl))
  | inr even ↦
      rw
        (
          even,
          upload_dmem,
          control offset,
          write_words_lem f regs falcon_dmemd d bytes (length bytes / 4) 0 _ (ground arith),
        )
        (refl, inl (ground arith, refl))
]
