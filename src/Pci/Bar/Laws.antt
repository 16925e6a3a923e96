-- ===== src/Pci/Bar/Laws.antt =====
-- The sizes and addresses that src/pci_config.rs reads out of base address registers.
use gpu_compute_nostd.Base.{
  ℕ, ◌+◌, ◌-◌, ◌/◌, ◌%◌, ◌^◌, ◌≤◌, ◌<◌, ◌≡◌, ◌⊎◌, ap, ◌∙◌, arith, bit_and, bit_or, ltb, true, not64,
  ◌<<◌, if◌then◌else◌,
}
use gpu_compute_nostd.Base.Bits.{bit_and_field, bit_and_ones, bit_or_sum}
use gpu_compute_nostd.Pci.Bar.{decode_bar64, size_of_mask}

-- the low word that a BAR of `size` bytes with these flags reads back after all ones are written
abbrev pub read_back : ℕ → ℕ → ℕ
read_back size flags = (2 ^ 64 - size) % 2 ^ 32 + flags

-- A BAR whose size is below 4 GiB, more than 16 bytes and a multiple of 16 is measured right; one
-- whose size is a multiple of 4 GiB is measured as 0.
pub size_of_mask-read_back :
    (size flags : ℕ)
    → flags < 16
    → 16 < size
    → size ≤ 2 ^ 63
    → ((size % 16 ≡ 0) × (size < 2 ^ 32)) ⊎ (size % 2 ^ 32 ≡ 0)
    → size_of_mask (read_back size flags) ≡ (if ltb size (2 ^ 32) then size else 0)
unfolding size_of_mask
size_of_mask-read_back size flags f big fits shape =
    let w : ℕ = read_back size flags in ground (arith, bit_and_field 4 28 w)

-- A 64-bit BAR decodes to its full address for a base that is a multiple of 16, with bit 0 telling
-- memory from ports.
pub decode_bar64_base :
    (base flags : ℕ)
    → base < 2 ^ 64
    → base % 16 ≡ 0
    → flags < 16
    → flags / 2 % 4 ≡ 2
    → flags % 2 ≡ 0
    → decode_bar64 (base % 2 ^ 32 + flags) (base / 2 ^ 32) ≡ (base, true)
unfolding decode_bar64
decode_bar64_base base flags b a f wide mem =
    let lo : ℕ = base % 2 ^ 32 + flags in
    let kind : bit_and lo 0x06 ≡ 4 = bit_and_field 1 2 lo ∙ omega arith in
    let space : bit_and lo 0x01 ≡ 0 = bit_and_ones 1 lo ∙ omega arith in
    let rest : bit_and lo (not64 0xF) ≡ base % 2 ^ 32 = bit_and_field 4 60 lo ∙ omega arith in
    let whole : bit_or (base / 2 ^ 32 << 32) (base % 2 ^ 32) ≡ base =
      bit_or_sum 32 (base / 2 ^ 32 << 32) (base % 2 ^ 32) (omega arith) (omega arith)
      ∙ omega arith in
    ground (arith, kind, space, ap (bit_or (base / 2 ^ 32 << 32)) rest, whole)
