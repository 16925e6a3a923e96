-- ===== src/Fifo/Encoding.antt =====
-- What the command headers and GPFIFO entries of src/fifo.rs hold, field by field.
use gpu_compute_nostd.Base.{
  ℕ, zero, suc, refl, u32, ◌+◌, ◌*◌, ◌/◌, ◌%◌, ◌^◌, ◌<◌, ◌≡◌, ap, ◌∙◌, arith, bit_and, bit_or, ◌<<◌,
  ◌>>>◌,
}
use gpu_compute_nostd.Base.Bits.{
  bit_and_ones, bit_or_blocks, bit_or_sum, bit_or_fields_low, zero-bit_or,
}
use mathlib.Core.Path.{ap₂}
use gpu_compute_nostd.Fifo.Method.{gpu_method_nonincr, gpu_method_incr}
use gpu_compute_nostd.Fifo.Gpfifo.{GpfifoEntry, new, new_no_prefetch}

-- the fields of a header, as the doc comment of the encoders lays them out
abbrev pub opcode : ℕ → ℕ
opcode w = w / 2 ^ 28

abbrev pub count_of : ℕ → ℕ
count_of w = w / 2 ^ 16 % 2 ^ 12

abbrev pub subchannel_of : ℕ → ℕ
subchannel_of w = w / 2 ^ 13 % 2 ^ 3

abbrev pub method_of : ℕ → ℕ
method_of w = w % 2 ^ 13 * 4

-- A header is the sum of its fields; the thirteenth digit of the count falls on the opcode.
header_sum :
    (top count subchannel method : ℕ)
    → method < 2 ^ 15
    → bit_or
        (bit_or (bit_or (top << 28) (bit_and count 0x1FFF << 16)) (bit_and subchannel 0x7 << 13))
        (method >>> 2)
      ≡ bit_or top (count / 2 ^ 12 % 2) * 2 ^ 28
        + count % 2 ^ 12 * 2 ^ 16
        + subchannel % 8 * 2 ^ 13
        + method / 4
header_sum top count subchannel method m =
    let c : ℕ = count % 2 ^ 13 in
    let split : c * 2 ^ 16 ≡ count / 2 ^ 12 % 2 * 2 ^ 28 + count % 2 ^ 12 * 2 ^ 16 = omega arith in
    let above : top * 2 ^ 28 ≡ top * 2 ^ 28 + 0 = omega arith in
    let first : bit_or (top * 2 ^ 28) (c * 2 ^ 16)
        ≡ bit_or top (count / 2 ^ 12 % 2) * 2 ^ 28 + count % 2 ^ 12 * 2 ^ 16 =
      ap₂ bit_or above split
      ∙ bit_or_blocks 28 top 0 (count / 2 ^ 12 % 2) (count % 2 ^ 12 * 2 ^ 16) (omega arith)
          (omega arith)
      ∙ ap (λ t. bit_or top (count / 2 ^ 12 % 2) * 2 ^ 28 + t) (zero-bit_or _) in
    let x : ℕ = bit_or top (count / 2 ^ 12 % 2) in
    let y : ℕ = count % 2 ^ 12 in
    rw (bit_and_ones 13 count, bit_and_ones 3 subchannel, first)
      (rw
        (bit_or_sum 16 (x * 2 ^ 28 + y * 2 ^ 16) (subchannel % 8 * 2 ^ 13) (omega arith)
          (omega arith))
        (bit_or_sum 13 (x * 2 ^ 28 + y * 2 ^ 16 + subchannel % 8 * 2 ^ 13) (method / 4)
          (omega arith) (omega arith)))

one_or_digit : (b : ℕ) → b < 2 → bit_or 1 b ≡ 1
one_or_digit zero h = refl
one_or_digit (suc zero) h = refl
one_or_digit (suc (suc b)) h = absurd (omega arith)

-- An incrementing header decodes to opcode 1, the subchannel, the method, and the count without
-- its thirteenth digit.
pub gpu_method_incr_fields :
    (subchannel method count : ℕ)
    → subchannel < 8
    → method < 2 ^ 15
    → method % 4 ≡ 0
    → let w = gpu_method_incr subchannel method count in
      (opcode w ≡ 1)
      × (count_of w ≡ count % 2 ^ 12)
      × (subchannel_of w ≡ subchannel)
      × (method_of w ≡ method)
unfolding gpu_method_incr
gpu_method_incr_fields subchannel method count s m a =
    let low : bit_or 1 (count / 2 ^ 12 % 2) ≡ 1 = one_or_digit (count / 2 ^ 12 % 2) (omega arith) in
    rw (header_sum 1 count subchannel method m, low) (omega arith)

-- A non-incrementing header decodes likewise, to an opcode to which the thirteenth digit of the
-- count is added.
pub gpu_method_nonincr_fields :
    (subchannel method count : ℕ)
    → subchannel < 8
    → method < 2 ^ 15
    → method % 4 ≡ 0
    → let w = gpu_method_nonincr subchannel method count in
      (opcode w ≡ 2 + count / 2 ^ 12 % 2)
      × (count_of w ≡ count % 2 ^ 12)
      × (subchannel_of w ≡ subchannel)
      × (method_of w ≡ method)
unfolding gpu_method_nonincr
gpu_method_nonincr_fields subchannel method count s m a =
    let high : bit_or 2 (count / 2 ^ 12 % 2) ≡ 2 + count / 2 ^ 12 % 2 =
      bit_or_sum 1 2 (count / 2 ^ 12 % 2) refl (omega arith) in
    rw (header_sum 2 count subchannel method m, high) (omega arith)

-- Counts that differ by 4096 give the same incrementing header, though the count has thirteen bits.
pub gpu_method_incr_collides :
    (subchannel method count : ℕ)
    → method < 2 ^ 15
    → gpu_method_incr subchannel method (count + 4096) ≡ gpu_method_incr subchannel method count
unfolding gpu_method_incr
gpu_method_incr_collides subchannel method count m =
    let here : bit_or 1 (count / 2 ^ 12 % 2) ≡ 1 =
      one_or_digit (count / 2 ^ 12 % 2) (omega arith) in
    let there : bit_or 1 ((count + 4096) / 2 ^ 12 % 2) ≡ 1 =
      one_or_digit ((count + 4096) / 2 ^ 12 % 2) (omega arith) in
    omega (
      arith,
      header_sum 1 count subchannel method m,
      header_sum 1 (count + 4096) subchannel method m,
      here,
      there,
    )

-- the fields of an entry: a 40-bit address, a 23-bit length and a flag
abbrev pub address_of : GpfifoEntry → ℕ
address_of e = e.hi % 2 ^ 8 * 2 ^ 32 + e.lo

abbrev pub length_of : GpfifoEntry → ℕ
length_of e = e.hi / 2 ^ 8 % 2 ^ 23

abbrev pub flag_of : GpfifoEntry → ℕ
flag_of e = e.hi / 2 ^ 31

hi_sum :
    (gpu_va length_dwords : ℕ)
    → bit_or (bit_and (u32 (gpu_va >>> 32)) 0xFF) (bit_and length_dwords 0x7FFFFF << 8)
      ≡ length_dwords % 2 ^ 23 * 2 ^ 8 + gpu_va / 2 ^ 32 % 2 ^ 8
hi_sum gpu_va n =
    rw (bit_and_ones 8 (u32 (gpu_va >>> 32)), bit_and_ones 23 n)
      (bit_or_fields_low 8 (n % 2 ^ 23) (u32 (gpu_va >>> 32) % 2 ^ 8) (omega arith) ∙ omega arith)

-- An entry gives back a 40-bit address and a 23-bit length, and the flag tells the two kinds apart.
pub gpfifo_entry_fields :
    (gpu_va length_dwords : ℕ)
    → gpu_va < 2 ^ 40
    → length_dwords < 2 ^ 23
    → let e = new gpu_va length_dwords in
      let f = new_no_prefetch gpu_va length_dwords in
      (address_of e ≡ gpu_va)
      × (length_of e ≡ length_dwords)
      × (flag_of e ≡ 0)
      × (address_of f ≡ gpu_va)
      × (length_of f ≡ length_dwords)
      × (flag_of f ≡ 1)
unfolding new new_no_prefetch
gpfifo_entry_fields gpu_va n va len =
    let low = hi_sum gpu_va n in
    let flagged : bit_or (n % 2 ^ 23 * 2 ^ 8 + gpu_va / 2 ^ 32 % 2 ^ 8) (1 << 31)
        ≡ 2 ^ 31 + (n % 2 ^ 23 * 2 ^ 8 + gpu_va / 2 ^ 32 % 2 ^ 8) =
      bit_or_fields_low 31 1 (n % 2 ^ 23 * 2 ^ 8 + gpu_va / 2 ^ 32 % 2 ^ 8) (omega arith)
      ∙ omega arith in
    rw (low, flagged) (omega arith)
