-- ===== src/Fifo/Gpfifo.antt =====
-- `GpfifoEntry` of src/fifo.rs.
use gpu_compute_nostd.Base.{ℕ, bit_and, bit_or, u32, ◌<<◌, ◌>>>◌}

pub record GpfifoEntry : Type 0 where
  pub lo : ℕ
  pub hi : ℕ

unfoldable pub new : ℕ → ℕ → GpfifoEntry
new gpu_va length_dwords = record {
  lo = u32 gpu_va;
  hi = bit_or (bit_and (u32 (gpu_va >>> 32)) 0xFF) (bit_and length_dwords 0x7FFFFF << 8);
}

unfoldable pub new_no_prefetch : ℕ → ℕ → GpfifoEntry
new_no_prefetch gpu_va length_dwords = record {
  lo = u32 gpu_va;
  hi =
      bit_or (bit_or (bit_and (u32 (gpu_va >>> 32)) 0xFF) (bit_and length_dwords 0x7FFFFF << 8))
        (1 << 31);
}
