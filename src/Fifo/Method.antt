-- ===== src/Fifo/Method.antt =====
-- The method command headers of src/fifo.rs.
use gpu_compute_nostd.Base.{ℕ, bit_and, bit_or, ◌<<◌, ◌>>>◌}

-- The arguments are `u32`; no shift loses a digit, since the masks come first.
unfoldable pub gpu_method_nonincr : ℕ → ℕ → ℕ → ℕ
gpu_method_nonincr subchannel method count =
    bit_or (bit_or (bit_or (0x2 << 28) (bit_and count 0x1FFF << 16)) (bit_and subchannel 0x7 << 13))
      (method >>> 2)

unfoldable pub gpu_method_incr : ℕ → ℕ → ℕ → ℕ
gpu_method_incr subchannel method count =
    bit_or (bit_or (bit_or (0x1 << 28) (bit_and count 0x1FFF << 16)) (bit_and subchannel 0x7 << 13))
      (method >>> 2)

unfoldable pub gpu_method_1 : ℕ → ℕ → ℕ
unfolding gpu_method_incr
gpu_method_1 subchannel method = gpu_method_incr subchannel method 1
