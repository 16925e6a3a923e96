-- ===== src/Fifo/Headers.antt =====
-- Which command headers of src/fifo.rs are the same word.
use gpu_compute_nostd.Base.{ℕ, ◌%◌, ◌^◌, ◌<◌, ◌≡◌, ◌≢◌, ◌↔◌, arith}
use gpu_compute_nostd.Fifo.Method.{gpu_method_nonincr, gpu_method_incr}
use gpu_compute_nostd.Fifo.Encoding.{gpu_method_incr_fields, gpu_method_nonincr_fields}

-- Two incrementing headers are the same word exactly if they have the subchannel, the method and the
-- count modulo 4096 in common, and two non-incrementing ones exactly if these and the count modulo
-- 8192 are; no header is of both kinds. The subchannels are below 8, and the methods below 2^15 and
-- multiples of 4.
pub gpu_method_iff :
    (subchannel method count subchannel' method' count' : ℕ)
    → (subchannel < 8) × (method < 2 ^ 15) × (method % 4 ≡ 0)
    → (subchannel' < 8) × (method' < 2 ^ 15) × (method' % 4 ≡ 0)
    → ((gpu_method_incr subchannel method count ≡ gpu_method_incr subchannel' method' count')
        ↔ ((subchannel ≡ subchannel') × (method ≡ method') × (count % 4096 ≡ count' % 4096)))
      × ((gpu_method_nonincr subchannel method count
            ≡ gpu_method_nonincr subchannel' method' count')
          ↔ ((subchannel ≡ subchannel') × (method ≡ method') × (count % 8192 ≡ count' % 8192)))
      × (gpu_method_incr subchannel method count ≢ gpu_method_nonincr subchannel' method' count')
gpu_method_iff s m c s' m' c' (a, b, e) (a', b', e') =
    let w = gpu_method_incr_fields s m c a b e in
    let w' = gpu_method_incr_fields s' m' c' a' b' e' in
    let u = gpu_method_nonincr_fields s m c a b e in
    let u' = gpu_method_nonincr_fields s' m' c' a' b' e' in
    (
      (λ q. omega (arith, q, w, w'), λ q. omega (arith, q, w, w')),
      (λ q. omega (arith, q, u, u'), λ q. omega (arith, q, u, u')),
      λ q. absurd (omega (arith, q, w, u')),
    )
