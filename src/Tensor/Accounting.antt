-- ===== src/Tensor/Accounting.antt =====
-- The counters of `TensorEngine` (src/tensor.rs) over any sequence of calls.
use gpu_compute_nostd.Base.{
  ℕ, subst, ◌+◌, ◌^◌, ◌<◌, ◌≡◌, inl, inr, Option, none, some, List, [], ◌∷◌, arith, u32, u64,
  length, Option-cases, All, zero, suc,
}
use Prim.Native.String.{String}
use gpu_compute_nostd.Memory.{VramAllocator}
use gpu_compute_nostd.Tensor.Shape.{DType, total_elements}
use gpu_compute_nostd.Tensor.Descriptor.{
  TensorDescriptor, TensorEngine, allocate_tensor, free_tensor,
}
use gpu_compute_nostd.Tensor.Allocation.{allocate_tensor_cases, size_bytes_lt}

-- the sum of the sizes of the tensors
abbrev pub bytes_of : List TensorDescriptor → ℕ
bytes_of [] = 0
bytes_of (t ∷ ts) = t.size_bytes + bytes_of ts

-- every size is a 64-bit number
abbrev pub AreWords : List TensorDescriptor → Type 0
AreWords = All (λ t. t.size_bytes < 2 ^ 64)

-- the engine counts these tensors
pub record Counts (e : TensorEngine) (live : List TensorDescriptor) : Type 0 where
  pub total : e.total_allocated ≡ u64 (bytes_of live)
  pub count : e.tensor_count ≡ u32 (length live)
  pub words : AreWords live

-- what a client does with its tensors: allocate one, or free the one at a position
pub data Step : Type 0 where
  make : String → List ℕ → DType → Step
  drop_at : ℕ → Step

pub record Session : Type 0 where
  pub engine : TensorEngine
  pub allocator : VramAllocator
  pub live : List TensorDescriptor

abbrev pub push : Option TensorDescriptor → List TensorDescriptor → List TensorDescriptor
push none ts = ts
push (some t) ts = t ∷ ts

-- the tensor at a position and the others
abbrev pub take_out : ℕ → List TensorDescriptor → Option (TensorDescriptor × List TensorDescriptor)
take_out i [] = none
take_out zero (t ∷ ts) = some (t, ts)
take_out (suc i) (t ∷ ts) = elim (take_out i ts) [ none ↦ none | some (u, us) ↦ some (u, t ∷ us) ]

unfoldable pub perform : Step → Session → Session
perform (make name shape dtype) s =
    let r = allocate_tensor s.engine s.allocator name shape dtype in
    record { engine = r.engine; allocator = r.allocator; live = push r.result s.live }
perform (drop_at i) s = elim (take_out i s.live) [
  | none ↦ s
  | some (t, ts) ↦
      let (e, v) = free_tensor s.engine s.allocator t in
      record { engine = e; allocator = v; live = ts }
]

unfoldable pub perform_all : List Step → Session → Session
unfolding perform
perform_all [] s = s
perform_all (x ∷ xs) s = perform_all xs (perform x s)

take_out_lem :
    (i : ℕ) (ts : List TensorDescriptor) {t : TensorDescriptor} {us : List TensorDescriptor}
    → take_out i ts ≡ some (t, us)
    → (bytes_of ts ≡ t.size_bytes + bytes_of us) × (length ts ≡ length us + 1)
take_out_lem i [] e = absurd (cc)
take_out_lem zero (t ∷ ts) e = ground arith
take_out_lem (suc i) (t ∷ ts) e = elim (Option-cases (take_out i ts)) [
  | inl missing ↦ absurd (ground (arith, missing))
  | inr ((u, vs), found) ↦ ground (arith, found, take_out_lem i ts found)
]

take_out-AreWords :
    (i : ℕ) (ts : List TensorDescriptor) {t' : TensorDescriptor} {us : List TensorDescriptor}
    → take_out i ts ≡ some (t', us)
    → AreWords ts
    → (t'.size_bytes < 2 ^ 64) × AreWords us
take_out-AreWords i [] {t'} {us} e w = absurd (cc)
take_out-AreWords zero (t ∷ ts) {t'} {us} e w = ground arith
take_out-AreWords (suc i) (t ∷ ts) {t'} {us} e w = elim (Option-cases (take_out i ts)) [
  | inl missing ↦ absurd (ground (arith, missing))
  | inr ((u, vs), found) ↦
      let ih = take_out-AreWords i ts found w.1 in
      let head : u ≡ t' = ground (arith, found) in
      let rest : t ∷ vs ≡ us = ground (arith, found) in
      (subst (λ x. x.size_bytes < 2 ^ 64) head ih.0, subst AreWords rest (w.0, ih.1))
]

make-Counts :
    (name : String) (shape : List ℕ) (dtype : DType) (s : Session)
    → Counts s.engine s.live
    → Counts (perform (make name shape dtype) s).engine (perform (make name shape dtype) s).live
unfolding perform
make-Counts name shape dtype s c =
    elim (allocate_tensor_cases s.engine s.allocator name shape dtype) [
      | inl (fails, done) ↦ rw done c
      | inr (a, v', fits, done) ↦ rw done (record {
        total = omega (arith, c.total);
        count = omega (arith, c.count);
        words = (size_bytes_lt dtype (total_elements shape), c.words);
      })
    ]

drop_at-Counts :
    (i : ℕ) (s : Session)
    → Counts s.engine s.live
    → Counts (perform (drop_at i) s).engine (perform (drop_at i) s).live
unfolding perform free_tensor
drop_at-Counts i s c = elim (Option-cases (take_out i s.live)) [
  | inl missing ↦ rw (missing, perform) c
  | inr ((t, us), found) ↦
      let sums = take_out_lem i s.live found in
      let words = take_out-AreWords i s.live found c.words in
      rw (found, perform)
        (record {
          total = omega (arith, c.total, sums, words.0);
          count = omega (arith, c.count, sums);
          words = words.1;
        })
]

-- Over any sequence of allocations and frees, failing ones included, the engine's two counters are
-- the number and the total size of the live tensors, as words of 32 and 64 bits.
pub perform_all-Counts :
    (steps : List Step) (s : Session)
    → Counts s.engine s.live
    → Counts (perform_all steps s).engine (perform_all steps s).live
unfolding perform_all
perform_all-Counts [] s c = c
perform_all-Counts (make name shape dtype ∷ xs) s c =
    perform_all-Counts xs (perform (make name shape dtype) s) (make-Counts name shape dtype s c)
perform_all-Counts (drop_at i ∷ xs) s c =
    perform_all-Counts xs (perform (drop_at i) s) (drop_at-Counts i s c)
