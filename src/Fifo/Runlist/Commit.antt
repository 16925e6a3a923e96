-- ===== src/Fifo/Runlist/Commit.antt =====
-- `Runlist::commit` of src/fifo.rs, on every branch.
use gpu_compute_nostd.Base.{
  ℕ, ◌+◌, ◌*◌, ◌^◌, ◌≤◌, ◌<◌, ◌≡◌, ◌⊎◌, refl, inl, inr, none, some, List, [], ◌∷◌, arith, length,
  All,
}
use gpu_compute_nostd.Memory
use gpu_compute_nostd.Memory.{GpuAllocation, VramAllocator, allocate, align_page}
use gpu_compute_nostd.Memory.Laws.{
  allocate_outcome, allocate-none_iff, allocate-size, allocate-IsValid,
}
use gpu_compute_nostd.Fifo.Runlist.{Runlist, commit}

List-cases : (xs : List ℕ) → (xs ≡ []) ⊎ (0 < length xs)
List-cases [] = inl refl
List-cases (x ∷ xs) = inr (omega arith)

-- the steps of a commit, by the number of bytes
commit_cases :
    (r : Runlist) (v : VramAllocator)
    → length r.channels < 2 ^ 61
    → let n = length r.channels * 8 in
      ((r.channels ≡ []) × (commit r v ≡ (r, v)))
      ⊎ (((0 < n) × (allocate v n ≡ (none, v)) × (commit r v ≡ (r, v)))
          ⊎ ((0 < n)
              × ((a : GpuAllocation) × (v' : VramAllocator) × (allocate v n ≡ (some a, v'))
                  × (commit r v ≡ (record r { allocation = some a }, v')))))
unfolding commit
commit_cases r v small =
    let n : ℕ = length r.channels * 8 in
    elim (List-cases r.channels) [
      | inl empty ↦ inl (empty, ground (arith, empty))
      | inr some_entry ↦ elim (allocate_outcome v n) [
        | inl fails ↦ inr (inl (omega arith, fails, ground (arith, fails)))
        | inr (a, v', fits) ↦ inr (inr (omega arith, (a, v', fits, ground (arith, fits))))
      ]
    ]

-- With a valid allocator, while GPU addresses last, and with fewer than 2^61 channels: a commit leaves
-- the runlist and the allocator as they were, with an earlier block still the runlist's own, if the
-- runlist has no channel; and if it has one but no free region is large enough for eight bytes for
-- each. In every other case the runlist's block is a new one of at least eight bytes for each channel,
-- which meets none handed out before: an earlier block of the runlist stays among these.
pub commit_lem :
    {lo hi : ℕ} {blocks : List GpuAllocation} (r : Runlist) (v : VramAllocator)
    → Memory.Laws.IsValid lo hi v blocks
    → length r.channels < 2 ^ 61
    → let n = length r.channels * 8 in
      v.next_gpu_va + n + 0xFFF < 2 ^ 64
      → ((r.channels ≡ []) × (commit r v ≡ (r, v)))
        ⊎ ((0 < n) × All (λ region. region.size < align_page n) v.free_list × (commit r v ≡ (r, v)))
        ⊎ ((0 < n)
            × ((a : GpuAllocation) × (v' : VramAllocator) × (commit r v
                  ≡ (record r { allocation = some a }, v'))
                × (n ≤ a.size)
                × Memory.Laws.IsValid lo hi v' (a ∷ blocks)))
commit_lem r v valid small room =
    let n : ℕ = length r.channels * 8 in
    elim (commit_cases r v small) [
      | inl (empty, same) ↦ inl (empty, same)
      | inr (inl (some_entry, fails, same)) ↦
          inr (inl (some_entry, (allocate-none_iff v n).0 fails, same))
      | inr (inr (some_entry, (a, v', fits, done))) ↦ inr (
          inr (
            some_entry,
            (
              a,
              v',
              done,
              omega (arith, allocate-size v n room fits),
              allocate-IsValid n valid room fits,
            ),
          ))
    ]
