-- ===== src/Memory/Threads.antt =====
-- `VramAllocator` (src/memory.rs) under any number of threads. `allocate` holds the lock on the free
-- list for the whole call and takes the one on the next address inside it, and `map_system_memory`
-- takes the second one alone. So a call of `allocate` has two atomic steps, and only calls of
-- `map_system_memory` and `free` come between them.
pub mod Laws
use gpu_compute_nostd.Base.{ℕ, ◌+◌, ◌≡◌, false, Option, none, some, List, [], ◌∷◌, ◌++◌, u64, arith}
use gpu_compute_nostd.Memory.Vram.{GpuAllocation, VramAllocator}
use gpu_compute_nostd.Memory.Allocator.{align_page, first_fit, allocate, free, map_system_memory}
use gpu_compute_nostd.Memory.Sequence.{Request, alloc, release, map_system}

-- a call of `allocate` between its steps: the size asked for and the address taken
pub record Pending : Type 0 where
  pub size : ℕ
  pub phys_addr : ℕ

-- the first step, under the lock on the free list: the loop up to the change of the region
unfoldable pub take_region : VramAllocator → ℕ → Option (Pending × VramAllocator)
take_region v size = elim (first_fit v.free_list (align_page size)) [
  | none ↦ none
  | some (p, regions) ↦
      some (record { size = size; phys_addr = p }, record v { free_list = regions })
]

-- the second step, under the lock on the next address
unfoldable pub assign_va : VramAllocator → Pending → GpuAllocation × VramAllocator
assign_va v t =
    let n = align_page t.size in
    (
      record {
        gpu_va = v.next_gpu_va;
        phys_addr = t.phys_addr;
        size = n;
        cpu_mapped = false;
        cpu_va = 0;
      },
      record v { next_gpu_va = u64 (v.next_gpu_va + n) },
    )

-- The two steps of a call that nothing comes between are `allocate`.
pub take_region-assign_va :
    (v : VramAllocator) (size : ℕ)
    → elim (take_region v size) [
      | none ↦ (none, v)
      | some (t, v') ↦ (some (assign_va v' t).0, (assign_va v' t).1)
    ]
      ≡ allocate v size
unfolding take_region assign_va allocate
take_region-assign_va v size = ground arith

-- what a thread may do next; who it is makes no difference
pub data Event : Type 0 where
  begin : ℕ → Event
  finish : Event
  map_call : ℕ → ℕ → Event
  free_call : GpuAllocation → Event

-- The allocator, the call that holds the lock on the free list, and the calls that have returned, in
-- that order, with the blocks given to them, the latest first.
pub record World : Type 0 where
  pub vram : VramAllocator
  pub holder : Option Pending
  pub calls : List Request
  pub blocks : List GpuAllocation

abbrev pub after_begin : ℕ → World → Option (Pending × VramAllocator) → World
after_begin n w none = record w { calls = w.calls ++ (alloc n ∷ []) }
after_begin n w (some (t, v')) = record w { vram = v'; holder = some t }

-- One step of one thread. A call that finds the free list locked waits, and `finish` is a step only
-- of the thread that holds it.
unfoldable pub step : Event → World → World
step (begin n) w = elim w.holder [ none ↦ after_begin n w (take_region w.vram n) | some t ↦ w ]
step finish w = elim w.holder [
  | none ↦ w
  | some t ↦
      let (a, v) = assign_va w.vram t in
      record {
        vram = v;
        holder = none;
        calls = w.calls ++ (alloc t.size ∷ []);
        blocks = a ∷ w.blocks;
      }
]
step (map_call p n) w = record w {
  vram = (map_system_memory w.vram p n).1;
  calls = w.calls ++ (map_system p n ∷ []);
}
step (free_call a) w = record w { vram = free w.vram a; calls = w.calls ++ (release a ∷ []) }

unfoldable pub run : List Event → World → World
run [] w = w
run (e ∷ es) w = run es (step e w)

abbrev pub idle : VramAllocator → World
idle v = record { vram = v; holder = none; calls = []; blocks = [] }
