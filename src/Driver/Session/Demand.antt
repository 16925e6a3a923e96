-- ===== src/Driver/Session/Demand.antt =====
-- The allocations of one call of a session on a `GpuDevice` (src/driver.rs).
use gpu_compute_nostd.Base.{
  ◌*◌, true, u64, ltb, ◌+◌, ◌^◌, ◌<◌, ◌≡◌, List, [], ◌∷◌, ◌++◌, arith, length,
}
use gpu_compute_nostd.Memory.{GpuAllocation, VramAllocator, map_system_memory}
use gpu_compute_nostd.Memory.Invariant.{IsInvariant}
use gpu_compute_nostd.Tensor.Shape.{total_elements, size_bytes}
use gpu_compute_nostd.Driver.Session.{
  Call, Session, make_tensor, drop_tensor, load, launch, send, reset, map_system, open_channel,
  list_channel, unlist_channel, commit_runlist, demand,
}
use gpu_compute_nostd.Driver.Session.Allocations.{Allocated, AllocatedTwo, room-AllocatedTwo}

-- the blocks that the allocator has handed out: the clients' and the channel's two
abbrev pub owned : Session → List GpuAllocation
owned s = s.blocks ++ (s.channel.push_buffer ∷ s.channel.gpfifo ∷ [])

module _ (P : VramAllocator → List GpuAllocation → Type 0) (laws : IsInvariant P) where
  -- what the allocations of a call leave of the invariant
  abbrev pub Allocates : Session → Call → Type 0
  Allocates s (make_tensor name shape dtype) =
      Allocated P s.vram (size_bytes dtype (total_elements shape)) (owned s)
  Allocates s (load binary entry shared registers) = Allocated P s.vram (length binary) (owned s)
  Allocates s (launch shader grid block cbs waits) = waits ≡ true → Allocated P s.vram 64 (owned s)
  Allocates s (map_system p n) = P (map_system_memory s.vram p n).1 (owned s)
  Allocates s (open_channel id engine) = AllocatedTwo P s.vram (owned s)
  Allocates s commit_runlist =
      ltb 0 (u64 (length s.runlist.channels * 8)) ≡ true
      → Allocated P s.vram (u64 (length s.runlist.channels * 8)) (owned s)
  Allocates s c = Unit

  -- While GPU addresses last, every allocation keeps the invariant.
  pub room-Allocates :
      (s : Session) (c : Call)
      → P s.vram (owned s)
      → s.vram.next_gpu_va + demand s c + 0xFFF < 2 ^ 64
      → Allocates s c
  room-Allocates s (make_tensor name shape dtype) valid room =
      laws.allocated s.vram (owned s) (size_bytes dtype (total_elements shape)) valid room
  room-Allocates s (drop_tensor t) valid room = tt
  room-Allocates s (load binary entry shared registers) valid room =
      laws.allocated s.vram (owned s) (length binary) valid room
  room-Allocates s (launch shader grid block cbs waits) valid room =
      λ e. laws.allocated s.vram (owned s) 64 valid room
  room-Allocates s (send commands) valid room = tt
  room-Allocates s reset valid room = tt
  room-Allocates s (map_system p n) valid room = laws.system_mapped s.vram (owned s) p n valid room
  room-Allocates s (open_channel id engine) valid room =
      room-AllocatedTwo P laws s.vram (owned s) valid room
  room-Allocates s (list_channel id) valid room = tt
  room-Allocates s (unlist_channel id) valid room = tt
  room-Allocates s commit_runlist valid room =
      λ e. laws.allocated s.vram (owned s) (u64 (length s.runlist.channels * 8)) valid (omega arith)
