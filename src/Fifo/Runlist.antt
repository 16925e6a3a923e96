-- ===== src/Fifo/Runlist.antt =====
-- `Runlist` and `init_fifo` of src/fifo.rs.
pub mod Laws
pub mod Order
pub mod Commit
use gpu_compute_nostd.Base.{
  ℕ, ◌*◌, Option, none, some, List, [], ◌∷◌, ◌++◌, length, u64, ltb, ◌!=◌, if◌then◌else◌,
}
use gpu_compute_nostd.Hardware.{Io, ◌>>◌}
use gpu_compute_nostd.Mmio.{GpuRegs, read32, write32, nv_pfifo_intr_0, nv_pfifo_intr_en_0}
use gpu_compute_nostd.Memory.{GpuAllocation, VramAllocator, allocate}

pub record Runlist : Type 0 where
  pub id : ℕ
  pub channels : List ℕ
  pub allocation : Option GpuAllocation

unfoldable pub new_runlist : ℕ → Runlist
new_runlist id = record { id = id; channels = []; allocation = none }

unfoldable pub add_channel : Runlist → ℕ → Runlist
add_channel r channel_id = record r { channels = r.channels ++ (channel_id ∷ []) }

-- `Vec::retain` with `c != channel_id`
unfoldable pub retain_ne : ℕ → List ℕ → List ℕ
retain_ne channel_id [] = []
retain_ne channel_id (c ∷ cs) =
    let rest = retain_ne channel_id cs in if c != channel_id then c ∷ rest else rest

unfoldable pub remove_channel : Runlist → ℕ → Runlist
unfolding retain_ne
remove_channel r channel_id = record r { channels = retain_ne channel_id r.channels }

-- `commit` uses the registers for nothing yet.
unfoldable pub commit : Runlist → VramAllocator → Runlist × VramAllocator
commit r allocator =
    let alloc_size = u64 (length r.channels * 8) in
    if ltb 0 alloc_size
    then (let (a, allocator') = allocate allocator alloc_size in
        elim a [
          | some alloc ↦ (record r { allocation = some alloc }, allocator')
          | none ↦ (r, allocator')
        ])
    else (r, allocator)

unfoldable pub init_fifo : GpuRegs → Io (Unit {0})
unfolding read32 write32
init_fifo regs = do
  read32 regs nv_pfifo_intr_0
  write32 regs nv_pfifo_intr_0 0xFFFF_FFFF
  write32 regs nv_pfifo_intr_en_0 0xFFFF_FFFF
