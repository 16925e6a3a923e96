-- ===== src/Memory/Vram.antt =====
-- The data of src/memory.rs.
use gpu_compute_nostd.Base.{ℕ, Bool, List}
use Prim.Native.String.{String}

pub data MemoryType : Type 0 where
  gddr6 gddr6x hbm2 unknown : MemoryType

pub record VramInfo : Type 0 where
  pub total_bytes : ℕ
  pub mem_type : MemoryType
  pub bus_width : ℕ
  pub partitions : ℕ
  pub description : String

pub record GpuAllocation : Type 0 where
  pub gpu_va : ℕ
  pub phys_addr : ℕ
  pub size : ℕ
  pub cpu_mapped : Bool
  pub cpu_va : ℕ

pub record FreeRegion : Type 0 where
  pub start : ℕ
  pub size : ℕ

pub record VramAllocator : Type 0 where
  pub info : VramInfo
  pub free_list : List FreeRegion
  pub next_gpu_va : ℕ
  pub bar1_cpu_base : ℕ
  pub bar1_size : ℕ
  pub bar1_vram_offset : ℕ
