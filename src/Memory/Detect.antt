-- ===== src/Memory/Detect.antt =====
-- `VramAllocator::detect_and_init` and `decode_vram_size` of src/memory.rs.
use gpu_compute_nostd.Base.{
  ℕ, ◌-◌, ◌*◌, ◌/◌, [], ◌∷◌, bit_and, u32, ◌<<◌, ◌>>>◌, ltb, leb, ◌==◌, within, if◌then◌else◌, ◌&&◌,
}
use Prim.Native.String.{String, ◌++◌}
use gpu_compute_nostd.Base.Text.{decimal}
use gpu_compute_nostd.Hardware.{Io, pure, ◌>>=◌}
use gpu_compute_nostd.Mmio.{GpuRegs, read32, nv_pfb_cfg0, nv_pfb_vram_size, nv_pfb_nparts}
use gpu_compute_nostd.Memory.Vram.{MemoryType, gddr6, gddr6x, hbm2, unknown, VramAllocator}

-- `impl Display for MemoryType`
unfoldable pub mem_type_name : MemoryType → String
mem_type_name gddr6 = "GDDR6"
mem_type_name gddr6x = "GDDR6X"
mem_type_name hbm2 = "HBM2"
mem_type_name unknown = "Unknown"

unfoldable pub decode_vram_size : ℕ → ℕ
decode_vram_size reg =
    if reg == 0
    then 8 * 1024 * 1024 * 1024
    else (let size = reg << 20 in
        if ltb 0 size && leb size (128 * 1024 * 1024 * 1024) then size else 0)

-- the `match` on `(cfg0 >> 8) & 0xF`
unfoldable pub decode_mem_type : ℕ → MemoryType
decode_mem_type cfg0 =
    let t = bit_and (cfg0 >>> 8) 0xF in
    if within 0x0 0x3 t
    then gddr6
    else if within 0x4 0x7 t
    then gddr6x
    else if within 0x8 0xB t
    then hbm2
    else unknown

unfoldable pub decode_bus_width : MemoryType → ℕ → ℕ
decode_bus_width hbm2 partitions = u32 (partitions * 128)
decode_bus_width _ partitions = u32 (partitions * 32)

abbrev pub reserved : ℕ
reserved = 1024 * 1024

-- the values that `detect_and_init` computes from the three registers
unfoldable pub init_from : ℕ → ℕ → ℕ → ℕ → ℕ → VramAllocator
init_from cfg0 vram_size_reg nparts bar1_cpu_base bar1_size =
    let total_bytes = decode_vram_size vram_size_reg in
    let partitions = bit_and nparts 0xFF in
    let mem_type = decode_mem_type cfg0 in
    let bus_width = decode_bus_width mem_type partitions in
    let description =
      decimal (total_bytes / (1024 * 1024))
      ++ " MiB "
      ++ mem_type_name mem_type
      ++ " ("
      ++ decimal bus_width
      ++ "-bit, "
      ++ decimal partitions
      ++ " partitions)" in
    record {
      info = record {
        total_bytes = total_bytes;
        mem_type = mem_type;
        bus_width = bus_width;
        partitions = partitions;
        description = description;
      };
      free_list = record { start = reserved; size = total_bytes - reserved } ∷ [];
      next_gpu_va = 0x0001_0000_0000;
      bar1_cpu_base = bar1_cpu_base;
      bar1_size = bar1_size;
      bar1_vram_offset = 0;
    }

unfoldable pub detect_and_init : GpuRegs → ℕ → ℕ → Io VramAllocator
unfolding read32 init_from
detect_and_init regs bar1_cpu_base bar1_size = do
  cfg0 ← read32 regs nv_pfb_cfg0
  vram_size_reg ← read32 regs nv_pfb_vram_size
  nparts ← read32 regs nv_pfb_nparts
  pure (init_from cfg0 vram_size_reg nparts bar1_cpu_base bar1_size)
