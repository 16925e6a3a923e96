-- ===== src/Examples/Vram.antt =====
-- The theorems on src/memory.rs at a small VRAM, and runs of the allocator.
use gpu_compute_nostd.Base.{
  ◌+◌, ◌%◌, ◌≤◌, ◌<◌, ◌≡◌, refl, false, some, none, List, [], ◌∷◌, All, length, ◌-◌, ◌^◌, arith,
}
use gpu_compute_nostd.Hardware.{store}
use gpu_compute_nostd.Mmio.{nv_pfb_vram_size}
use gpu_compute_nostd.Memory.{
  GpuAllocation, VramAllocator, gddr6, allocate, first_fit, align_page, map_system_memory, free,
}
use gpu_compute_nostd.Memory.Detect.{detect_and_init, init_from, decode_vram_size, reserved}
use gpu_compute_nostd.Memory.Regions.{free_bytes}
use gpu_compute_nostd.Memory.Laws.{Disjoint, allocate-size}
use gpu_compute_nostd.Memory.Sequence.{
  Request, alloc, release, map_system, serve, IsPlaced, va_cost,
}
use gpu_compute_nostd.Memory.Threads.{
  Event, begin, finish, map_call, free_call, run, step, idle, take_region, assign_va,
}
use gpu_compute_nostd.Memory.Threads.Laws.{run-serve, detect-run-Disjoint}
use gpu_compute_nostd.Memory.Bump.{
  replay, first_free, demand, allocations, detect-replay, detect-all,
}
use gpu_compute_nostd.Examples.Machines.{ram, board}

abbrev pub taken : GpuAllocation
taken = record {
  gpu_va = 0x1000;
  phys_addr = 0x100000;
  size = 0x1000;
  cpu_mapped = false;
  cpu_va = 0;
}

abbrev next : GpuAllocation
next = record {
  gpu_va = 0x2000;
  phys_addr = 0x101000;
  size = 0x2000;
  cpu_mapped = false;
  cpu_va = 0;
}

-- two free regions behind the reserved part
abbrev pub pool : VramAllocator
pool = record {
  info = record {
    total_bytes = 0x800000;
    mem_type = gddr6;
    bus_width = 256;
    partitions = 8;
    description = "8 MiB";
  };
  free_list =
      record { start = 0x100000; size = 0x1000 }
      ∷ record { start = 0x400000; size = 0x400000 }
      ∷ [];
  next_gpu_va = 0x100000000;
  bar1_cpu_base = 0xE0000000;
  bar1_size = 0x600000;
  bar1_vram_offset = 0;
}

-- the block for 5000 bytes, from the second region
abbrev given : GpuAllocation
given = record {
  gpu_va = 0x100000000;
  phys_addr = 0x400000;
  size = 0x2000;
  cpu_mapped = false;
  cpu_va = 0;
}

abbrev left : VramAllocator
left = record pool {
  free_list =
      record { start = 0x100000; size = 0x1000 }
      ∷ record { start = 0x402000; size = 0x3FE000 }
      ∷ [];
  next_gpu_va = 0x100002000;
}

second_region : allocate pool 5000 ≡ (some given, left)
unfolding allocate first_fit align_page
second_region = refl

allocate-size_example :
    (given.size % 4096 ≡ 0)
    × (5000 ≤ given.size)
    × (given.size < 5000 + 4096)
    × (free_bytes left.free_list + given.size ≡ free_bytes pool.free_list)
    × (given.gpu_va ≡ pool.next_gpu_va)
    × (left.next_gpu_va ≡ pool.next_gpu_va + given.size)
allocate-size_example = allocate-size pool 5000 (omega arith) second_region

abbrev pub calls : List Request
calls = alloc 5000 ∷ release taken ∷ map_system 0x7000 100 ∷ alloc 1 ∷ []

-- One thread is inside `allocate` while others map memory, free a block and ask for one themselves.
abbrev events : List Event
events =
    begin 5000
    ∷ map_call 0x7000 100
    ∷ begin 1
    ∷ free_call taken
    ∷ finish
    ∷ begin 1
    ∷ finish
    ∷ begin 0x800000
    ∷ []

events_end : (run events (idle pool)).holder ≡ none
unfolding run step take_region assign_va first_fit align_page map_system_memory free
events_end = refl

events_room :
    let v = (detect_and_init board 0xE0000000 0x600000 ram (store nv_pfb_vram_size 8 ∷ [])).0 in
    0x0001_0000_0000 + va_cost (run events (idle v)).calls < 2 ^ 64
unfolding run step take_region assign_va first_fit align_page map_system_memory free detect_and_init
    init_from decode_vram_size
events_room = omega arith

run-serve_example :
    serve (run events (idle pool)).calls pool []
    ≡ ((run events (idle pool)).vram, (run events (idle pool)).blocks)
run-serve_example = run-serve pool events events_end

detect-run-Disjoint_example :
    let v = (detect_and_init board 0xE0000000 0x600000 ram (store nv_pfb_vram_size 8 ∷ [])).0 in
    let w = run events (idle v) in Disjoint w.blocks × All (IsPlaced v.info.total_bytes) w.blocks
detect-run-Disjoint_example =
    detect-run-Disjoint board 0xE0000000 0x600000 ram (store nv_pfb_vram_size 8 ∷ []) events
      events_room

detect-replay_example :
    let v = (detect_and_init board 0xE0000000 0x600000 ram (store nv_pfb_vram_size 8 ∷ [])).0 in
    (serve calls v []).1 ≡ (replay calls (first_free v.info.total_bytes) []).1
detect-replay_example =
    detect-replay board 0xE0000000 0x600000 ram (store nv_pfb_vram_size 8 ∷ []) calls (omega arith)

calls_fit :
    demand calls
    ≤ (detect_and_init board 0xE0000000 0x600000 ram
        (store nv_pfb_vram_size 8 ∷ [])).0.info.total_bytes
      - reserved
unfolding detect_and_init init_from decode_vram_size
calls_fit = omega arith

detect-all_example :
    let v = (detect_and_init board 0xE0000000 0x600000 ram (store nv_pfb_vram_size 8 ∷ [])).0 in
    length (serve calls v []).1 ≡ allocations calls
detect-all_example =
    detect-all board 0xE0000000 0x600000 ram (store nv_pfb_vram_size 8 ∷ []) calls (omega arith)
      calls_fit
