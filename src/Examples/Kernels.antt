-- ===== src/Examples/Kernels.antt =====
-- The theorems on src/compute.rs at a small program.
use gpu_compute_nostd.Base.{
  ℕ, ◌+◌, ◌*◌, ◌%◌, ◌≤◌, ◌<◌, ◌⊎◌, ◌≡◌, ◌≢◌, ◌↔◌, refl, true, false, Option, some, none, List, [],
  ◌∷◌, map, arith, length,
}
use gpu_compute_nostd.Memory.{GpuAllocation, VramAllocator}
use gpu_compute_nostd.Memory.Detect.{init_from}
use gpu_compute_nostd.Pci.Family.{pascal}
use gpu_compute_nostd.Fifo.Channel.{Channel, opened, submit}
use gpu_compute_nostd.Compute.{
  ShaderProgram, GridDim, BlockDim, ConstantBufferBinding, GpuFence, ComputeEngine, new_fence,
  build_dispatch_commands, dispatch,
}
use gpu_compute_nostd.Compute.Commands.{
  decode, call, dispatch_calls, build_dispatch_commands-decode,
}
use gpu_compute_nostd.Compute.Dispatch.{dispatch_wait}
use gpu_compute_nostd.Compute.Room.{dispatch_room}
use gpu_compute_nostd.Fifo.Submit.{IsValid}
use gpu_compute_nostd.Hardware.{store}
use gpu_compute_nostd.Examples.Machines.{ram, board}

abbrev pub block_at : ℕ → GpuAllocation
block_at va = record {
  gpu_va = va;
  phys_addr = 0x200000;
  size = 0x40000;
  cpu_mapped = false;
  cpu_va = 0;
}

abbrev pub engine : ComputeEngine
engine = record { class_id = 0xC0C0; family = pascal; subchannel = 0; next_fence_value = 1 }

abbrev pub program : ShaderProgram
program = record {
  allocation = block_at 0x1_0000_2000;
  size = 64;
  entry_offset = 0;
  shared_mem_size = 1024;
  num_registers = 32;
  num_const_buffers = 0;
}

abbrev pub grid : GridDim
grid = record { x = 4; y = 2; z = 1 }

abbrev pub block : BlockDim
block = record { x = 128; y = 1; z = 1 }

abbrev pub buffers : List ConstantBufferBinding
buffers = record { slot = 0; gpu_va = 0x1_0000_4000; size = 256 } ∷ []

abbrev pub fence : Option GpuFence
fence = some (record { allocation = block_at 0x1_0000_6000; signal_value = 9 })

abbrev channel : Channel
channel = opened 0 0 (block_at 0x1_0001_0000) (block_at 0x1_0002_0000)

abbrev vram : VramAllocator
vram = init_from 0 8 0 0 0

build_dispatch_commands-decode_example :
    decode (build_dispatch_commands engine program grid block buffers fence)
    ≡ map (call engine.subchannel) (dispatch_calls program grid block buffers fence)
build_dispatch_commands-decode_example =
    build_dispatch_commands-decode engine program grid block buffers fence (omega arith)

-- Two words for each of four, two, seven and four calls.
command_words : length (build_dispatch_commands engine program grid block buffers fence) ≡ 34
unfolding build_dispatch_commands
command_words = refl

channel-IsValid : IsValid channel
channel-IsValid = record {
  offset_le = omega arith;
  size_le = omega arith;
  size_word = omega arith;
  va_word = omega arith;
  put_lt = omega arith;
  entries_word = omega arith;
}

dispatch_room_example :
    let n = 88 + 16 * length buffers in
    let (r, h') = dispatch engine board channel program grid block buffers vram false ram [] in
    (r.engine ≡ engine)
    × (r.allocator ≡ vram)
    × (((channel.push_size < channel.push_offset + n)
          × (r.result ≡ false)
          × (r.channel ≡ channel)
          × (h' ≡ []))
        ⊎ ((channel.push_offset + n ≤ channel.push_size)
            × (r.result ≡ true)
            × (r.channel ≡ record channel {
              push_offset = channel.push_offset + n;
              gpfifo_put = (channel.gpfifo_put + 1) % channel.gpfifo_entries;
            })
            × (h' ≡ store (board.bar0 + channel.doorbell_offset) r.channel.gpfifo_put ∷ [])))
dispatch_room_example =
    dispatch_room engine board channel program grid block buffers vram ram [] channel-IsValid
      (omega arith)

dispatch_wait_example :
    ((dispatch engine board channel program grid block buffers vram true ram []).0.result ≡ true)
    ↔ (((new_fence vram engine.next_fence_value).0 ≡ none)
        × ((submit channel board
              (build_dispatch_commands engine program grid block buffers none)
              ram
              []).0.0
            ≢ none))
dispatch_wait_example = dispatch_wait engine board channel program grid block buffers vram ram []
