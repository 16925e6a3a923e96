-- ===== src/Driver/Session/Laws.antt =====
-- One call of a session on a `GpuDevice` (src/driver.rs).
use gpu_compute_nostd.Base.{
  ℕ, ◌+◌, ◌-◌, ◌^◌, ◌≤◌, ◌<◌, ◌≡◌, sym, subst, Option, none, some, List, [], ◌∷◌, ◌++◌, arith,
  length, inl, inr,
}
use mathlib.Core.Path.{subst₂}
use gpu_compute_nostd.Hardware.{Device, History}
use gpu_compute_nostd.Mmio.{GpuRegs}
use gpu_compute_nostd.Memory.{GpuAllocation, VramAllocator, free}
use gpu_compute_nostd.Memory.Sequence.{kept}
use gpu_compute_nostd.Memory.Invariant.{IsInvariant}
use gpu_compute_nostd.Fifo.Channel.{Channel, allocate_channel, submit, reset_push_buffer}
use gpu_compute_nostd.Fifo.Runlist.{add_channel, remove_channel, commit}
use gpu_compute_nostd.Fifo.Submit.{IsValid, IsLaidOut, submit_cases}
use gpu_compute_nostd.Compute.{
  ComputeEngine, fence_if, load_shader, build_dispatch_commands, dispatch,
}
use gpu_compute_nostd.Compute.Room.{short_commands}
use gpu_compute_nostd.Tensor.Descriptor.{TensorEngine, allocate_tensor, free_tensor}
use gpu_compute_nostd.Driver.Init.{submit_kept}
use gpu_compute_nostd.Driver.Session.{
  Call, Session, make_tensor, drop_tensor, load, launch, send, reset, map_system, open_channel,
  list_channel, unlist_channel, commit_runlist, runlist_block, tensor_block, shader_block,
  fence_block, taken, with_channel, perform, demand, IsShort,
}
use gpu_compute_nostd.Driver.Session.Demand.{owned, Allocates, room-Allocates}
use gpu_compute_nostd.Driver.Session.Allocations.{
  tensor_kept, fence_if_kept, load_shader_kept, allocate_channel_kept, commit_kept,
  channel_blocks-++,
}

-- The channel is valid, the invariant holds of the allocator with all its blocks, and the parts of the push buffer taken since the last reset lie one behind the other.
pub record IsConsistent (P : VramAllocator → List GpuAllocation → Type 0) (s : Session)
    : Type 0 where
  pub channel : IsValid s.channel
  pub memory : P s.vram (owned s)
  pub layout :
      IsLaidOut s.channel.push_buffer.gpu_va
        (s.channel.push_buffer.gpu_va + s.channel.push_offset)
        s.segments

IsLaidOut-snoc :
    (lo mid n : ℕ) (segments : List (ℕ × ℕ))
    → lo ≤ mid
    → IsLaidOut lo mid segments
    → IsLaidOut lo (mid + n) (segments ++ ((mid, n) ∷ []))
IsLaidOut-snoc lo mid n [] le l = (le, omega arith, tt)
IsLaidOut-snoc lo mid n (s ∷ rest) le l =
    (l.0, omega (arith, l.1), IsLaidOut-snoc (s.0 + s.1) mid n rest l.1 l.2)

module _ (P : VramAllocator → List GpuAllocation → Type 0) (laws : IsInvariant P) where
  -- A call of the channel that keeps its buffers and only takes more of the push buffer.
  with_channel-IsConsistent :
      (s : Session) (ch : Channel)
      → IsConsistent P s
      → IsValid ch
      → ch.push_buffer ≡ s.channel.push_buffer
      → ch.gpfifo ≡ s.channel.gpfifo
      → s.channel.push_offset ≤ ch.push_offset
      → IsConsistent P (with_channel s ch)
  with_channel-IsConsistent s ch c valid push gpfifo le =
      let base : ℕ = s.channel.push_buffer.gpu_va in
      let more =
        IsLaidOut-snoc base (base + s.channel.push_offset) (ch.push_offset - s.channel.push_offset)
          s.segments (omega arith) c.layout in
      record {
        channel = valid;
        memory =
            subst₂ (λ p g. P s.vram (s.blocks ++ (p ∷ g ∷ []))) (sym push) (sym gpfifo) c.memory;
        layout = rw push (
            subst (λ end. IsLaidOut base end (s.segments ++ (taken s.channel ch ∷ [])))
              (omega arith) more);
      }

  -- A call that changes the allocator, and keeps a block if it was handed one.
  with_block-IsConsistent :
      (s : Session) (v : VramAllocator) (r : Option GpuAllocation) (e : ComputeEngine)
      (tensors : TensorEngine)
      → IsConsistent P s
      → P v (kept r (owned s))
      → IsConsistent P
          (record s { vram = v; compute = e; tensors = tensors; blocks = kept r s.blocks })
  with_block-IsConsistent s v none e tensors c valid = record {
    channel = c.channel;
    memory = valid;
    layout = c.layout;
  }
  with_block-IsConsistent s v (some a) e tensors c valid = record {
    channel = c.channel;
    memory = valid;
    layout = c.layout;
  }

  -- A submission of a list of words whose number has a bound.
  submitted-IsConsistent :
      (s : Session) (regs : GpuRegs) (commands : List ℕ) (d : Device) (h : History)
      → IsConsistent P s
      → length commands < 2 ^ 29
      → IsConsistent P (with_channel s (submit s.channel regs commands d h).0.1)
  submitted-IsConsistent s regs commands d h c short =
      let k = submit_kept s.channel regs commands d h c.channel (omega arith) in
      with_channel-IsConsistent s (submit s.channel regs commands d h).0.1 c k.0 k.1 k.2
        (elim (submit_cases s.channel regs commands d h c.channel (omega arith)) [
          | inl (full, none_returned, same, quiet) ↦ ground (arith, same)
          | inr (room, returned, moved, kicked) ↦ ground (arith, moved)
        ])

  -- Every call keeps the session consistent, if its allocations keep the invariant and submissions are
  -- short.
  pub performed-IsConsistent :
      (regs : GpuRegs) (c : Call) (s : Session) (d : Device) (h : History)
      → IsConsistent P s
      → Allocates P laws s c
      → IsShort c
      → IsConsistent P (perform regs c s d h).0
  unfolding perform dispatch free_tensor free reset_push_buffer add_channel remove_channel
  performed-IsConsistent regs (make_tensor name shape dtype) s d h c one short =
      let r = allocate_tensor s.tensors s.vram name shape dtype in
      with_block-IsConsistent s r.allocator (tensor_block r.result) s.compute r.engine c
        (tensor_kept P laws s.tensors s.vram name shape dtype (owned s) c.memory one)
  performed-IsConsistent regs (drop_tensor t) s d h c one short = record {
    channel = c.channel;
    memory = c.memory;
    layout = c.layout;
  }
  performed-IsConsistent regs (load binary entry shared registers) s d h c one short =
      let t = load_shader s.vram binary entry shared registers in
      with_block-IsConsistent s t.1 (shader_block t.0) s.compute s.tensors c
        (load_shader_kept P laws s.vram binary entry shared registers (owned s) one)
  performed-IsConsistent regs (launch shader grid block cbs waits) s d h c one short =
      let f = fence_if s.compute s.vram waits in
      let fenced : Session = record s {
        vram = f.2;
        compute = f.1;
        blocks = kept (fence_block f.0) s.blocks;
      } in
      let commands : List ℕ = build_dispatch_commands f.1 shader grid block cbs f.0 in
      submitted-IsConsistent fenced regs commands d h
        (with_block-IsConsistent s f.2 (fence_block f.0) f.1 s.tensors c
          (fence_if_kept P laws s.compute s.vram waits (owned s) c.memory one))
        (short_commands f.1 shader grid block cbs f.0 short)
  performed-IsConsistent regs (send commands) s d h c one short =
      submitted-IsConsistent s regs commands d h c short
  performed-IsConsistent regs reset s d h c one short = record {
    channel = record {
      offset_le = omega arith;
      size_le = c.channel.size_le;
      size_word = c.channel.size_word;
      va_word = c.channel.va_word;
      put_lt = c.channel.put_lt;
      entries_word = c.channel.entries_word;
    };
    memory = c.memory;
    layout = tt;
  }
  performed-IsConsistent regs (map_system p n) s d h c one short = record {
    channel = c.channel;
    memory = one;
    layout = c.layout;
  }
  performed-IsConsistent regs (open_channel id engine) s d h c one short =
      let t = allocate_channel s.vram id engine in
      let valid = allocate_channel_kept P laws s.vram id engine (owned s) one in
      record {
        channel = c.channel;
        memory =
            channel_blocks-++ P laws t.1 t.0 s.blocks
              (s.channel.push_buffer ∷ s.channel.gpfifo ∷ []) valid;
        layout = c.layout;
      }
  performed-IsConsistent regs (list_channel id) s d h c one short = record {
    channel = c.channel;
    memory = c.memory;
    layout = c.layout;
  }
  performed-IsConsistent regs (unlist_channel id) s d h c one short = record {
    channel = c.channel;
    memory = c.memory;
    layout = c.layout;
  }
  performed-IsConsistent regs commit_runlist s d h c one short =
      let listed : Session = record s { runlist = (commit s.runlist s.vram).0 } in
      with_block-IsConsistent listed (commit s.runlist s.vram).1 (runlist_block s.runlist s.vram)
        s.compute s.tensors (record { channel = c.channel; memory = c.memory; layout = c.layout })
        (commit_kept P laws s.runlist s.vram (owned s) c.memory one)

  -- Every call keeps the session consistent, while GPU addresses last and submissions are short.
  pub perform-IsConsistent :
      (regs : GpuRegs) (c : Call) (s : Session) (d : Device) (h : History)
      → IsConsistent P s
      → s.vram.next_gpu_va + demand s c + 0xFFF < 2 ^ 64
      → IsShort c
      → IsConsistent P (perform regs c s d h).0
  perform-IsConsistent regs c s d h k room short =
      performed-IsConsistent regs c s d h k (room-Allocates P laws s c k.memory room) short
