-- ===== src/Driver/Session/Checked/Exact.antt =====
-- Calls of a session on a `GpuDevice` (src/driver.rs) that do not panic in a build with overflow
-- checks.
use gpu_compute_nostd.Base.{ℕ, ◌+◌, ◌-◌, ◌^◌, ◌<◌, ◌≡◌, refl, Bool, some, arith}
use gpu_compute_nostd.Base.Checked.{done, >>=_after}
use gpu_compute_nostd.Hardware.{Device, History}
use gpu_compute_nostd.Mmio.{GpuRegs}
use gpu_compute_nostd.Pci.Scan.{GpuPciDevice}
use gpu_compute_nostd.Memory.Bar1.{FitsBar1}
use gpu_compute_nostd.Memory.Laws.{IsValid}
use gpu_compute_nostd.Memory.Invariant.{IsValid-IsInvariant}
use gpu_compute_nostd.Memory.Detect.{reserved}
use gpu_compute_nostd.Memory.Checked.{map_system_memory_checked}
use gpu_compute_nostd.Memory.Checked.Laws.{map_system_memory_exact}
use gpu_compute_nostd.Fifo.Channel.{Channel}
use gpu_compute_nostd.Fifo.Checked.{allocate_channel_checked, submit_checked, commit_checked}
use gpu_compute_nostd.Fifo.Checked.Laws.{submit_exact, allocate_channel_exact, commit_exact}
use gpu_compute_nostd.Compute.Checked.{load_shader_checked, dispatch_checked}
use gpu_compute_nostd.Compute.Checked.Exact.{load_shader_exact, dispatch_exact}
use gpu_compute_nostd.Tensor.Checked.{allocate_tensor_checked, free_tensor_checked}
use gpu_compute_nostd.Tensor.Checked.Exact.{allocate_tensor_exact, free_tensor_exact}
use gpu_compute_nostd.Driver.{GpuDevice, init_device}
use gpu_compute_nostd.Driver.Init.{init_device-IsSetUp}
use gpu_compute_nostd.Driver.Session.{
  Call, Session, make_tensor, drop_tensor, load, launch, send, reset, map_system, open_channel,
  list_channel, unlist_channel, commit_runlist, perform, demand, IsShort, Reach, opened,
}
use gpu_compute_nostd.Driver.Session.Demand.{owned}
use gpu_compute_nostd.Driver.Session.Laws.{IsConsistent}
use gpu_compute_nostd.Driver.Session.Opened.{Reach_kept}
use gpu_compute_nostd.Driver.Session.Safety.{Reach-IsConsistent, opened-IsConsistent}
use gpu_compute_nostd.Driver.Session.Checked.{perform_checked, IsExact}
use gpu_compute_nostd.Driver.Session.Checked.Kept.{
  FitsBar1-IsInvariant, Reach-HasWords, opened-HasWords, init-FitsBar1, numbered,
}
use gpu_compute_nostd.Driver.Session.Checked.Equivalence.{HasWords}

module _ (lo hi : ℕ) where
  perform_exact :
      (info : Bool) (regs : GpuRegs) (c : Call) (s : Session) (d : Device) (h : History)
      → IsConsistent (IsValid lo hi) s
      → FitsBar1 s.vram
      → HasWords s.tensors
      → s.runlist.id < 2 ^ 27
      → s.vram.next_gpu_va + demand s c + 0xFFF < 2 ^ 64
      → IsShort c
      → IsExact info s c
      → perform_checked info regs c s d h ≡ done (perform regs c s d h)
  unfolding perform_checked perform
  perform_exact info regs (make_tensor name shape dtype) s d h k fits words numbered room short e =
      >>=_after (allocate_tensor_checked s.tensors s.vram name shape dtype) _ _ _
        (allocate_tensor_exact lo hi s.tensors s.vram name shape dtype k.memory.word k.memory.within
          e.0 e.1 e.2 room)
        refl
  perform_exact info regs (drop_tensor t) s d h k fits words numbered room short e =
      >>=_after (free_tensor_checked s.tensors s.vram t) _ _ _
        (free_tensor_exact s.tensors s.vram t words.0 words.1 e.0 e.1) refl
  perform_exact info regs (load binary entry shared registers) s d h k fits words numbered room
        short e =
      >>=_after (load_shader_checked s.vram binary entry shared registers) _ _ _
        (load_shader_exact lo hi s.vram (owned s) binary entry shared registers k.memory fits room)
        refl
  perform_exact info regs (launch shader grid block cbs waits) s d h k fits words numbered room
        short e =
      >>=_after
        (dispatch_checked info s.compute regs s.channel shader grid block cbs s.vram waits d h) _ _
        _
        (dispatch_exact lo hi info s.compute regs s.channel shader grid block cbs s.vram waits d h
          k.memory.word k.memory.within e.0 room e.1 k.channel short)
        refl
  perform_exact info regs (send commands) s d h k fits words numbered room short e =
      >>=_after (submit_checked s.channel regs commands d h) _ _ _
        (submit_exact s.channel regs commands d h k.channel (omega arith)) refl
  perform_exact info regs reset s d h k fits words numbered room short e = refl
  perform_exact info regs (map_system p n) s d h k fits words numbered room short e =
      >>=_after (map_system_memory_checked s.vram p n) _ _ _
        (map_system_memory_exact s.vram p n room) refl
  perform_exact info regs (open_channel id engine) s d h k fits words numbered room short e =
      >>=_after (allocate_channel_checked s.vram id engine) _ _ _
        (allocate_channel_exact lo hi s.vram (owned s) id engine k.memory short (omega arith)) refl
  perform_exact info regs (list_channel id) s d h k fits words numbered room short e = refl
  perform_exact info regs (unlist_channel id) s d h k fits words numbered room short e = refl
  perform_exact info regs commit_runlist s d h k fits words numbered room short e =
      >>=_after (commit_checked s.runlist s.vram) _ _ _
        (commit_exact lo hi s.vram k.memory.word k.memory.within s.runlist (numbered, omega arith)
          room)
        refl

-- From an initialization that has opened a channel on, in every state that calls lead to, the next
-- call does not panic in a build with overflow checks, and does what it does without them. This is
-- while GPU addresses last, BAR1 fits the CPU's addresses, a submission has less than 2 GiB, a
-- dispatch less than 2^24 constant buffers, and channel numbers are below 2^16; a tensor has at least
-- one and fewer than 2^61 elements and the engine's counters have room for it; a tensor that is
-- dropped is counted; and a dispatch has a next fence value, and the numbers of blocks and of threads
-- that it logs, if it does, fit 32 bits.
pub init_device-perform_checked :
    (info : Bool) (pci : GpuPciDevice) (d : Device) (h : History) {ch : Channel} {s : Session}
    {h' : History} (c : Call)
    → pci.bar1_base + pci.bar1_size < 2 ^ 64
    → let (g, h1) = init_device pci d h in
      g.compute_channel ≡ some ch
      → Reach g.regs d (opened g ch) h1 s h'
      → s.vram.next_gpu_va + demand s c + 0xFFF < 2 ^ 64
      → IsShort c
      → IsExact info s c
      → perform_checked info g.regs c s d h' ≡ done (perform g.regs c s d h')
init_device-perform_checked info pci d h {ch} {s} {h'} c fits e r room short exact =
    let g : GpuDevice = (init_device pci d h).0 in
    let hi : ℕ = reserved + (g.vram.info.total_bytes - reserved) in
    let k =
      Reach-IsConsistent (IsValid reserved hi) (IsValid-IsInvariant reserved hi) g.regs d
        (opened g ch) (init_device pci d h).1
        (opened-IsConsistent hi g e (init_device-IsSetUp pci d h)) r in
    let aperture =
      Reach_kept (λ v blocks. FitsBar1 v) FitsBar1-IsInvariant pci d h
        (λ cfg0 size_reg nparts.
          init-FitsBar1 pci.bar1_base pci.bar1_size cfg0 size_reg nparts fits)
        e r in
    perform_exact reserved hi info g.regs c s d h' k aperture
      (Reach-HasWords (opened-HasWords pci d h) r) (numbered g r) room short exact
