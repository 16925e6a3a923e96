-- ===== src/Driver/Session/Checked/Safety.antt =====
-- The memory of the parts of a `GpuDevice` (src/driver.rs) in a build with overflow checks, whatever
-- its client calls.
use gpu_compute_nostd.Base.{ℕ, ◌+◌, ◌-◌, ◌≡◌, sym, subst, Bool, some}
use gpu_compute_nostd.Base.Checked.{done, Agrees-done}
use gpu_compute_nostd.Hardware.{Device, History}
use gpu_compute_nostd.Mmio.{GpuRegs}
use gpu_compute_nostd.Pci.Scan.{GpuPciDevice}
use gpu_compute_nostd.Memory.Detect.{reserved}
use gpu_compute_nostd.Memory.Laws.{IsValid}
use gpu_compute_nostd.Memory.Invariant.{IsValid-IsInvariant}
use gpu_compute_nostd.Fifo.Channel.{Channel}
use gpu_compute_nostd.Driver.{GpuDevice, init_device}
use gpu_compute_nostd.Driver.Init.{IsSetUp, init_device-IsSetUp}
use gpu_compute_nostd.Driver.Checked.{init_device_checked}
use gpu_compute_nostd.Driver.Checked.Init.{init_device-Agrees}
use gpu_compute_nostd.Driver.Session.{Call, Session, IsShort, perform, opened}
use gpu_compute_nostd.Driver.Session.Laws.{IsConsistent, performed-IsConsistent}
use gpu_compute_nostd.Driver.Session.Safety.{IsSafe, IsConsistent-IsSafe, opened-IsConsistent}
use gpu_compute_nostd.Driver.Session.Checked.{perform_checked}
use gpu_compute_nostd.Driver.Session.Checked.Equivalence.{HasWords, perform-Agrees}
use gpu_compute_nostd.Driver.Session.Checked.Kept.{perform-HasWords, opened-HasWords}
use gpu_compute_nostd.Driver.Session.Checked.Allocations.{perform_checked-Allocates}

-- The states that calls lead to, none of which has panicked, while submissions are short.
pub data ReachChecked (info : Bool) (regs : GpuRegs) (d : Device) (start : Session) (h : History)
    : Session → History → Type 0 where
  here : ReachChecked info regs d start h start h
  step :
      (c : Call) {s s' : Session} {h1 h2 : History}
      → ReachChecked info regs d start h s h1
      → IsShort c
      → perform_checked info regs c s d h1 ≡ done (s', h2)
      → ReachChecked info regs d start h s' h2

module _ (lo hi : ℕ) (info : Bool) (regs : GpuRegs) (d : Device) (start : Session)
    (h : History) where
  ReachChecked-IsConsistent :
      {s : Session} {h' : History}
      → IsConsistent (IsValid lo hi) start
      → HasWords start.tensors
      → ReachChecked info regs d start h s h'
      → IsConsistent (IsValid lo hi) s × HasWords s.tensors
  ReachChecked-IsConsistent c words here = (c, words)
  ReachChecked-IsConsistent c words (step call {s = s1} {h1 = h1} before short e) =
      let (k, w) = ReachChecked-IsConsistent c words before in
      let same =
        sym (Agrees-done (perform regs call s1 d h1) (perform-Agrees info regs call s1 d h1 w) e) in
      let allocates = perform_checked-Allocates lo hi info regs call s1 d h1 k.memory e in
      (
        subst (λ t. IsConsistent (IsValid lo hi) t.0) same
            (performed-IsConsistent (IsValid lo hi) (IsValid-IsInvariant lo hi) regs call s1 d h1 k
              allocates short),
        subst (λ t. HasWords t.0.tensors) same (perform-HasWords regs call s1 d h1 w),
      )

-- In a build with overflow checks, from an initialization that has returned with a channel on,
-- whatever calls follow, without a bound on the memory that they ask for: as long as none of them has
-- panicked, no two blocks handed out meet, in VRAM or in the GPU's address space, with the channel's
-- push buffer and GPFIFO among them; each block starts behind the reserved first MiB and, unless it is
-- empty, ends within the VRAM; and the parts of the push buffer taken since the last reset follow one
-- another within it and meet no other block. A submission has less than 2 GiB, a dispatch less than
-- 2^24 constant buffers, and channel numbers are below 2^16.
pub init_device-IsSafe_checked :
    (info : Bool) (pci : GpuPciDevice) (d : Device) (h : History) {g : GpuDevice} {h1 : History}
    {ch : Channel} {s : Session} {h' : History}
    → init_device_checked pci d h ≡ done (g, h1)
    → g.compute_channel ≡ some ch
    → ReachChecked info g.regs d (opened g ch) h1 s h'
    → IsSafe g.vram.info.total_bytes s
init_device-IsSafe_checked info pci d h {g} {h1} {ch} {s} {h'} returned e r =
    let same = sym (Agrees-done (init_device pci d h) (init_device-Agrees pci d h) returned) in
    let total : ℕ = g.vram.info.total_bytes in
    let hi : ℕ = reserved + (total - reserved) in
    let set_up =
      subst
        (λ t.
          IsSetUp (reserved + (t.0.vram.info.total_bytes - reserved)) t.0.vram t.0.compute_channel)
        same (init_device-IsSetUp pci d h) in
    let words = subst (λ t. HasWords t.0.tensors) same (opened-HasWords pci d h) in
    IsConsistent-IsSafe total s
      (ReachChecked-IsConsistent reserved hi info g.regs d (opened g ch) h1
        (opened-IsConsistent hi g e set_up) words r).0
