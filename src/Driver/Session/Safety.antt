-- ===== src/Driver/Session/Safety.antt =====
-- The memory of the parts of a `GpuDevice` (src/driver.rs), whatever its client calls.
use gpu_compute_nostd.Base.{ℕ, ◌+◌, ◌-◌, ◌≤◌, ◌≡◌, subst, some, List, [], ◌∷◌, ◌++◌, arith, All}
use gpu_compute_nostd.Hardware.{Device, History}
use gpu_compute_nostd.Mmio.{GpuRegs}
use gpu_compute_nostd.Pci.Scan.{GpuPciDevice}
use gpu_compute_nostd.Memory.{GpuAllocation, VramAllocator}
use gpu_compute_nostd.Memory.Detect.{reserved}
use gpu_compute_nostd.Memory.Regions.{Apart}
use gpu_compute_nostd.Memory.Laws.{IsValid, IsClear, Disjoint}
use gpu_compute_nostd.Memory.Invariant.{IsInvariant, IsValid-IsInvariant}
use gpu_compute_nostd.Memory.Sequence.{IsPlaced, All-IsPlaced}
use gpu_compute_nostd.Fifo.Submit.{IsLaidOut}
use gpu_compute_nostd.Fifo.Channel.{Channel}
use gpu_compute_nostd.Driver.{GpuDevice, init_device}
use gpu_compute_nostd.Driver.Init.{IsSetUp, init_device-IsSetUp}
use gpu_compute_nostd.Driver.Session.{Session, Reach, here, step, opened}
use gpu_compute_nostd.Driver.Session.Demand.{owned}
use gpu_compute_nostd.Driver.Session.Laws.{IsConsistent, perform-IsConsistent}

pub Reach-IsConsistent :
    (P : VramAllocator → List GpuAllocation → Type 0) (laws : IsInvariant P) (regs : GpuRegs)
    (d : Device) (start : Session) (h : History) {s : Session} {h' : History}
    → IsConsistent P start
    → Reach regs d start h s h'
    → IsConsistent P s
Reach-IsConsistent P laws regs d start h c here = c
Reach-IsConsistent P laws regs d start h c (step call {s = s1} {h1 = h1} before room short done) =
    subst (λ t. IsConsistent P t.0) done
      (perform-IsConsistent P laws regs call s1 d h1
        (Reach-IsConsistent P laws regs d start h c before) room short)

-- a part of the push buffer meets none of these blocks in the GPU's address space
abbrev pub Misses : ℕ × ℕ → List GpuAllocation → Type 0
Misses segment = All (λ b. Apart segment.0 segment.1 b.gpu_va b.size)

-- What a client can count on: no two blocks handed out meet, the channel's buffers among them; each
-- starts behind the reserved part and, unless it is empty, ends within the VRAM; the parts of the push
-- buffer taken since the last reset lie one behind the other within it and meet no client's block.
pub record IsSafe (total : ℕ) (s : Session) : Type 0 where
  pub disjoint : Disjoint (owned s)
  pub placed : All (IsPlaced total) (owned s)
  pub layout :
      IsLaidOut s.channel.push_buffer.gpu_va
        (s.channel.push_buffer.gpu_va + s.channel.push_size)
        s.segments
  pub clear : All (λ segment. Misses segment s.blocks) s.segments

-- The block behind a list is clear of each block in the list.
IsClear-member :
    (a p : GpuAllocation) (bs rest : List GpuAllocation)
    → IsClear a (bs ++ (p ∷ rest))
    → Apart a.gpu_va a.size p.gpu_va p.size
IsClear-member a p [] rest c = c.0.1
IsClear-member a p (b ∷ bs) rest c = IsClear-member a p bs rest c.1

Misses-part :
    (p : GpuAllocation) (rest bs : List GpuAllocation) (va n : ℕ)
    → p.gpu_va ≤ va
    → va + n ≤ p.gpu_va + p.size
    → Disjoint (bs ++ (p ∷ rest))
    → Misses (va, n) bs
Misses-part p rest [] va n lo hi c = tt
Misses-part p rest (b ∷ bs) va n lo hi c =
    (ground (arith, IsClear-member b p bs rest c.0), Misses-part p rest bs va n lo hi c.1)

Misses-IsLaidOut :
    (p : GpuAllocation) (rest bs : List GpuAllocation) (lo hi : ℕ) (segments : List (ℕ × ℕ))
    → p.gpu_va ≤ lo
    → hi ≤ p.gpu_va + p.size
    → Disjoint (bs ++ (p ∷ rest))
    → IsLaidOut lo hi segments
    → All (λ segment. Misses segment bs) segments
Misses-IsLaidOut p rest bs lo hi [] a b c l = tt
Misses-IsLaidOut p rest bs lo hi ((va, n) ∷ more) a b c l = (
  Misses-part p rest bs va n (omega arith) (omega arith) c,
  Misses-IsLaidOut p rest bs (va + n) hi more (omega arith) b c l.2,
)

IsLaidOut-wider :
    (lo hi hi' : ℕ) (segments : List (ℕ × ℕ))
    → hi ≤ hi'
    → IsLaidOut lo hi segments
    → IsLaidOut lo hi' segments
IsLaidOut-wider lo hi hi' [] le l = tt
IsLaidOut-wider lo hi hi' ((va, n) ∷ more) le l =
    (l.0, omega arith, IsLaidOut-wider (va + n) hi hi' more le l.2)

pub IsConsistent-IsSafe :
    (total : ℕ) (s : Session)
    → IsConsistent (IsValid reserved (reserved + (total - reserved))) s
    → IsSafe total s
IsConsistent-IsSafe total s c =
    let p : GpuAllocation = s.channel.push_buffer in
    record {
      disjoint = c.memory.disjoint;
      placed = All-IsPlaced total s.vram (owned s) c.memory.held;
      layout =
          IsLaidOut-wider p.gpu_va (p.gpu_va + s.channel.push_offset)
            (p.gpu_va + s.channel.push_size) s.segments (omega (arith, c.channel.offset_le))
            c.layout;
      clear =
          Misses-IsLaidOut p (s.channel.gpfifo ∷ []) s.blocks p.gpu_va
            (p.gpu_va + s.channel.push_offset) s.segments (omega arith)
            (omega (arith, c.channel.offset_le, c.channel.size_le)) c.memory.disjoint c.layout;
    }

pub opened-IsConsistent :
    (hi : ℕ) (g : GpuDevice) {ch : Channel}
    → g.compute_channel ≡ some ch
    → IsSetUp hi g.vram g.compute_channel
    → IsConsistent (IsValid reserved hi) (opened g ch)
opened-IsConsistent hi g {ch} e s =
    let t : IsSetUp hi g.vram (some ch) = subst (IsSetUp hi g.vram) e s in
    record { channel = t.0; memory = t.1; layout = tt }

-- From an initialization that has opened a channel on, whatever calls follow that allocate and free
-- tensors, load shaders, dispatch kernels, submit commands on that channel, reset its push buffer,
-- map system memory, open further channels, and change and commit a runlist: no two blocks handed out
-- meet, in VRAM or in the GPU's address space, with the channel's push buffer and GPFIFO among them;
-- each block starts behind the reserved first MiB and, unless it is empty, ends within the VRAM; and
-- the parts of the push buffer taken since the last reset follow one another within it and meet no
-- other block. This is while GPU addresses last, a submission has less than 2 GiB, a dispatch less
-- than 2^24 constant buffers, and channel numbers are below 2^16.
pub init_device-IsSafe :
    (pci : GpuPciDevice) (d : Device) (h : History) {ch : Channel} {s : Session} {h' : History}
    → let (g, h1) = init_device pci d h in
      g.compute_channel ≡ some ch
      → Reach g.regs d (opened g ch) h1 s h'
      → IsSafe g.vram.info.total_bytes s
init_device-IsSafe pci d h {ch} {s} {h'} e r =
    let g : GpuDevice = (init_device pci d h).0 in
    let total : ℕ = g.vram.info.total_bytes in
    IsConsistent-IsSafe total s (
      Reach-IsConsistent (IsValid reserved (reserved + (total - reserved)))
        (IsValid-IsInvariant reserved (reserved + (total - reserved))) g.regs d (opened g ch)
        (init_device pci d h).1
        (opened-IsConsistent (reserved + (total - reserved)) g e (init_device-IsSetUp pci d h)) r)
