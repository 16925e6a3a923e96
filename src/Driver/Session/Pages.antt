-- ===== src/Driver/Session/Pages.antt =====
-- Page alignment of everything that a client of a `GpuDevice` (src/driver.rs) is handed out, which
-- `GpuPte` of src/memory.rs relies on.
use gpu_compute_nostd.Base.{ℕ, ◌+◌, ◌-◌, ◌^◌, ◌<◌, ◌≡◌, ◌∙◌, some, List, [], ◌∷◌, arith, All}
use gpu_compute_nostd.Hardware.{Device, History}
use gpu_compute_nostd.Pci.Scan.{GpuPciDevice}
use gpu_compute_nostd.Memory
use gpu_compute_nostd.Memory.{GpuAllocation, VramAllocator}
use gpu_compute_nostd.Memory.Detect.{reserved, init_from}
use gpu_compute_nostd.Memory.Laws.{IsHeld}
use gpu_compute_nostd.Memory.Pte
use gpu_compute_nostd.Memory.Pte.{pte_fields}
use gpu_compute_nostd.Memory.Invariant.{
  IsPaged, IsAligned, IsAligned-IsInvariant, IsValid-IsInvariant,
}
use gpu_compute_nostd.Fifo.Channel.{Channel}
use gpu_compute_nostd.Driver.{GpuDevice, init_device}
use gpu_compute_nostd.Driver.Session.{Session, Reach, opened}
use gpu_compute_nostd.Driver.Session.Demand.{owned}
use gpu_compute_nostd.Driver.Session.Safety.{Reach-IsConsistent, opened-IsConsistent}
use gpu_compute_nostd.Driver.Init.{init_device-IsSetUp}
use gpu_compute_nostd.Driver.Session.Opened.{Reach_kept}

-- what the entry of a page table says of the block's first page
abbrev pub IsMappable : GpuAllocation → Type 0
IsMappable b = IsPaged b × ((Memory.Pte.vram b.phys_addr).raw ≡ b.phys_addr + 1)

init_from-IsAligned :
    (cfg0 size_reg nparts base size : ℕ) → IsAligned (init_from cfg0 size_reg nparts base size) []
unfolding init_from
init_from-IsAligned cfg0 size_reg nparts base size = record {
  regions = (omega arith, tt);
  next = omega arith;
  paged = tt;
}

All-IsMappable :
    (hi : ℕ) (v : VramAllocator) (blocks : List GpuAllocation)
    → hi < 2 ^ 64
    → All (IsHeld reserved hi v) blocks
    → All IsPaged blocks
    → All IsMappable blocks
All-IsMappable hi v [] word held paged = tt
All-IsMappable hi v (b ∷ bs) word held paged =
    let entry = (pte_fields b.phys_addr (omega (arith, held.0.below, word))).0 in
    ((paged.0, entry ∙ omega (arith, paged.0)), All-IsMappable hi v bs word held.1 paged.1)

-- From an initialization that has opened a channel on, whatever a client calls, every block handed out
-- is a whole number of pages at the start of a page, in VRAM and in the GPU's address space, so that a
-- page table entry made from its physical address keeps every bit of it, beside the valid bit. This is
-- while GPU addresses last, a submission has less than 2 GiB, a dispatch less than 2^24 constant
-- buffers, and channel numbers are below 2^16.
pub init_device-IsMappable :
    (pci : GpuPciDevice) (d : Device) (h : History) {ch : Channel} {s : Session} {h' : History}
    → let (g, h1) = init_device pci d h in
      g.compute_channel ≡ some ch → Reach g.regs d (opened g ch) h1 s h' → All IsMappable (owned s)
init_device-IsMappable pci d h {ch} {s} {h'} e r =
    let g : GpuDevice = (init_device pci d h).0 in
    let h1 : History = (init_device pci d h).1 in
    let hi : ℕ = reserved + (g.vram.info.total_bytes - reserved) in
    let start = opened-IsConsistent hi g e (init_device-IsSetUp pci d h) in
    let valid =
      Reach-IsConsistent (Memory.Laws.IsValid reserved hi) (IsValid-IsInvariant reserved hi) g.regs
        d (opened g ch) h1 start r in
    let paged =
      Reach_kept IsAligned IsAligned-IsInvariant pci d h
        (λ cfg0 size_reg nparts. init_from-IsAligned cfg0 size_reg nparts _ _) e r in
    All-IsMappable hi s.vram (owned s) valid.memory.word valid.memory.held paged.paged
