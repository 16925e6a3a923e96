-- ===== src/Falcon.antt =====
-- src/falcon.rs: the interface to one Falcon microcontroller.
mod Registers
pub mod Upload
pub mod Boot
pub mod Memory
pub use Registers.*
use gpu_compute_nostd.Base.{
  ℕ, zero, suc, ◌+◌, ◌*◌, ◌/◌, ◌%◌, ◌^◌, Bool, true, false, Option, none, some, List, length,
  get_elem?, bit_and, bit_or, u32, ◌<<◌, ◌==◌, ◌!=◌, if◌then◌else◌, is_empty,
}
use gpu_compute_nostd.Hardware.{Io, pure, ◌>>=◌, ◌>>◌}
use gpu_compute_nostd.Mmio.{GpuRegs, read32, write32}

pub data FalconEngine : Type 0 where
  pmu sec2 gsp : FalconEngine

unfoldable pub base_offset : FalconEngine → ℕ
base_offset pmu = 0x10a000
base_offset sec2 = 0x840000
base_offset gsp = 0x110000

pub record Falcon : Type 0 where
  pub engine : FalconEngine
  pub base : ℕ

-- `Falcon::new`
unfoldable pub new : FalconEngine → Falcon
new engine = record { engine = engine; base = base_offset engine }

-- `u32::from_le_bytes` of four bytes from an offset on; `none` is the panic of an index out of range
unfoldable pub word_at : List ℕ → ℕ → Option ℕ
word_at bytes offset = elim (get_elem? bytes offset) [
  | none ↦ none
  | some a ↦ elim (get_elem? bytes (offset + 1)) [
    | none ↦ none
    | some b ↦ elim (get_elem? bytes (offset + 2)) [
      | none ↦ none
      | some c ↦ elim (get_elem? bytes (offset + 3)) [
        | none ↦ none
        | some e ↦ some (a + b * 2 ^ 8 + c * 2 ^ 16 + e * 2 ^ 24)
      ]
    ]
  ]
]

-- the timeout of `init_with_firmware`
abbrev pub ready_iters : ℕ
ready_iters = 1_000_000

-- After a panic nothing more is done.
infixl 5 ◌>>?◌
abbrev pub ◌>>?◌ : {A : Type 0} → Io (Option (Unit {0})) → Io (Option A) → Io (Option A)
◌>>?◌ m k d h = let (r, h') = m d h in elim r [ none ↦ (none, h') | some _ ↦ k d h' ]

module _ (f : Falcon) (regs : GpuRegs) where
  unfoldable pub read : ℕ → Io ℕ
  unfolding read32
  read offset = read32 regs (u32 (f.base + offset))

  unfoldable pub write : ℕ → ℕ → Io (Unit {0})
  unfolding write32
  write offset value = write32 regs (u32 (f.base + offset)) value

  unfoldable pub is_halted : Io Bool
  unfolding read
  is_halted = do cpuctl ← read falcon_cpuctl; pure (bit_and cpuctl falcon_cpuctl_halt != 0)

  unfoldable pub halt : Io (Unit {0})
  unfolding read write
  halt = do write falcon_cpuctl falcon_cpuctl_halt; read falcon_cpuctl; pure tt

  -- The loop of both uploads, with `left` words to go from word `i` on. `some tt` is its end.
  unfoldable pub write_words : ℕ → List ℕ → ℕ → ℕ → Io (Option (Unit {0}))
  unfolding write
  write_words port bytes zero i d h = (some tt, h)
  write_words port bytes (suc left) i d h = elim (word_at bytes (i * 4)) [
    | none ↦ (none, h)
    | some word ↦ write_words port bytes left (i + 1) d (write port word d h).1
  ]

  -- `some tt` is the function's return, also after the error message.
  unfoldable pub upload_imem : List ℕ → ℕ → Io (Option (Unit {0}))
  unfolding write
  upload_imem firmware imem_offset = if length firmware % 4 != 0 then pure (some tt) else (do
    write falcon_imemc (bit_or (1 << 25) (bit_and imem_offset 0xFFFC))
    write_words falcon_imemd firmware (length firmware / 4) 0)

  unfoldable pub upload_dmem : List ℕ → ℕ → Io (Option (Unit {0}))
  unfolding write
  upload_dmem bytes dmem_offset = if length bytes % 4 != 0 then pure (some tt) else (do
    write falcon_dmemc (bit_or (1 << 25) (bit_and dmem_offset 0xFFFC))
    write_words falcon_dmemd bytes (length bytes / 4) 0)

  unfoldable pub boot : ℕ → Io (Unit {0})
  unfolding write
  boot entry_point = do write falcon_bootvec entry_point; write falcon_cpuctl falcon_cpuctl_start

  unfoldable pub wait_ready : ℕ → Io (Option ℕ)
  unfolding read
  wait_ready zero d h = (none, h)
  wait_ready (suc iters) d h =
      let (os_val, h') = read falcon_os d h in
      elim (os_val != 0) [ true ↦ (some os_val, h') | false ↦ wait_ready iters d h' ]

  unfoldable pub read_mailbox0 : Io ℕ
  unfolding read
  read_mailbox0 = read falcon_mailbox0

  unfoldable pub write_mailbox0 : ℕ → Io (Unit {0})
  unfolding write
  write_mailbox0 value = write falcon_mailbox0 value

  unfoldable pub read_mailbox1 : Io ℕ
  unfolding read
  read_mailbox1 = read falcon_mailbox1

  unfoldable pub write_mailbox1 : ℕ → Io (Unit {0})
  unfolding write
  write_mailbox1 value = write falcon_mailbox1 value

  unfoldable pub clear_interrupts : Io (Unit {0})
  unfolding read write
  clear_interrupts = do
    pending ← read falcon_irqsrd
    if pending != 0 then write falcon_irqsclr pending else pure tt

  unfoldable pub init_with_firmware : List ℕ → List ℕ → Io (Option Bool)
  unfolding halt clear_interrupts boot
  init_with_firmware imem_firmware dmem_data =
      halt
      >> clear_interrupts
      >> (upload_imem imem_firmware 0
          >>? (if is_empty dmem_data then pure (some tt) else upload_dmem dmem_data 0)
          >>? (boot 0 >> wait_ready ready_iters >>= λ r.
              pure (elim r [ some os_val ↦ some true | none ↦ some false ])))
