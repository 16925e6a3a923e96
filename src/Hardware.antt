-- ===== src/Hardware.antt =====
-- The machine below the driver: memory-mapped registers and I/O ports, which no file of src/
-- implements. `ptr::read_volatile`, `ptr::write_volatile` and the `in`/`out` instructions of
-- src/mmio.rs and src/pci_config.rs are the four accesses.
use gpu_compute_nostd.Base.{ℕ, ◌^◌, ◌<◌, List, ◌∷◌}

pub data Access : Type 0 where
  load : ℕ → Access
  store : ℕ → ℕ → Access
  port_in : ℕ → Access
  port_out : ℕ → ℕ → Access

-- the accesses made so far, the newest first
abbrev pub History : Type 0
History = List Access

-- A device is what it answers, as a function of all accesses before: it may count, change by
-- itself between two reads, or react to reads.
pub record Device : Type 0 where
  pub loads : History → ℕ → ℕ
  pub ports : History → ℕ → ℕ
  pub loads_word : (h : History) (a : ℕ) → loads h a < 2 ^ 32
  pub ports_word : (h : History) (p : ℕ) → ports h p < 2 ^ 32

-- an action of the driver on the device
abbrev pub Io : Type 0 → Type 0
Io A = Device → History → A × History

abbrev pub pure : {A : Type 0} → A → Io A
pure a d h = (a, h)

infixl 5 ◌>>=◌ ◌>>◌
abbrev pub ◌>>=◌ : {A B : Type 0} → Io A → (A → Io B) → Io B
◌>>=◌ m f d h = let (a, h') = m d h in f a d h'

abbrev pub ◌>>◌ : {A B : Type 0} → Io A → Io B → Io B
m >> k = m >>= λ _. k

abbrev pub read_volatile : ℕ → Io ℕ
read_volatile a d h = (d.loads h a, load a ∷ h)

abbrev pub write_volatile : ℕ → ℕ → Io (Unit {0})
write_volatile a v d h = (tt, store a v ∷ h)

-- `in eax, dx` and `out dx, eax`
abbrev pub in_port : ℕ → Io ℕ
in_port p d h = (d.ports h p, port_in p ∷ h)

abbrev pub out_port : ℕ → ℕ → Io (Unit {0})
out_port p v d h = (tt, port_out p v ∷ h)
