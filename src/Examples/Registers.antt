-- ===== src/Examples/Registers.antt =====
-- The theorems on src/mmio.rs at concrete registers, and runs of its operations.
use gpu_compute_nostd.Base.{ℕ, ◌+◌, ◌^◌, ◌≤◌, ◌≡◌, refl, some, [], ◌∷◌, arith}
use gpu_compute_nostd.Hardware.{store}
use gpu_compute_nostd.Mmio.{read_timer_ns, read_chip_id}
use gpu_compute_nostd.Mmio.Timer.{read_timer_ns-now}
use gpu_compute_nostd.Examples.Machines.{ram, board, clock, clock-IsTimer}

read_timer_ns-now_example :
    let (r, h') = read_timer_ns board (2 ^ 32) clock [] in
    (t : ℕ) × (r ≡ some t) × (clock-IsTimer.now [] ≤ t) × (t ≤ clock-IsTimer.now h')
read_timer_ns-now_example = read_timer_ns-now clock-IsTimer (2 ^ 32) [] (omega arith)

-- The first round sees the carry, and the second returns.
carry_seen : (read_timer_ns board 3 clock []).0 ≡ some (2 ^ 32 + 2)
unfolding read_timer_ns
carry_seen = refl

chip_id_of : (read_chip_id board ram (store 0 0x1720_00A1 ∷ [])).0 ≡ 0x172
unfolding read_chip_id
chip_id_of = refl
