-- ===== src/Vault/Deadline/Tests.antt =====
-- Concrete requests (vault/src/execution.rs), and the theorems on deadlines at them.
use interbtc_clients_cli.Prelude.{ℕ, ◌*◌, ◌≤◌, ◌≡◌, refl, ok, err, arith}
use interbtc_clients_cli.Vault.Deadline.{
  Deadline, arithmetic_underflow, millisecs_per_block, bitcoin_block_interval, calculate_deadline,
  parachain_blocks_to_bitcoin_blocks_rounded_up, duration_to_parachain_blocks,
}
use interbtc_clients_cli.Vault.Deadline.Blocks.{to_bitcoin_blocks_least}
use interbtc_clients_cli.Vault.Deadline.Bounds.{
  Window, calculate_deadline-Window, calculate_deadline_total, calculate_deadline_mono,
  calculate_deadline_underflow,
}

blocks_runs : parachain_blocks_to_bitcoin_blocks_rounded_up 51 ≡ ok 2
unfolding parachain_blocks_to_bitcoin_blocks_rounded_up
blocks_runs = refl

-- A request opened at parachain height 1000 and Bitcoin height 50, with a period of 7200 blocks (a
-- day) and a margin of an hour.
abbrev deadline : Deadline
deadline = record { parachain = 7900; bitcoin = 188 }

deadline_runs : calculate_deadline 1000 50 7200 3_600_000 ≡ ok deadline
unfolding calculate_deadline duration_to_parachain_blocks
    parachain_blocks_to_bitcoin_blocks_rounded_up
deadline_runs = refl

abbrev strict_deadline : Deadline
strict_deadline = record { parachain = 7600; bitcoin = 182 }

strict_deadline_runs : calculate_deadline 1000 50 7200 7_200_000 ≡ ok strict_deadline
unfolding calculate_deadline duration_to_parachain_blocks
    parachain_blocks_to_bitcoin_blocks_rounded_up
strict_deadline_runs = refl

to_bitcoin_blocks_least_example :
    (b : ℕ) × (parachain_blocks_to_bitcoin_blocks_rounded_up 51 ≡ ok b)
    × (51 * millisecs_per_block ≤ b * bitcoin_block_interval)
    × ((c : ℕ) → 51 * millisecs_per_block ≤ c * bitcoin_block_interval → b ≤ c)
to_bitcoin_blocks_least_example = to_bitcoin_blocks_least 51 (omega arith)

calculate_deadline-Window_example : Window 1000 50 7200 3_600_000 deadline
calculate_deadline-Window_example =
    calculate_deadline-Window 1000 50 7200 3_600_000 (omega arith) deadline_runs

calculate_deadline_total_example :
    (d : Deadline) × (calculate_deadline 1000 50 7200 3_600_000 ≡ ok d)
calculate_deadline_total_example =
    calculate_deadline_total 1000 50 7200 3_600_000 (omega arith) (omega arith) (omega arith)

calculate_deadline_mono_example :
    (strict_deadline.parachain ≤ deadline.parachain) × (strict_deadline.bitcoin ≤ deadline.bitcoin)
calculate_deadline_mono_example =
    calculate_deadline_mono 1000 50 7200 3_600_000 7_200_000 (omega arith) (omega arith)
      deadline_runs strict_deadline_runs

underflow_refused : calculate_deadline 10 50 20 3_600_000 ≡ err arithmetic_underflow
underflow_refused =
    calculate_deadline_underflow 10 50 20 3_600_000 (omega arith) (omega arith) (omega arith)
