-- ===== src/Vault/Deadline/Blocks.antt =====
-- The conversion of parachain blocks to Bitcoin blocks (vault/src/execution.rs).
use interbtc_clients_cli.Prelude.{ℕ, ◌+◌, ◌*◌, ◌/◌, ◌≤◌, ◌<◌, ◌≡◌, ok, err, arith}
use interbtc_clients_cli.Prelude.Words.{u32_max}
use interbtc_clients_cli.Vault.Deadline.{
  millisecs_per_block, bitcoin_block_interval, parachain_blocks_to_bitcoin_blocks_rounded_up,
  duration_to_parachain_blocks, conversion,
}

-- The value that the conversion computes.
abbrev pub bitcoin_blocks : ℕ → ℕ
bitcoin_blocks n = (n * millisecs_per_block + 599_999) / bitcoin_block_interval

pub to_bitcoin_blocks_lem :
    (n : ℕ) → n ≤ u32_max → parachain_blocks_to_bitcoin_blocks_rounded_up n ≡ ok (bitcoin_blocks n)
unfolding parachain_blocks_to_bitcoin_blocks_rounded_up
to_bitcoin_blocks_lem n h = ground arith

-- For every u32 number n of parachain blocks the conversion returns without error the least number
-- b of Bitcoin blocks that last at least as long: b intervals cover n blocks, and any number of
-- intervals that covers them is at least b.
pub to_bitcoin_blocks_least :
    (n : ℕ)
    → n ≤ u32_max
    → (b : ℕ) × (parachain_blocks_to_bitcoin_blocks_rounded_up n ≡ ok b)
      × (n * millisecs_per_block ≤ b * bitcoin_block_interval)
      × ((c : ℕ) → n * millisecs_per_block ≤ c * bitcoin_block_interval → b ≤ c)
to_bitcoin_blocks_least n h =
    (bitcoin_blocks n, to_bitcoin_blocks_lem n h, omega arith, λ c k. omega arith)

pub duration_to_parachain_blocks_lem :
    (d : ℕ)
    → d / millisecs_per_block ≤ u32_max
    → duration_to_parachain_blocks d ≡ ok (d / millisecs_per_block)
unfolding duration_to_parachain_blocks
duration_to_parachain_blocks_lem d h = ground arith

pub duration_to_parachain_blocks_long :
    (d : ℕ) → u32_max < d / millisecs_per_block → duration_to_parachain_blocks d ≡ err conversion
unfolding duration_to_parachain_blocks
duration_to_parachain_blocks_long d h = ground arith
