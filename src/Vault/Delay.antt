-- ===== src/Vault/Delay.antt =====
-- The random delay before a transaction is submitted (vault/src/delay.rs). The hash of a vault with
-- the seed is a number, as hashes are only compared.
pub mod Bounds
mod Tests
use interbtc_clients_cli.Prelude.{
  ℕ, zero, suc, ◌+◌, ◌/◌, List, [], ◌∷◌, Result, ok, err, ltb, if◌then◌else◌, select, length,
}

-- `log2` of the standard library: how often a number can be halved before it is 1. The first number is
-- a bound on the rounds.
unfoldable pub log2_within : ℕ → ℕ → ℕ
log2_within zero n = 0
log2_within (suc fuel) n = let rest = log2_within fuel (n / 2) in if ltb n 2 then 0 else suc rest

unfoldable pub log2 : ℕ → ℕ
unfolding log2_within
log2 n = log2_within n n

-- The hash of an account, and the own account.
module _ (hash_vault : ℕ → ℕ) (own_account : ℕ) where
  -- The vaults that come before the own one in the order of the hashes.
  unfoldable pub random_ordering : List ℕ → ℕ
  random_ordering vaults =
      length (select (λ account_id. ltb (hash_vault account_id) (hash_vault own_account)) vaults)

  -- The blocks that `delay` waits.
  unfoldable pub blocks_to_wait : List ℕ → ℕ
  unfolding random_ordering log2
  blocks_to_wait vaults = log2 (random_ordering vaults + 1)

  unfoldable pub delay : (ℕ → Result (Unit {0}) (Unit {0})) → List ℕ → Result (Unit {0}) (Unit {0})
  unfolding blocks_to_wait
  delay delay_for_blocks vaults = delay_for_blocks (blocks_to_wait vaults)
