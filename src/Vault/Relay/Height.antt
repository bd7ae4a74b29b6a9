-- ===== src/Vault/Relay/Height.antt =====
-- `compute_start_height` (vault/src/relay/mod.rs).
use interbtc_clients_cli.Prelude.{ℕ, zero, suc, true, false, Result, ok, err, ◌>>=◌, ◌==◌}
use interbtc_clients_cli.Prelude.Words.{u32_max, saturating_add}
use interbtc_clients_cli.Vault.Relay.{Failure, not_initialized, out_of_fuel, Backing, Issuing}

module _ {S : Type 0} (issuing : Issuing S) (backing : Backing) (s : S) where
  -- The `while` loop: down from a height with the hashes of the two chains there, to one at which
  -- they agree. Below height 0 `checked_sub` fails.
  unfoldable pub backward : ℕ → ℕ → ℕ → Result Failure ℕ
  backward zero relay_hash btc_hash = elim (relay_hash == btc_hash) [
    | true ↦ ok 0
    | false ↦ err not_initialized
  ]
  backward (suc h) relay_hash btc_hash = elim (relay_hash == btc_hash) [
    | true ↦ ok (suc h)
    | false ↦ elim (issuing.get_block_hash h s) [
      | err e ↦ err e
      | ok relay_hash' ↦ elim (backing.get_block_hash h) [
        | err e ↦ err e
        | ok btc_hash' ↦ backward h relay_hash' btc_hash'
      ]
    ]
  ]

  -- The `loop`: up over the blocks of Bitcoin that the relay has stored. An error of the Bitcoin
  -- node ends it, one of the relay is returned.
  unfoldable pub forward : ℕ → ℕ → Result Failure ℕ
  forward zero h = err out_of_fuel
  forward (suc fuel) h = elim (backing.get_block_hash h) [
    | err _ ↦ ok h
    | ok hash ↦ elim (issuing.is_block_stored hash s) [
      | err e ↦ err e
      | ok false ↦ ok h
      | ok true ↦ forward fuel (saturating_add u32_max h 1)
    ]
  ]

  unfoldable pub compute_start_height : ℕ → Result Failure ℕ
  unfolding backward forward
  compute_start_height fuel = do
    best ← issuing.get_best_height s
    relay_hash ← issuing.get_block_hash best s
    btc_hash ← backing.get_block_hash best
    matching ← backward best relay_hash btc_hash
    forward fuel matching
