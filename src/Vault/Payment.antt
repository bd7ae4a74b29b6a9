-- ===== src/Vault/Payment.antt =====
-- The payment of a request (vault/src/execution.rs): `pay_and_execute`, the wait for the inclusion of
-- the transaction, in which its fee may be bumped, and the execution on the parachain. What the
-- Bitcoin node and the parachain answer is a parameter; transaction ids and addresses are numbers.
pub mod Steps
pub mod Included
pub mod Transfer
pub mod Paid
pub mod Success
pub mod Kept
pub mod Bumped
pub mod Handlers
mod Tests
use interbtc_clients_cli.Prelude.{
  ℕ, ◌+◌, ◌%◌, Bool, true, false, Option, none, some, List, [], ◌∷◌, Result, ok, err, ◌>>=◌, ok_or,
  ltb, leb, if◌then◌else◌,
}
use interbtc_clients_cli.Prelude.Words.{u64_max, checked_div, try_into}
use interbtc_clients_cli.Bitcoin.Wallet.{u64_mod}
use interbtc_clients_cli.Runtime.{
  rpc_disconnect, invalid_chain_id, channel_closed, RetryPolicy, skip, throw, notify_retry,
}
use interbtc_clients_cli.Runtime as Runtime
use interbtc_clients_cli.Vault.Deadline.{Request, RequestType, Deadline}

-- The errors of vault/src/error.rs that this code raises or passes on.
pub data Error : Type 0 where
  arithmetic_underflow conversion deadline_expired bitcoin_error : Error
  runtime_error : Runtime.Error → Error

-- What is read of a transaction once it is confirmed: proof and bytes are passed on.
pub record TransactionMetadata : Type 0 where
  pub txid : ℕ
  pub block_hash : ℕ
  pub proof : ℕ
  pub raw_tx : ℕ

-- What happens while a transaction is waited for: it is confirmed, or that fails, and then the relay
-- answers; the inclusion fee changes; or the subscription to it is closed. An answer that depends on
-- the transaction is a function of its id and of the number of confirmations; that of the relay is one
-- of the hash of the block and of that number.
pub data Moment : Type 0 where
  confirmed :
      (ℕ → ℕ → Result Error TransactionMetadata)
      → (ℕ → ℕ → Result Runtime.Error (Unit {0}))
      → Moment
  fee_changed :
      Result Error ℕ
      → (ℕ → Result Error ℕ)
      → (ℕ → Result Error Bool)
      → (ℕ → ℕ → ℕ → Result Error ℕ)
      → Moment
  closed : Moment

-- How the wait stands: at a transaction, ended with its metadata, or failed.
pub data Waiting : Type 0 where
  waits_for : ℕ → Waiting
  included : TransactionMetadata → Waiting
  failed : Error → Waiting

-- Satoshis per vbyte: a fixed-point number over its accuracy, as a u64.
unfoldable pub sat_per_vbyte : ℕ → ℕ → Result Error ℕ
sat_per_vbyte accuracy inner = do
  rate ← ok_or (checked_div inner accuracy) arithmetic_underflow
  ok_or (try_into u64_max rate) conversion

-- The `try_filter_map` of the subscription: the current fee and the new one, if that is higher.
unfoldable pub higher_fee : Result Error ℕ → Result Error ℕ → Option (Result Error (ℕ × ℕ))
higher_fee (err e) current = some (err e)
higher_fee (ok x) (ok current_fee) = if ltb current_fee x then some (ok (current_fee, x)) else none
higher_fee (ok x) (err e) = none

-- The `filter_map` of the subscription: nothing is passed on once the transaction has left the
-- mempool.
unfoldable pub while_in_mempool :
    Result Error Bool → Option (Result Error (ℕ × ℕ)) → Option (Result Error (ℕ × ℕ))
while_in_mempool in_mempool none = none
while_in_mempool (ok false) (some x) = none
while_in_mempool (ok true) (some x) = some x
while_in_mempool (err e) (some x) = some (err e)

-- The accuracy of a fixed-point number, and the address for the network, if there is one,
-- and the number of confirmations to wait for.
module _ (accuracy : ℕ) (to_address : ℕ → Option ℕ) (num_confirmations : ℕ) where
  -- What the subscription yields for a change of the fee.
  unfoldable pub subscription :
      Bool → Result Error ℕ → Result Error ℕ → Result Error Bool → Option (Result Error (ℕ × ℕ))
  unfolding higher_fee while_in_mempool
  subscription auto_rbf update current in_mempool =
      if auto_rbf
      then while_in_mempool in_mempool (higher_fee (update >>= sat_per_vbyte accuracy) current)
      else none

  -- The arms of the inner loop for an item of the subscription.
  unfoldable pub bump :
      Request → ℕ → (ℕ → ℕ → ℕ → Result Error ℕ) → Option (Result Error (ℕ × ℕ)) → Waiting
  bump r txid bump_fee none = waits_for txid
  bump r txid bump_fee (some (err e)) = waits_for txid
  bump r txid bump_fee (some (ok (old_fee, new_fee))) = elim (to_address r.btc_address) [
    | none ↦ failed conversion
    | some address ↦ elim (bump_fee txid address new_fee) [
      | ok new_txid ↦ waits_for new_txid
      | err e ↦ waits_for txid
    ]
  ]

  -- What follows the answer of `wait_for_block_in_relay`, once the transaction is confirmed.
  unfoldable pub relayed : ℕ → TransactionMetadata → Result Runtime.Error (Unit {0}) → Waiting
  relayed txid metadata (ok u) = included metadata
  relayed txid metadata (err invalid_chain_id) = waits_for txid
  relayed txid metadata (err e) = failed (runtime_error e)

  -- One round of the loops.
  unfoldable pub step : Bool → Request → ℕ → Moment → Waiting
  unfolding subscription bump relayed
  step auto_rbf r txid (confirmed metadata relay) = elim (metadata txid num_confirmations) [
    | ok m ↦ relayed txid m (relay m.block_hash num_confirmations)
    | err e ↦ failed e
  ]
  step auto_rbf r txid (fee_changed update fee_rate is_in_mempool bump_fee) =
      bump r txid bump_fee (subscription auto_rbf update (fee_rate txid) (is_in_mempool txid))
  step auto_rbf r txid closed = failed (runtime_error channel_closed)

  -- The loops over what happens, in its order.
  unfoldable pub wait_for_inclusion : Bool → Request → ℕ → List Moment → Waiting
  unfolding step
  wait_for_inclusion auto_rbf r txid [] = waits_for txid
  wait_for_inclusion auto_rbf r txid (x ∷ moments) = elim (step auto_rbf r txid x) [
    | waits_for next ↦ wait_for_inclusion auto_rbf r next moments
    | included m ↦ included m
    | failed e ↦ failed e
  ]
