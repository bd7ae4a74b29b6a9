-- ===== src/Vault/Payment/Transfer.antt =====
-- `pay_and_execute` with the transfer and the execution of a request (vault/src/execution.rs). The
-- result holds the payments that the Bitcoin node was asked for.
use interbtc_clients_cli.Prelude.{
  ℕ, ◌%◌, Bool, Option, none, some, List, [], ◌∷◌, Result, ok, err, ◌>>=◌, ok_or, leb,
  if◌then◌else◌,
}
use interbtc_clients_cli.Bitcoin.Wallet.{u64_mod}
use interbtc_clients_cli.Runtime.{
  rpc_disconnect, invalid_chain_id, channel_closed, RetryPolicy, skip, throw, notify_retry,
}
use interbtc_clients_cli.Runtime as Runtime
use interbtc_clients_cli.Vault.Deadline.{Request, RequestType, Deadline}
use interbtc_clients_cli.Vault.Payment.{
  Error, conversion, deadline_expired, runtime_error, TransactionMetadata, Moment, Waiting,
  waits_for, included, failed, sat_per_vbyte, wait_for_inclusion,
}

-- The payment that the node is asked for.
pub record Payment : Type 0 where
  pub address : ℕ
  pub sat : ℕ
  pub fee_rate : ℕ
  pub op_return : ℕ

-- What the two chains answer during a call of `pay_and_execute`; `execute` is the
-- answer of the parachain to a call for a type of request with a hash, a proof and a raw transaction,
-- at an attempt.
pub record Chains : Type 0 where
  pub get_current_active_block_number : Result Error ℕ
  pub get_block_count : Result Error ℕ
  pub get_bitcoin_fees : Result Error ℕ
  pub create_and_send_transaction : Payment → Result Error ℕ
  pub moments : List Moment
  pub execute : RequestType → ℕ → ℕ → ℕ → ℕ → Result Runtime.Error (Unit {0})
  pub backoff : List ℕ

-- How a call stands: at a transaction that is waited for, or ended.
pub data Progress : Type 0 where
  pending : ℕ → Progress
  ended : Result Error (Unit {0}) → Progress

-- The closure that sorts the answers of an execution.
unfoldable pub verify : Result Runtime.Error (Unit {0}) → Result RetryPolicy (Unit {0})
verify (ok u) = ok u
verify (err rpc_disconnect) = err (throw rpc_disconnect)
verify (err invalid_chain_id) = err (throw invalid_chain_id)
verify (err e) = err (skip e)

abbrev pub runtime_result : Result Runtime.Error (Unit {0}) → Result Error (Unit {0})
runtime_result (ok u) = ok u
runtime_result (err e) = err (runtime_error e)

module _ (accuracy : ℕ) (to_address : ℕ → Option ℕ) (num_confirmations : ℕ) (chains : Chains) where
  -- The guard of `pay_and_execute`: the Bitcoin height is read only after the parachain's deadline.
  unfoldable pub ensure_not_expired : Option Deadline → Result Error (Unit {0})
  ensure_not_expired none = ok tt
  ensure_not_expired (some deadline) = chains.get_current_active_block_number >>= λ active.
      (if leb deadline.parachain active
        then (chains.get_block_count >>= λ count.
            if leb deadline.bitcoin count then err deadline_expired else ok tt)
        else ok tt)

  unfoldable pub get_fee_rate : Result Error ℕ
  unfolding sat_per_vbyte
  get_fee_rate = chains.get_bitcoin_fees >>= sat_per_vbyte accuracy

  -- The payment for a request; `as u64` wraps around.
  unfoldable pub payment_for : Request → Result Error Payment
  unfolding get_fee_rate
  payment_for r = do
    fee_rate ← get_fee_rate
    address ← ok_or (to_address r.btc_address) conversion
    ok (record {
      address = address;
      sat = r.amount % u64_mod;
      fee_rate = fee_rate;
      op_return = r.hash;
    })

  unfoldable pub execute : Request → TransactionMetadata → Result Error (Unit {0})
  unfolding notify_retry verify
  execute r metadata = runtime_result (
      notify_retry (chains.execute r.request_type r.hash metadata.proof metadata.raw_tx) verify 0
        chains.backoff)

  unfoldable pub execute_included : Request → Waiting → Progress
  unfolding execute
  execute_included r (waits_for txid) = pending txid
  execute_included r (included metadata) = ended (execute r metadata)
  execute_included r (failed e) = ended (err e)

  -- `transfer_btc`
  unfoldable pub transfer_btc : Bool → Request → List Payment × Waiting
  unfolding payment_for wait_for_inclusion
  transfer_btc auto_rbf r = elim (payment_for r) [
    | err e ↦ ([], failed e)
    | ok payment ↦ elim (chains.create_and_send_transaction payment) [
      | err e ↦ (payment ∷ [], failed e)
      | ok txid ↦ (
        payment ∷ [],
        wait_for_inclusion accuracy to_address num_confirmations auto_rbf r txid chains.moments,
      )
    ]
  ]

  unfoldable pub pay_and_execute : Bool → Request → List Payment × Progress
  unfolding ensure_not_expired transfer_btc execute_included
  pay_and_execute auto_rbf r = elim (ensure_not_expired r.deadline) [
    | err e ↦ ([], ended (err e))
    | ok u ↦ let (sent, waiting) = transfer_btc auto_rbf r in (sent, execute_included r waiting)
  ]
