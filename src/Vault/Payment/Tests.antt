-- ===== src/Vault/Payment/Tests.antt =====
-- A payment whose fee is bumped before it is included, and that is executed at the second attempt
-- (vault/src/execution.rs, runtime/src/retry.rs).
use interbtc_clients_cli.Prelude.{
  ℕ, ◌+◌, ◌≡◌, ◌&&◌, ◌≢◌, refl, ◌++◌, true, false, Option, some, List, [], ◌∷◌, Result, ok, err,
  arith, ◌==◌, if◌then◌else◌,
}
use interbtc_clients_cli.Runtime as Runtime
use interbtc_clients_cli.Runtime.{invalid_chain_id, other, timeout, skip, notify_retry}
use interbtc_clients_cli.Runtime.Retry.{
  Ends, done, Skipped, notify_retry-Ends, notify_retry-timeout,
}
use interbtc_clients_cli.Vault.Deadline.{Request, redeem}
use interbtc_clients_cli.Vault.Payment.{
  Error, TransactionMetadata, Moment, confirmed, fee_changed, included, wait_for_inclusion,
  sat_per_vbyte,
}
use interbtc_clients_cli.Vault.Payment.Included.{
  IsIncluded, wait_for_inclusion-IsIncluded, wait_for_inclusion-off,
}
use interbtc_clients_cli.Vault.Payment.Transfer.{Chains, ended, verify, pay_and_execute}
use interbtc_clients_cli.Vault.Payment.Paid.{PaidOnce, pay_and_execute-PaidOnce}
use interbtc_clients_cli.Vault.Payment.Success.{IsExecuted, pay_and_execute-IsExecuted}

abbrev request : Request
request = record {
  hash = 7;
  btc_height = some 1;
  deadline = some (record { parachain = 100; bitcoin = 50 });
  amount = 30_000;
  btc_address = 40;
  request_type = redeem;
  vault_id = 1;
  fee_budget = some 5;
}

abbrev metadata_of : ℕ → TransactionMetadata
metadata_of txid = record { txid = txid; block_hash = 11; proof = 12; raw_tx = 13 }

-- The relay has one block, with six confirmations.
abbrev in_relay : ℕ → ℕ → ℕ → Result Runtime.Error (Unit {0})
in_relay known block_hash n = if block_hash == known && n == 6 then ok tt else err other

-- The fee rises from 2 to 5; the block is on a fork at first.
abbrev moments : List Moment
moments =
    fee_changed (ok 500) (λ txid. ok 2) (λ txid. ok true) (λ txid address fee. ok (txid + 1))
    ∷ confirmed (λ txid n. ok (metadata_of txid)) (λ block n. err invalid_chain_id)
    ∷ confirmed (λ txid n. ok (metadata_of txid)) (in_relay 11)
    ∷ []

abbrev to_address : ℕ → Option ℕ
to_address a = some a

abbrev attempts : ℕ → Result Runtime.Error (Unit {0})
attempts n = if n == 1 then ok tt else err other

abbrev chains : Chains
chains = record {
  get_current_active_block_number = ok 120;
  get_block_count = ok 49;
  get_bitcoin_fees = ok 200;
  create_and_send_transaction = λ payment. ok 90;
  moments = moments;
  execute = λ type hash proof raw_tx n. if hash == 7 then attempts n else err other;
  backoff = 1 ∷ 2 ∷ [];
}

included_run :
    wait_for_inclusion 100 to_address 6 true request 90 moments ≡ included (metadata_of 91)
unfolding wait_for_inclusion sat_per_vbyte
included_run = refl

wait_for_inclusion-IsIncluded_example :
    IsIncluded 100 to_address 6 true request 90 moments (metadata_of 91)
wait_for_inclusion-IsIncluded_example =
    wait_for_inclusion-IsIncluded 100 to_address 6 true request moments 90 (metadata_of 91)
      included_run

off_run : wait_for_inclusion 100 to_address 6 false request 90 moments ≡ included (metadata_of 90)
unfolding wait_for_inclusion
off_run = refl

wait_for_inclusion-off_example :
    (before after : List Moment) × (metadata : ℕ → ℕ → Result Error TransactionMetadata)
    × (relay : ℕ → ℕ → Result Runtime.Error (Unit {0})) × (moments
        ≡ before ++ confirmed metadata relay ∷ after)
    × (metadata 90 6 ≡ ok (metadata_of 90))
    × (relay 11 6 ≡ ok tt)
wait_for_inclusion-off_example =
    wait_for_inclusion-off 100 to_address 6 request moments 90 (metadata_of 90) off_run

pay_and_execute-PaidOnce_example :
    PaidOnce 100 to_address 6 chains request
      (pay_and_execute 100 to_address 6 chains true request).0
pay_and_execute-PaidOnce_example = pay_and_execute-PaidOnce 100 to_address 6 chains true request

paid_run : (pay_and_execute 100 to_address 6 chains true request).1 ≡ ended (ok tt)
unfolding pay_and_execute
paid_run = refl

pay_and_execute-IsExecuted_example :
    IsExecuted 100 to_address 6 chains true request
      (pay_and_execute 100 to_address 6 chains true request).0
pay_and_execute-IsExecuted_example =
    pay_and_execute-IsExecuted 100 to_address 6 chains true request paid_run

skipped : (n : ℕ) → n ≢ 1 → Skipped attempts verify n
unfolding verify
skipped n ne = let e : (n == 1) ≡ false = ground arith in (other, rw e refl)

attempt-Ends : Ends (verify (attempts 1)) (ok tt)
unfolding verify
attempt-Ends = done tt

notify_retry-Ends_example : notify_retry attempts verify 0 (1 ∷ 2 ∷ []) ≡ ok tt
notify_retry-Ends_example =
    notify_retry-Ends attempts verify 0 (1 ∷ 2 ∷ []) 1 (ok tt) (omega arith)
      (λ j l. skipped (0 + j) (omega arith)) attempt-Ends

-- From the attempt 5 on all are skipped.
all_skipped : notify_retry attempts verify 5 (1 ∷ 2 ∷ []) ≡ err timeout
all_skipped =
    notify_retry-timeout attempts verify 5 (1 ∷ 2 ∷ []) (λ j l. skipped (5 + j) (omega arith))
