-- ===== src/Runtime.antt =====
-- The client of the parachain (runtime/src): its errors as the other parts tell them apart, and the
-- retries of `notify_retry` (runtime/src/retry.rs).
pub mod Retry
use interbtc_clients_cli.Prelude.{ℕ, suc, List, [], ◌∷◌, Result, ok, err}

-- The errors of runtime/src/error.rs, with a single one for all that no caller tells apart.
pub data Error : Type 0 where
  rpc_disconnect invalid_chain_id timeout channel_closed other : Error

-- What `verify` says of a failed call.
pub data RetryPolicy : Type 0 where
  skip throw : Error → RetryPolicy

module _ {ℓ} {E T : Type ℓ} (call : ℕ → Result E T)
    (verify : Result E T → Result RetryPolicy T) where
  -- `call n` is what the call returns at the attempt n. The backoff of the library answers with a
  -- wait until its time is over and then with none, so it is the list of its waits.
  unfoldable pub notify_retry : ℕ → List ℕ → Result Error T
  notify_retry n [] = elim (verify (call n)) [
    | ok t ↦ ok t
    | err (throw e) ↦ err e
    | err (skip e) ↦ err timeout
  ]
  notify_retry n (wait ∷ backoff) = elim (verify (call n)) [
    | ok t ↦ ok t
    | err (throw e) ↦ err e
    | err (skip e) ↦ notify_retry (suc n) backoff
  ]
