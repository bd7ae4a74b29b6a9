-- ===== src/Vault/Payment/Success.antt =====
-- What the success of `pay_and_execute` (vault/src/execution.rs) means.
use interbtc_clients_cli.Prelude.{
  ℕ, ◌+◌, ◌≤◌, ◌≡◌, refl, ap, sym, ◌∙◌, Bool, Option, List, [], ◌∷◌, Result, ok, err, length, arith,
}
use interbtc_clients_cli.Runtime as Runtime
use interbtc_clients_cli.Runtime.{
  RetryPolicy, notify_retry, rpc_disconnect, invalid_chain_id, timeout, channel_closed, other,
}
use interbtc_clients_cli.Runtime.Retry.{notify_retry-ok}
use interbtc_clients_cli.Vault.Deadline.{Request}
use interbtc_clients_cli.Vault.Payment.{
  Error, TransactionMetadata, Waiting, waits_for, included, failed, wait_for_inclusion,
}
use interbtc_clients_cli.Vault.Payment.Included.{IsIncluded, wait_for_inclusion-IsIncluded}
use interbtc_clients_cli.Vault.Payment.Transfer.{
  Payment, Chains, Progress, ended, verify, ensure_not_expired, payment_for, execute,
  execute_included, transfer_btc, pay_and_execute, runtime_result,
}
use interbtc_clients_cli.Vault.Payment.Paid.{after, transfer_btc-none, transfer_btc-one}

verify-ok : (answer : Result Runtime.Error (Unit {0})) → verify answer ≡ ok tt → answer ≡ ok tt
unfolding verify
verify-ok (ok u) h = refl
verify-ok (err rpc_disconnect) h = cc
verify-ok (err invalid_chain_id) h = cc
verify-ok (err timeout) h = cc
verify-ok (err channel_closed) h = cc
verify-ok (err other) h = cc

runtime_result-ok : (o : Result Runtime.Error (Unit {0})) → runtime_result o ≡ ok tt → o ≡ ok tt
runtime_result-ok (ok u) h = refl
runtime_result-ok (err e) h = cc

module _ (accuracy : ℕ) (to_address : ℕ → Option ℕ) (num_confirmations : ℕ) (chains : Chains) where
  -- What a request that was paid and executed went through: a payment that the Bitcoin node took, the
  -- inclusion of its transaction or of one that replaced it, and an attempt to execute the request
  -- with the metadata of that transaction that the parachain took.
  pub record IsExecuted (auto_rbf : Bool) (r : Request) (sent : List Payment) : Type 0 where
    pub payment : Payment
    pub txid : ℕ
    pub metadata : TransactionMetadata
    pub attempt : ℕ
    pub one : sent ≡ payment ∷ []
    pub taken : chains.create_and_send_transaction payment ≡ ok txid
    pub in_chain :
        IsIncluded accuracy to_address num_confirmations auto_rbf r txid chains.moments metadata
    pub within : attempt ≤ length chains.backoff
    pub executed :
        chains.execute r.request_type r.hash metadata.proof metadata.raw_tx attempt ≡ ok tt

  execute-attempt :
      (r : Request) (m : TransactionMetadata)
      → execute accuracy to_address num_confirmations chains r m ≡ ok tt
      → (k : ℕ) × (k ≤ length chains.backoff)
        × (chains.execute r.request_type r.hash m.proof m.raw_tx k ≡ ok tt)
  unfolding execute
  execute-attempt r m h =
      let (k, l, v) =
        notify_retry-ok (chains.execute r.request_type r.hash m.proof m.raw_tx) verify 0
          chains.backoff tt (runtime_result-ok _ h) in
      (
        0 + k,
        omega arith,
        verify-ok (chains.execute r.request_type r.hash m.proof m.raw_tx (0 + k)) v,
      )

  transfer_btc-IsExecuted :
      (auto_rbf : Bool) (r : Request)
      → execute_included accuracy to_address num_confirmations chains r
          (transfer_btc accuracy to_address num_confirmations chains auto_rbf r).1
        ≡ ended (ok tt)
      → IsExecuted auto_rbf r
          (transfer_btc accuracy to_address num_confirmations chains auto_rbf r).0
  unfolding execute_included
  transfer_btc-IsExecuted auto_rbf r h =
      go (payment_for accuracy to_address num_confirmations chains r) refl
    where
      waited :
          (p : Payment) (txid : ℕ) (w : Waiting)
          → payment_for accuracy to_address num_confirmations chains r ≡ ok p
          → chains.create_and_send_transaction p ≡ ok txid
          → wait_for_inclusion accuracy to_address num_confirmations auto_rbf r txid chains.moments
            ≡ w
          → execute_included accuracy to_address num_confirmations chains r w ≡ ended (ok tt)
          → IsExecuted auto_rbf r
              (transfer_btc accuracy to_address num_confirmations chains auto_rbf r).0
      waited p txid (waits_for next) e t i k = cc
      waited p txid (failed f) e t i k = cc
      waited p txid (included m) e t i k =
          let (n, l, x) = execute-attempt r m (cc) in
          record {
            payment = p;
            txid = txid;
            metadata = m;
            attempt = n;
            one =
                ap (λ (y : List Payment × Waiting). y.0)
                  (transfer_btc-one accuracy to_address num_confirmations chains auto_rbf r p e);
            taken = t;
            in_chain =
                wait_for_inclusion-IsIncluded accuracy to_address num_confirmations auto_rbf r
                  chains.moments txid m i;
            within = l;
            executed = x;
          }

      posted :
          (p : Payment) (o : Result Error ℕ)
          → payment_for accuracy to_address num_confirmations chains r ≡ ok p
          → chains.create_and_send_transaction p ≡ o
          → execute_included accuracy to_address num_confirmations chains r
              (after accuracy to_address num_confirmations chains auto_rbf r o)
            ≡ ended (ok tt)
          → IsExecuted auto_rbf r
              (transfer_btc accuracy to_address num_confirmations chains auto_rbf r).0
      posted p (err f) e t k = cc
      posted p (ok txid) e t k = waited p txid _ e t refl k

      go :
          (o : Result Error Payment)
          → payment_for accuracy to_address num_confirmations chains r ≡ o
          → IsExecuted auto_rbf r
              (transfer_btc accuracy to_address num_confirmations chains auto_rbf r).0
      go (err f) e =
          let k : execute_included accuracy to_address num_confirmations chains r (failed f)
              ≡ ended (ok tt) =
            sym (
              ap
                (λ (y : List Payment × Waiting).
                  execute_included accuracy to_address num_confirmations chains r y.1)
                (transfer_btc-none accuracy to_address num_confirmations chains auto_rbf r f e))
            ∙ h in
          cc
      go (ok p) e = posted p (chains.create_and_send_transaction p) e refl (
          sym (
            ap
              (λ (y : List Payment × Waiting).
                execute_included accuracy to_address num_confirmations chains r y.1)
              (transfer_btc-one accuracy to_address num_confirmations chains auto_rbf r p e))
          ∙ h)

  -- When `pay_and_execute` succeeds, the request went through all of it: exactly one payment was
  -- sent, its transaction or a replacement was included in a block that the relay has with the
  -- confirmations asked for, and an attempt within the backoff executed the request, by its type and
  -- hash, with the proof and the bytes of that transaction.
  pub pay_and_execute-IsExecuted :
      (auto_rbf : Bool) (r : Request)
      → (pay_and_execute accuracy to_address num_confirmations chains auto_rbf r).1 ≡ ended (ok tt)
      → IsExecuted auto_rbf r
          (pay_and_execute accuracy to_address num_confirmations chains auto_rbf r).0
  unfolding pay_and_execute
  pay_and_execute-IsExecuted auto_rbf r h =
      guard (ensure_not_expired accuracy to_address num_confirmations chains r.deadline) h
    where
      guard :
          (g : Result Error (Unit {0}))
          → (let done : List Payment × Progress = elim g [
            | err e ↦ ([], ended (err e))
            | ok u ↦
                let (sent, waiting) =
                  transfer_btc accuracy to_address num_confirmations chains auto_rbf r in
                (sent, execute_included accuracy to_address num_confirmations chains r waiting)
          ] in
              done.1 ≡ ended (ok tt) → IsExecuted auto_rbf r done.0)
      guard (err e) k = cc
      guard (ok u) k = transfer_btc-IsExecuted auto_rbf r k
