-- ===== src/Vault/Payment/Handlers.antt =====
-- The handlers of new redeem requests (vault/src/redeem.rs) and of accepted replace requests
-- (vault/src/replace.rs), which pay and execute a request for a vault of the client. The vaults of the
-- client, with what the chains answer for each, are a parameter.
pub mod Directed
mod Tests
use interbtc_clients_cli.Prelude.{ℕ, Bool, Option, none, some, List, [], Result, ok, err}
use interbtc_clients_cli.Runtime as Runtime
use interbtc_clients_cli.Vault.Deadline as Deadline
use interbtc_clients_cli.Vault.Deadline.{
  Request, InterBtcRedeemRequest, InterBtcReplaceRequest, from_redeem_request, from_replace_request,
}
use interbtc_clients_cli.Vault.Payment.Transfer.{Payment, Chains, Progress, pay_and_execute}

-- The fields that the handlers read of the events.
pub record RequestRedeemEvent : Type 0 where
  pub redeem_id : ℕ
  pub vault_id : ℕ

pub record AcceptReplaceEvent : Type 0 where
  pub replace_id : ℕ
  pub old_vault_id : ℕ

-- What becomes of an event: it is for another client, its request cannot be read or has no deadline, or
-- the request is paid and executed.
pub data Outcome : Type 0 where
  not_directed : Outcome
  not_read : Runtime.Error → Outcome
  not_valid : Deadline.Error → Outcome
  handled : List Payment × Progress → Outcome

-- The payments that the Bitcoin node is asked for.
abbrev pub payments : Outcome → List Payment
payments not_directed = []
payments (not_read e) = []
payments (not_valid e) = []
payments (handled done) = done.0

-- The guard of the handlers: the event is for a vault of the client.
unfoldable pub directed_to : {R : Type 0} → Option Chains → (Chains → R → Outcome) → R → Outcome
directed_to none task read = not_directed
directed_to (some chains) task read = task chains read

module _ (accuracy : ℕ) (to_address : ℕ → Option ℕ) (num_confirmations : ℕ)
    (get_vault : ℕ → Option Chains) (auto_rbf : Bool) where
  unfoldable pub pay_request : Chains → Result Deadline.Error Request → Outcome
  pay_request chains (err e) = not_valid e
  pay_request chains (ok request) =
      handled (pay_and_execute accuracy to_address num_confirmations chains auto_rbf request)

  -- The task for a request that is read and converted.
  unfoldable pub execute_task :
      {Q : Type 0} → (Q → Result Deadline.Error Request) → Chains → Result Runtime.Error Q → Outcome
  unfolding pay_request
  execute_task convert chains (err e) = not_read e
  execute_task convert chains (ok request) = pay_request chains (convert request)

  unfoldable pub on_request_redeem :
      (ℕ → Result Runtime.Error InterBtcRedeemRequest) → ℕ → RequestRedeemEvent → Outcome
  unfolding execute_task directed_to
  on_request_redeem get_redeem_request payment_margin event =
      directed_to (get_vault event.vault_id)
        (execute_task (λ request. from_redeem_request event.redeem_id request payment_margin))
        (get_redeem_request event.redeem_id)

  unfoldable pub on_accept_replace :
      (ℕ → Result Runtime.Error InterBtcReplaceRequest) → ℕ → AcceptReplaceEvent → Outcome
  unfolding execute_task directed_to
  on_accept_replace get_replace_request payment_margin event =
      directed_to (get_vault event.old_vault_id)
        (execute_task (λ request. from_replace_request event.replace_id request payment_margin))
        (get_replace_request event.replace_id)
