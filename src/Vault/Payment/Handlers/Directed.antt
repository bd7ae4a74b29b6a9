-- ===== src/Vault/Payment/Handlers/Directed.antt =====
-- What the handlers of redeem and replace requests pay (vault/src/redeem.rs, vault/src/replace.rs).
use interbtc_clients_cli.Prelude.{
  ℕ, ◌%◌, ◌≡◌, refl, subst, ◌∙◌, ap, Bool, Option, none, some, List, [], ◌∷◌, Result, ok, err,
  ◌>>=◌, ◌⊎◌, inl, inr,
}
use interbtc_clients_cli.Bitcoin.Wallet.{u64_mod}
use interbtc_clients_cli.Runtime as Runtime
use interbtc_clients_cli.Vault.Deadline as Deadline
use interbtc_clients_cli.Vault.Deadline.{
  Request, redeem, replace, InterBtcRedeemRequest, InterBtcReplaceRequest, calculate_deadline,
  from_redeem_request, from_replace_request,
}
use interbtc_clients_cli.Vault.Payment.Transfer.{Payment, Chains, pay_and_execute}
use interbtc_clients_cli.Vault.Payment.Paid.{Before, PaidOnce, pay_and_execute-PaidOnce}
use interbtc_clients_cli.Vault.Payment.Handlers.{
  RequestRedeemEvent, AcceptReplaceEvent, payments, pay_request, execute_task, directed_to,
  on_request_redeem, on_accept_replace,
}

-- What a request on the parachain asks to be paid.
pub record Terms : Type 0 where
  pub hash : ℕ
  pub btc_address : ℕ
  pub amount : ℕ
  pub deadline : Result Deadline.Error Deadline.Deadline

abbrev pub redeem_terms : ℕ → ℕ → InterBtcRedeemRequest → Terms
redeem_terms hash payment_margin request = record {
  hash = hash;
  btc_address = request.btc_address;
  amount = request.amount_btc;
  deadline = calculate_deadline request.opentime request.btc_height request.period payment_margin;
}

abbrev pub replace_terms : ℕ → ℕ → InterBtcReplaceRequest → Terms
replace_terms hash payment_margin request = record {
  hash = hash;
  btc_address = request.btc_address;
  amount = request.amount;
  deadline =
      calculate_deadline request.accept_time request.btc_height request.period payment_margin;
}

-- A request with the terms of one on the parachain.
record HasTerms (terms : Terms) (r : Request) : Type 0 where
  deadline : Deadline.Deadline
  computed : terms.deadline ≡ ok deadline
  has_deadline : r.deadline ≡ some deadline
  has_hash : r.hash ≡ terms.hash
  has_address : r.btc_address ≡ terms.btc_address
  has_amount : r.amount ≡ terms.amount

-- A conversion that computes the deadline first, and then has the terms for each.
converted-HasTerms :
    (terms : Terms) (make : Deadline.Deadline → Request) (r : Request)
    → ((d : Deadline.Deadline) → terms.deadline ≡ ok d → HasTerms terms (make d))
    → (terms.deadline >>= λ d. ok (make d)) ≡ ok r
    → HasTerms terms r
converted-HasTerms terms make r made h = go terms.deadline refl h
  where
    go :
        (o : Result Deadline.Error Deadline.Deadline)
        → terms.deadline ≡ o
        → (o >>= λ d. ok (make d)) ≡ ok r
        → HasTerms terms r
    go (err e) q k = cc
    go (ok d) q k = let same : make d ≡ r = cc in subst (HasTerms terms) same (made d q)

redeem-HasTerms :
    (hash payment_margin : ℕ) (request : InterBtcRedeemRequest) (r : Request)
    → from_redeem_request hash request payment_margin ≡ ok r
    → HasTerms (redeem_terms hash payment_margin request) r
unfolding from_redeem_request
redeem-HasTerms hash payment_margin request r h =
    converted-HasTerms (redeem_terms hash payment_margin request)
      (λ d. record {
        hash = hash;
        btc_height = some request.btc_height;
        deadline = some d;
        amount = request.amount_btc;
        btc_address = request.btc_address;
        request_type = redeem;
        vault_id = request.vault;
        fee_budget = some request.transfer_fee_btc;
      })
      r
      (λ d q. record {
        deadline = d;
        computed = q;
        has_deadline = refl;
        has_hash = refl;
        has_address = refl;
        has_amount = refl;
      })
      h

replace-HasTerms :
    (hash payment_margin : ℕ) (request : InterBtcReplaceRequest) (r : Request)
    → from_replace_request hash request payment_margin ≡ ok r
    → HasTerms (replace_terms hash payment_margin request) r
unfolding from_replace_request
replace-HasTerms hash payment_margin request r h =
    converted-HasTerms (replace_terms hash payment_margin request)
      (λ d. record {
        hash = hash;
        btc_height = some request.btc_height;
        deadline = some d;
        amount = request.amount;
        btc_address = request.btc_address;
        request_type = replace;
        vault_id = request.old_vault;
        fee_budget = none;
      })
      r
      (λ d q. record {
        deadline = d;
        computed = q;
        has_deadline = refl;
        has_hash = refl;
        has_address = refl;
        has_amount = refl;
      })
      h

module _ (accuracy : ℕ) (to_address : ℕ → Option ℕ) (num_confirmations : ℕ)
    (get_vault : ℕ → Option Chains) (auto_rbf : Bool) where
  -- A payment by a vault of the client, on the terms of a request that was read.
  pub record IsPaidFor {Q : Type 0} (vault_id : ℕ) (read : Result Runtime.Error Q)
      (terms_of : Q → Terms) (p : Payment) : Type 0 where
    pub chains : Chains
    pub request : Q
    pub deadline : Deadline.Deadline
    pub directed : get_vault vault_id ≡ some chains
    pub was_read : read ≡ ok request
    pub computed : (terms_of request).deadline ≡ ok deadline
    pub to : to_address (terms_of request).btc_address ≡ some p.address
    pub amount : p.sat ≡ (terms_of request).amount % u64_mod
    pub hash : p.op_return ≡ (terms_of request).hash
    pub in_time : Before accuracy to_address num_confirmations chains deadline

  -- No payment, or a single one.
  abbrev pub PaidAtMostOnce :
      {Q : Type 0} → ℕ → Result Runtime.Error Q → (Q → Terms) → List Payment → Type 0
  PaidAtMostOnce vault_id read terms_of sent =
      (sent ≡ []) ⊎ ((p : Payment) × (sent ≡ p ∷ []) × IsPaidFor vault_id read terms_of p)

  PaidOnce-terms :
      {Q : Type 0} (vault_id : ℕ) (read : Result Runtime.Error Q) (terms_of : Q → Terms)
      (chains : Chains) (request : Q) (r : Request) (sent : List Payment)
      → get_vault vault_id ≡ some chains
      → read ≡ ok request
      → HasTerms (terms_of request) r
      → PaidOnce accuracy to_address num_confirmations chains r sent
      → PaidAtMostOnce vault_id read terms_of sent
  PaidOnce-terms vault_id read terms_of chains request r sent v q t (inl none_sent) = inl none_sent
  PaidOnce-terms vault_id read terms_of chains request r sent v q t (inr (p, one, for)) = inr (
    p,
    one,
    record {
      chains = chains;
      request = request;
      deadline = t.deadline;
      directed = v;
      was_read = q;
      computed = t.computed;
      to = subst (λ a. to_address a ≡ some p.address) t.has_address for.to;
      amount = for.amount ∙ ap (λ a. a % u64_mod) t.has_amount;
      hash = for.hash ∙ t.has_hash;
      in_time = for.in_time t.deadline t.has_deadline;
    },
  )

  -- The task, once the vault is known and the conversion keeps the terms.
  execute_task-PaidAtMostOnce :
      {Q : Type 0} (convert : Q → Result Deadline.Error Request) (terms_of : Q → Terms)
      (vault_id : ℕ) (chains : Chains) (read : Result Runtime.Error Q)
      → ((q : Q) (r : Request) → convert q ≡ ok r → HasTerms (terms_of q) r)
      → get_vault vault_id ≡ some chains
      → PaidAtMostOnce vault_id read terms_of (
          payments (
            execute_task accuracy to_address num_confirmations get_vault auto_rbf convert chains
              read))
  unfolding execute_task pay_request
  execute_task-PaidAtMostOnce convert terms_of vault_id chains (err e) keeps v = inl refl
  execute_task-PaidAtMostOnce convert terms_of vault_id chains (ok q) keeps v = go (convert q) refl
    where
      go :
          (c : Result Deadline.Error Request)
          → convert q ≡ c
          → PaidAtMostOnce vault_id (ok q) terms_of (
              payments
                (pay_request accuracy to_address num_confirmations get_vault auto_rbf chains c))
      go (err e) h = inl refl
      go (ok r) h =
          PaidOnce-terms vault_id (ok q) terms_of chains q r
            (pay_and_execute accuracy to_address num_confirmations chains auto_rbf r).0 v refl
            (keeps q r h)
            (pay_and_execute-PaidOnce accuracy to_address num_confirmations chains auto_rbf r)

  directed_to-PaidAtMostOnce :
      {Q : Type 0} (convert : Q → Result Deadline.Error Request) (terms_of : Q → Terms)
      (vault_id : ℕ) (v : Option Chains) (read : Result Runtime.Error Q)
      → ((q : Q) (r : Request) → convert q ≡ ok r → HasTerms (terms_of q) r)
      → get_vault vault_id ≡ v
      → PaidAtMostOnce vault_id read terms_of (
          payments (
            directed_to v
              (execute_task accuracy to_address num_confirmations get_vault auto_rbf convert)
              read))
  unfolding directed_to
  directed_to-PaidAtMostOnce convert terms_of vault_id none read keeps h = inl refl
  directed_to-PaidAtMostOnce convert terms_of vault_id (some chains) read keeps h =
      execute_task-PaidAtMostOnce convert terms_of vault_id chains read keeps h

  -- On a redeem event at most one payment is asked for: by the vault of the client that the event
  -- names, to the address of the request that the parachain has under the event's id, with its amount
  -- as a u64 and this id, and while one of the two chains is before the deadline of the request.
  pub on_request_redeem-PaidAtMostOnce :
      (get_redeem_request : ℕ → Result Runtime.Error InterBtcRedeemRequest) (payment_margin : ℕ)
      (event : RequestRedeemEvent)
      → PaidAtMostOnce event.vault_id
          (get_redeem_request event.redeem_id)
          (redeem_terms event.redeem_id payment_margin)
          (payments (
            on_request_redeem accuracy to_address num_confirmations get_vault auto_rbf
              get_redeem_request payment_margin event))
  unfolding on_request_redeem
  on_request_redeem-PaidAtMostOnce get_redeem_request payment_margin event =
      directed_to-PaidAtMostOnce
        (λ request. from_redeem_request event.redeem_id request payment_margin)
        (redeem_terms event.redeem_id payment_margin) event.vault_id (get_vault event.vault_id)
        (get_redeem_request event.redeem_id) (redeem-HasTerms event.redeem_id payment_margin) refl

  -- On the acceptance of a replacement at most one payment is asked for: by the replaced vault, if it is
  -- one of the client, on the terms of the replace request that the parachain has under the event's
  -- id, and while one of the two chains is before the deadline of the request.
  pub on_accept_replace-PaidAtMostOnce :
      (get_replace_request : ℕ → Result Runtime.Error InterBtcReplaceRequest) (payment_margin : ℕ)
      (event : AcceptReplaceEvent)
      → PaidAtMostOnce event.old_vault_id
          (get_replace_request event.replace_id)
          (replace_terms event.replace_id payment_margin)
          (payments (
            on_accept_replace accuracy to_address num_confirmations get_vault auto_rbf
              get_replace_request payment_margin event))
  unfolding on_accept_replace
  on_accept_replace-PaidAtMostOnce get_replace_request payment_margin event =
      directed_to-PaidAtMostOnce
        (λ request. from_replace_request event.replace_id request payment_margin)
        (replace_terms event.replace_id payment_margin) event.old_vault_id
        (get_vault event.old_vault_id) (get_replace_request event.replace_id)
        (replace-HasTerms event.replace_id payment_margin) refl
