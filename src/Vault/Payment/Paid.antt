-- ===== src/Vault/Payment/Paid.antt =====
-- What `pay_and_execute` (vault/src/execution.rs) pays.
use interbtc_clients_cli.Prelude.{
  ℕ, ◌%◌, ◌<◌, ◌≡◌, refl, ap, subst, sym, ◌∙◌, Bool, true, false, Option, none, some, List, [], ◌∷◌,
  Result, ok, err, ◌>>=◌, leb, ok_or, if◌then◌else◌, ◌⊎◌, inl, inr, arith,
}
use interbtc_clients_cli.Bitcoin.Wallet.{u64_mod}
use interbtc_clients_cli.Vault.Deadline.{Request, Deadline}
use interbtc_clients_cli.Vault.Payment.{
  Error, conversion, deadline_expired, Waiting, failed, wait_for_inclusion,
}
use interbtc_clients_cli.Vault.Payment.Transfer.{
  Payment, Chains, Progress, ended, ensure_not_expired, get_fee_rate, payment_for, execute_included,
  transfer_btc, pay_and_execute,
}

abbrev due : Bool → Result Error (Unit {0})
due b = if b then err deadline_expired else ok tt

abbrev counted_result : Deadline → Result Error ℕ → Result Error (Unit {0})
counted_result d count = count >>= λ c. due (leb d.bitcoin c)

abbrev reached_result : Deadline → Result Error ℕ → Bool → Result Error (Unit {0})
reached_result d count b = if b then counted_result d count else ok tt

abbrev guard_result : Deadline → Result Error ℕ → Result Error ℕ → Result Error (Unit {0})
guard_result d count active = active >>= λ a. reached_result d count (leb d.parachain a)

module _ (accuracy : ℕ) (to_address : ℕ → Option ℕ) (num_confirmations : ℕ) (chains : Chains) where
  -- A deadline is not over while one of the chains is before its height.
  abbrev pub Before : Deadline → Type 0
  Before d =
      (active : ℕ) × (chains.get_current_active_block_number ≡ ok active)
      × ((active < d.parachain)
          ⊎ ((count : ℕ) × (chains.get_block_count ≡ ok count) × (count < d.bitcoin)))

  -- The payment for a request: to its address, with its amount and hash, at the fee rate of the
  -- parachain.
  pub record IsPaymentFor (r : Request) (p : Payment) : Type 0 where
    pub to : to_address r.btc_address ≡ some p.address
    pub amount : p.sat ≡ r.amount % u64_mod
    pub rate : get_fee_rate accuracy to_address num_confirmations chains ≡ ok p.fee_rate
    pub hash : p.op_return ≡ r.hash
    pub in_time : (d : Deadline) → r.deadline ≡ some d → Before d

  -- What was paid: nothing, or a single payment for the request.
  abbrev pub PaidOnce : Request → List Payment → Type 0
  PaidOnce r sent = (sent ≡ []) ⊎ ((p : Payment) × (sent ≡ p ∷ []) × IsPaymentFor r p)

  ensure_not_expired-Before :
      (d : Deadline)
      → ensure_not_expired accuracy to_address num_confirmations chains (some d) ≡ ok tt
      → Before d
  unfolding ensure_not_expired
  ensure_not_expired-Before d h = outer chains.get_current_active_block_number refl h
    where
      height :
          (active count : ℕ) (b : Bool)
          → chains.get_current_active_block_number ≡ ok active
          → chains.get_block_count ≡ ok count
          → leb d.bitcoin count ≡ b
          → due b ≡ ok tt
          → Before d
      height active count true a c e k = cc
      height active count false a c e k = (active, a, inr (count, c, ground arith))

      counted :
          (active : ℕ) (r : Result Error ℕ)
          → chains.get_current_active_block_number ≡ ok active
          → chains.get_block_count ≡ r
          → counted_result d r ≡ ok tt
          → Before d
      counted active (ok count) a c k = height active count (leb d.bitcoin count) a c refl k
      counted active (err e) a c k = cc

      reached :
          (active : ℕ) (b : Bool)
          → chains.get_current_active_block_number ≡ ok active
          → leb d.parachain active ≡ b
          → reached_result d chains.get_block_count b ≡ ok tt
          → Before d
      reached active true a e k = counted active chains.get_block_count a refl k
      reached active false a e k = (active, a, inl (ground arith))

      outer :
          (r : Result Error ℕ)
          → chains.get_current_active_block_number ≡ r
          → guard_result d chains.get_block_count r ≡ ok tt
          → Before d
      outer (ok active) a k = reached active (leb d.parachain active) a refl k
      outer (err e) a k = cc

  abbrev made : Request → ℕ → ℕ → Payment
  made r address fee_rate = record {
    address = address;
    sat = r.amount % u64_mod;
    fee_rate = fee_rate;
    op_return = r.hash;
  }

  payment_for-fields :
      (r : Request) (p : Payment)
      → payment_for accuracy to_address num_confirmations chains r ≡ ok p
      → (to_address r.btc_address ≡ some p.address)
        × (p.sat ≡ r.amount % u64_mod)
        × (get_fee_rate accuracy to_address num_confirmations chains ≡ ok p.fee_rate)
        × (p.op_return ≡ r.hash)
  unfolding payment_for
  payment_for-fields r p h =
      outer (get_fee_rate accuracy to_address num_confirmations chains) refl h
    where
      inner :
          (fee_rate : ℕ) (o : Option ℕ)
          → get_fee_rate accuracy to_address num_confirmations chains ≡ ok fee_rate
          → to_address r.btc_address ≡ o
          → (ok_or o conversion >>= λ address. ok (made r address fee_rate)) ≡ ok p
          → (to_address r.btc_address ≡ some p.address)
            × (p.sat ≡ r.amount % u64_mod)
            × (get_fee_rate accuracy to_address num_confirmations chains ≡ ok p.fee_rate)
            × (p.op_return ≡ r.hash)
      inner fee_rate none f a k = cc
      inner fee_rate (some address) f a k =
          let e : made r address fee_rate ≡ p = cc in
          (
            a ∙ ap (λ (q : Payment). some q.address) e,
            sym (ap (λ (q : Payment). q.sat) e),
            f ∙ ap (λ (q : Payment). ok q.fee_rate) e,
            sym (ap (λ (q : Payment). q.op_return) e),
          )

      outer :
          (rate : Result Error ℕ)
          → get_fee_rate accuracy to_address num_confirmations chains ≡ rate
          → (rate >>= λ fee_rate.
              (ok_or (to_address r.btc_address) conversion >>= λ address.
              ok (made r address fee_rate)))
            ≡ ok p
          → (to_address r.btc_address ≡ some p.address)
            × (p.sat ≡ r.amount % u64_mod)
            × (get_fee_rate accuracy to_address num_confirmations chains ≡ ok p.fee_rate)
            × (p.op_return ≡ r.hash)
      outer (ok fee_rate) f k = inner fee_rate (to_address r.btc_address) f refl k
      outer (err e) f k = cc

  pub transfer_btc-none :
      (auto_rbf : Bool) (r : Request) (e : Error)
      → payment_for accuracy to_address num_confirmations chains r ≡ err e
      → transfer_btc accuracy to_address num_confirmations chains auto_rbf r ≡ ([], failed e)
  unfolding transfer_btc
  transfer_btc-none auto_rbf r e h = rw (h, transfer_btc) refl

  -- What follows once a payment is known.
  abbrev pub after : Bool → Request → Result Error ℕ → Waiting
  after auto_rbf r (err e) = failed e
  after auto_rbf r (ok txid) =
      wait_for_inclusion accuracy to_address num_confirmations auto_rbf r txid chains.moments

  pub transfer_btc-one :
      (auto_rbf : Bool) (r : Request) (p : Payment)
      → payment_for accuracy to_address num_confirmations chains r ≡ ok p
      → transfer_btc accuracy to_address num_confirmations chains auto_rbf r
        ≡ (p ∷ [], after auto_rbf r (chains.create_and_send_transaction p))
  unfolding transfer_btc
  transfer_btc-one auto_rbf r p h =
      rw (h, transfer_btc) (split (chains.create_and_send_transaction p))
    where
      split :
          (o : Result Error ℕ)
          → ◌≡◌ {A = List Payment × Waiting}
              (elim o [
                | err e ↦ (p ∷ [], failed e)
                | ok txid ↦ (
                  p ∷ [],
                  wait_for_inclusion accuracy to_address num_confirmations auto_rbf r txid
                      chains.moments,
                )
              ])
              (p ∷ [], after auto_rbf r o)
      split (err e) = refl
      split (ok txid) = refl

  in_time_of :
      (o : Option Deadline)
      → ensure_not_expired accuracy to_address num_confirmations chains o ≡ ok tt
      → (d : Deadline) → o ≡ some d
      → Before d
  in_time_of o h d e =
      ensure_not_expired-Before d
        (subst (λ x. ensure_not_expired accuracy to_address num_confirmations chains x ≡ ok tt) e h)

  transfer_btc-PaidOnce :
      (auto_rbf : Bool) (r : Request)
      → ((d : Deadline) → r.deadline ≡ some d → Before d)
      → PaidOnce r (transfer_btc accuracy to_address num_confirmations chains auto_rbf r).0
  transfer_btc-PaidOnce auto_rbf r t =
      go (payment_for accuracy to_address num_confirmations chains r) refl
    where
      go :
          (o : Result Error Payment)
          → payment_for accuracy to_address num_confirmations chains r ≡ o
          → PaidOnce r (transfer_btc accuracy to_address num_confirmations chains auto_rbf r).0
      go (err e) h =
          inl (ap (λ (x : List Payment × Waiting). x.0) (transfer_btc-none auto_rbf r e h))
      go (ok p) h =
          let (to, amount, rate, hash) = payment_for-fields r p h in
          inr (
            p,
            ap (λ (x : List Payment × Waiting). x.0) (transfer_btc-one auto_rbf r p h),
            record { to = to; amount = amount; rate = rate; hash = hash; in_time = t },
          )

  -- The Bitcoin node is asked for at most one payment, which is to the address of the request, with
  -- its amount as a u64, its hash, and the fee rate of the parachain; and only if at least one of the
  -- two chains is before the request's deadline.
  pub pay_and_execute-PaidOnce :
      (auto_rbf : Bool) (r : Request)
      → PaidOnce r (pay_and_execute accuracy to_address num_confirmations chains auto_rbf r).0
  unfolding pay_and_execute
  pay_and_execute-PaidOnce auto_rbf r =
      guard (ensure_not_expired accuracy to_address num_confirmations chains r.deadline) refl
    where
      guard :
          (g : Result Error (Unit {0}))
          → ensure_not_expired accuracy to_address num_confirmations chains r.deadline ≡ g
          → (let done : List Payment × Progress = elim g [
            | err e ↦ ([], ended (err e))
            | ok u ↦
                let (sent, waiting) =
                  transfer_btc accuracy to_address num_confirmations chains auto_rbf r in
                (sent, execute_included accuracy to_address num_confirmations chains r waiting)
          ] in
              PaidOnce r done.0)
      guard (err e) h = inl refl
      guard (ok u) h = transfer_btc-PaidOnce auto_rbf r (in_time_of r.deadline h)
