-- ===== src/Vault/Payment/Steps.antt =====
-- One round of the wait for the inclusion of a payment (`wait_for_inclusion`,
-- vault/src/execution.rs).
use interbtc_clients_cli.Prelude.{
  ℕ, ◌<◌, ◌≡◌, ◌∙◌, refl, ap, subst, Bool, true, false, Option, none, some, Result, ok, err, ◌>>=◌,
  ltb, ltb→lt, if◌then◌else◌, ◌⊎◌, inl, inr,
}
use interbtc_clients_cli.Runtime.{invalid_chain_id, rpc_disconnect, timeout, channel_closed, other}
use interbtc_clients_cli.Runtime as Runtime
use interbtc_clients_cli.Vault.Deadline.{Request}
use interbtc_clients_cli.Vault.Payment.{
  Error, conversion, TransactionMetadata, Moment, confirmed, fee_changed, closed, waits_for,
  included, failed, sat_per_vbyte, higher_fee, while_in_mempool, subscription, bump, relayed, step,
}

-- What the subscription yields only when a bump is due.
higher_fee-Due :
    (b : Bool) (u current : Result Error ℕ) (in_mempool : Result Error Bool) (old new : ℕ)
    → (if b then while_in_mempool in_mempool (higher_fee u current) else none)
      ≡ some (ok (old, new))
    → (b ≡ true) × (u ≡ ok new) × (current ≡ ok old) × (old < new) × (in_mempool ≡ ok true)
unfolding higher_fee while_in_mempool
higher_fee-Due false u current in_mempool old new h = cc
higher_fee-Due true (err e) current (ok true) old new h = cc
higher_fee-Due true (err e) current (ok false) old new h = cc
higher_fee-Due true (err e) current (err f) old new h = cc
higher_fee-Due true (ok x) (err e) in_mempool old new h = cc
higher_fee-Due true (ok x) (ok c) in_mempool old new h =
    let (e, e', lt, known) = pick (ltb c x) in_mempool refl h in
    (refl, ap ok e, ap ok e', subst (λ i. i < new) e' (subst (λ i. c < i) e lt), known)
  where
    pick :
        (b : Bool) (answer : Result Error Bool)
        → ltb c x ≡ b
        → while_in_mempool answer (if b then some (ok (c, x)) else none) ≡ some (ok (old, new))
        → (x ≡ new) × (c ≡ old) × (c < x) × (answer ≡ ok true)
    pick true (ok true) e k = (cc, cc, ltb→lt c x e, refl)
    pick true (ok false) e k = cc
    pick true (err f) e k = cc
    pick false answer e k = cc

module _ (accuracy : ℕ) (to_address : ℕ → Option ℕ) (num_confirmations : ℕ) (auto_rbf : Bool)
    (r : Request) where
  -- A change of the fee that replaces a transaction: it is done only with auto-rbf on, with a new fee
  -- above the current one, and while the transaction is in the mempool.
  pub data Bump : ℕ → Moment → ℕ → Type 0 where
    bumped :
        (txid address current new next : ℕ) (update : Result Error ℕ)
        (fee_rate : ℕ → Result Error ℕ) (is_in_mempool : ℕ → Result Error Bool)
        (bump_fee : ℕ → ℕ → ℕ → Result Error ℕ)
        → auto_rbf ≡ true
        → (update >>= sat_per_vbyte accuracy) ≡ ok new
        → fee_rate txid ≡ ok current
        → current < new
        → is_in_mempool txid ≡ ok true
        → to_address r.btc_address ≡ some address
        → bump_fee txid address new ≡ ok next
        → Bump txid (fee_changed update fee_rate is_in_mempool bump_fee) next

  -- What the subscription yields.
  subscription-Higher :
      (update current : Result Error ℕ) (in_mempool : Result Error Bool) (old new : ℕ)
      → subscription accuracy to_address num_confirmations auto_rbf update current in_mempool
        ≡ some (ok (old, new))
      → (auto_rbf ≡ true)
        × ((update >>= sat_per_vbyte accuracy) ≡ ok new)
        × (current ≡ ok old)
        × (old < new)
        × (in_mempool ≡ ok true)
  unfolding subscription
  subscription-Higher update current in_mempool old new h =
      higher_fee-Due auto_rbf (update >>= sat_per_vbyte accuracy) current in_mempool old new h

  pub step-waits :
      (txid next : ℕ) (x : Moment)
      → step accuracy to_address num_confirmations auto_rbf r txid x ≡ waits_for next
      → (next ≡ txid) ⊎ Bump txid x next
  unfolding step relayed bump
  step-waits txid next closed h = cc
  step-waits txid next (confirmed metadata relay) h = go (metadata txid num_confirmations) h
    where
      answered :
          (m : TransactionMetadata) (answer : Result Runtime.Error (Unit {0}))
          → relayed accuracy to_address num_confirmations txid m answer ≡ waits_for next
          → (next ≡ txid) ⊎ Bump txid (confirmed metadata relay) next
      answered m (ok u) k = cc
      answered m (err invalid_chain_id) k = inl cc
      answered m (err rpc_disconnect) k = cc
      answered m (err timeout) k = cc
      answered m (err channel_closed) k = cc
      answered m (err other) k = cc

      go :
          (a : Result Error TransactionMetadata)
          → elim a [
            | ok m ↦
                relayed accuracy to_address num_confirmations txid m
                  (relay m.block_hash num_confirmations)
            | err e ↦ failed e
          ]
            ≡ waits_for next
          → (next ≡ txid) ⊎ Bump txid (confirmed metadata relay) next
      go (err e) k = cc
      go (ok m) k = answered m (relay m.block_hash num_confirmations) k
  step-waits txid next (fee_changed update fee_rate is_in_mempool bump_fee) h =
      items
        (subscription accuracy to_address num_confirmations auto_rbf update (fee_rate txid)
          (is_in_mempool txid))
        refl h
    where
      x : Moment
      x = fee_changed update fee_rate is_in_mempool bump_fee

      fee :
          (old new address : ℕ) (answer : Result Error ℕ)
          → subscription accuracy to_address num_confirmations auto_rbf update
              (fee_rate txid)
              (is_in_mempool txid)
            ≡ some (ok (old, new))
          → to_address r.btc_address ≡ some address
          → bump_fee txid address new ≡ answer
          → elim answer [ ok new_txid ↦ waits_for new_txid | err e ↦ waits_for txid ]
            ≡ waits_for next
          → (next ≡ txid) ⊎ Bump txid x next
      fee old new address (err e) s a b k = inl cc
      fee old new address (ok new_txid) s a b k =
          let (on, higher, current, above, known) =
            subscription-Higher update (fee_rate txid) (is_in_mempool txid) old new s in
          inr (
            bumped txid address old new next update fee_rate is_in_mempool bump_fee on higher
              current above known a (cc))

      known_address :
          (old new : ℕ) (o : Option ℕ)
          → subscription accuracy to_address num_confirmations auto_rbf update
              (fee_rate txid)
              (is_in_mempool txid)
            ≡ some (ok (old, new))
          → to_address r.btc_address ≡ o
          → elim o [
            | none ↦ failed conversion
            | some address ↦ elim (bump_fee txid address new) [
              | ok new_txid ↦ waits_for new_txid
              | err e ↦ waits_for txid
            ]
          ]
            ≡ waits_for next
          → (next ≡ txid) ⊎ Bump txid x next
      known_address old new none s a k = cc
      known_address old new (some address) s a k =
          fee old new address (bump_fee txid address new) s a refl k

      items :
          (o : Option (Result Error (ℕ × ℕ)))
          → subscription accuracy to_address num_confirmations auto_rbf update
              (fee_rate txid)
              (is_in_mempool txid)
            ≡ o
          → bump accuracy to_address num_confirmations r txid bump_fee o ≡ waits_for next
          → (next ≡ txid) ⊎ Bump txid x next
      items none s k = inl cc
      items (some (err e)) s k = inl cc
      items (some (ok (old, new))) s k = known_address old new (to_address r.btc_address) s refl k

  pub step-included :
      (txid : ℕ) (x : Moment) (m : TransactionMetadata)
      → step accuracy to_address num_confirmations auto_rbf r txid x ≡ included m
      → (metadata : ℕ → ℕ → Result Error TransactionMetadata) × (relay : ℕ
          → ℕ
          → Result Runtime.Error (Unit {0}))
        × (x ≡ confirmed metadata relay)
        × (metadata txid num_confirmations ≡ ok m)
        × (relay m.block_hash num_confirmations ≡ ok tt)
  unfolding step relayed bump
  step-included txid closed m h = cc
  step-included txid (confirmed metadata relay) m h = go (metadata txid num_confirmations) refl h
    where
      answered :
          (m' : TransactionMetadata) (answer : Result Runtime.Error (Unit {0}))
          → relayed accuracy to_address num_confirmations txid m' answer ≡ included m
          → (m' ≡ m) × (answer ≡ ok tt)
      answered m' (ok u) k = (cc, refl)
      answered m' (err invalid_chain_id) k = cc
      answered m' (err rpc_disconnect) k = cc
      answered m' (err timeout) k = cc
      answered m' (err channel_closed) k = cc
      answered m' (err other) k = cc

      go :
          (a : Result Error TransactionMetadata)
          → metadata txid num_confirmations ≡ a
          → elim a [
            | ok m' ↦
                relayed accuracy to_address num_confirmations txid m'
                  (relay m'.block_hash num_confirmations)
            | err e ↦ failed e
          ]
            ≡ included m
          → (given : ℕ → ℕ → Result Error TransactionMetadata) × (accepts : ℕ
              → ℕ
              → Result Runtime.Error (Unit {0}))
            × (confirmed metadata relay ≡ confirmed given accepts)
            × (given txid num_confirmations ≡ ok m)
            × (accepts m.block_hash num_confirmations ≡ ok tt)
      go (err e) a k = cc
      go (ok m') a k =
          let (same, accepted) = answered m' (relay m'.block_hash num_confirmations) k in
          (
            metadata,
            relay,
            refl,
            a ∙ ap ok same,
            subst (λ (z : TransactionMetadata). relay z.block_hash num_confirmations ≡ ok tt) same
                accepted,
          )
  step-included txid (fee_changed update fee_rate is_in_mempool bump_fee) m h = absurd (
      not_included
        (subscription accuracy to_address num_confirmations auto_rbf update (fee_rate txid)
          (is_in_mempool txid))
        h)
    where
      found :
          (new : ℕ) (o : Option ℕ)
          → elim o [
            | none ↦ failed conversion
            | some address ↦ elim (bump_fee txid address new) [
              | ok new_txid ↦ waits_for new_txid
              | err e ↦ waits_for txid
            ]
          ]
            ≡ included m
          → ⊥
      found new none k = cc
      found new (some address) k = answered (bump_fee txid address new) k
        where
          answered :
              (answer : Result Error ℕ)
              → elim answer [ ok new_txid ↦ waits_for new_txid | err e ↦ waits_for txid ]
                ≡ included m
              → ⊥
          answered (ok t) k' = cc
          answered (err e) k' = cc

      not_included :
          (o : Option (Result Error (ℕ × ℕ)))
          → bump accuracy to_address num_confirmations r txid bump_fee o ≡ included m
          → ⊥
      not_included none k = cc
      not_included (some (err e)) k = cc
      not_included (some (ok (old, new))) k = found new (to_address r.btc_address) k
