-- ===== src/Runtime/Retry.antt =====
-- When `notify_retry` (runtime/src/retry.rs) ends, and with what.
use interbtc_clients_cli.Prelude.{
  ℕ, zero, suc, ◌+◌, ◌≤◌, ◌<◌, ◌≡◌, refl, subst, ◌∙◌, List, [], ◌∷◌, Result, ok, err, length, arith,
}
use interbtc_clients_cli.Runtime.{Error, timeout, RetryPolicy, skip, throw, notify_retry}

-- How an attempt ends the retries, if it does: any answer of `verify` but a skipped error.
pub data Ends {ℓ} {T : Type ℓ} : Result RetryPolicy T → Result Error T → Type ℓ where
  done : (t : T) → Ends (ok t) (ok t)
  thrown : (e : Error) → Ends (err (throw e)) (err e)

Ends-now {ℓ} :
    {T : Type ℓ} (v : Result RetryPolicy T) (r rest : Result Error T)
    → Ends v r
    → elim v [ ok t ↦ ok t | err (throw e) ↦ err e | err (skip e) ↦ rest ] ≡ r
Ends-now _ _ rest (done t) = refl
Ends-now _ _ rest (thrown e) = refl

module _ {ℓ} {E T : Type ℓ} (call : ℕ → Result E T)
    (verify : Result E T → Result RetryPolicy T) where
  abbrev pub Skipped : ℕ → Type ℓ
  Skipped k = (e : Error) × (verify (call k) ≡ err (skip e))

  ended :
      (n : ℕ) (backoff : List ℕ) (r : Result Error T)
      → Ends (verify (call n)) r
      → notify_retry call verify n backoff ≡ r
  unfolding notify_retry
  ended n [] r h = Ends-now (verify (call n)) r (err timeout) h
  ended n (wait ∷ backoff) r h =
      Ends-now (verify (call n)) r (notify_retry call verify (suc n) backoff) h

  notify_retry-last : (n : ℕ) → Skipped n → notify_retry call verify n [] ≡ err timeout
  unfolding notify_retry
  notify_retry-last n (e, h) = rw (h, notify_retry) refl

  notify_retry-next :
      (n wait : ℕ) (backoff : List ℕ)
      → Skipped n
      → notify_retry call verify n (wait ∷ backoff) ≡ notify_retry call verify (suc n) backoff
  unfolding notify_retry
  notify_retry-next n wait backoff (e, h) = rw (h, notify_retry) refl

  -- The retries end with the first attempt whose error is not skipped, whatever later ones would
  -- return, if the backoff gives a wait before each attempt up to it.
  pub notify_retry-Ends :
      (n : ℕ) (backoff : List ℕ) (k : ℕ) (r : Result Error T)
      → k ≤ length backoff
      → ((j : ℕ) → j < k → Skipped (n + j))
      → Ends (verify (call (n + k))) r
      → notify_retry call verify n backoff ≡ r
  notify_retry-Ends n backoff zero r l before h =
      ended n backoff r (subst (λ i. Ends (verify (call i)) r) (omega arith) h)
  notify_retry-Ends n [] (suc k) r l before h = absurd (omega arith)
  notify_retry-Ends n (wait ∷ backoff) (suc k) r l before h =
      notify_retry-next n wait backoff (subst Skipped (omega arith) (before 0 (omega arith)))
      ∙ notify_retry-Ends (suc n) backoff k r (omega arith)
          (λ j lt. subst Skipped (omega arith) (before (suc j) (omega arith)))
          (subst (λ i. Ends (verify (call i)) r) (omega arith) h)

  -- If the first attempt, and each that the backoff gives a wait for, is skipped, the retries end
  -- with a timeout.
  pub notify_retry-timeout :
      (n : ℕ) (backoff : List ℕ)
      → ((j : ℕ) → j ≤ length backoff → Skipped (n + j))
      → notify_retry call verify n backoff ≡ err timeout
  notify_retry-timeout n [] h =
      notify_retry-last n (subst Skipped (omega arith) (h 0 (omega arith)))
  notify_retry-timeout n (wait ∷ backoff) h =
      notify_retry-next n wait backoff (subst Skipped (omega arith) (h 0 (omega arith)))
      ∙ notify_retry-timeout (suc n) backoff
          (λ j l. subst Skipped (omega arith) (h (suc j) (omega arith)))

  -- A success of the retries is the success of an attempt that the backoff gives.
  pub notify_retry-ok :
      (n : ℕ) (backoff : List ℕ) (t : T)
      → notify_retry call verify n backoff ≡ ok t
      → (k : ℕ) × (k ≤ length backoff) × (verify (call (n + k)) ≡ ok t)
  unfolding notify_retry
  notify_retry-ok n [] t h = go (verify (call n)) refl h
    where
      go :
          (v : Result RetryPolicy T)
          → verify (call n) ≡ v
          → elim v [ ok u ↦ ok u | err (throw e) ↦ err e | err (skip e) ↦ err timeout ] ≡ ok t
          → (k : ℕ) × (k ≤ 0) × (verify (call (n + k)) ≡ ok t)
      go (ok u) e k =
          (0, omega arith, subst (λ i. verify (call i) ≡ ok t) {x = n} (omega arith) (cc))
      go (err (throw f)) e k = cc
      go (err (skip f)) e k = cc
  notify_retry-ok n (wait ∷ backoff) t h =
      go (verify (call n)) refl (notify_retry-ok (suc n) backoff t) h
    where
      go :
          (v : Result RetryPolicy T)
          → verify (call n) ≡ v
          → (notify_retry call verify (suc n) backoff ≡ ok t
              → (k : ℕ) × (k ≤ length backoff) × (verify (call (suc n + k)) ≡ ok t))
          → elim v [
            | ok u ↦ ok u
            | err (throw e) ↦ err e
            | err (skip e) ↦ notify_retry call verify (suc n) backoff
          ]
            ≡ ok t
          → (k : ℕ) × (k ≤ suc (length backoff)) × (verify (call (n + k)) ≡ ok t)
      go (ok u) e later k =
          (0, omega arith, subst (λ i. verify (call i) ≡ ok t) {x = n} (omega arith) (cc))
      go (err (throw f)) e later k = cc
      go (err (skip f)) e later k =
          let (i, l, v) = later k in
          (suc i, omega arith, subst (λ j. verify (call j) ≡ ok t) (omega arith) v)
