-- ===== src/Bitcoin/Core/Attempts.antt =====
-- The calls behind the results of retries (`with_wallet_inner` and `retry`, bitcoin/src/lib.rs).
use interbtc_clients_cli.Prelude.{
  ℕ, suc, ◌≡◌, refl, ap, Bool, true, false, ◌&&◌, Option, none, some, List, [], ◌∷◌, Result, ok,
  err, if◌then◌else◌,
}
use interbtc_clients_cli.Bitcoin.Rpc.{
  Error, connection_refused, is_wallet_error, is_wallet_not_found,
}
use interbtc_clients_cli.Bitcoin.Core.Calls.{attempt, with_wallet_inner, retry}

module _ {T : Type 0} (b : Bool) (call : ℕ → Result Error T)
    (load : ℕ → Result Error (Unit {0})) where
  attempt-ok :
      (n : ℕ) (r : Result Error T) (t : T) → attempt b call load n r ≡ some (ok t) → r ≡ ok t
  unfolding attempt
  attempt-ok n (ok t') t h = cc
  attempt-ok n (err e) t h = go (is_wallet_not_found e) (b && is_wallet_error e) (load n) h
    where
      go :
          (c d : Bool) (l : Result Error (Unit {0}))
          → (if c
              then elim l as (λ _. Option (Result Error T)) [ ok u ↦ none | err f ↦ some (err f) ]
              else (if d then none else some (err e)))
            ≡ some (ok t)
          → err e ≡ ok t
      go true d (ok u) h = cc
      go true d (err f) h = cc
      go false true l h = cc
      go false false l h = cc

  -- A result is one of a call.
  pub with_wallet_inner-ok :
      (n : ℕ) (backoff : List ℕ) (t : T)
      → with_wallet_inner b call load n backoff ≡ ok t
      → (m : ℕ) × (call m ≡ ok t)
  unfolding with_wallet_inner
  with_wallet_inner-ok n [] t h = go (attempt b call load n (call n)) refl h
    where
      go :
          (o : Option (Result Error T))
          → attempt b call load n (call n) ≡ o
          → elim o as (λ _. Result Error T) [ some result ↦ result | none ↦ err connection_refused ]
            ≡ ok t
          → (m : ℕ) × (call m ≡ ok t)
      go none e h = cc
      go (some r) e h =
          (n, attempt-ok n (call n) t (let e' : some r ≡ some (ok t) = ap some h in cc))
  with_wallet_inner-ok n (wait ∷ backoff) t h =
      go (attempt b call load n (call n)) refl (with_wallet_inner-ok (suc n) backoff t) h
    where
      go :
          (o : Option (Result Error T))
          → attempt b call load n (call n) ≡ o
          → (with_wallet_inner b call load (suc n) backoff ≡ ok t → (m : ℕ) × (call m ≡ ok t))
          → elim o as (λ _. Result Error T) [
            | some result ↦ result
            | none ↦ with_wallet_inner b call load (suc n) backoff
          ]
            ≡ ok t
          → (m : ℕ) × (call m ≡ ok t)
      go none e ih h = ih h
      go (some r) e ih h =
          (n, attempt-ok n (call n) t (let e' : some r ≡ some (ok t) = ap some h in cc))

pub retry-ok :
    {T : Type 0} (call : ℕ → Result Error T) (n : ℕ) (backoff : List ℕ) (t : T)
    → retry call n backoff ≡ ok t
    → (m : ℕ) × (call m ≡ ok t)
unfolding retry
retry-ok call n [] t h = (n, h)
retry-ok {T} call n (wait ∷ backoff) t h = go (call n) refl (retry-ok call (suc n) backoff t) h
  where
    go :
        (r : Result Error T)
        → call n ≡ r
        → (retry call (suc n) backoff ≡ ok t → (m : ℕ) × (call m ≡ ok t))
        → elim r as (λ _. Result Error T) [ ok t ↦ ok t | err e ↦ retry call (suc n) backoff ]
          ≡ ok t
        → (m : ℕ) × (call m ≡ ok t)
    go (ok t') e ih h = (n, cc)
    go (err f) e ih h = ih h
