-- ===== src/Vault/Execution/Keys.antt =====
-- The map of open requests by their hashes (`execute_open_requests`, vault/src/execution.rs).
use interbtc_clients_cli.Prelude.{
  ℕ, ◌≡◌, ◌≢◌, refl, subst, Bool, true, false, not, Option, none, some, List, [], ◌∷◌, ◌==◌, ==_iff,
  if◌then◌else◌, arith,
}
use interbtc_clients_cli.Vault.Deadline.{Request}
use interbtc_clients_cli.Vault.Execution.{get, remove, collect}

-- No two requests have one hash.
abbrev pub Distinct : List Request → Type 0
Distinct [] = Unit {0}
Distinct (r ∷ rs) = (get r.hash rs ≡ none) × Distinct rs

pub get-remove_same : (h : ℕ) (rs : List Request) → get h (remove h rs) ≡ none
unfolding get remove
get-remove_same h [] = refl
get-remove_same h (r ∷ rs) = ground (arith, get-remove_same h rs)

pub get-remove_other : (h k : ℕ) (rs : List Request) → h ≢ k → get h (remove k rs) ≡ get h rs
unfolding get remove
get-remove_other h k [] ne = refl
get-remove_other h k (r ∷ rs) ne = ground (arith, get-remove_other h k rs ne)

pub get-hash : (h : ℕ) (rs : List Request) (r : Request) → get h rs ≡ some r → r.hash ≡ h
unfolding get
get-hash h [] r e = cc
get-hash h (q ∷ rs) r e = pick (q.hash == h) refl e (get-hash h rs r)
  where
    pick :
        (b : Bool)
        → (q.hash == h) ≡ b
        → (if b then some q else get h rs) ≡ some r
        → (get h rs ≡ some r → r.hash ≡ h)
        → r.hash ≡ h
    pick true eb e' ih =
        subst (λ (x : Request). x.hash ≡ h) {x = q} {y = r} (cc) ((==_iff q.hash h).0 eb)
    pick false eb e' ih = ih e'

-- Removing requests does not add any.
get-remove-none : (h k : ℕ) (rs : List Request) → get h rs ≡ none → get h (remove k rs) ≡ none
unfolding get remove
get-remove-none h k [] e = refl
get-remove-none h k (r ∷ rs) e = ground (arith, get-remove-none h k rs)

pub remove-Distinct : (k : ℕ) (rs : List Request) → Distinct rs → Distinct (remove k rs)
unfolding remove
remove-Distinct k [] d = tt
remove-Distinct k (r ∷ rs) d = pick (r.hash == k) (remove-Distinct k rs d.1)
  where
    pick :
        (b : Bool)
        → Distinct (remove k rs)
        → Distinct (if not b then r ∷ remove k rs else remove k rs)
    pick true ih = ih
    pick false ih = (get-remove-none r.hash k rs d.0, ih)

pub collect-Distinct : (rs : List Request) → Distinct (collect rs)
unfolding collect
collect-Distinct [] = tt
collect-Distinct (r ∷ rs) = pick (get r.hash (collect rs)) refl (collect-Distinct rs)
  where
    pick :
        (o : Option Request)
        → get r.hash (collect rs) ≡ o
        → Distinct (collect rs)
        → Distinct (elim o [ none ↦ r ∷ collect rs | some later ↦ collect rs ])
    pick none e ih = (e, ih)
    pick (some later) e ih = ih
