-- ===== src/Vault/Cancellation/Drain.antt =====
-- The index loop of `drain_expired` with its removals (vault/src/cancellation.rs).
use mathlib.Core.List.{append-nil, append_assoc}
use interbtc_clients_cli.Prelude.{
  ℕ, zero, suc, ◌+◌, ◌<◌, ◌≡◌, refl, ap, ◌∙◌, true, false, not, inl, inr, some, List, [], ◌∷◌, ◌++◌,
  arith, ◌==◌, ==_iff, Bool-cases, length, length-append, get_elem?, select,
}
use interbtc_clients_cli.Vault.Cancellation.{
  ActiveRequest, has_expired, remove, drain_loop, drain_expired,
}

get_elem?-append_length :
    (xs : List ActiveRequest) (r : ActiveRequest) (rs : List ActiveRequest)
    → get_elem? (xs ++ r ∷ rs) (length xs) ≡ some r
get_elem?-append_length [] r rs = refl
get_elem?-append_length (x ∷ xs) r rs = get_elem?-append_length xs r rs

remove-append_length :
    (xs : List ActiveRequest) (r : ActiveRequest) (rs : List ActiveRequest)
    → remove (xs ++ r ∷ rs) (length xs) ≡ xs ++ rs
unfolding remove
remove-append_length [] r rs = refl
remove-append_length (x ∷ xs) r rs = ap (λ t. x ∷ t) (remove-append_length xs r rs)

-- The rounds of the loop, by what they find.
drain_loop_end :
    (c b fuel i : ℕ) (rs expired : List ActiveRequest)
    → i ≡ length rs
    → drain_loop c b (suc fuel) rs i expired ≡ some (expired, rs)
unfolding drain_loop
drain_loop_end c b fuel i rs expired h = rw ((==_iff i (length rs)).1 h, drain_loop)

drain_loop_take :
    (c b fuel i : ℕ) (r : ActiveRequest) (rs expired : List ActiveRequest)
    → (i == length rs) ≡ false
    → get_elem? rs i ≡ some r
    → has_expired c b r ≡ true
    → drain_loop c b (suc fuel) rs i expired
      ≡ drain_loop c b fuel (remove rs i) i (expired ++ r ∷ [])
unfolding drain_loop
drain_loop_take c b fuel i r rs expired more at old = rw (more, at, old, drain_loop)

drain_loop_pass :
    (c b fuel i : ℕ) (r : ActiveRequest) (rs expired : List ActiveRequest)
    → (i == length rs) ≡ false
    → get_elem? rs i ≡ some r
    → has_expired c b r ≡ false
    → drain_loop c b (suc fuel) rs i expired ≡ drain_loop c b fuel rs (i + 1) expired
unfolding drain_loop
drain_loop_pass c b fuel i r rs expired more at new = rw (more, at, new, drain_loop)

length-snoc : (xs : List ActiveRequest) (r : ActiveRequest) → length (xs ++ r ∷ []) ≡ length xs + 1
length-snoc xs r = length-append xs (r ∷ [])

in_range :
    (xs : List ActiveRequest) (r : ActiveRequest) (rs : List ActiveRequest)
    → (length xs == length (xs ++ r ∷ rs)) ≡ false
in_range xs r rs = rw (length-append xs (r ∷ rs)) (ground arith)

-- Before the index only requests that have not expired are left.
drain_loop_lem :
    (c b fuel : ℕ) (kept rest expired : List ActiveRequest)
    → length rest < fuel
    → drain_loop c b fuel (kept ++ rest) (length kept) expired
      ≡ some (
        expired ++ select (has_expired c b) rest,
        kept ++ select (λ r. not (has_expired c b r)) rest,
      )
drain_loop_lem c b zero kept rest expired h = elim h [ ]
drain_loop_lem c b (suc fuel) kept [] expired h =
    rw (drain_loop_end c b fuel (length kept) (kept ++ []) expired (rw append-nil))
      (rw (append-nil expired))
drain_loop_lem c b (suc fuel) kept (r ∷ rest) expired h = elim (Bool-cases (has_expired c b r)) [
  | inl old ↦
      drain_loop_take c b fuel (length kept) r (kept ++ r ∷ rest) expired (in_range kept r rest)
        (get_elem?-append_length kept r rest) old
      ∙ rw (remove-append_length kept r rest, old)
          (simp append_assoc at
            (drain_loop_lem c b fuel kept rest (expired ++ r ∷ []) (omega arith)))
  | inr new ↦
      drain_loop_pass c b fuel (length kept) r (kept ++ r ∷ rest) expired (in_range kept r rest)
        (get_elem?-append_length kept r rest) new
      ∙ rw new (
          simp (append_assoc, length-snoc) at
            (drain_loop_lem c b fuel (kept ++ r ∷ []) rest expired (omega arith)))
]

-- For every vector and every pair of heights the loop ends, within the bounds of the vector: it
-- returns the requests whose two deadlines have both passed, in the order of the vector, and leaves
-- exactly the others, in their order.
pub drain_expired_lem :
    (requests : List ActiveRequest) (c b : ℕ)
    → drain_expired requests c b
      ≡ some (select (has_expired c b) requests, select (λ r. not (has_expired c b r)) requests)
unfolding drain_expired
drain_expired_lem requests c b =
    drain_loop_lem c b (suc (length requests)) [] requests [] (omega arith)
