-- ===== src/Vault/IssueSet/Reversible.antt =====
-- The two maps of `ReversibleHashMap` (vault/src/types.rs) as inverses of each other.
use interbtc_clients_cli.Prelude.{
  ◌≢◌, ℕ, ◌≡◌, refl, sym, ◌∙◌, ap, Option, none, some, ◌⊎◌, ◌↔◌, inl, inr, arith,
}
use interbtc_clients_cli.Vault.IssueSet.{
  ReversibleHashMap, put, new, insert, replaced, forget, remove_key, remove_value,
}

-- The two maps are inverse to each other.
pub record IsReversible (m : ReversibleHashMap) : Type 0 where
  pub back : (k v : ℕ) → m.by_key k ≡ some v → m.by_value v ≡ some k
  pub forth : (k v : ℕ) → m.by_value v ≡ some k → m.by_key k ≡ some v

-- A key and a value that a map can take in: neither is in it, or they are there together.
abbrev pub Fits : ReversibleHashMap → ℕ → ℕ → Type 0
Fits m k v = (replaced m k v ≡ (none, none)) ⊎ (replaced m k v ≡ (some k, some v))

pub same : (k : ℕ) (o : Option ℕ) (m : ℕ → Option ℕ) → put k o m k ≡ o
unfolding put
same k o m = ground arith

pub apart : (k : ℕ) (o : Option ℕ) (m : ℕ → Option ℕ) (j : ℕ) → j ≢ k → put k o m j ≡ m j
unfolding put
apart k o m j n = ground (arith, n)

pub equal_or_not : (a b : ℕ) → (a ≡ b) ⊎ (a ≢ b)
equal_or_not a b = ground arith

-- One of the two directions for an insertion: the keys and the values are exchanged for the other.
insert_back :
    (to from : ℕ → Option ℕ) (k v : ℕ)
    → ((j w : ℕ) → to j ≡ some w → from w ≡ some j)
    → (from v ≡ none) ⊎ (from v ≡ some k)
    → (j w : ℕ) → put k (some v) to j ≡ some w
    → put v (some k) from w ≡ some j
insert_back to from k v back fits j w h = elim (equal_or_not j k) [
  | inl e ↦ at_key e (h, e, same k (some v) to)
  | inr n ↦ elsewhere n (sym (apart k (some v) to j n) ∙ h)
]
  where
    at_key :
        j ≡ k
        → (put k (some v) to j ≡ some w) × (j ≡ k) × (put k (some v) to k ≡ some v)
        → put v (some k) from w ≡ some j
    at_key e (g, _, s) = let e' : v ≡ w = cc in let s' = same v (some k) from in cc

    elsewhere : j ≢ k → to j ≡ some w → put v (some k) from w ≡ some j
    elsewhere n g = elim (equal_or_not w v) [
      | inl e ↦ clash e fits (back j w g)
      | inr n' ↦ apart v (some k) from w n' ∙ back j w g
    ]
      where
        clash :
            w ≡ v
            → (from v ≡ none) ⊎ (from v ≡ some k)
            → from w ≡ some j
            → put v (some k) from w ≡ some j
        clash e (inl f) g' = cc
        clash e (inr f) g' = let e' : j ≡ k = cc in elim (n e') [ ]

forget_back :
    (to from : ℕ → Option ℕ) (k v : ℕ)
    → ((j w : ℕ) → to j ≡ some w → from w ≡ some j)
    → from v ≡ some k
    → (j w : ℕ) → put k none to j ≡ some w
    → put v none from w ≡ some j
forget_back to from k v back e j w h = elim (equal_or_not j k) [
  | inl s ↦ (let g = same k none to in cc)
  | inr n ↦ elsewhere n (sym (apart k none to j n) ∙ h)
]
  where
    elsewhere : j ≢ k → to j ≡ some w → put v none from w ≡ some j
    elsewhere n g = elim (equal_or_not w v) [
      | inl s ↦ (let g' = back j w g in let e' : j ≡ k = cc in elim (n e') [ ])
      | inr n' ↦ apart v none from w n' ∙ back j w g
    ]

pub forget-IsReversible :
    (m : ReversibleHashMap) (k v : ℕ)
    → IsReversible m
    → m.by_key k ≡ some v
    → IsReversible (forget m k v)
unfolding forget
forget-IsReversible m k v r e = record {
  back = forget_back m.by_key m.by_value k v r.back (r.back k v e);
  forth = λ j w h. forget_back m.by_value m.by_key v k (λ w j. r.forth j w) e w j h;
}

-- The map that takes in a key and a value that fit.
Fits-value :
    (m : ReversibleHashMap) (k v : ℕ) → Fits m k v → (m.by_value v ≡ none) ⊎ (m.by_value v ≡ some k)
unfolding replaced
Fits-value m k v (inl e) = inl (ap (λ x. x.0) e)
Fits-value m k v (inr e) = inr (ap (λ x. x.0) e)

Fits-key :
    (m : ReversibleHashMap) (k v : ℕ) → Fits m k v → (m.by_key k ≡ none) ⊎ (m.by_key k ≡ some v)
unfolding replaced
Fits-key m k v (inl e) = inl (ap (λ x. x.1) e)
Fits-key m k v (inr e) = inr (ap (λ x. x.1) e)

pub insert-keeps :
    (m : ReversibleHashMap) (k v : ℕ) → IsReversible m → Fits m k v → IsReversible (insert m k v)
unfolding insert
insert-keeps m k v r fits = record {
  back = insert_back m.by_key m.by_value k v r.back (Fits-value m k v fits);
  forth =
      λ j w h. insert_back m.by_value m.by_key v k (λ w j. r.forth j w) (Fits-key m k v fits) w j h;
}

insert-Fits :
    (m : ReversibleHashMap) (k v : ℕ) → IsReversible m → IsReversible (insert m k v) → Fits m k v
unfolding insert replaced
insert-Fits m k v r r' = by_key (m.by_key k) refl
  where
    by_value : (o : Option ℕ) → m.by_key k ≡ none → m.by_value v ≡ o → Fits m k v
    by_value none e f = inl (cc)
    by_value (some j) e f = elim (equal_or_not j k) [
      | inl s ↦ (let g = r.forth j v f in cc)
      | inr n ↦
          (let g = r'.back j v (apart k (some v) m.by_key j n ∙ r.forth j v f) in
            let g' = same v (some k) m.by_value in let s : j ≡ k = cc in elim (n s) [ ])
    ]

    by_key : (o : Option ℕ) → m.by_key k ≡ o → Fits m k v
    by_key none e = by_value (m.by_value v) e refl
    by_key (some w) e = elim (equal_or_not w v) [
      | inl s ↦ (let f = r.back k w e in inr (cc))
      | inr n ↦
          (let g = r'.forth k w (apart v (some k) m.by_value w n ∙ r.back k w e) in
            let g' = same k (some v) m.by_key in let s : w ≡ v = cc in elim (n s) [ ])
    ]

-- Let the two maps be inverse to each other. Then they are so after an insertion if and only if the
-- key and the value were either both in neither map, or there together: an insertion that gives a
-- key another value, or a value another key, leaves an entry of the old pair in one of the maps.
pub insert-IsReversible :
    (m : ReversibleHashMap) (k v : ℕ) → IsReversible m → (IsReversible (insert m k v) ↔ Fits m k v)
insert-IsReversible m k v r = (insert-Fits m k v r, insert-keeps m k v r)

pub new-IsReversible : IsReversible new
unfolding new
new-IsReversible = record { back = λ k v h. cc; forth = λ k v h. cc }

pub remove_key-IsReversible :
    (m : ReversibleHashMap) (k : ℕ) → IsReversible m → IsReversible ((remove_key m k).0)
unfolding remove_key
remove_key-IsReversible m k r = go (m.by_key k) refl
  where
    go :
        (o : Option ℕ)
        → m.by_key k ≡ o
        → IsReversible (
            (elim o as (λ x. ReversibleHashMap × Option ℕ) [
              | some v ↦ (forget m k v, some v)
              | none ↦ (m, none)
            ]).0)
    go none e = r
    go (some v) e = forget-IsReversible m k v r e

pub remove_value-IsReversible :
    (m : ReversibleHashMap) (v : ℕ) → IsReversible m → IsReversible ((remove_value m v).0)
unfolding remove_value
remove_value-IsReversible m v r = go (m.by_value v) refl
  where
    go :
        (o : Option ℕ)
        → m.by_value v ≡ o
        → IsReversible (
            (elim o as (λ x. ReversibleHashMap × Option ℕ) [
              | some k ↦ (forget m k v, some k)
              | none ↦ (m, none)
            ]).0)
    go none e = r
    go (some k) e = forget-IsReversible m k v r (r.forth k v e)
