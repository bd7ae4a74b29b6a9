-- ===== src/Bitcoin/Core/Kept.antt =====
-- Outputs that are found among others, when an output is taken away or put in (bitcoin/src/lib.rs).
use interbtc_clients_cli.Prelude.{
  ℕ, zero, suc, ◌+◌, ◌-◌, ◌≤◌, ◌≡◌, ◌≢◌, refl, sym, ◌∙◌, ap, subst, Bool, true, false, not, Option,
  none, some, List, [], ◌∷◌, ok, ltb, ◌==◌, if◌then◌else◌, length, get_elem?, take, select,
  find_map, Member, head, tail, arith,
}
use interbtc_clients_cli.Bitcoin.{TxOut, Transaction}
use interbtc_clients_cli.Bitcoin.TransactionExt.{
  BitcoinTypes, indexed_from, extract_indexed_output_addresses, single,
  extract_return_to_self_address,
}
use interbtc_clients_cli.Bitcoin.Core.Calls.{remove_at}

-- A list with one more member somewhere.
pub data Inserted {A : Type 0} (c : A) : List A → List A → Type 0 where
  here : (xs : List A) → Inserted c xs (c ∷ xs)
  there : (x : A) (xs ys : List A) → Inserted c xs ys → Inserted c (x ∷ xs) (x ∷ ys)

remove_at-suc :
    {A : Type 0} (x : A) (xs : List A) (i : ℕ) → remove_at (x ∷ xs) (suc i) ≡ x ∷ remove_at xs i
unfolding remove_at
remove_at-suc {A} x xs i = go (suc i == 0) (suc i - 1) (ground arith) (omega arith)
  where
    go :
        (b : Bool) (j : ℕ)
        → b ≡ false
        → j ≡ i
        → (if b then xs else x ∷ remove_at xs j) ≡ x ∷ remove_at xs i
    go true j e e' = cc
    go false j e e' = ap (λ k. x ∷ remove_at xs k) e'

module _ {A B : Type 0} (f : A → Option B) where
  abbrev or_else : Option B → Option B → Option B
  or_else o rest = elim o [ some y ↦ some y | none ↦ rest ]

  pub find_map-Inserted :
      (c : A) (xs ys : List A) → Inserted c xs ys → f c ≡ none → find_map f ys ≡ find_map f xs
  find_map-Inserted c xs _ (here _) e = rw (e, find_map) refl
  find_map-Inserted c _ _ (there x xs ys i) e = ap (or_else (f x)) (find_map-Inserted c xs ys i e)

  find_map-take_more :
      (k : ℕ) (xs : List A) (z : B)
      → find_map f (take k xs) ≡ some z
      → find_map f (take (suc k) xs) ≡ some z
  find_map-take_more zero xs z h = cc
  find_map-take_more (suc k) [] z h = cc
  find_map-take_more (suc k) (x ∷ xs) z h = go (f x) (find_map-take_more k xs z) h
    where
      go :
          (o : Option B)
          → (find_map f (take k xs) ≡ some z → find_map f (take (suc k) xs) ≡ some z)
          → elim o [ some y ↦ some y | none ↦ find_map f (take k xs) ] ≡ some z
          → elim o [ some y ↦ some y | none ↦ find_map f (take (suc k) xs) ] ≡ some z
      go none ih h = ih h
      go (some y) ih h = h

  skipped :
      (x : A) (xs : List A) (k : ℕ) (z : B)
      → f x ≡ none
      → find_map f (take k (x ∷ xs)) ≡ some z
      → find_map f (take k xs) ≡ some z
  skipped x xs zero z e h = cc
  skipped x xs (suc k) z e h =
      find_map-take_more k xs z (subst (λ o. or_else o (find_map f (take k xs)) ≡ some z) e h)

  -- The first member that is found among the first ones is so still, when another one is taken away.
  pub find_map-take-remove_at :
      (k : ℕ) (xs : List A) (i : ℕ) (o : A) (z : B)
      → get_elem? xs i ≡ some o
      → f o ≡ none
      → find_map f (take k xs) ≡ some z
      → find_map f (take k (remove_at xs i)) ≡ some z
  unfolding remove_at
  find_map-take-remove_at k [] i o z e n h = cc
  find_map-take-remove_at k (x ∷ xs) zero o z e n h =
      let same : x ≡ o = cc in skipped x xs k z (ap f same ∙ n) h
  find_map-take-remove_at zero (x ∷ xs) (suc i) o z e n h = cc
  find_map-take-remove_at (suc k) (x ∷ xs) (suc i) o z e n h =
      subst (λ l. find_map f (take (suc k) l) ≡ some z) (sym (remove_at-suc x xs i))
        (go (f x) (find_map-take-remove_at k xs i o z e n) h)
    where
      go :
          (b : Option B)
          → (find_map f (take k xs) ≡ some z → find_map f (take k (remove_at xs i)) ≡ some z)
          → or_else b (find_map f (take k xs)) ≡ some z
          → or_else b (find_map f (take k (remove_at xs i))) ≡ some z
      go none ih h = ih h
      go (some y) ih h = h

  pub find_map-remove_at :
      (xs : List A) (i : ℕ) (o : A)
      → get_elem? xs i ≡ some o
      → f o ≡ none
      → find_map f (remove_at xs i) ≡ find_map f xs
  unfolding remove_at
  find_map-remove_at [] i o e n = cc
  find_map-remove_at (x ∷ xs) zero o e n =
      let same : x ≡ o = cc in sym (ap (λ y. or_else y (find_map f xs)) (ap f same ∙ n))
  find_map-remove_at (x ∷ xs) (suc i) o e n =
      ap (find_map f) (remove_at-suc x xs i) ∙ ap (or_else (f x)) (find_map-remove_at xs i o e n)

module _ {A : Type 0} where
  pub take-all : (k : ℕ) (xs : List A) → length xs ≤ k → take k xs ≡ xs
  take-all zero [] h = refl
  take-all (suc k) [] h = refl
  take-all zero (x ∷ xs) h = let no : ⊥ = omega (arith, h) in elim no [ ]
  take-all (suc k) (x ∷ xs) h = ap (λ l. x ∷ l) (take-all k xs (omega (arith, h)))

  pub length-Inserted : (c : A) (xs ys : List A) → Inserted c xs ys → length ys ≡ suc (length xs)
  length-Inserted c xs _ (here _) = refl
  length-Inserted c _ _ (there x xs ys i) = ap suc (length-Inserted c xs ys i)

  select-head :
      (p : A → Bool) (xs : List A) (y : A) (rest : List A)
      → select p xs ≡ y ∷ rest
      → Member y xs × (p y ≡ true)
  select-head p [] y rest h = cc
  select-head p (x ∷ xs) y rest h = go (p x) refl (select-head p xs y rest) h
    where
      go :
          (b : Bool)
          → p x ≡ b
          → (select p xs ≡ y ∷ rest → Member y xs × (p y ≡ true))
          → (if b then x ∷ select p xs else select p xs) ≡ y ∷ rest
          → Member y (x ∷ xs) × (p y ≡ true)
      go true e ih h = let same : y ≡ x = cc in (head same, ap p same ∙ e)
      go false e ih h = let (m, t) = ih h in (tail m, t)

module _ (types : BitcoinTypes) where
  indexed_from-elem :
      (k : ℕ) (xs : List TxOut) (i p : ℕ)
      → Member (i, p) (indexed_from types k xs)
      → (j : ℕ) × (i ≡ k + j)
        × ((o : TxOut) × (get_elem? xs j ≡ some o) × (types.from_script o.script_pubkey ≡ some p))
  unfolding indexed_from
  indexed_from-elem k [] i p m = elim m [ ]
  indexed_from-elem k (x ∷ xs) i p m =
      go (ltb 0 x.value) (types.from_script x.script_pubkey) refl (indexed_from-elem (suc k) xs i p)
        m
    where
      Found : Type 0
      Found =
          (j : ℕ) × (i ≡ k + j)
          × ((o : TxOut) × (get_elem? (x ∷ xs) j ≡ some o)
              × (types.from_script o.script_pubkey ≡ some p))

      later :
          ((j : ℕ) × (i ≡ suc k + j)
            × ((o : TxOut) × (get_elem? xs j ≡ some o)
                × (types.from_script o.script_pubkey ≡ some p)))
          → Found
      later (j, e, found) = (suc j, omega (arith, e), found)

      go :
          (b : Bool) (o : Option ℕ)
          → types.from_script x.script_pubkey ≡ o
          → (Member (i, p) (indexed_from types (suc k) xs)
              → (j : ℕ) × (i ≡ suc k + j)
                × ((o : TxOut) × (get_elem? xs j ≡ some o)
                    × (types.from_script o.script_pubkey ≡ some p)))
          → Member
              (i, p)
              (if b
                then elim o as (λ _. List (ℕ × ℕ)) [
                  | none ↦ indexed_from types (suc k) xs
                  | some payload ↦ (k, payload) ∷ indexed_from types (suc k) xs
                ]
                else indexed_from types (suc k) xs)
          → Found
      go false o e ih m = later (ih m)
      go true none e ih m = later (ih m)
      go true (some payload) e ih (tail m) = later (ih m)
      go true (some payload) e ih (head h) = (
        0,
        (let h' = ap (λ (z : ℕ × ℕ). z.0) h in omega (arith, h')),
        (x, refl, e ∙ ap (λ (z : ℕ × ℕ). some (z.1)) (sym h)),
      )

  -- The output to the wallet itself: it stands at the index, and pays to another payload.
  pub extract_return_to_self_address-elem :
      (tx : Transaction) (destination i p : ℕ)
      → extract_return_to_self_address types tx destination ≡ ok (some (i, p))
      → ((o : TxOut) × (get_elem? tx.output i ≡ some o)
          × (types.from_script o.script_pubkey ≡ some p))
        × (p ≢ destination)
  unfolding extract_return_to_self_address extract_indexed_output_addresses single
  extract_return_to_self_address-elem tx destination i p h =
      let (rest, e) = one (select test (indexed_from types 0 tx.output)) h in
      let (m, t) = select-head test (indexed_from types 0 tx.output) (i, p) rest e in
      let (j, is_j, (o, at, pays)) = indexed_from-elem 0 tx.output i p m in
      let same : j ≡ i = omega (arith, is_j) in
      ((o, subst (λ (k : ℕ). get_elem? tx.output k ≡ some o) same at, pays), apart t)
    where
      test : ℕ × ℕ → Bool
      test x = not (x.1 == destination)

      apart : not (p == destination) ≡ true → p ≢ destination
      apart t e = let yes : (p == destination) ≡ true = ground (arith, e) in cc

      one :
          (xs : List (ℕ × ℕ))
          → single xs ≡ ok (some (i, p))
          → (rest : List (ℕ × ℕ)) × (xs ≡ (i, p) ∷ rest)
      one [] h = cc
      one (x ∷ []) h = ([], cc)
      one (x ∷ y ∷ rest) h = cc
