-- ===== src/Vault/IssueSet/Derived.antt =====
-- The set of issue requests (vault/src/types.rs) as the parachain has it: the address of a request is
-- derived from its id.
use interbtc_clients_cli.Prelude.{ℕ, ◌≡◌, refl, sym, ◌∙◌, Option, none, some, inl, inr}
use interbtc_clients_cli.Vault.IssueSet.{
  ReversibleHashMap, insert, forget, put, remove_key, remove_value, replaced,
}
use interbtc_clients_cli.Vault.IssueSet.Reversible.{
  IsReversible, Fits, insert-keeps, same, apart, equal_or_not, remove_key-IsReversible,
  remove_value-IsReversible,
}

-- The set is as the parachain has it: the two maps are inverse, and each request is watched at the
-- address that is derived for it.
pub record IsDerived (address_of : ℕ → ℕ) (m : ReversibleHashMap) : Type 0 where
  pub reversible : IsReversible m
  pub derived : (k v : ℕ) → m.by_key k ≡ some v → v ≡ address_of k

module _ (address_of : ℕ → ℕ) (injective : (j k : ℕ) → address_of j ≡ address_of k → j ≡ k) where
  Derived-Fits : (m : ReversibleHashMap) (k : ℕ) → IsDerived address_of m → Fits m k (address_of k)
  unfolding replaced
  Derived-Fits m k d = by_key (m.by_key k) refl
    where
      by_value :
          (o : Option ℕ)
          → m.by_key k ≡ none
          → m.by_value (address_of k) ≡ o
          → Fits m k (address_of k)
      by_value none e f = inl (cc)
      by_value (some j) e f =
          let g = d.reversible.forth j (address_of k) f in
          let s : j ≡ k = injective j k (sym (d.derived j (address_of k) g)) in cc

      by_key : (o : Option ℕ) → m.by_key k ≡ o → Fits m k (address_of k)
      by_key none e = by_value (m.by_value (address_of k)) e refl
      by_key (some w) e =
          let s : w ≡ address_of k = d.derived k w e in let f = d.reversible.back k w e in inr (cc)

  pub insert-IsDerived :
      (m : ReversibleHashMap) (k : ℕ)
      → IsDerived address_of m
      → IsDerived address_of (insert m k (address_of k))
  unfolding insert
  insert-IsDerived m k d = record {
    reversible = insert-keeps m k (address_of k) d.reversible (Derived-Fits m k d);
    derived = λ j v h. elim (equal_or_not j k) [
      | inl e ↦ (let g = same k (some (address_of k)) m.by_key in cc)
      | inr n ↦ d.derived j v (sym (apart k (some (address_of k)) m.by_key j n) ∙ h)
    ];
  }

  forget-derived :
      (m : ReversibleHashMap) (k v : ℕ)
      → IsDerived address_of m
      → (j w : ℕ) → put k none m.by_key j ≡ some w
      → w ≡ address_of j
  forget-derived m k v d j w h = elim (equal_or_not j k) [
    | inl e ↦ (let g = same k none m.by_key in cc)
    | inr n ↦ d.derived j w (sym (apart k none m.by_key j n) ∙ h)
  ]

  pub remove_key-IsDerived :
      (m : ReversibleHashMap) (k : ℕ)
      → IsDerived address_of m
      → IsDerived address_of ((remove_key m k).0)
  unfolding remove_key forget
  remove_key-IsDerived m k d = record {
    reversible = remove_key-IsReversible m k d.reversible;
    derived = λ j w. go (m.by_key k) j w;
  }
    where
      go :
          (o : Option ℕ) (j w : ℕ)
          → (elim o as (λ x. ReversibleHashMap × Option ℕ) [
            | some v ↦ (forget m k v, some v)
            | none ↦ (m, none)
          ]).0.by_key
              j
            ≡ some w
          → w ≡ address_of j
      go none j w h = d.derived j w h
      go (some v) j w h = forget-derived m k v d j w h

  pub remove_value-IsDerived :
      (m : ReversibleHashMap) (v : ℕ)
      → IsDerived address_of m
      → IsDerived address_of ((remove_value m v).0)
  unfolding remove_value forget
  remove_value-IsDerived m v d = record {
    reversible = remove_value-IsReversible m v d.reversible;
    derived = λ j w. go (m.by_value v) j w;
  }
    where
      go :
          (o : Option ℕ) (j w : ℕ)
          → (elim o as (λ x. ReversibleHashMap × Option ℕ) [
            | some k ↦ (forget m k v, some k)
            | none ↦ (m, none)
          ]).0.by_key
              j
            ≡ some w
          → w ≡ address_of j
      go none j w h = d.derived j w h
      go (some k) j w h = forget-derived m k v d j w h
