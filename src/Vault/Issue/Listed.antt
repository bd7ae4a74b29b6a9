-- ===== src/Vault/Issue/Listed.antt =====
-- The past issue requests of a vault: the lowest height of one, and their addresses
-- (`add_keys_from_past_issue_request`, vault/src/issue.rs).
use interbtc_clients_cli.Prelude.{
  ℕ, ◌≤◌, ◌≡◌, refl, ◌∙◌, ap, subst, Bool, true, false, Option, none, some, List, [], ◌∷◌, ltb, leb,
  ◌==◌, if◌then◌else◌, Member, head, tail, ◌⊎◌, inl, inr, arith,
}
use interbtc_clients_cli.Vault.Issue.{IssueRequest, min_btc_height}
use interbtc_clients_cli.Vault.Issue.Rescan.{of_vault, pruned_addresses}

pub min_btc_height-le :
    (x : ℕ × IssueRequest) (xs : List (ℕ × IssueRequest))
    → Member x xs
    → (h : ℕ) × (min_btc_height xs ≡ some h) × (h ≤ x.1.btc_height)
unfolding min_btc_height
min_btc_height-le x [] m = elim m [ ]
min_btc_height-le x (y ∷ xs) (head e) = go (min_btc_height xs)
  where
    go :
        (o : Option ℕ)
        → (h : ℕ) × (elim o as (λ _. Option ℕ) [
          | none ↦ some y.1.btc_height
          | some h ↦ some (if leb y.1.btc_height h then y.1.btc_height else h)
        ]
            ≡ some h)
          × (h ≤ x.1.btc_height)
    go none = (y.1.btc_height, refl, (let e' = ap (λ z. z.1.btc_height) e in omega (arith, e')))
    go (some h) = (
      (if leb y.1.btc_height h then y.1.btc_height else h),
      refl,
      (let e' = ap (λ z. z.1.btc_height) e in ground (arith, e')),
    )
min_btc_height-le x (y ∷ xs) (tail m) = go (min_btc_height-le x xs m)
  where
    go :
        (h : ℕ) × (min_btc_height xs ≡ some h) × (h ≤ x.1.btc_height)
        → (h : ℕ) × (min_btc_height (y ∷ xs) ≡ some h) × (h ≤ x.1.btc_height)
    go (h, e, le) = (
      (if leb y.1.btc_height h then y.1.btc_height else h),
      rw (e, min_btc_height) refl,
      ground (arith, le),
    )

pub of_vault-mem :
    (vault_id : ℕ) (x : ℕ × IssueRequest) (xs : List (ℕ × IssueRequest))
    → x.1.vault ≡ vault_id
    → Member x xs
    → Member x (of_vault vault_id xs)
unfolding of_vault
of_vault-mem vault_id x [] own m = elim m [ ]
of_vault-mem vault_id x (y ∷ xs) own (head e) = rw (yes) (head e)
  where
    yes : (y.1.vault == vault_id) ≡ true
    yes = let e' = ap (λ z. z.1.vault) e in ground (arith, e', own)
of_vault-mem vault_id x (y ∷ xs) own (tail m) =
    go (y.1.vault == vault_id) (of_vault-mem vault_id x xs own m)
  where
    go :
        (b : Bool)
        → Member x (of_vault vault_id xs)
        → Member x (if b then y ∷ of_vault vault_id xs else of_vault vault_id xs)
    go true ih = tail ih
    go false ih = ih

module _ (from_slice : ℕ → Option ℕ) (hash : ℕ → ℕ → ℕ) (to_address : ℕ → Option ℕ)
    (btc_rpc : ℕ) where
  -- Whether an address is found in a list, if there is one.
  abbrev pub FoundIn : List ℕ → IssueRequest → Type 0
  FoundIn addresses r =
      (to_address r.btc_address ≡ none)
      ⊎ ((a : ℕ) × (to_address r.btc_address ≡ some a) × Member a addresses)

  pub pruned_addresses-FoundIn :
      (pruned : ℕ) (x : ℕ × IssueRequest) (xs : List (ℕ × IssueRequest))
      → Member x xs
      → ltb x.1.btc_height pruned ≡ true
      → FoundIn (pruned_addresses from_slice hash to_address btc_rpc pruned xs) x.1
  unfolding pruned_addresses
  pruned_addresses-FoundIn pruned x [] m low = elim m [ ]
  pruned_addresses-FoundIn pruned x (y ∷ xs) (head e) low = go (to_address y.1.btc_address) refl
    where
      low' : ltb y.1.btc_height pruned ≡ true
      low' = subst (λ (z : ℕ × IssueRequest). ltb z.1.btc_height pruned ≡ true) e low

      same_address : to_address x.1.btc_address ≡ to_address y.1.btc_address
      same_address = ap (λ (z : ℕ × IssueRequest). to_address z.1.btc_address) e

      go :
          (o : Option ℕ)
          → to_address y.1.btc_address ≡ o
          → FoundIn (pruned_addresses from_slice hash to_address btc_rpc pruned (y ∷ xs)) x.1
      go none f = inl (same_address ∙ f)
      go (some a) f = inr (a, same_address ∙ f, rw (low', f) (head refl))
  pruned_addresses-FoundIn pruned x (y ∷ xs) (tail m) low =
      go (ltb y.1.btc_height pruned) (to_address y.1.btc_address)
        (pruned_addresses-FoundIn pruned x xs m low)
    where
      go :
          (b : Bool) (o : Option ℕ)
          → FoundIn (pruned_addresses from_slice hash to_address btc_rpc pruned xs) x.1
          → FoundIn
              (if b
                then elim o as (λ _. List ℕ) [
                  | none ↦ pruned_addresses from_slice hash to_address btc_rpc pruned xs
                  | some a ↦ a ∷ pruned_addresses from_slice hash to_address btc_rpc pruned xs
                ]
                else pruned_addresses from_slice hash to_address btc_rpc pruned xs)
              x.1
      go b o (inl n) = inl n
      go true none (inr f) = inr f
      go true (some a') (inr (a, e, m)) = inr (a, e, tail m)
      go false o (inr f) = inr f
