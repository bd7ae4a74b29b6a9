-- ===== src/Vault/Delay/Bounds.antt =====
-- How long a vault waits for its place in the order (vault/src/delay.rs).
use interbtc_clients_cli.Prelude.{
  ℕ, zero, suc, ◌+◌, ◌/◌, ◌^◌, ◌≤◌, ◌<◌, ◌≡◌, refl, Bool, true, false, List, [], ◌∷◌, Result,
  length, select, All, ap, subst, ltb, if◌then◌else◌, arith,
}
use interbtc_clients_cli.Vault.Delay.{log2_within, log2, random_ordering, blocks_to_wait, delay}

doubled : (k n : ℕ) → 2 ^ k ≤ n / 2 → n / 2 < 2 ^ suc k → (2 ^ suc k ≤ n) × (n < 2 ^ suc (suc k))
doubled k n l u = (omega (arith, l), omega (arith, u))

log2_within-bounds :
    (fuel n : ℕ)
    → 1 ≤ n
    → n ≤ fuel
    → (2 ^ log2_within fuel n ≤ n) × (n < 2 ^ suc (log2_within fuel n))
unfolding log2_within
log2_within-bounds zero n low high = (omega (arith, low, high), omega (arith, low, high))
log2_within-bounds (suc fuel) n low high =
    go (ltb n 2) refl
      (λ big. log2_within-bounds fuel (n / 2) (omega (arith, big)) (omega (arith, big, high)))
  where
    k : ℕ
    k = log2_within fuel (n / 2)

    go :
        (b : Bool)
        → ltb n 2 ≡ b
        → (2 ≤ n → (2 ^ k ≤ n / 2) × (n / 2 < 2 ^ suc k))
        → (2 ^ (if b then 0 else suc k) ≤ n) × (n < 2 ^ suc (if b then 0 else suc k))
    go true e ih =
        let small : n < 2 = ground (arith, e) in (omega (arith, low), omega (arith, small))
    go false e ih = let big : 2 ≤ n = ground (arith, e) in let (l, u) = ih big in doubled k n l u

-- Each member of a list belongs to one of two others, which keep its order.
pub data Splits {ℓ} {A : Type ℓ} : List A → List A → List A → Type ℓ where
  done : Splits [] [] []
  left : (x : A) {xs ls rs : List A} → Splits xs ls rs → Splits (x ∷ xs) (x ∷ ls) rs
  right : (x : A) {xs ls rs : List A} → Splits xs ls rs → Splits (x ∷ xs) ls (x ∷ rs)

module _ (hash_vault : ℕ → ℕ) (own_account : ℕ) where
  -- The vaults in two parts: those whose hashes are below the one of the own account, and the others.
  pub record IsOrdered (vaults earlier others : List ℕ) : Type 0 where
    pub splits : Splits vaults earlier others
    pub below : All (λ v. hash_vault v < hash_vault own_account) earlier
    pub not_below : All (λ v. hash_vault own_account ≤ hash_vault v) others

  -- The place in the order is the number of the vaults below, counted from 0.
  random_ordering-IsOrdered :
      (vaults : List ℕ)
      → (earlier others : List ℕ) × IsOrdered vaults earlier others
        × (random_ordering hash_vault own_account vaults ≡ length earlier)
  unfolding random_ordering
  random_ordering-IsOrdered [] =
      ([], [], record { splits = done; below = tt; not_below = tt }, refl)
  random_ordering-IsOrdered (v ∷ vaults) =
      let (earlier, others, o, n) = random_ordering-IsOrdered vaults in
      pick (ltb (hash_vault v) (hash_vault own_account)) refl earlier others o n
    where
      chosen : List ℕ
      chosen = select (λ account_id. ltb (hash_vault account_id) (hash_vault own_account)) vaults

      pick :
          (b : Bool)
          → ltb (hash_vault v) (hash_vault own_account) ≡ b
          → (earlier others : List ℕ) → IsOrdered vaults earlier others
          → length chosen ≡ length earlier
          → (earlier' others' : List ℕ) × IsOrdered (v ∷ vaults) earlier' others'
            × (length (if b then v ∷ chosen else chosen) ≡ length earlier')
      pick true e earlier others o n = (
        v ∷ earlier,
        others,
        record {
          splits = left v o.splits;
          below = (ground (arith, e), o.below);
          not_below = o.not_below;
        },
        ap suc n,
      )
      pick false e earlier others o n = (
        earlier,
        v ∷ others,
        record {
          splits = right v o.splits;
          below = o.below;
          not_below = (ground (arith, e), o.not_below);
        },
        n,
      )

  -- The delay is one of k blocks, where the vaults whose hashes with the seed are below the own one are,
  -- with one more, at least 2^k and fewer than 2^(k + 1): the first vault in the order of the hashes
  -- waits for no block, the next two for one, the four after them for two, and so on.
  pub delay-bounds :
      (delay_for_blocks : ℕ → Result (Unit {0}) (Unit {0})) (vaults : List ℕ)
      → (earlier others : List ℕ) × (k : ℕ) × IsOrdered vaults earlier others
        × (delay hash_vault own_account delay_for_blocks vaults ≡ delay_for_blocks k)
        × (2 ^ k ≤ length earlier + 1)
        × (length earlier + 1 < 2 ^ suc k)
  unfolding delay blocks_to_wait log2
  delay-bounds delay_for_blocks vaults =
      let place = random_ordering hash_vault own_account vaults in
      let (earlier, others, o, n) = random_ordering-IsOrdered vaults in
      let (low, high) = log2_within-bounds (place + 1) (place + 1) (omega arith) (omega arith) in
      (
        earlier,
        others,
        log2_within (place + 1) (place + 1),
        o,
        refl,
        subst (λ i. 2 ^ log2_within (place + 1) (place + 1) ≤ i + 1) n low,
        subst (λ i. i + 1 < 2 ^ suc (log2_within (place + 1) (place + 1))) n high,
      )
