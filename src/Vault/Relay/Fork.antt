-- ===== src/Vault/Relay/Fork.antt =====
-- The heights that the relayer looks for (vault/src/relay/mod.rs): where the two chains agree, and
-- the next block that the relay has not stored.
use interbtc_clients_cli.Prelude.{
  ℕ, suc, ◌+◌, ◌≤◌, ◌<◌, ◌≡◌, ◌≢◌, sym, ap, ◌∙◌, subst, dec_lt, ◌⊎◌, Bool, true, false, ok, err,
  ◌==◌, ==_iff, arith,
}
use interbtc_clients_cli.Prelude.Words.{u32_max}
use interbtc_clients_cli.Vault.Relay.{Failure, Backing, Issuing}

module _ {S : Type 0} (issuing : Issuing S) (backing : Backing) (s : S) where
  -- At a height both chains know a block, and it is the same, or another.
  abbrev pub Agree : ℕ → Type 0
  Agree h =
      (hash : ℕ) × (issuing.get_block_hash h s ≡ ok hash) × (backing.get_block_hash h ≡ ok hash)

  abbrev pub Differ : ℕ → Type 0
  Differ h =
      (r : ℕ) × (b : ℕ) × (issuing.get_block_hash h s ≡ ok r)
      × (backing.get_block_hash h ≡ ok b)
      × (r ≢ b)

  -- The highest height, from `top` down, at which the chains agree.
  pub record IsForkPoint (top h : ℕ) : Type 0 where
    pub below : h ≤ top
    pub agree : Agree h
    pub differ : (k : ℕ) → h < k → k ≤ top → Differ k

  -- All blocks of Bitcoin from `h` to below `n` are stored in the relay; at `n` Bitcoin has no
  -- block, or one that is not stored.
  pub record IsNextMissing (h n : ℕ) : Type 0 where
    pub above : h ≤ n
    pub stored :
        (k : ℕ)
        → h ≤ k
        → k < n
        → (hash : ℕ) × (backing.get_block_hash k ≡ ok hash)
          × (issuing.is_block_stored hash s ≡ ok true)
    pub missing :
        ((e : Failure) × (backing.get_block_hash n ≡ err e))
        ⊎ ((hash : ℕ) × (backing.get_block_hash n ≡ ok hash)
            × (issuing.is_block_stored hash s ≡ ok false))

  -- What is known of the chains: the relay answers, its best height is `best`, Bitcoin has a block
  -- at each height up to its tip and none above, and the relay is not ahead of Bitcoin.
  pub record Chains (best tip : ℕ) : Type 0 where
    pub best_known : issuing.get_best_height s ≡ ok best
    pub relay_answers : (h : ℕ) → h ≤ best → (r : ℕ) × (issuing.get_block_hash h s ≡ ok r)
    pub store_answers : (hash : ℕ) → (b : Bool) × (issuing.is_block_stored hash s ≡ ok b)
    pub bitcoin_answers : (h : ℕ) → h ≤ tip → (b : ℕ) × (backing.get_block_hash h ≡ ok b)
    pub bitcoin_ends : (h : ℕ) → tip < h → (e : Failure) × (backing.get_block_hash h ≡ err e)
    pub not_ahead : best ≤ tip
    pub tip_fits : tip < u32_max

  pub equal_of_Agree :
      (h r b : ℕ)
      → issuing.get_block_hash h s ≡ ok r
      → backing.get_block_hash h ≡ ok b
      → Agree h
      → (r == b) ≡ true
  equal_of_Agree h r b er eb (hash, eh, eh') = (==_iff r b).1 (cc)

  pub Agree-of_equal :
      (h r b : ℕ)
      → issuing.get_block_hash h s ≡ ok r
      → backing.get_block_hash h ≡ ok b
      → (r == b) ≡ true
      → Agree h
  Agree-of_equal h r b er eb same = (r, er, eb ∙ ap ok (sym ((==_iff r b).0 same)))

  pub Differ-of_unequal :
      (h r b : ℕ)
      → issuing.get_block_hash h s ≡ ok r
      → backing.get_block_hash h ≡ ok b
      → (r == b) ≡ false
      → Differ h
  Differ-of_unequal h r b er eb diff = (r, b, er, eb, ground arith)

  pub IsForkPoint-top : (top : ℕ) → Agree top → IsForkPoint top top
  IsForkPoint-top top agree = record {
    below = omega arith;
    agree = agree;
    differ = λ k lo hi. absurd (omega arith);
  }

  pub IsForkPoint-suc : (top h : ℕ) → Differ (suc top) → IsForkPoint top h → IsForkPoint (suc top) h
  IsForkPoint-suc top h differs fork = record {
    below = omega (arith, fork.below);
    agree = fork.agree;
    differ = λ k lo hi. elim (dec_lt k (suc top)) [
      | yes lower ↦ fork.differ k lo (omega arith)
      | no upper ↦ let e : suc top ≡ k = omega arith in subst Differ e differs
    ];
  }

  pub IsNextMissing-here :
      (h : ℕ)
      → ((e : Failure) × (backing.get_block_hash h ≡ err e))
        ⊎ ((hash : ℕ) × (backing.get_block_hash h ≡ ok hash)
            × (issuing.is_block_stored hash s ≡ ok false))
      → IsNextMissing h h
  IsNextMissing-here h m = record {
    above = omega arith;
    stored = λ k lo hi. absurd (omega arith);
    missing = m;
  }

  pub IsNextMissing-step :
      (h n hash : ℕ)
      → backing.get_block_hash h ≡ ok hash
      → issuing.is_block_stored hash s ≡ ok true
      → IsNextMissing (h + 1) n
      → IsNextMissing h n
  IsNextMissing-step h n hash known kept next = record {
    above = omega (arith, next.above);
    stored = λ k lo hi. elim (dec_lt h k) [
      | yes later ↦ next.stored k (omega arith) hi
      | no now ↦
          let e : h ≡ k = omega arith in
          (hash, subst (λ t. backing.get_block_hash t ≡ ok hash) e known, kept)
    ];
    missing = next.missing;
  }
