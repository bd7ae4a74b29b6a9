-- ===== src/Vault/Relay/Start.antt =====
-- The search for the height to go on from (vault/src/relay/mod.rs).
use interbtc_clients_cli.Prelude.{
  ℕ, zero, suc, ◌+◌, ◌≤◌, ◌<◌, ◌≡◌, sym, ◌∙◌, subst, dec_lt, inl, inr, Bool, true, false, ok, ◌==◌,
  Bool-cases, arith,
}
use interbtc_clients_cli.Prelude.Words.{u32_max, saturating_add}
use interbtc_clients_cli.Vault.Relay.{Backing, Issuing}
use interbtc_clients_cli.Vault.Relay.Height.{backward, forward, compute_start_height}
use interbtc_clients_cli.Vault.Relay.Fork.{
  Agree, Chains, IsForkPoint, IsNextMissing, equal_of_Agree, Agree-of_equal, Differ-of_unequal,
  IsForkPoint-top, IsForkPoint-suc, IsNextMissing-here, IsNextMissing-step,
}

saturating : (h : ℕ) → h < u32_max → saturating_add u32_max h 1 ≡ h + 1
saturating h lt = ground arith

module _ {S : Type 0} (issuing : Issuing S) (backing : Backing) (s : S) where
  module _ {best tip : ℕ} (chains : Chains issuing backing s best tip) where
    backward_total :
        (top r b low : ℕ)
        → top ≤ best
        → issuing.get_block_hash top s ≡ ok r
        → backing.get_block_hash top ≡ ok b
        → low ≤ top
        → Agree issuing backing s low
        → (h : ℕ) × (backward issuing backing s top r b ≡ ok h)
          × IsForkPoint issuing backing s top h
    unfolding backward
    backward_total zero r b low within er eb hl agree =
        let e : low ≡ 0 = omega arith in
        let agree' : Agree issuing backing s 0 = subst (Agree issuing backing s) e agree in
        (
          0,
          rw (equal_of_Agree issuing backing s 0 r b er eb agree', backward),
          IsForkPoint-top issuing backing s 0 agree',
        )
    backward_total (suc top) r b low within er eb hl agree = elim (Bool-cases (r == b)) [
      | inl same ↦ (
        suc top,
        rw (same, backward),
        IsForkPoint-top issuing backing s (suc top)
            (Agree-of_equal issuing backing s _ r b er eb same),
      )
      | inr diff ↦
          let (r', er') = chains.relay_answers top (omega arith) in
          let (b', eb') = chains.bitcoin_answers top (omega (arith, chains.not_ahead)) in
          let lower : low ≤ top = elim (dec_lt low (suc top)) [
            | yes l ↦ omega arith
            | no u ↦
                let e : low ≡ suc top = omega arith in
                let clash : true ≡ false =
                  sym (
                    equal_of_Agree issuing backing s (suc top) r b er eb
                      (subst (Agree issuing backing s) e agree))
                  ∙ diff in
                cc
          ] in
          let (h, run, fork) = backward_total top r' b' low (omega arith) er' eb' lower agree in
          (
            h,
            rw (diff, er', eb', backward) run,
            IsForkPoint-suc issuing backing s top h
                (Differ-of_unequal issuing backing s (suc top) r b er eb diff) fork,
          )
    ]

    forward_total :
        (fuel h : ℕ)
        → tip + 2 ≤ fuel + h
        → h ≤ tip + 1
        → (n : ℕ) × (forward issuing backing s fuel h ≡ ok n)
          × IsNextMissing issuing backing s h n
          × (n ≤ tip + 1)
    unfolding forward
    forward_total zero h enough hh = absurd (omega arith)
    forward_total (suc fuel) h enough hh = elim (dec_lt tip h) [
      | yes beyond ↦
          let (e, missing) = chains.bitcoin_ends h beyond in
          (h, rw (missing, forward), IsNextMissing-here issuing backing s h (inl (e, missing)), hh)
      | no within ↦
          let (hash, known) = chains.bitcoin_answers h (omega arith) in
          let (b, answer) = chains.store_answers hash in
          stored b hash known answer (omega arith) (λ more. forward_total fuel (h + 1) more)
    ]
      where
        stored :
            (b : Bool) (hash : ℕ)
            → backing.get_block_hash h ≡ ok hash
            → issuing.is_block_stored hash s ≡ ok b
            → h ≤ tip
            → (tip + 2 ≤ fuel + (h + 1)
                → h + 1 ≤ tip + 1
                → (n : ℕ) × (forward issuing backing s fuel (h + 1) ≡ ok n)
                  × IsNextMissing issuing backing s (h + 1) n
                  × (n ≤ tip + 1))
            → (n : ℕ) × (forward issuing backing s (suc fuel) h ≡ ok n)
              × IsNextMissing issuing backing s h n
              × (n ≤ tip + 1)
        stored false hash known answer ht ih = (
          h,
          rw (known, answer, forward),
          IsNextMissing-here issuing backing s h (inr (hash, known, answer)),
          hh,
        )
        stored true hash known answer ht ih =
            let (n, run, next, below) = ih (omega arith) (omega arith) in
            let up : saturating_add u32_max h 1 ≡ h + 1 =
              saturating h (omega (arith, chains.tip_fits)) in
            (
              n,
              rw (known, answer, up, forward) run,
              IsNextMissing-step issuing backing s h n hash known answer next,
              below,
            )

    -- The relayer finds where to go on. If the relay knows a block at every height up to its best
    -- one, Bitcoin has one at every height up to its tip and none above, the relay is not ahead and
    -- the chains agree somewhere, then the search ends with the given fuel and without an error at
    -- a height n. Below it lies the fork point h, the highest height not above the relay's best at
    -- which both chains have the same block; all blocks of Bitcoin from h up to n are stored in the
    -- relay, and n is the first height where Bitcoin has no block or one that is not stored.
    pub compute_start_height_total :
        (fuel low : ℕ)
        → tip + 2 ≤ fuel
        → low ≤ best
        → Agree issuing backing s low
        → (n h : ℕ) × (compute_start_height issuing backing s fuel ≡ ok n)
          × IsForkPoint issuing backing s best h
          × IsNextMissing issuing backing s h n
          × (n ≤ tip + 1)
    unfolding compute_start_height
    compute_start_height_total fuel low enough hl agree =
        let (r, er) = chains.relay_answers best (omega arith) in
        let (b, eb) = chains.bitcoin_answers best chains.not_ahead in
        let (h, run, fork) = backward_total best r b low (omega arith) er eb hl agree in
        let (n, run', next, below) =
          forward_total fuel h (omega arith) (omega (arith, fork.below, chains.not_ahead)) in
        (n, h, rw (chains.best_known, er, eb, run) run', fork, next, below)
