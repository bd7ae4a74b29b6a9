-- ===== src/Bitcoin/Iter/Reverse.antt =====
-- The reverse streams on a complete chain (bitcoin/src/iter.rs).
use interbtc_clients_cli.Prelude.{
  ℕ, zero, suc, ◌+◌, ◌-◌, ◌%◌, ◌≤◌, ◌<◌, ◌≡◌, refl, sym, subst, ap, ◌∙◌, Bool, true, false, none,
  some, List, [], ◌∷◌, ◌++◌, map, Result, ok, ltb, arith,
}
use mathlib.Core.List.{flat_map, map-append}
use interbtc_clients_cli.Bitcoin.{Transaction, Block, Error, BitcoinCoreApi}
use interbtc_clients_cli.Bitcoin.Iter.{
  u32_mod, StreamState, get_best_block_info, next_block_info, fetched, reverse_step, initial_state,
  pull, reverse_stream_blocks, flat_map_blocks, reverse_stream_transactions,
}

-- The node has the blocks of a chain up to its best height: the block at each height under the hash
-- at that height, and every block but the first refers to the one before it.
pub record HasChain (rpc : BitcoinCoreApi) (best : ℕ) (hash : ℕ → ℕ) (block : ℕ → Block)
    : Type 0 where
  pub count : rpc.get_block_count ≡ ok best
  pub best_fits : best < u32_mod
  pub best_hash : rpc.get_block_hash best ≡ ok (hash best)
  pub blocks : (h : ℕ) → h ≤ best → rpc.get_block (hash h) ≡ ok (block h)
  pub linked : (h : ℕ) → h < best → (block (suc h)).prev_blockhash ≡ hash h

-- The blocks at the heights `low + n - 1` down to `low`.
abbrev pub descending : (ℕ → Block) → ℕ → ℕ → List Block
descending block low zero = []
descending block low (suc n) = block (low + n) ∷ descending block low n

-- The state after the block at a height has been returned.
abbrev pub at : ℕ → ℕ → Block → StreamState
at stop h b = record { height = some h; prev_block = some b; stop_height = stop }

module _ (rpc : BitcoinCoreApi) (best : ℕ) (hash : ℕ → ℕ) (block : ℕ → Block)
    (chain : HasChain rpc best hash block) where
  pub first_step :
      (stop : ℕ)
      → stop ≤ best
      → reverse_step rpc (initial_state stop) ≡ some (ok (block best), at stop best (block best))
  unfolding reverse_step next_block_info get_best_block_info initial_state
  first_step stop h =
      let e : best % u32_mod ≡ best = omega (arith, chain.best_fits) in
      let t : ltb best stop ≡ false = ground arith in
      rw
        (chain.count, e, chain.best_hash, t, chain.blocks best (omega arith), fetched, reverse_step)

  pub later_step :
      (stop k : ℕ)
      → stop ≤ k
      → k < best
      → reverse_step rpc (at stop (suc k) (block (suc k)))
        ≡ some (ok (block k), at stop k (block k))
  unfolding reverse_step next_block_info
  later_step stop k h lt =
      let e : suc k - 1 ≡ k = omega arith in
      let t : ltb k stop ≡ false = ground arith in
      rw (e, t, chain.linked k lt, chain.blocks k (omega arith), fetched, reverse_step) (rw e)

  last_step : (stop : ℕ) (b : Block) → 0 < stop → reverse_step rpc (at stop stop b) ≡ none
  unfolding reverse_step next_block_info
  last_step stop b h = let t : ltb (stop - 1) stop ≡ true = ground arith in rw (t, reverse_step)

  pull_down :
      (stop n : ℕ)
      → 0 < stop
      → stop + n ≤ best
      → pull rpc (suc n) (at stop (stop + n) (block (stop + n)))
        ≡ (map ok (descending block stop n), true)
  unfolding pull
  pull_down stop zero hs hb =
      let e : stop + 0 ≡ stop = omega arith in rw (e, last_step stop (block stop) hs, pull)
  pull_down stop (suc n) hs hb =
      let e : stop + suc n ≡ suc (stop + n) = omega arith in
      rw (e, later_step stop (stop + n) (omega arith) (omega arith), pull)
        (ap (λ (r : List (Result Error Block) × Bool). (ok (block (stop + n)) ∷ r.0, r.1))
          (pull_down stop n hs (omega arith)))

  -- Where the node has a chain up to its best height, pulled once more often than there are blocks,
  -- the stream returns the blocks from the best height down to the stop height, each once, in this
  -- order and without an error, and has ended then. The stop height is above 0.
  pub reverse_stream_blocks-descending :
      (stop n : ℕ)
      → 0 < stop
      → stop + n ≡ best
      → reverse_stream_blocks rpc stop (n + 2) ≡ (map ok (descending block stop (suc n)), true)
  unfolding reverse_stream_blocks
  reverse_stream_blocks-descending stop n hs e =
      let two : n + 2 ≡ suc (suc n) = omega arith in
      let rest : pull rpc (suc n) (at stop best (block best))
          ≡ (map ok (descending block stop n), true) =
        subst
          (λ k. pull rpc (suc n) (at stop k (block k)) ≡ (map ok (descending block stop n), true)) e
          (pull_down stop n hs (omega arith)) in
      rw (two, first_step stop (omega arith), pull)
        (ap (λ (r : List (Result Error Block) × Bool). (ok (block best) ∷ r.0, r.1)) rest
          ∙ ap (λ b. (ok b ∷ map ok (descending block stop n), true)) (ap block (sym e)))

  flat_map_blocks-ok :
      (blocks : List Block)
      → flat_map_blocks (map ok blocks) ≡ map ok (flat_map (λ (b : Block). b.txdata) blocks)
  unfolding flat_map_blocks flat_map
  flat_map_blocks-ok [] = refl
  flat_map_blocks-ok (b ∷ blocks) =
      ap (λ t. map ok b.txdata ++ t) (flat_map_blocks-ok blocks)
      ∙ sym (map-append ok b.txdata (flat_map (λ (c : Block). c.txdata) blocks))

  -- There the transactions are those of the mempool, as the node lists them, and then those of the
  -- blocks from the best height down to the stop height, each once and in the order of its block.
  pub reverse_stream_transactions-descending :
      (stop n : ℕ) (mempool : List (Result Error Transaction))
      → 0 < stop
      → stop + n ≡ best
      → rpc.get_mempool_transactions ≡ ok mempool
      → reverse_stream_transactions rpc stop (n + 2)
        ≡ ok (
          mempool ++ map ok (flat_map (λ (b : Block). b.txdata) (descending block stop (suc n))),
          true,
        )
  unfolding reverse_stream_transactions
  reverse_stream_transactions-descending stop n mempool hs e em = simp em (
      ap (λ (r : List (Result Error Block) × Bool). ok (mempool ++ flat_map_blocks r.0, r.1))
        (reverse_stream_blocks-descending stop n hs e)
      ∙ ap (λ t. ok (mempool ++ t, true)) (flat_map_blocks-ok (descending block stop (suc n))))
