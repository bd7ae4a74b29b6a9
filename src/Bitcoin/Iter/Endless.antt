-- ===== src/Bitcoin/Iter/Endless.antt =====
-- The reverse stream with the stop height 0 (bitcoin/src/iter.rs).
use interbtc_clients_cli.Prelude.{
  ℕ, zero, suc, map, ok, ◌++◌, ◌≤◌, ◌+◌, arith, ◌≡◌, refl, ap, false, List, [], ◌∷◌, err, Bool,
  Result,
}
use interbtc_clients_cli.Bitcoin.{Block, Error, other, BitcoinCoreApi}
use interbtc_clients_cli.Bitcoin.Iter.{
  next_block_info, fetched, reverse_step, pull, reverse_stream_blocks,
}
use interbtc_clients_cli.Bitcoin.Iter.Reverse.{HasChain, at, descending, first_step, later_step}

-- As many errors.
abbrev pub errors : ℕ → List (Result Error Block)
errors zero = []
errors (suc n) = err other ∷ errors n

-- After the first block of the chain, with the stop height 0.
pull-errors :
    (rpc : BitcoinCoreApi) (genesis : Block) (n : ℕ)
    → rpc.get_block genesis.prev_blockhash ≡ err other
    → pull rpc n (at 0 0 genesis) ≡ (errors n, false)
unfolding pull reverse_step next_block_info fetched
pull-errors rpc genesis zero e = refl
pull-errors rpc genesis (suc n) e =
    rw (e, pull)
      (ap (λ (r : List (Result Error Block) × Bool). (err other ∷ r.0, r.1))
        (pull-errors rpc genesis n e))

module _ (rpc : BitcoinCoreApi) (best : ℕ) (hash : ℕ → ℕ) (block : ℕ → Block)
    (chain : HasChain rpc best hash block)
    (before_first : rpc.get_block (block 0).prev_blockhash ≡ err other) where
  pull_through :
      (n m : ℕ)
      → n ≤ best
      → pull rpc (n + m) (at 0 n (block n)) ≡ (map ok (descending block 0 n) ++ errors m, false)
  unfolding pull
  pull_through zero m h =
      let e : 0 + m ≡ m = omega arith in rw e (pull-errors rpc (block 0) m before_first)
  pull_through (suc n) m h =
      let e : suc n + m ≡ suc (n + m) = omega arith in
      let z : 0 + n ≡ n = omega arith in
      rw (e, later_step rpc best hash block chain 0 n (omega arith) (omega arith), z, pull)
        (ap (λ (r : List (Result Error Block) × Bool). (ok (block n) ∷ r.0, r.1))
          (pull_through n m (omega arith)))

  -- With the stop height 0 the stream never ends. Where the node has a chain up to its best height
  -- and answers the request for a block before the first one with an error other than that of a
  -- pruned block, the stream returns all blocks of the chain in descending order, and then that
  -- error again and again, however often it is pulled.
  pub reverse_stream_blocks-endless :
      (m : ℕ)
      → reverse_stream_blocks rpc 0 (suc (best + m))
        ≡ (map ok (block best ∷ descending block 0 best) ++ errors m, false)
  unfolding reverse_stream_blocks pull
  reverse_stream_blocks-endless m =
      rw (first_step rpc best hash block chain 0 (omega arith), pull)
        (ap (λ (r : List (Result Error Block) × Bool). (ok (block best) ∷ r.0, r.1))
          (pull_through best m (omega arith)))
