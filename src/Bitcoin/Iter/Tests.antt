-- ===== src/Bitcoin/Iter/Tests.antt =====
-- A chain of three blocks (bitcoin/src/iter.rs), and the theorems on the streams at it.
use interbtc_clients_cli.Prelude.{
  ℕ, suc, ◌+◌, ◌-◌, ◌≤◌, ◌<◌, ◌≡◌, refl, true, false, List, [], ◌∷◌, ◌++◌, map, Result, ok, err,
  arith, ltb, leb, if◌then◌else◌,
}
use mathlib.Core.List.{flat_map}
use interbtc_clients_cli.Bitcoin.{Transaction, Block, Error, other, BitcoinCoreApi}
use interbtc_clients_cli.Bitcoin.Iter.{
  reverse_stream_blocks, reverse_stream_transactions, reverse_step, next_block_info,
  get_best_block_info,
}
use interbtc_clients_cli.Bitcoin.Iter.Reverse.{
  HasChain, descending, reverse_stream_blocks-descending, reverse_stream_transactions-descending,
}
use interbtc_clients_cli.Bitcoin.Iter.Endless.{errors, reverse_stream_blocks-endless}
use interbtc_clients_cli.Bitcoin.Iter.Forward.{
  Waits, stream_blocks, block_heights, Consecutive, stream_blocks-Consecutive,
}

-- The block at height h has the hash h + 1, and one transaction; 0 is the hash of no block.
abbrev block : ℕ → Block
block h = record { prev_blockhash = h; txdata = record { txid = 50 + h; output = [] } ∷ [] }

abbrev hash : ℕ → ℕ
hash h = h + 1

abbrev pending : List (Result Error Transaction)
pending = ok (record { txid = 99; output = [] }) ∷ []

abbrev node : BitcoinCoreApi
node = record {
  get_block_count = ok 2;
  get_block_hash = λ h. ok (hash h);
  get_block = λ x. if leb 1 x then ok (block (x - 1)) else err other;
  get_mempool_transactions = ok pending;
}

blocks_known : (h : ℕ) → h ≤ 2 → node.get_block (hash h) ≡ ok (block h)
blocks_known h l = let e : h + 1 - 1 ≡ h = omega arith in rw e (ground arith)

blocks_linked : (h : ℕ) → h < 2 → (block (suc h)).prev_blockhash ≡ hash h
blocks_linked h l = omega arith

node_chain : HasChain node 2 hash block
node_chain = record {
  count = refl;
  best_fits = omega arith;
  best_hash = refl;
  blocks = blocks_known;
  linked = blocks_linked;
}

stream_runs : reverse_stream_blocks node 1 3 ≡ (ok (block 2) ∷ ok (block 1) ∷ [], true)
unfolding reverse_stream_blocks reverse_step next_block_info get_best_block_info
stream_runs = refl

reverse_stream_blocks-descending_example :
    reverse_stream_blocks node 1 (1 + 2) ≡ (map ok (descending block 1 2), true)
reverse_stream_blocks-descending_example =
    reverse_stream_blocks-descending node 2 hash block node_chain 1 1 (omega arith) refl

reverse_stream_transactions-descending_example :
    reverse_stream_transactions node 1 (1 + 2)
    ≡ ok (pending ++ map ok (flat_map (λ (b : Block). b.txdata) (descending block 1 2)), true)
reverse_stream_transactions-descending_example =
    reverse_stream_transactions-descending node 2 hash block node_chain 1 1 pending (omega arith)
      refl refl

reverse_stream_blocks-endless_example :
    reverse_stream_blocks node 0 (suc (2 + 7))
    ≡ (map ok (block 2 ∷ descending block 0 2) ++ errors 7, false)
reverse_stream_blocks-endless_example =
    reverse_stream_blocks-endless node 2 hash block node_chain refl 7

-- The first wait fails.
abbrev flaky : Waits
flaky t h = if ltb t 1 then err other else ok (block h)

stream_blocks-Consecutive_example : Consecutive 5 (block_heights (stream_blocks flaky 3 0 5))
stream_blocks-Consecutive_example = stream_blocks-Consecutive flaky 3 0 5 (omega arith)
