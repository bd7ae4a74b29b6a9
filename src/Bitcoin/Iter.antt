-- ===== src/Bitcoin/Iter.antt =====
-- The streams of blocks and transactions (bitcoin/src/iter.rs). A stream is its state and a step,
-- as `stream::unfold` takes them; `pull` reads a number of items of it.
pub mod Reverse
pub mod Endless
pub mod Forward
mod Tests
use interbtc_clients_cli.Prelude.{
  ℕ, zero, suc, ◌+◌, ◌-◌, ◌%◌, Bool, true, false, Option, none, some, List, [], ◌∷◌, ◌++◌, map,
  Result, ok, err, ◌>>=◌, ltb, if◌then◌else◌,
}
use interbtc_clients_cli.Prelude.Words.{saturating_sub}
use interbtc_clients_cli.Bitcoin.{Transaction, Block, Error, rpc_misc_error, other, BitcoinCoreApi}

abbrev pub u32_mod : ℕ
u32_mod = 4_294_967_296

-- The height is a u64 that is cast to u32.
unfoldable pub get_best_block_info : BitcoinCoreApi → Result Error (ℕ × ℕ)
get_best_block_info rpc = do
  count ← rpc.get_block_count
  let height = count % u32_mod
  hash ← rpc.get_block_hash height
  ok (height, hash)

pub record StreamState : Type 0 where
  pub height : Option ℕ
  pub prev_block : Option Block
  pub stop_height : ℕ

-- The height and the hash of the block to fetch.
unfoldable pub next_block_info : BitcoinCoreApi → Option ℕ → Option Block → Result Error (ℕ × ℕ)
next_block_info rpc (some height) (some block) = ok (saturating_sub height 1, block.prev_blockhash)
next_block_info rpc (some height) none = get_best_block_info rpc
next_block_info rpc none prev_block = get_best_block_info rpc

-- An item and the next state, or the end of the stream.
abbrev pub Step : Type 0
Step = Option (Result Error Block × StreamState)

-- The answer to the request of a block: a pruned block ends the stream.
unfoldable pub fetched : StreamState → ℕ → Result Error Block → Step
fetched state next_height (ok block) =
    some (ok block, record state { height = some next_height; prev_block = some block })
fetched state next_height (err rpc_misc_error) = none
fetched state next_height (err other) = some (err other, state)

unfoldable pub reverse_step : BitcoinCoreApi → StreamState → Step
unfolding fetched
reverse_step rpc state = elim (next_block_info rpc state.height state.prev_block) [
  | err e ↦ some (err e, state)
  | ok (next_height, next_hash) ↦
      if ltb next_height state.stop_height
      then none
      else fetched state next_height (rpc.get_block next_hash)
]

unfoldable pub initial_state : ℕ → StreamState
initial_state stop_height = record { height = none; prev_block = none; stop_height = stop_height }

-- The first items of the stream, and whether it has ended within so many pulls.
unfoldable pub pull : BitcoinCoreApi → ℕ → StreamState → List (Result Error Block) × Bool
pull rpc zero state = ([], false)
pull rpc (suc n) state = elim (reverse_step rpc state) [
  | none ↦ ([], true)
  | some (item, next) ↦ let (items, ended) = pull rpc n next in (item ∷ items, ended)
]

unfoldable pub reverse_stream_blocks : BitcoinCoreApi → ℕ → ℕ → List (Result Error Block) × Bool
unfolding pull initial_state
reverse_stream_blocks rpc stop_height pulls = pull rpc pulls (initial_state stop_height)

unfoldable pub block_transactions : Result Error Block → List (Result Error Transaction)
block_transactions (ok block) = map ok block.txdata
block_transactions (err e) = err e ∷ []

unfoldable pub flat_map_blocks : List (Result Error Block) → List (Result Error Transaction)
unfolding block_transactions
flat_map_blocks [] = []
flat_map_blocks (item ∷ items) = block_transactions item ++ flat_map_blocks items

-- The transactions of the first `pulls` items of the stream of blocks.
unfoldable pub reverse_stream_in_chain_transactions :
    BitcoinCoreApi → ℕ → ℕ → List (Result Error Transaction) × Bool
unfolding reverse_stream_blocks flat_map_blocks
reverse_stream_in_chain_transactions rpc stop_height pulls =
    let (items, ended) = reverse_stream_blocks rpc stop_height pulls in
    (flat_map_blocks items, ended)

unfoldable pub reverse_stream_transactions :
    BitcoinCoreApi → ℕ → ℕ → Result Error (List (Result Error Transaction) × Bool)
unfolding reverse_stream_in_chain_transactions
reverse_stream_transactions rpc stop_height pulls = do
  mempool ← rpc.get_mempool_transactions
  let in_chain = reverse_stream_in_chain_transactions rpc stop_height pulls
  ok (mempool ++ in_chain.0, in_chain.1)
