-- ===== src/Bitcoin/Iter/Forward.antt =====
-- The endless stream of confirmed blocks (bitcoin/src/iter.rs), and the order of its heights.
use interbtc_clients_cli.Prelude.{
  ℕ, zero, suc, ◌+◌, ◌%◌, ◌<◌, ◌≡◌, refl, List, [], ◌∷◌, map, Result, ok, err, arith,
}
use mathlib.Core.List.{flat_map}
use interbtc_clients_cli.Bitcoin.{Transaction, Block, Error}
use interbtc_clients_cli.Bitcoin.Iter.{u32_mod}

-- `wait t h` is what the node answers at time t to the wait for the block at height h. The pulls are
-- at consecutive times; the height of the next block is a u32.
abbrev pub Waits : Type 0
Waits = ℕ → ℕ → Result Error Block

unfoldable pub next_height_after : ℕ → Result Error Block → ℕ
next_height_after height (ok block) = (height + 1) % u32_mod
next_height_after height (err e) = height

-- The first items of the stream, each with the height that was waited for.
unfoldable pub stream_blocks : Waits → ℕ → ℕ → ℕ → List (ℕ × Result Error Block)
unfolding next_height_after
stream_blocks wait zero t height = []
stream_blocks wait (suc n) t height =
    (height, wait t height)
    ∷ stream_blocks wait n (t + 1) (next_height_after height (wait t height))

-- The transactions of an item, each with the hash of its block, which the library of Bitcoin types
-- computes.
unfoldable pub in_chain_transactions :
    (Block → ℕ) → Result Error Block → List (Result Error (ℕ × Transaction))
in_chain_transactions block_hash (err e) = err e ∷ []
in_chain_transactions block_hash (ok block) = map (λ tx. ok (block_hash block, tx)) block.txdata

-- The transactions of the first items of the stream of blocks.
unfoldable pub stream_in_chain_transactions :
    (Block → ℕ) → Waits → ℕ → ℕ → ℕ → List (Result Error (ℕ × Transaction))
unfolding in_chain_transactions stream_blocks
stream_in_chain_transactions block_hash wait n t height =
    flat_map (λ item. in_chain_transactions block_hash item.1) (stream_blocks wait n t height)

-- The heights of the blocks among the items, in order.
abbrev pub block_heights : List (ℕ × Result Error Block) → List ℕ
block_heights [] = []
block_heights ((h, ok _) ∷ items) = h ∷ block_heights items
block_heights ((h, err _) ∷ items) = block_heights items

-- Consecutive heights, from one on.
abbrev pub Consecutive : ℕ → List ℕ → Type 0
Consecutive h [] = Unit
Consecutive h (k ∷ ks) = (k ≡ h) × Consecutive (h + 1) ks

-- Whatever the node answers at each time, the blocks that the stream returns are those waited for
-- at consecutive heights from the first one on: an error makes it wait for the same height again,
-- and no height is skipped or repeated. The heights that are reached are of type u32.
pub stream_blocks-Consecutive :
    (wait : Waits) (n t height : ℕ)
    → height + n < u32_mod
    → Consecutive height (block_heights (stream_blocks wait n t height))
unfolding stream_blocks
stream_blocks-Consecutive wait zero t height h = tt
stream_blocks-Consecutive wait (suc n) t height h =
    go (wait t height) (λ k. stream_blocks-Consecutive wait n (t + 1) k)
  where
    go :
        (answer : Result Error Block)
        → ((k : ℕ)
            → k + n < u32_mod
            → Consecutive k (block_heights (stream_blocks wait n (t + 1) k)))
        → Consecutive height (
            block_heights
              ((height, answer) ∷ stream_blocks wait n (t + 1) (next_height_after height answer)))
    go (ok b) ih =
        let e : (height + 1) % u32_mod ≡ height + 1 = omega arith in
        (refl, rw e (ih (height + 1) (omega arith)))
    go (err x) ih = ih height (omega arith)
