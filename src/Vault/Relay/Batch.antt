-- ===== src/Vault/Relay/Batch.antt =====
-- The headers that one round submits (vault/src/relay/mod.rs): how many, and their collection.
use interbtc_clients_cli.Prelude.{
  ℕ, zero, suc, ◌+◌, ◌-◌, ◌≤◌, ◌<◌, ◌≡◌, refl, ap, subst, Option, none, some, List, [], ◌∷◌, Result,
  ok, err, ◌>>=◌, ltb, if◌then◌else◌, length, arith,
}
use interbtc_clients_cli.Prelude.Words.{u32_max, saturating_add, saturating_sub}
use interbtc_clients_cli.Vault.Relay.{Failure, panicked, out_of_fuel, Backing, Config}
use Prim.Native.Nat.{min}

unfoldable pub get_num_confirmed_blocks : Backing → Config → Result Failure ℕ
get_num_confirmed_blocks backing conf = do
  count ← backing.get_block_count
  ok (saturating_sub count conf.btc_confirmations)

-- The `batch_size` of `submit_next`.
unfoldable pub batch_size : ℕ → ℕ → ℕ → ℕ
batch_size current_height max_height max_batch_size =
    if ltb max_height (saturating_add u32_max current_height max_batch_size)
    then saturating_sub (saturating_add u32_max max_height 1) current_height
    else max_batch_size

-- `Option::unwrap`
abbrev pub unwrap : Option ℕ → Result Failure ℕ
unwrap none = err panicked
unwrap (some header) = ok header

-- The headers of `batch` blocks from `height` on.
unfoldable pub collect_headers : Backing → ℕ → ℕ → Result Failure (List ℕ)
collect_headers backing height zero = ok []
collect_headers backing height (suc batch) =
    let rest = collect_headers backing (height + 1) batch in
    do
      answer ← backing.get_block_header height
      header ← unwrap answer
      headers ← rest
      ok (header ∷ headers)

-- `Runner::get_block_header`, which asks again after each interval until the node has the block:
-- `backing t` is the node at the t-th attempt.
unfoldable pub get_block_header : (ℕ → Backing) → ℕ → ℕ → ℕ → Result Failure ℕ
get_block_header backing zero t height = err out_of_fuel
get_block_header backing (suc fuel) t height = elim ((backing t).get_block_header height) [
  | err e ↦ err e
  | ok (some header) ↦ ok header
  | ok none ↦ get_block_header backing fuel (t + 1) height
]

-- The headers of consecutive blocks, from a height on.
abbrev pub HeadersFrom : Backing → ℕ → List ℕ → Type 0
HeadersFrom backing h [] = Unit
HeadersFrom backing h (x ∷ xs) =
    (backing.get_block_header h ≡ ok (some x)) × HeadersFrom backing (h + 1) xs

-- One round submits as many headers as there are confirmed blocks from the current height on, up
-- to the largest size of a batch. In particular the last one is confirmed, and the range of the
-- heights does not overflow.
pub batch_size_lem :
    (current max_height max_batch : ℕ)
    → max_height < u32_max
    → (batch_size current max_height max_batch ≡ min max_batch (max_height + 1 - current))
unfolding batch_size
batch_size_lem current max_height max_batch h = ground arith

-- If every block of the range has a header, they are collected in the order of the heights.
pub collect_headers_total :
    (backing : Backing) (height batch : ℕ)
    → ((h : ℕ)
        → height ≤ h
        → h < height + batch
        → (x : ℕ) × (backing.get_block_header h ≡ ok (some x)))
    → (headers : List ℕ) × (collect_headers backing height batch ≡ ok headers)
      × HeadersFrom backing height headers
      × (length headers ≡ batch)
unfolding collect_headers
collect_headers_total backing height zero known = ([], refl, tt, refl)
collect_headers_total backing height (suc batch) known =
    let (x, e) = known height (omega arith) (omega arith) in
    let (xs, run, from, count) =
      collect_headers_total backing (height + 1) batch
        (λ h lo hi. known h (omega arith) (omega arith)) in
    (x ∷ xs, rw (e, run), (e, from), ap suc count)

-- The wait for a block ends at the first attempt at which the node has it.
pub get_block_header_waits :
    (backing : ℕ → Backing) (fuel t n height x : ℕ)
    → ((i : ℕ) → i < n → (backing (t + i)).get_block_header height ≡ ok none)
    → (backing (t + n)).get_block_header height ≡ ok (some x)
    → n < fuel
    → get_block_header backing fuel t height ≡ ok x
unfolding get_block_header
get_block_header_waits backing zero t n height x absent found h = absurd (omega arith)
get_block_header_waits backing (suc fuel) t zero height x absent found h =
    let e : t + 0 ≡ t = omega arith in
    rw (subst (λ k. (backing k).get_block_header height ≡ ok (some x)) e found, get_block_header)
get_block_header_waits backing (suc fuel) t (suc n) height x absent found h =
    let e : t + 0 ≡ t = omega arith in
    let later : (i : ℕ) → t + suc i ≡ t + 1 + i = λ i. omega arith in
    rw
      (
        subst (λ k. (backing k).get_block_header height ≡ ok none) e (absent 0 (omega arith)),
        get_block_header,
      )
      (get_block_header_waits backing fuel (t + 1) n height x
        (λ i lt.
          subst (λ k. (backing k).get_block_header height ≡ ok none) (later i)
            (absent (suc i) (omega arith)))
        (subst (λ k. (backing k).get_block_header height ≡ ok (some x)) (later n) found)
        (omega arith))
