-- ===== src/Vault/Relay/Submit.antt =====
-- `submit_next` (vault/src/relay/mod.rs): one round of the relayer. The state of the relay on the
-- parachain is passed on explicitly; `backing t` is the Bitcoin node at the t-th attempt to read a
-- header, and at time 0 for all else.
use interbtc_clients_cli.Prelude.{
  ℕ, zero, suc, ◌+◌, ◌-◌, ◌≤◌, ◌<◌, ◌≡◌, refl, ◌∙◌, sym, ap, true, false, Option, none, some, List,
  [], ◌∷◌, Result, ok, err, ◌>>=◌, length, arith,
}
use interbtc_clients_cli.Vault.Relay.{Failure, Backing, Issuing, Config}
use interbtc_clients_cli.Vault.Relay.Height.{compute_start_height}
use interbtc_clients_cli.Vault.Relay.Fork.{Agree, Chains, IsForkPoint, IsNextMissing}
use interbtc_clients_cli.Vault.Relay.Start.{compute_start_height_total}
use interbtc_clients_cli.Vault.Relay.Batch.{
  get_num_confirmed_blocks, batch_size, unwrap, collect_headers, get_block_header, HeadersFrom,
  batch_size_lem, collect_headers_total,
}
use Prim.Native.Nat.{min}

abbrev pub start_or : Option ℕ → ℕ → ℕ
start_or none confirmed = confirmed
start_or (some h) confirmed = h

-- The height and the header to initialise the relay with. The count of blocks is asked for also
-- where a height is configured, as `unwrap_or` takes its argument by value.
unfoldable pub initial_header : Config → Backing → Result Failure (ℕ × ℕ)
initial_header conf backing = do
  confirmed ← get_num_confirmed_blocks backing conf
  let start = start_or conf.start_height confirmed
  answer ← backing.get_block_header start
  header ← unwrap answer
  ok (start, header)

module _ {S : Type 0} (issuing : Issuing S) (conf : Config) where
  unfoldable pub ensure_initialized : Backing → S → Result Failure (Unit {0}) × S
  ensure_initialized backing s = elim (issuing.is_initialized s) [
    | err e ↦ (err e, s)
    | ok true ↦ (ok tt, s)
    | ok false ↦ elim (initial_header conf backing) [
      | err e ↦ (err e, s)
      | ok (start, header) ↦ issuing.initialize header start s
    ]
  ]

  -- The current height and the size of the batch.
  unfoldable pub next_range : Backing → ℕ → S → Result Failure (ℕ × ℕ)
  next_range backing fuel s = do
    max_height ← get_num_confirmed_blocks backing conf
    current_height ← compute_start_height issuing backing s fuel
    ok (current_height, batch_size current_height max_height conf.max_batch_size)

  -- The `match batch_size`; with nothing to submit the relayer only sleeps.
  unfoldable pub submit_range : (ℕ → Backing) → ℕ → ℕ → ℕ → S → Result Failure (Unit {0}) × S
  submit_range backing fuel current_height zero s = (ok tt, s)
  submit_range backing fuel current_height (suc zero) s =
      elim (get_block_header backing fuel 0 current_height) [
        | err e ↦ (err e, s)
        | ok header ↦ issuing.submit_block_header header s
      ]
  submit_range backing fuel current_height (suc (suc more)) s =
      elim (collect_headers (backing 0) current_height (suc (suc more))) [
        | err e ↦ (err e, s)
        | ok headers ↦ issuing.submit_block_header_batch headers s
      ]

  unfoldable pub submit_rest : (ℕ → Backing) → ℕ → S → Result Failure (Unit {0}) × S
  unfolding submit_range next_range
  submit_rest backing fuel s = elim (next_range (backing 0) fuel s) [
    | err e ↦ (err e, s)
    | ok (current_height, batch) ↦ submit_range backing fuel current_height batch s
  ]

  -- The rest of the round, where the initialisation did not fail.
  unfoldable pub continue_round :
      (ℕ → Backing) → ℕ → Result Failure (Unit {0}) × S → Result Failure (Unit {0}) × S
  unfolding submit_rest
  continue_round backing fuel (err e, s) = (err e, s)
  continue_round backing fuel (ok _, s) = submit_rest backing fuel s

  unfoldable pub submit_next : (ℕ → Backing) → ℕ → S → Result Failure (Unit {0}) × S
  unfolding ensure_initialized continue_round
  submit_next backing fuel s = continue_round backing fuel (ensure_initialized (backing 0) s)

  -- How a list of headers is submitted: by no call, by one for a single header, or by one for all.
  abbrev pub deliver : List ℕ → S → Result Failure (Unit {0}) × S
  deliver [] s = (ok tt, s)
  deliver (x ∷ []) s = issuing.submit_block_header x s
  deliver (x ∷ y ∷ more) s = issuing.submit_block_header_batch (x ∷ y ∷ more) s

  next_range_lem :
      (backing : Backing) (fuel tip n : ℕ) (s : S)
      → backing.get_block_count ≡ ok tip
      → compute_start_height issuing backing s fuel ≡ ok n
      → next_range backing fuel s
        ≡ ok (n, batch_size n (tip - conf.btc_confirmations) conf.max_batch_size)
  unfolding next_range get_num_confirmed_blocks
  next_range_lem backing fuel tip n s count start = rw (start, count)

  ensure_initialized-ready :
      (backing : Backing) (s : S)
      → issuing.is_initialized s ≡ ok true
      → ensure_initialized backing s ≡ (ok tt, s)
  unfolding ensure_initialized
  ensure_initialized-ready backing s ready = rw (ready, ensure_initialized)

  submit_rest-range :
      (backing : ℕ → Backing) (fuel : ℕ) (s : S) (n batch : ℕ)
      → next_range (backing 0) fuel s ≡ ok (n, batch)
      → submit_rest backing fuel s ≡ submit_range backing fuel n batch s
  unfolding submit_rest
  submit_rest-range backing fuel s n batch range = rw (range, submit_rest)

  submit_next-range :
      (backing : ℕ → Backing) (fuel : ℕ) (s : S) (n batch : ℕ)
      → issuing.is_initialized s ≡ ok true
      → next_range (backing 0) fuel s ≡ ok (n, batch)
      → submit_next backing fuel s ≡ submit_range backing fuel n batch s
  unfolding submit_next
  submit_next-range backing fuel s n batch ready range =
      ap (continue_round backing fuel) (ensure_initialized-ready (backing 0) s ready)
      ∙ submit_rest-range backing fuel s n batch range

  deliver_many :
      (xs : List ℕ) (more : ℕ) (s : S)
      → length xs ≡ suc (suc more)
      → deliver xs s ≡ issuing.submit_block_header_batch xs s
  deliver_many [] more s e = absurd (omega arith)
  deliver_many (x ∷ []) more s e = absurd (omega arith)
  deliver_many (x ∷ y ∷ xs) more s e = refl

  submit_range-deliver :
      (backing : ℕ → Backing) (fuel current batch : ℕ) (s : S)
      → 0 < fuel
      → ((h : ℕ)
          → current ≤ h
          → h < current + batch
          → (x : ℕ) × ((backing 0).get_block_header h ≡ ok (some x)))
      → (headers : List ℕ) × (submit_range backing fuel current batch s ≡ deliver headers s)
        × HeadersFrom (backing 0) current headers
        × (length headers ≡ batch)
  unfolding submit_range get_block_header
  submit_range-deliver backing fuel current zero s hf known = ([], refl, tt, refl)
  submit_range-deliver backing zero current (suc zero) s hf known = absurd (omega arith)
  submit_range-deliver backing (suc fuel) current (suc zero) s hf known =
      let (x, e) = known current (omega arith) (omega arith) in
      (x ∷ [], rw (e, get_block_header, submit_range), (e, tt), refl)
  submit_range-deliver backing fuel current (suc (suc more)) s hf known =
      let (xs, run, from, count) =
        collect_headers_total (backing 0) current (suc (suc more)) known in
      (xs, rw (run, submit_range) (sym (deliver_many xs more s count)), from, count)

  -- One round of the relayer. Where the relay is initialised, its search for the height to go on
  -- from has the answers that it needs, and the node has the header of every block up to its tip,
  -- which it counts: with fuel enough the round submits, by one call and by none if there is nothing
  -- to submit, the headers of consecutive blocks from the next missing block n above the fork point
  -- h on, as many as are confirmed and fit in a batch; its result is that of the call.
  pub submit_next_round :
      (backing : ℕ → Backing) (fuel best tip low : ℕ) (s : S)
      → Chains issuing (backing 0) s best tip
      → issuing.is_initialized s ≡ ok true
      → (backing 0).get_block_count ≡ ok tip
      → ((h : ℕ) → h ≤ tip → (x : ℕ) × ((backing 0).get_block_header h ≡ ok (some x)))
      → low ≤ best
      → Agree issuing (backing 0) s low
      → tip + 2 ≤ fuel
      → (n h : ℕ) × (headers : List ℕ) × (submit_next backing fuel s ≡ deliver headers s)
        × IsForkPoint issuing (backing 0) s best h
        × IsNextMissing issuing (backing 0) s h n
        × HeadersFrom (backing 0) n headers
        × (length headers ≡ min conf.max_batch_size (tip - conf.btc_confirmations + 1 - n))
  submit_next_round backing fuel best tip low s chains ready count known hl agree enough =
      let (n, h, start, fork, next, below) =
        compute_start_height_total issuing (backing 0) s chains fuel low enough hl agree in
      let size =
        batch_size_lem n (tip - conf.btc_confirmations) conf.max_batch_size
          (omega (arith, chains.tip_fits)) in
      let (headers, run, from, len) =
        submit_range-deliver backing fuel n
          (batch_size n (tip - conf.btc_confirmations) conf.max_batch_size) s (omega arith)
          (λ k lo hi. known k (omega (arith, size))) in
      (
        n,
        h,
        headers,
        submit_next-range backing fuel s n
              (batch_size n (tip - conf.btc_confirmations) conf.max_batch_size) ready
              (next_range_lem (backing 0) fuel tip n s count start)
            ∙ run,
        fork,
        next,
        from,
        len ∙ size,
      )
