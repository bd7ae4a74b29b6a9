-- ===== src/Vault/Relay/Tests.antt =====
-- Two small chains (vault/src/relay/mod.rs): Bitcoin with the blocks 100 to 104 at the heights 0 to
-- 4, and a relay that has stored the first two of them. A header is its own hash.
use interbtc_clients_cli.Prelude.{
  ℕ, zero, suc, ◌+◌, ◌-◌, ◌≤◌, ◌<◌, ◌≡◌, refl, Bool, false, not, none, some, List, [], ◌∷◌, ◌++◌,
  ok, err, ok_or, leb, ◌==◌, ◌||◌, if◌then◌else◌, length, get_elem?, arith,
}
use Prim.Native.Nat.{min}
use interbtc_clients_cli.Vault.Relay.{Failure, call_failed, Backing, Issuing, Config}
use interbtc_clients_cli.Vault.Relay.Height.{compute_start_height}
use interbtc_clients_cli.Vault.Relay.Fork.{Chains, IsForkPoint, IsNextMissing}
use interbtc_clients_cli.Vault.Relay.Start.{compute_start_height_total}
use interbtc_clients_cli.Vault.Relay.Batch.{
  get_num_confirmed_blocks, batch_size, collect_headers, get_block_header, HeadersFrom,
  batch_size_lem, get_block_header_waits,
}
use interbtc_clients_cli.Vault.Relay.Submit.{submit_next, deliver, submit_next_round}

abbrev bitcoin : Backing
bitcoin = record {
  get_block_count = ok 4;
  get_block_header = λ h. ok (if leb h 4 then some (100 + h) else none);
  get_block_hash = λ h. if leb h 4 then ok (100 + h) else err call_failed;
}

abbrev member : ℕ → List ℕ → Bool
member x [] = false
member x (y ∷ ys) = x == y || member x ys

abbrev relay : Issuing (List ℕ)
relay = record {
  is_initialized = λ s. ok (not (length s == 0));
  initialize = λ header _ s. (ok tt, header ∷ []);
  submit_block_header = λ header s. (ok tt, s ++ header ∷ []);
  submit_block_header_batch = λ headers s. (ok tt, s ++ headers);
  get_best_height = λ s. ok (length s - 1);
  get_block_hash = λ h s. ok_or (get_elem? s h) call_failed;
  is_block_stored = λ hash s. ok (member hash s);
}

abbrev stored : List ℕ
stored = 100 ∷ 101 ∷ []

abbrev config : Config
config = record { start_height = none; max_batch_size = 16; btc_confirmations = 1 }

start_runs : compute_start_height relay bitcoin stored 6 ≡ ok 2
unfolding compute_start_height
start_runs = refl

submit_runs : submit_next relay config (λ _. bitcoin) 6 stored ≡ (ok tt, 100 ∷ 101 ∷ 102 ∷ 103 ∷ [])
unfolding submit_next compute_start_height get_num_confirmed_blocks batch_size collect_headers
submit_runs = refl

relay_answers : (h : ℕ) → h ≤ 1 → (r : ℕ) × (relay.get_block_hash h stored ≡ ok r)
relay_answers zero l = (100, refl)
relay_answers (suc zero) l = (101, refl)
relay_answers (suc (suc h)) l = absurd (omega arith)

bitcoin_answers : (h : ℕ) → h ≤ 4 → (b : ℕ) × (bitcoin.get_block_hash h ≡ ok b)
bitcoin_answers h l = (100 + h, ground arith)

bitcoin_ends : (h : ℕ) → 4 < h → (e : Failure) × (bitcoin.get_block_hash h ≡ err e)
bitcoin_ends h l = (call_failed, ground arith)

chains : Chains relay bitcoin stored 1 4
chains = record {
  best_known = refl;
  relay_answers = relay_answers;
  store_answers = λ hash. (member hash stored, refl);
  bitcoin_answers = bitcoin_answers;
  bitcoin_ends = bitcoin_ends;
  not_ahead = omega arith;
  tip_fits = omega arith;
}

headers_known : (h : ℕ) → h ≤ 4 → (x : ℕ) × (bitcoin.get_block_header h ≡ ok (some x))
headers_known h l = (100 + h, ground arith)

compute_start_height_total_example :
    (n h : ℕ) × (compute_start_height relay bitcoin stored 6 ≡ ok n)
    × IsForkPoint relay bitcoin stored 1 h
    × IsNextMissing relay bitcoin stored h n
    × (n ≤ 4 + 1)
compute_start_height_total_example =
    compute_start_height_total relay bitcoin stored chains 6 0 (omega arith) (omega arith)
      (100, refl, refl)

last_batch : batch_size 2 3 16 ≡ min 16 (3 + 1 - 2)
last_batch = batch_size_lem 2 3 16 (omega arith)

submit_next_round_example :
    (n h : ℕ) × (headers : List ℕ) × (submit_next relay config (λ _. bitcoin) 6 stored
      ≡ deliver relay config headers stored)
    × IsForkPoint relay bitcoin stored 1 h
    × IsNextMissing relay bitcoin stored h n
    × HeadersFrom bitcoin n headers
    × (length headers ≡ min 16 (4 - 1 + 1 - n))
submit_next_round_example =
    submit_next_round relay config (λ _. bitcoin) 6 1 4 0 stored chains refl refl headers_known
      (omega arith) (100, refl, refl) (omega arith)

-- The node gets the block at its third answer.
abbrev late : ℕ → Backing
late t = record bitcoin { get_block_header = λ h. ok (if leb 2 t then some (100 + h) else none) }

header_waited_for : get_block_header late 3 0 4 ≡ ok 104
header_waited_for =
    get_block_header_waits late 3 0 2 4 104 (λ i lt. ground arith) refl (omega arith)
