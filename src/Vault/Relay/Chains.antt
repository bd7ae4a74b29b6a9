-- ===== src/Vault/Relay/Chains.antt =====
-- The two chains of the relayer: what the Bitcoin node and the pallet of the relay answer, as the
-- interfaces that the relayer uses (vault/src/relay/backing.rs, vault/src/relay/issuing.rs), and the loop
-- over its rounds (`run_relayer`, vault/src/relay/mod.rs).
mod Tests
use interbtc_clients_cli.Prelude.{
  ℕ, ◌%◌, ◌^◌, Bool, not, Option, none, some, List, [], ◌∷◌, Result, ok, err, ◌>>=◌, ok_or, ltb,
  ◌==◌, if◌then◌else◌, map_result,
}
use interbtc_clients_cli.Bitcoin.Rpc.{Error, invalid_bitcoin_height}
use interbtc_clients_cli.Vault.Relay.{Failure, call_failed, Backing, Issuing}

-- The calls of the client of the Bitcoin node; a header is its bytes, as a number.
pub record Node : Type 0 where
  pub get_block_count : Result Error ℕ
  pub get_block_hash : ℕ → Result Error ℕ
  pub get_block_header : ℕ → Result Error ℕ

-- An error of the node is passed on.
abbrev pub passed : {A : Type 0} → Result Error A → Result Failure A
passed (ok a) = ok a
passed (err e) = err call_failed

unfoldable pub header_at : Node → ℕ → Result Failure (Option ℕ)
header_at node height = elim (node.get_block_hash height) [
  | ok hash ↦ do header ← passed (node.get_block_header hash); ok (some header)
  | err invalid_bitcoin_height ↦ ok none
  | err e ↦ err call_failed
]

-- `impl Backing`; `as u32` wraps around.
unfoldable pub backing_of : Node → Backing
unfolding header_at
backing_of node = record {
  get_block_count = passed node.get_block_count >>= λ count. ok (count % 2 ^ 32);
  get_block_header = header_at node;
  get_block_hash = λ height. passed (node.get_block_hash height);
}

-- The calls of the pallet in a state of the relay. The hash of the best block is 0 before the relay is
-- initialized, and the height of a block that is not stored is 0.
pub record BtcRelayPallet (S : Type 0) : Type 0 where
  pub get_best_block : S → Result Failure ℕ
  pub initialize_btc_relay : ℕ → ℕ → S → Result Failure (Unit {0}) × S
  pub store_block_header : ℕ → S → Result Failure (Unit {0}) × S
  pub store_block_headers : List ℕ → S → Result Failure (Unit {0}) × S
  pub get_best_block_height : S → Result Failure ℕ
  pub get_block_hash : ℕ → S → Result Failure ℕ
  pub get_block_header : ℕ → S → Result Failure ℕ

-- The pallet, the raw header of some bytes, if there are 80 of them, the hash of a raw header, and the
-- wait for a random delay.
module _ {S : Type 0} (pallet : BtcRelayPallet S) (raw_header : ℕ → Option ℕ) (hash : ℕ → ℕ)
    (delay : ℕ → Result Failure (Unit {0})) where
  unfoldable pub encode_raw_header : ℕ → Result Failure ℕ
  encode_raw_header bytes = ok_or (raw_header bytes) call_failed

  -- A call that is made with a value, or not made because there is none.
  abbrev pub with_value :
      {A : Type 0}
      → Result Failure A
      → (A → S → Result Failure (Unit {0}) × S)
      → S
      → Result Failure (Unit {0}) × S
  with_value (ok a) call s = call a s
  with_value (err e) call s = (err e, s)

  unfoldable pub is_stored : ℕ → S → Result Failure Bool
  is_stored block_hash s = do height ← pallet.get_block_header block_hash s; ok (ltb 0 height)

  -- The header is stored unless it is there after the delay.
  unfoldable pub submit_header : ℕ → S → Result Failure (Unit {0}) × S
  unfolding encode_raw_header is_stored
  submit_header header s =
      with_value (encode_raw_header header)
        (λ raw s.
          with_value (delay header >>= λ u. is_stored (hash raw) s)
            (λ stored s. if stored then (ok tt, s) else pallet.store_block_header raw s) s)
        s

  -- `impl Issuing`
  unfoldable pub issuing_of : Issuing S
  unfolding submit_header
  issuing_of = record {
    is_initialized = λ s. pallet.get_best_block s >>= λ best. ok (not (best == 0));
    initialize = λ header height.
        with_value (encode_raw_header header) (λ raw. pallet.initialize_btc_relay raw height);
    submit_block_header = submit_header;
    submit_block_header_batch =
        λ headers. with_value (map_result encode_raw_header headers) pallet.store_block_headers;
    get_best_height = pallet.get_best_block_height;
    get_block_hash = pallet.get_block_hash;
    is_block_stored = is_stored;
  }

-- The errors of a round as the loop tells them apart.
pub data RoundError : Type 0 where
  duplicate_block rpc_disconnect transport_error other : RoundError

pub data ServiceError : Type 0 where
  client_shutdown : ServiceError

-- The loop over the results of the rounds: it goes on, or returns an error.
unfoldable pub run_relayer : List (Result RoundError (Unit {0})) → Option ServiceError
run_relayer [] = none
run_relayer (ok u ∷ rounds) = run_relayer rounds
run_relayer (err duplicate_block ∷ rounds) = run_relayer rounds
run_relayer (err rpc_disconnect ∷ rounds) = some client_shutdown
run_relayer (err transport_error ∷ rounds) = some client_shutdown
run_relayer (err other ∷ rounds) = run_relayer rounds
