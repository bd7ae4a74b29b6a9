-- ===== src/Vault/Relay/Chains/Tests.antt =====
-- A relay that holds the first block of Bitcoin alone, at the height 0 (vault/src/relay). A block's hash
-- is 100 and its height, and a state is the list of the hashes that are stored.
use interbtc_clients_cli.Prelude.{
  ℕ, ◌+◌, ◌-◌, ◌≡◌, refl, true, false, Option, some, List, [], ◌∷◌, ◌++◌, Result, ok, err, leb,
  ◌==◌, if◌then◌else◌, length,
}
use interbtc_clients_cli.Bitcoin.Rpc.{invalid_bitcoin_height}
use interbtc_clients_cli.Vault.Relay.{Failure, Issuing}
use interbtc_clients_cli.Vault.Relay.Height.{compute_start_height}
use interbtc_clients_cli.Vault.Relay.Chains.{
  Node, backing_of, BtcRelayPallet, issuing_of, is_stored, submit_header, run_relayer,
  duplicate_block, rpc_disconnect, client_shutdown,
}

abbrev node : Node
node = record {
  get_block_count = ok 3;
  get_block_hash = λ h. if leb h 3 then ok (100 + h) else err invalid_bitcoin_height;
  get_block_header = λ hash. ok hash;
}

-- The height of a block that is stored, and 0 for any other.
abbrev height_in : ℕ → List ℕ → ℕ
height_in hash [] = 0
height_in hash (h ∷ hs) = let rest = height_in hash hs in if h == hash then hash - 100 else rest

abbrev pallet : BtcRelayPallet (List ℕ)
pallet = record {
  get_best_block = λ s. ok 100;
  initialize_btc_relay = λ header height s. (ok tt, header ∷ []);
  store_block_header = λ header s. (ok tt, s ++ (header ∷ []));
  store_block_headers = λ headers s. (ok tt, s ++ headers);
  get_best_block_height = λ s. ok (length s - 1);
  get_block_hash = λ h s. ok (100 + h);
  get_block_header = λ hash s. ok (height_in hash s);
}

abbrev as_raw : ℕ → Option ℕ
as_raw header = some header

abbrev same_hash : ℕ → ℕ
same_hash header = header

abbrev no_delay : ℕ → Result Failure (Unit {0})
no_delay header = ok tt

abbrev issuing : Issuing (List ℕ)
issuing = issuing_of pallet as_raw same_hash no_delay

-- The block at the height 1 is known to be stored, that at the height 0 is not.
second_stored : issuing.is_block_stored 101 (100 ∷ 101 ∷ []) ≡ ok true
unfolding issuing_of is_stored
second_stored = refl

first_not_stored : issuing.is_block_stored 100 (100 ∷ 101 ∷ []) ≡ ok false
unfolding issuing_of is_stored
first_not_stored = refl

-- The relayer goes on from the height 0, whose block is there.
starts_again : compute_start_height issuing (backing_of node) (100 ∷ []) 8 ≡ ok 0
unfolding compute_start_height issuing_of backing_of is_stored
starts_again = refl

stored_once :
    (submit_header pallet as_raw same_hash no_delay 101 (100 ∷ 101 ∷ [])).1 ≡ 100 ∷ 101 ∷ []
unfolding submit_header
stored_once = refl

shut_down :
    run_relayer (ok tt ∷ err duplicate_block ∷ err rpc_disconnect ∷ []) ≡ some client_shutdown
unfolding run_relayer
shut_down = refl
