-- ===== src/Bitcoin/Core.antt =====
-- The client of Bitcoin Core (bitcoin/src/lib.rs) and its errors (bitcoin/src/error.rs): the retries
-- of wallet calls, the wallet that is loaded, and the polls for blocks, transactions and rescans. What
-- the node answers is a parameter: a list of answers for a loop of polls, or a function of the number
-- of the attempt.
pub mod Calls
pub mod Confirmed
pub mod Attempts
pub mod Blocks
pub mod Kept
mod Tests
use interbtc_clients_cli.Prelude.{
  ℕ, suc, ◌+◌, ◌-◌, ◌*◌, ◌/◌, ◌%◌, ◌^◌, Bool, true, false, not, ◌&&◌, ◌||◌, Option, none, some,
  List, [], ◌∷◌, Result, ok, err, ◌>>=◌, ok_or, ltb, leb, ◌==◌, if◌then◌else◌,
}
use interbtc_clients_cli.Prelude.Words.{u64_max, checked_add, checked_div, try_into}
use interbtc_clients_cli.Bitcoin.{Transaction, Block}
use interbtc_clients_cli.Bitcoin.Rpc.{
  BitcoinRpcError, Error, arithmetic_error, codes, confirmation_error, connection_refused,
  conversion, could_be_insufficient_funds, err_not_in_mempool, from_code, geb, has_kind,
  invalid_bitcoin_height, is_invalid_parameter, is_transport_error, is_wallet_error,
  is_wallet_not_found, kind_in, missing_bitcoin_fee_info, negsuc, not_in_mempool_error_code, other,
  pos, rejected_by_network_rules, rpc, rpc_client_in_initial_download,
  rpc_client_invalid_ip_or_subnet, rpc_client_mempool_disabled, rpc_client_node_already_added,
  rpc_client_node_not_added, rpc_client_node_not_connected, rpc_client_not_connected,
  rpc_client_p2p_disabled, rpc_database_error, rpc_deserialization_errr, rpc_forbidden_by_safe_mode,
  rpc_in_warmup, rpc_internal_error, rpc_invalid_address_or_key, rpc_invalid_parameter,
  rpc_invalid_params, rpc_invalid_request, rpc_method_deprecated, rpc_method_not_found,
  rpc_misc_error, rpc_out_of_memory, rpc_parse_error, rpc_type_error, rpc_unknown_error,
  rpc_verify_already_in_chain, rpc_verify_error, rpc_verify_rejected, rpc_wallet_already_unlocked,
  rpc_wallet_encryption_failed, rpc_wallet_error, rpc_wallet_insufficient_funds,
  rpc_wallet_invalid_label_name, rpc_wallet_keypool_ran_out, rpc_wallet_not_found,
  rpc_wallet_not_specified, rpc_wallet_passphrase_incorrect, rpc_wallet_unlock_needed,
  rpc_wallet_wrong_enc_state, too_many_return_to_self_addresses, transaction_signing_error,
  transport, wallet_not_found, ℤ,
}

-- `as i32` from u32
unfoldable pub as_i32 : ℕ → ℤ
as_i32 n = if ltb n (2 ^ 31) then pos n else negsuc (2 ^ 32 - 1 - n)

-- A loop of polls has not ended with the answers that were given, or it returns.
pub data Polled (A : Type 0) : Type 0 where
  waiting : Polled A
  returned : Result Error A → Polled A

-- `get_blockchain_info`: whether the initial download goes on, and whether the progress is 1.
unfoldable pub sync : List (Result Error (Bool × Bool)) → Polled (Unit {0})
sync [] = waiting
sync (err e ∷ polls) = returned (err e)
sync (ok (initial_block_download, verified) ∷ polls) =
    let rest = sync polls in
    if not initial_block_download || verified then returned (ok tt) else rest

-- Whether a scan goes on.
unfoldable pub wait_for_rescan : List (Result Error Bool) → Polled (Unit {0})
wait_for_rescan [] = waiting
wait_for_rescan (err e ∷ polls) = returned (err e)
wait_for_rescan (ok true ∷ polls) = wait_for_rescan polls
wait_for_rescan (ok false ∷ polls) = returned (ok tt)

-- The wait for a scan that goes on, the rescan, and the wait for its end if the call timed out.
unfoldable pub rescan_blockchain :
    List (Result Error Bool)
    → Result Error (Unit {0})
    → List (Result Error Bool)
    → Polled (Unit {0})
unfolding wait_for_rescan is_transport_error
rescan_blockchain before rescan after = elim (wait_for_rescan before) [
  | waiting ↦ waiting
  | returned (err e) ↦ returned (err e)
  | returned (ok u) ↦ elim rescan [
    | ok v ↦ returned (ok tt)
    | err e ↦ if is_transport_error e then wait_for_rescan after else returned (err e)
  ]
]

-- The answers of one poll for a block at a height.
pub record BlockPoll : Type 0 where
  pub get_block_hash : Result Error ℕ
  pub get_block_info : ℕ → Result Error ℤ
  pub get_block : ℕ → Result Error Block

unfoldable pub wait_for_block : ℕ → List BlockPoll → Polled Block
unfolding geb as_i32 is_invalid_parameter
wait_for_block num_confirmations [] = waiting
wait_for_block num_confirmations (poll ∷ polls) =
    let rest = wait_for_block num_confirmations polls in
    elim poll.get_block_hash [
      | err e ↦ if is_invalid_parameter e then rest else returned (err e)
      | ok hash ↦ elim (poll.get_block_info hash) [
        | err e ↦ returned (err e)
        | ok confirmations ↦
            if geb confirmations (as_i32 num_confirmations)
            then returned (poll.get_block hash)
            else rest
      ]
    ]

unfoldable pub get_block_hash : Result Error ℕ → Result Error ℕ
unfolding is_invalid_parameter
get_block_hash (ok hash) = ok hash
get_block_hash (err e) = if is_invalid_parameter e then err invalid_bitcoin_height else err e

-- `get_raw_transaction` for the ids of the mempool: those that have left it are dropped.
unfoldable pub get_mempool_transactions :
    (ℕ → Result Error Transaction) → List ℕ → List (Result Error Transaction)
unfolding err_not_in_mempool
get_mempool_transactions get_raw_transaction [] = []
get_mempool_transactions get_raw_transaction (txid ∷ txids) =
    let rest = get_mempool_transactions get_raw_transaction txids in
    elim (get_raw_transaction txid) [
      | ok tx ↦ ok tx ∷ rest
      | err e ↦ if err_not_in_mempool e then rest else err e ∷ rest
    ]

-- The fee per virtual byte of a transaction with some weight, as a u64; the fee of the node is of
-- either sign, or not there.
unfoldable pub fee_rate : ℕ → Option ℤ → Result Error ℕ
fee_rate weight fee = do
  rounded ← ok_or (checked_add u64_max weight 3) arithmetic_error
  vsize ← ok_or (try_into (2 ^ 63 - 1) (rounded / 4)) conversion
  signed ← ok_or fee missing_bitcoin_fee_info
  positive ← elim signed [
    | pos n ↦ ok n
    | negsuc n ↦ if ltb (suc n) (2 ^ 63) then ok (suc n) else err arithmetic_error
  ]
  ok_or (checked_div positive vsize) arithmetic_error

unfoldable pub is_in_mempool : Result Error ℤ → Result Error Bool
is_in_mempool get_transaction = do
  confirmations ← get_transaction
  ok (elim confirmations [ pos n ↦ n == 0 | negsuc n ↦ false ])
