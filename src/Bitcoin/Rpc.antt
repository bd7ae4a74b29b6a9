-- ===== src/Bitcoin/Rpc.antt =====
-- The errors of the client of Bitcoin Core and the kinds of errors of the node
-- (bitcoin/src/error.rs).
use interbtc_clients_cli.Prelude.{
  ℕ, suc, Bool, true, false, List, [], ◌∷◌, leb, ◌==◌, if◌then◌else◌,
}

-- A signed integer, and the test `≥` on two of them.
pub data ℤ : Type 0 where
  pos negsuc : ℕ → ℤ

unfoldable pub geb : ℤ → ℤ → Bool
geb (pos a) (pos b) = leb b a
geb (pos a) (negsuc b) = true
geb (negsuc a) (pos b) = false
geb (negsuc a) (negsuc b) = leb a b

-- The errors of a call, as far as they are told apart; an error of the node has its code.
pub data Error : Type 0 where
  transport conversion other : Error
  rpc : ℤ → Error
  confirmation_error invalid_bitcoin_height transaction_signing_error connection_refused : Error
  wallet_not_found arithmetic_error missing_bitcoin_fee_info : Error
  too_many_return_to_self_addresses : Error

pub data BitcoinRpcError : Type 0 where
  rpc_invalid_request rpc_method_not_found rpc_invalid_params rpc_internal_error : BitcoinRpcError
  rpc_parse_error rpc_misc_error rpc_type_error rpc_invalid_address_or_key rpc_out_of_memory :
      BitcoinRpcError
  rpc_invalid_parameter rpc_database_error rpc_deserialization_errr rpc_verify_error :
      BitcoinRpcError
  rpc_verify_rejected rpc_verify_already_in_chain rpc_in_warmup rpc_method_deprecated :
      BitcoinRpcError
  rpc_client_not_connected rpc_client_in_initial_download rpc_client_node_already_added :
      BitcoinRpcError
  rpc_client_node_not_added rpc_client_node_not_connected rpc_client_invalid_ip_or_subnet :
      BitcoinRpcError
  rpc_client_p2p_disabled rpc_client_mempool_disabled rpc_wallet_error : BitcoinRpcError
  rpc_wallet_insufficient_funds rpc_wallet_invalid_label_name rpc_wallet_keypool_ran_out :
      BitcoinRpcError
  rpc_wallet_unlock_needed rpc_wallet_passphrase_incorrect rpc_wallet_wrong_enc_state :
      BitcoinRpcError
  rpc_wallet_encryption_failed rpc_wallet_already_unlocked rpc_wallet_not_found : BitcoinRpcError
  rpc_wallet_not_specified rpc_forbidden_by_safe_mode rpc_unknown_error : BitcoinRpcError

-- The kinds with the negations of their codes.
abbrev pub codes : List (ℕ × BitcoinRpcError)
codes =
    (32600, rpc_invalid_request)
    ∷ (32601, rpc_method_not_found)
    ∷ (32602, rpc_invalid_params)
    ∷ (32603, rpc_internal_error)
    ∷ (32700, rpc_parse_error)
    ∷ (1, rpc_misc_error)
    ∷ (3, rpc_type_error)
    ∷ (5, rpc_invalid_address_or_key)
    ∷ (7, rpc_out_of_memory)
    ∷ (8, rpc_invalid_parameter)
    ∷ (20, rpc_database_error)
    ∷ (22, rpc_deserialization_errr)
    ∷ (25, rpc_verify_error)
    ∷ (26, rpc_verify_rejected)
    ∷ (27, rpc_verify_already_in_chain)
    ∷ (28, rpc_in_warmup)
    ∷ (32, rpc_method_deprecated)
    ∷ (9, rpc_client_not_connected)
    ∷ (10, rpc_client_in_initial_download)
    ∷ (23, rpc_client_node_already_added)
    ∷ (24, rpc_client_node_not_added)
    ∷ (29, rpc_client_node_not_connected)
    ∷ (30, rpc_client_invalid_ip_or_subnet)
    ∷ (31, rpc_client_p2p_disabled)
    ∷ (33, rpc_client_mempool_disabled)
    ∷ (4, rpc_wallet_error)
    ∷ (6, rpc_wallet_insufficient_funds)
    ∷ (11, rpc_wallet_invalid_label_name)
    ∷ (12, rpc_wallet_keypool_ran_out)
    ∷ (13, rpc_wallet_unlock_needed)
    ∷ (14, rpc_wallet_passphrase_incorrect)
    ∷ (15, rpc_wallet_wrong_enc_state)
    ∷ (16, rpc_wallet_encryption_failed)
    ∷ (17, rpc_wallet_already_unlocked)
    ∷ (18, rpc_wallet_not_found)
    ∷ (19, rpc_wallet_not_specified)
    ∷ (2, rpc_forbidden_by_safe_mode)
    ∷ []

unfoldable pub kind_in : List (ℕ × BitcoinRpcError) → ℕ → BitcoinRpcError
kind_in [] n = rpc_unknown_error
kind_in ((code, kind) ∷ rest) n = let other = kind_in rest n in if code == n then kind else other

-- `from_i32`, with the unknown error for a code that is not in the list
unfoldable pub from_code : ℤ → BitcoinRpcError
unfolding kind_in
from_code (pos n) = rpc_unknown_error
from_code (negsuc n) = kind_in codes (suc n)

-- Whether an error of the node is one of a kind.
abbrev pub has_kind : (BitcoinRpcError → Bool) → Error → Bool
has_kind kind (rpc code) = kind (from_code code)
has_kind kind _ = false

unfoldable pub is_transport_error : Error → Bool
is_transport_error transport = true
is_transport_error _ = false

unfoldable pub is_wallet_error : Error → Bool
unfolding from_code
is_wallet_error = has_kind (λ k. elim k [ rpc_wallet_error ↦ true | _ ↦ false ])

unfoldable pub is_wallet_not_found : Error → Bool
unfolding from_code
is_wallet_not_found = has_kind (λ k. elim k [ rpc_wallet_not_found ↦ true | _ ↦ false ])

unfoldable pub is_invalid_parameter : Error → Bool
unfolding from_code
is_invalid_parameter = has_kind (λ k. elim k [ rpc_invalid_parameter ↦ true | _ ↦ false ])

unfoldable pub rejected_by_network_rules : Error → Bool
unfolding from_code
rejected_by_network_rules = has_kind (λ k. elim k [ rpc_verify_rejected ↦ true | _ ↦ false ])

unfoldable pub could_be_insufficient_funds : Error → Bool
unfolding from_code
could_be_insufficient_funds =
    has_kind
      (λ k. elim k [ rpc_wallet_error ↦ true | rpc_wallet_insufficient_funds ↦ true | _ ↦ false ])

-- The code of `RpcInvalidAddressOrKey`, negated
abbrev pub not_in_mempool_error_code : ℕ
not_in_mempool_error_code = 5

unfoldable pub err_not_in_mempool : Error → Bool
err_not_in_mempool (rpc (negsuc n)) = suc n == not_in_mempool_error_code
err_not_in_mempool _ = false
