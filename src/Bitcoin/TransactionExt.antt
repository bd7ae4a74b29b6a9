-- ===== src/Bitcoin/TransactionExt.antt =====
-- What the clients read off a transaction: `TransactionExt` (bitcoin/src/lib.rs), and the payments of
-- the light wallet that it reads (`create_transaction`, bitcoin/src/light/wallet.rs).
use interbtc_clients_cli.Prelude.{
  ℕ, suc, Bool, false, ◌&&◌, not, Option, none, some, List, [], ◌∷◌, map, Result, ok, err, ltb,
  ◌==◌, if◌then◌else◌, length, take, select, find_map,
}
use mathlib.Core.Option
use interbtc_clients_cli.Bitcoin.{TxOut, Transaction}

-- The functions of the libraries of Bitcoin and hash types: the payload of an address that a script
-- pays to, the hash of 32 bytes and the bytes of a hash, the script that pays to an address, and the
-- script that carries bytes after OP_RETURN. Hashes, addresses and payloads are numbers.
pub record BitcoinTypes : Type 0 where
  pub from_script : List ℕ → Option ℕ
  pub from_slice : List ℕ → ℕ
  pub as_bytes : ℕ → List ℕ
  pub script_pubkey : ℕ → List ℕ
  pub op_return_script : List ℕ → List ℕ

-- `[0x6a, 32, ..]`
abbrev pub starts_op_return : List ℕ → Bool
starts_op_return (a ∷ b ∷ rest) = a == 0x6a && b == 32
starts_op_return _ = false

-- `[2..]`
abbrev pub skip_two : List ℕ → List ℕ
skip_two (a ∷ b ∷ rest) = rest
skip_two _ = []

-- The 34 bytes of a script with OP_RETURN and 32 bytes.
unfoldable pub op_return_bytes : TxOut → Option (List ℕ)
op_return_bytes x =
    if length x.script_pubkey == 34 && starts_op_return x.script_pubkey
    then some x.script_pubkey
    else none

unfoldable pub get_op_return_bytes : Transaction → Option (List ℕ)
unfolding op_return_bytes
get_op_return_bytes tx = find_map op_return_bytes (take 3 tx.output)

module _ (types : BitcoinTypes) where
  unfoldable pub get_op_return : Transaction → Option ℕ
  get_op_return tx = Option.map (λ x. types.from_slice (skip_two x)) (get_op_return_bytes tx)

  -- The amount of an output to a payload.
  unfoldable pub amount_to : ℕ → TxOut → Option ℕ
  amount_to dest uxto = elim (types.from_script uxto.script_pubkey) [
    | none ↦ none
    | some payload ↦ if payload == dest then some uxto.value else none
  ]

  unfoldable pub get_payment_amount_to : Transaction → ℕ → Option ℕ
  unfolding amount_to
  get_payment_amount_to tx dest = find_map (amount_to dest) tx.output

  -- The outputs from an index on, with a value above 0 and a payload.
  unfoldable pub indexed_from : ℕ → List TxOut → List (ℕ × ℕ)
  indexed_from idx [] = []
  indexed_from idx (x ∷ xs) =
      let rest = indexed_from (suc idx) xs in
      if ltb 0 x.value
      then elim (types.from_script x.script_pubkey) [
        | none ↦ rest
        | some payload ↦ (idx, payload) ∷ rest
      ]
      else rest

  unfoldable pub extract_indexed_output_addresses : Transaction → List (ℕ × ℕ)
  unfolding indexed_from
  extract_indexed_output_addresses tx = indexed_from 0 tx.output

  unfoldable pub extract_output_addresses : Transaction → List ℕ
  unfolding extract_indexed_output_addresses
  extract_output_addresses tx = map (λ (x : ℕ × ℕ). x.1) (extract_indexed_output_addresses tx)

  -- `create_transaction` of the light wallet: the outputs of a payment.
  unfoldable pub create_outputs : ℕ → ℕ → Option ℕ → List TxOut
  create_outputs recipient value none =
      record { value = value; script_pubkey = types.script_pubkey recipient } ∷ []
  create_outputs recipient value (some op_return) =
      record { value = value; script_pubkey = types.script_pubkey recipient }
      ∷ record { value = 0; script_pubkey = types.op_return_script (types.as_bytes op_return) }
      ∷ []

-- The error of bitcoin/src/error.rs that is raised here.
pub data Error : Type 0 where
  too_many_return_to_self_addresses : Error

unfoldable pub single : List (ℕ × ℕ) → Result Error (Option (ℕ × ℕ))
single [] = ok none
single (x ∷ []) = ok (some x)
single (x ∷ y ∷ rest) = err too_many_return_to_self_addresses

unfoldable pub extract_return_to_self_address :
    BitcoinTypes → Transaction → ℕ → Result Error (Option (ℕ × ℕ))
unfolding single extract_indexed_output_addresses
extract_return_to_self_address types tx destination =
    single
      (select (λ (x : ℕ × ℕ). not (x.1 == destination)) (extract_indexed_output_addresses types tx))
