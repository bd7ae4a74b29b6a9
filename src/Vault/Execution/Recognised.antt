-- ===== src/Vault/Execution/Recognised.antt =====
-- The vault's own payments in the scan (vault/src/execution.rs): what the light wallet creates and
-- funds for a request (bitcoin/src/light/wallet.rs).
use interbtc_clients_cli.Prelude.{
  ℕ, ◌%◌, ◌<◌, ◌≡◌, refl, ap, ◌∙◌, true, false, Option, none, some, List, ◌∷◌, ◌++◌, ok, leb, ◌==◌,
  length, take, find_map, arith,
}
use mathlib.Core.Option
use interbtc_clients_cli.Bitcoin.{TxOut, Transaction}
use interbtc_clients_cli.Bitcoin.TransactionExt.{
  BitcoinTypes, skip_two, starts_op_return, op_return_bytes, get_op_return_bytes, get_op_return,
  amount_to, get_payment_amount_to, create_outputs,
}
use interbtc_clients_cli.Bitcoin.Wallet.{u64_mod}
use interbtc_clients_cli.Bitcoin.Wallet.Fund.{
  Wallet, PartiallySignedTransaction, fund_transaction, target_for,
}
use interbtc_clients_cli.Bitcoin.Wallet.Coins.{sum, in_values}
use interbtc_clients_cli.Bitcoin.Wallet.Conserve.{IsFunded, change_outputs}
use interbtc_clients_cli.Bitcoin.Wallet.Funded.{needed, fund_transaction-IsFunded}
use interbtc_clients_cli.Vault.Deadline.{Request}
use interbtc_clients_cli.Vault.Execution.{pays_amount}
use interbtc_clients_cli.Vault.Execution.Payments.{pays_enough, is_payment, pays_enough_lem}

-- What the libraries document: a hash has 32 bytes and is read back from them; the script for them
-- is OP_RETURN, their number, and the bytes.
pub record Lawful (types : BitcoinTypes) : Type 0 where
  pub sized : (h : ℕ) → length (types.as_bytes h) ≡ 32
  pub read_back : (h : ℕ) → types.from_slice (types.as_bytes h) ≡ h
  pub pushed :
      (bytes : List ℕ) → length bytes ≡ 32 → types.op_return_script bytes ≡ 0x6a ∷ 32 ∷ bytes

first_found :
    (f : TxOut → Option ℕ) (x : TxOut) (rest : List TxOut) (z : ℕ)
    → f x ≡ some z
    → find_map f (x ∷ rest) ≡ some z
first_found f x rest z e = rw (e, find_map) refl

second_found :
    (f : TxOut → Option (List ℕ)) (x y : TxOut) (rest : List TxOut) (z : List ℕ)
    → f x ≡ none
    → f y ≡ some z
    → find_map f (take 3 (x ∷ y ∷ rest)) ≡ some z
second_found f x y rest z e e' = rw (e, e') refl

module _ (types : BitcoinTypes) (lawful : Lawful types) where
  -- The two outputs of a payment.
  abbrev payment : ℕ → ℕ → TxOut
  payment address value = record { value = value; script_pubkey = types.script_pubkey address }

  abbrev carrier : ℕ → TxOut
  carrier h = record { value = 0; script_pubkey = types.op_return_script (types.as_bytes h) }

  not_op_return : (o : TxOut) → starts_op_return o.script_pubkey ≡ false → op_return_bytes o ≡ none
  unfolding op_return_bytes
  not_op_return o e = ground (arith, e)

  op_return-bytes :
      (h value : ℕ)
      → op_return_bytes
          (record { value = value; script_pubkey = types.op_return_script (types.as_bytes h) })
        ≡ some (0x6a ∷ 32 ∷ types.as_bytes h)
  unfolding op_return_bytes
  op_return-bytes h value =
      let sized : length (types.as_bytes h) ≡ 32 = lawful.sized h in
      let pushed : types.op_return_script (types.as_bytes h) ≡ 0x6a ∷ 32 ∷ types.as_bytes h =
        lawful.pushed (types.as_bytes h) sized in
      rw (pushed, sized) refl

  -- Whatever outputs follow, the hash is read from the second one.
  get_op_return-created :
      (address value h txid : ℕ) (more : List TxOut)
      → starts_op_return (types.script_pubkey address) ≡ false
      → get_op_return types
          (record { txid = txid; output = create_outputs types address value (some h) ++ more })
        ≡ some h
  unfolding get_op_return get_op_return_bytes create_outputs
  get_op_return-created address value h txid more plain =
      let bytes : List ℕ = 0x6a ∷ 32 ∷ types.as_bytes h in
      let found : get_op_return_bytes
            (record { txid = txid; output = create_outputs types address value (some h) ++ more })
          ≡ some bytes =
        second_found op_return_bytes (payment address value) (carrier h) more bytes
          (not_op_return (payment address value) plain) (op_return-bytes h 0) in
      ap (λ o. Option.map (λ x. types.from_slice (skip_two x)) o) found
      ∙ ap some (lawful.read_back h)

  amount_to-payment :
      (address value payload : ℕ)
      → types.from_script (types.script_pubkey address) ≡ some payload
      → amount_to types payload (payment address value) ≡ some value
  unfolding amount_to
  amount_to-payment address value payload e =
      let same : (payload == payload) ≡ true = ground arith in rw (e, same, amount_to) refl

  get_payment_amount_to-created :
      (address value h txid payload : ℕ) (more : List TxOut)
      → types.from_script (types.script_pubkey address) ≡ some payload
      → get_payment_amount_to types
          (record { txid = txid; output = create_outputs types address value (some h) ++ more })
          payload
        ≡ some value
  unfolding get_payment_amount_to create_outputs
  get_payment_amount_to-created address value h txid payload more e =
      first_found (amount_to types payload) (payment address value) (carrier h ∷ more) value
        (amount_to-payment address value payload e)

  is_payment_intro :
      (to_payload : ℕ → Option ℕ) (r : Request) (tx : Transaction) (payload value : ℕ)
      → get_op_return types tx ≡ some r.hash
      → to_payload r.btc_address ≡ some payload
      → get_payment_amount_to types tx payload ≡ some value
      → value ≡ r.amount
      → is_payment types to_payload r tx ≡ true
  unfolding is_payment pays_amount
  is_payment_intro to_payload r tx payload value hash known amount whole =
      let same : (r.hash == r.hash) ≡ true = ground arith in
      let enough : leb r.amount value ≡ true = ground arith in
      let paid : pays_amount types to_payload tx r ≡ true =
        rw (known, amount, enough, pays_amount) refl in
      let counted : pays_enough types to_payload r tx ≡ true =
        pays_enough_lem types to_payload r tx ∙ paid in
      rw (hash, same, counted, is_payment) refl

  -- A transaction with the outputs of a payment, and others after them, is a payment for the request.
  created-is_payment :
      (to_payload : ℕ → Option ℕ) (r : Request) (address value txid payload : ℕ) (more : List TxOut)
      → value ≡ r.amount
      → to_payload r.btc_address ≡ some payload
      → types.from_script (types.script_pubkey address) ≡ some payload
      → starts_op_return (types.script_pubkey address) ≡ false
      → is_payment types to_payload r (record {
        txid = txid;
        output = create_outputs types address value (some r.hash) ++ more;
      })
        ≡ true
  created-is_payment to_payload r address value txid payload more whole known paid plain =
      is_payment_intro to_payload r _ payload value
        (get_op_return-created address value r.hash txid more plain) known
        (get_payment_amount_to-created address value r.hash txid payload more paid) whole

-- A payment that the light wallet funds for a request is recognised: where the amount of the request, the
-- recipients' amounts with the fee for them, and those of the chosen inputs stay below 2^64, and the address of the request has a payload and
-- its script is no OP_RETURN, a transaction with the outputs that `fund_transaction` returns for the
-- outputs of `create_transaction` is a payment for the request, whatever change was added. So the
-- scan finds it, and the request is not paid a second time.
pub fund_transaction-is_payment :
    (types : BitcoinTypes) (to_payload : ℕ → Option ℕ) (wallet : Wallet) (r : Request)
    (address payload txid rate : ℕ) (change_script : List ℕ) (psbt : PartiallySignedTransaction)
    → Lawful types
    → r.amount < u64_mod
    → to_payload r.btc_address ≡ some payload
    → types.from_script (types.script_pubkey address) ≡ some payload
    → starts_op_return (types.script_pubkey address) ≡ false
    → needed wallet (create_outputs types address (r.amount % u64_mod) (some r.hash)) rate < u64_mod
    → fund_transaction wallet
        (create_outputs types address (r.amount % u64_mod) (some r.hash))
        change_script
        rate
      ≡ ok psbt
    → sum (in_values psbt.inputs) < u64_mod
    → is_payment types to_payload r (record { txid = txid; output = psbt.outputs }) ≡ true
unfolding target_for
fund_transaction-is_payment types to_payload wallet r address payload txid rate change_script psbt
      lawful narrow known paid plain bounded funded fits =
    let outputs : List TxOut = create_outputs types address (r.amount % u64_mod) (some r.hash) in
    let good : IsFunded wallet change_script rate outputs psbt =
      fund_transaction-IsFunded wallet outputs change_script rate psbt bounded funded fits in
    ap (λ o. is_payment types to_payload r (record { txid = txid; output = o })) good.laid_out
    ∙ created-is_payment types lawful to_payload r address (r.amount % u64_mod) txid payload
        (change_outputs change_script good.change) (omega (arith, narrow)) known paid plain
