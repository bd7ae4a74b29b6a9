-- ===== src/Bitcoin/Wallet/Fund.antt =====
-- `fund_transaction` of the light wallet (bitcoin/src/light/wallet.rs).
use interbtc_clients_cli.Prelude.{
  ℕ, zero, suc, ◌+◌, ◌-◌, List, [], ◌∷◌, ◌++◌, map, Result, ok, err, ◌>>=◌, ltb, ◌==◌,
  if◌then◌else◌, length, map_result,
}
use interbtc_clients_cli.Prelude.Words.{saturating_sub}
use interbtc_clients_cli.Bitcoin.{TxOut}
use interbtc_clients_cli.Bitcoin.Wallet.{
  add64, sub64, sum64, TxIn, dummy_sign_input, txout_serialize_size, get_virtual_transaction_size,
  calculate_maximum_signed_input_size, get_fee, CoinOutput, get_effective_value, SelectCoins,
  add_coin, get_selected_value, get_change,
}

-- The errors of bitcoin/src/light/error.rs that funding raises or passes on, and the panic of an
-- `expect`.
pub data Error : Type 0 where
  not_enough_inputs electrs_error no_private_key panicked : Error

pub record Utxo : Type 0 where
  pub outpoint : ℕ
  pub value : ℕ

-- What the wallet asks of the electrs server, its keys, and of the library of Bitcoin types: the
-- addresses of the key store in order, the bytes of the public key for a script, the length of a
-- variable integer, and the weight of a transaction with the given inputs and outputs.
pub record Wallet : Type 0 where
  pub addresses : List ℕ
  pub get_utxos_for_address : ℕ → Result Error (List Utxo)
  pub get_script_pubkey : ℕ → Result Error (List ℕ)
  pub get_pub_key : List ℕ → Result Error (List ℕ)
  pub varint_len : ℕ → ℕ
  pub weight : List TxIn → List TxOut → ℕ

-- A transaction under construction: its inputs, each with the output that it spends, and outputs.
pub record PsbtInput : Type 0 where
  pub txin : TxIn
  pub witness_utxo : TxOut

pub record PartiallySignedTransaction : Type 0 where
  pub inputs : List PsbtInput
  pub outputs : List TxOut

-- `expect`
abbrev pub expect : Result Error (List ℕ) → Result Error (List ℕ)
expect (ok key) = ok key
expect (err e) = err panicked

abbrev pub unsigned : ℕ → TxIn
unsigned outpoint = record { previous_output = outpoint; script_sig = []; witness = [] }

-- What is fixed while the coins are selected.
pub record Target : Type 0 where
  pub n_satoshis_per_k : ℕ
  pub recipients_sum : ℕ
  pub change_script : List ℕ
  pub change_fee : ℕ
  pub selection_target : ℕ

pub record Selection : Type 0 where
  pub value_to_select : ℕ
  pub select_coins : SelectCoins
  pub psbt : PartiallySignedTransaction

-- How a round of the loops ends: they go on with a selection, or return a transaction.
pub data Flow : Type 0 where
  continue : Selection → Flow
  return : PartiallySignedTransaction → Flow

-- `change_output.value += extra`, for the change output that stands last.
unfoldable pub raise_last : List TxOut → ℕ → List TxOut
raise_last [] extra = []
raise_last (o ∷ []) extra = record o { value = add64 o.value extra } ∷ []
raise_last (o ∷ p ∷ rest) extra = o ∷ raise_last (p ∷ rest) extra

-- The selection with one more coin, and the output that it is.
unfoldable pub select_utxo : Selection → Utxo → List ℕ → CoinOutput → Selection
select_utxo s utxo script_pubkey coin = record {
  value_to_select = saturating_sub s.value_to_select (get_effective_value coin);
  select_coins = add_coin s.select_coins coin;
  psbt = record {
    inputs =
        s.psbt.inputs
        ++ record {
          txin = unsigned utxo.outpoint;
          witness_utxo = record { value = utxo.value; script_pubkey = script_pubkey };
        }
          ∷ [];
    outputs = s.psbt.outputs;
  };
}

module _ (wallet : Wallet) where
  unfoldable pub sign_dummy : PsbtInput → Result Error TxIn
  sign_dummy i = do
    public_key ← expect (wallet.get_pub_key i.witness_utxo.script_pubkey)
    ok (dummy_sign_input i.txin public_key)

  unfoldable pub calculate_maximum_signed_tx_size : PartiallySignedTransaction → Result Error ℕ
  unfolding sign_dummy
  calculate_maximum_signed_tx_size psbt = do
    inputs ← map_result sign_dummy psbt.inputs
    ok (get_virtual_transaction_size (wallet.weight inputs psbt.outputs))

  -- What is done once enough coins are selected, by the amount of the change.
  unfoldable pub settle :
      Target → ℕ → ℕ → PartiallySignedTransaction → Result Error PartiallySignedTransaction
  settle t selected_value zero psbt = do _ ← calculate_maximum_signed_tx_size psbt; ok psbt
  settle t selected_value (suc c) psbt =
      let with_change : PartiallySignedTransaction = record psbt {
        outputs = psbt.outputs ++ record { value = suc c; script_pubkey = t.change_script } ∷ [];
      } in
      do
        n_bytes ← calculate_maximum_signed_tx_size with_change
        let fee_needed = get_fee t.n_satoshis_per_k n_bytes
        let n_fee_ret = sub64 (sub64 selected_value t.recipients_sum) (suc c)
        ok (
            if ltb fee_needed n_fee_ret
            then record with_change {
              outputs = raise_last with_change.outputs (n_fee_ret - fee_needed);
            }
            else with_change)

  unfoldable pub finish : Target → Selection → Result Error PartiallySignedTransaction
  unfolding settle
  finish t s =
      settle t (get_selected_value s.select_coins) (get_change s.select_coins 0 t.change_fee) s.psbt

  -- The coin of an output.
  unfoldable pub coin_of : Target → Utxo → List ℕ → CoinOutput
  coin_of t utxo public_key = record {
    value = utxo.value;
    fee =
        get_fee t.n_satoshis_per_k
          (calculate_maximum_signed_input_size wallet.varint_len utxo.outpoint public_key);
  }

  -- The body of the inner loop up to the test.
  unfoldable pub take_utxo : Target → Selection → Utxo → Result Error Selection
  unfolding coin_of select_utxo
  take_utxo t s utxo = do
    script_pubkey ← wallet.get_script_pubkey utxo.outpoint
    public_key ← expect (wallet.get_pub_key script_pubkey)
    ok (select_utxo s utxo script_pubkey (coin_of t utxo public_key))

  -- The test at the end of the body: the loops return once nothing is left to select.
  unfoldable pub check_selected : Target → Selection → Result Error Flow
  unfolding finish
  check_selected t s =
      if s.value_to_select == 0 then (finish t s >>= λ psbt. ok (return psbt)) else ok (continue s)

  unfoldable pub add_utxo : Target → Selection → Utxo → Result Error Flow
  unfolding take_utxo check_selected
  add_utxo t s utxo = do s' ← take_utxo t s utxo; check_selected t s'

  -- The loop over the outputs of one address.
  unfoldable pub select_utxos : Target → List Utxo → Selection → Result Error Flow
  select_utxos t [] s = ok (continue s)
  select_utxos t (utxo ∷ utxos) s = elim (add_utxo t s utxo) [
    | err e ↦ err e
    | ok (return psbt) ↦ ok (return psbt)
    | ok (continue s') ↦ select_utxos t utxos s'
  ]

  -- The loop over the addresses.
  unfoldable pub select_addresses :
      Target → List ℕ → Selection → Result Error PartiallySignedTransaction
  select_addresses t [] s = err not_enough_inputs
  select_addresses t (address ∷ addresses) s =
      elim (wallet.get_utxos_for_address address >>= λ utxos. select_utxos t utxos s) [
        | err e ↦ err e
        | ok (return psbt) ↦ ok psbt
        | ok (continue s') ↦ select_addresses t addresses s'
      ]

  -- The size of a transaction with the outputs and no inputs.
  unfoldable pub noinputs_size : List TxOut → ℕ
  noinputs_size outputs =
      10
      + wallet.varint_len (length outputs)
      + sum64 (map (txout_serialize_size wallet.varint_len) outputs)

  -- The target for the outputs, the script of the change address and the fee rate.
  unfoldable pub target_for : List TxOut → List ℕ → ℕ → Target
  unfolding noinputs_size
  target_for outputs change_script n_satoshis_per_k = record {
    n_satoshis_per_k = n_satoshis_per_k;
    recipients_sum = sum64 (map (λ (o : TxOut). o.value) outputs);
    change_script = change_script;
    change_fee = get_fee n_satoshis_per_k (
        txout_serialize_size wallet.varint_len
          (record { value = 0; script_pubkey = change_script }));
    selection_target =
        add64 (sum64 (map (λ (o : TxOut). o.value) outputs))
          (get_fee n_satoshis_per_k (noinputs_size outputs));
  }

  abbrev pub start_selection : Target → List TxOut → Selection
  start_selection t outputs = record {
    value_to_select = t.selection_target;
    select_coins = record { preset_inputs = []; target_value = t.selection_target };
    psbt = record { inputs = []; outputs = outputs };
  }

  -- The transaction is given by its outputs, as it has no inputs yet.
  unfoldable pub fund_transaction :
      List TxOut → List ℕ → ℕ → Result Error PartiallySignedTransaction
  unfolding select_addresses target_for
  fund_transaction outputs change_script n_satoshis_per_k =
      let t = target_for outputs change_script n_satoshis_per_k in
      select_addresses t wallet.addresses (start_selection t outputs)
