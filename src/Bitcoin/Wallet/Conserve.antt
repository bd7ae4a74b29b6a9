-- ===== src/Bitcoin/Wallet/Conserve.antt =====
-- The amounts of a funded transaction: inputs, outputs and fee (bitcoin/src/light/wallet.rs).
use interbtc_clients_cli.Prelude.{
  ℕ, zero, suc, ◌+◌, ◌-◌, ◌≤◌, ◌<◌, ◌≡◌, refl, ap, ◌∙◌, sym, subst, true, false, ◌⊎◌, inl, inr,
  List, [], ◌∷◌, ◌++◌, Result, ok, err, ◌>>=◌, ltb, ltb→lt, Bool, if◌then◌else◌, length, AllPairs,
  length-append, arith,
}
use mathlib.Core.List.{append-nil}
use interbtc_clients_cli.Bitcoin.{TxOut}
use interbtc_clients_cli.Bitcoin.Wallet.{u64_mod, add64, sub64, get_fee}
use interbtc_clients_cli.Bitcoin.Wallet.Fund.{
  Error, PsbtInput, PartiallySignedTransaction, Target, Wallet, calculate_maximum_signed_tx_size,
  raise_last, settle, noinputs_size,
}
use interbtc_clients_cli.Bitcoin.Wallet.Coins.{sum, out_values, in_values, covered, InputFee}

-- The change output, if there is one.
abbrev pub change_outputs : List ℕ → ℕ → List TxOut
change_outputs script zero = []
change_outputs script (suc c) = record { value = suc c; script_pubkey = script } ∷ []

out_values-append :
    (xs ys : List TxOut) → sum (out_values (xs ++ ys)) ≡ sum (out_values xs) + sum (out_values ys)
out_values-append [] ys = omega arith
out_values-append (x ∷ xs) ys = omega (arith, out_values-append xs ys)

raise_last-snoc :
    (xs : List TxOut) (o : TxOut) (extra : ℕ)
    → raise_last (xs ++ o ∷ []) extra ≡ xs ++ record o { value = add64 o.value extra } ∷ []
unfolding raise_last
raise_last-snoc [] o extra = refl
raise_last-snoc (x ∷ []) o extra = refl
raise_last-snoc (x ∷ y ∷ xs) o extra = ap (λ r. x ∷ r) (raise_last-snoc (y ∷ xs) o extra)

module _ (wallet : Wallet) (change_script : List ℕ) (rate : ℕ) (outputs : List TxOut) where
  -- A funded transaction: the recipients' outputs, then the change, if any. The inputs hold exactly
  -- the outputs and a fee. The fee covers the one of a transaction without inputs, and for each input the fee for its largest signed size, or all of its amount if that is
  -- less; or it is the fee for the largest signed size of the whole transaction.
  pub record IsFunded (psbt : PartiallySignedTransaction) : Type 0 where
    pub change : ℕ
    pub fee : ℕ
    pub laid_out : psbt.outputs ≡ outputs ++ change_outputs change_script change
    pub conserved : sum (in_values psbt.inputs) ≡ sum (out_values psbt.outputs) + fee
    pub enough :
        ((fees : List ℕ) × AllPairs (InputFee wallet rate) psbt.inputs fees
          × (get_fee rate (noinputs_size wallet outputs) + covered (in_values psbt.inputs) fees
              ≤ fee))
        ⊎ ((sized : PartiallySignedTransaction) × (size : ℕ) × (sized.inputs ≡ psbt.inputs)
            × (length sized.outputs ≡ length psbt.outputs)
            × (calculate_maximum_signed_tx_size wallet sized ≡ ok size)
            × (fee ≡ get_fee rate size))

module _ (wallet : Wallet) (t : Target) (outputs : List TxOut) where
  -- What is to be shown, with the script and the rate of the target.
  abbrev Funds : PartiallySignedTransaction → Type 0
  Funds = IsFunded wallet t.change_script t.n_satoshis_per_k outputs

  abbrev with_outputs : List PsbtInput → List TxOut → PartiallySignedTransaction
  with_outputs is extra = record { inputs = is; outputs = outputs ++ extra }

  module _ (is : List PsbtInput) (effective : ℕ) (fits : sum (in_values is) < u64_mod)
      (exact : t.recipients_sum ≡ sum (out_values outputs))
      (base : t.selection_target
        ≡ t.recipients_sum + get_fee t.n_satoshis_per_k (noinputs_size wallet outputs))
      (reached : t.selection_target ≤ effective) (fees : List ℕ)
      (priced : AllPairs (InputFee wallet t.n_satoshis_per_k) is fees)
      (whole : effective + covered (in_values is) fees ≡ sum (in_values is)) where
    nothing-IsFunded : Funds (record { inputs = is; outputs = outputs })
    nothing-IsFunded = record {
      change = 0;
      fee = sum (in_values is) - t.recipients_sum;
      laid_out = sym (append-nil outputs);
      conserved = omega arith;
      enough = inl (fees, priced, omega arith);
    }

    pub settle_nothing :
        (psbt : PartiallySignedTransaction)
        → settle wallet t (sum (in_values is)) 0 (record { inputs = is; outputs = outputs })
          ≡ ok psbt
        → Funds psbt
    unfolding settle
    settle_nothing psbt h =
        go (calculate_maximum_signed_tx_size wallet (record { inputs = is; outputs = outputs })) h
      where
        go :
            (r : Result Error ℕ)
            → (r >>= λ _. ok (record { inputs = is; outputs = outputs })) ≡ ok psbt
            → Funds psbt
        go (ok n) e = subst Funds (cc) nothing-IsFunded
        go (err x) e = cc

    module _ (c : ℕ) (left : t.selection_target + suc c ≤ effective) where
      abbrev with_change : PartiallySignedTransaction
      with_change = with_outputs is (record { value = suc c; script_pubkey = t.change_script } ∷ [])

      abbrev n_fee_ret : ℕ
      n_fee_ret = sub64 (sub64 (sum (in_values is)) t.recipients_sum) (suc c)

      n_fee_ret_lem : n_fee_ret + suc c + t.recipients_sum ≡ sum (in_values is)
      n_fee_ret_lem = omega arith

      kept-IsFunded : Funds with_change
      kept-IsFunded = record {
        change = suc c;
        fee = n_fee_ret;
        laid_out = refl;
        conserved = omega (
          arith,
          n_fee_ret_lem,
          out_values-append outputs (change_outputs t.change_script (suc c)),
        );
        enough = inl (fees, priced, omega (arith, n_fee_ret_lem));
      }

      raised-IsFunded :
          (n : ℕ)
          → calculate_maximum_signed_tx_size wallet with_change ≡ ok n
          → get_fee t.n_satoshis_per_k n < n_fee_ret
          → Funds (record with_change {
            outputs = raise_last with_change.outputs (n_fee_ret - get_fee t.n_satoshis_per_k n);
          })
      raised-IsFunded n size less =
          let needed : ℕ = get_fee t.n_satoshis_per_k n in
          let more : ℕ = c + (n_fee_ret - needed) in
          let value : add64 (suc c) (n_fee_ret - needed) ≡ suc more =
            omega (arith, n_fee_ret_lem) in
          let raised : raise_last with_change.outputs (n_fee_ret - needed)
              ≡ outputs ++ change_outputs t.change_script (suc more) =
            raise_last-snoc outputs _ (n_fee_ret - needed)
            ∙ ap (λ v. outputs ++ record { value = v; script_pubkey = t.change_script } ∷ [])
                value in
          rw raised (record {
            change = suc more;
            fee = needed;
            laid_out = refl;
            conserved = omega (
              arith,
              n_fee_ret_lem,
              out_values-append outputs (change_outputs t.change_script (suc more)),
            );
            enough = inr (
              with_change,
              n,
              refl,
              length-append outputs _ ∙ sym (length-append outputs _),
              size,
              refl,
            );
          })

      pub settle_change :
          (psbt : PartiallySignedTransaction)
          → settle wallet t (sum (in_values is)) (suc c) (record { inputs = is; outputs = outputs })
            ≡ ok psbt
          → Funds psbt
      unfolding settle
      settle_change psbt h = go (calculate_maximum_signed_tx_size wallet with_change) refl h
        where
          pick :
              (n : ℕ) (b : Bool)
              → calculate_maximum_signed_tx_size wallet with_change ≡ ok n
              → ltb (get_fee t.n_satoshis_per_k n) n_fee_ret ≡ b
              → (let result : Result Error PartiallySignedTransaction = ok (
                    if b
                    then record with_change {
                      outputs =
                          raise_last with_change.outputs (n_fee_ret - get_fee t.n_satoshis_per_k n);
                    }
                    else with_change) in
                  result ≡ ok psbt)
              → Funds psbt
          pick n true size less e = subst Funds (cc) (raised-IsFunded n size (ltb→lt _ _ less))
          pick n false size less e = subst Funds (cc) kept-IsFunded

          go :
              (r : Result Error ℕ)
              → calculate_maximum_signed_tx_size wallet with_change ≡ r
              → (r >>= λ n. ok (
                  if ltb (get_fee t.n_satoshis_per_k n) n_fee_ret
                  then record with_change {
                    outputs =
                        raise_last with_change.outputs (n_fee_ret - get_fee t.n_satoshis_per_k n);
                  }
                  else with_change))
                ≡ ok psbt
              → Funds psbt
          go (ok n) size e = pick n (ltb (get_fee t.n_satoshis_per_k n) n_fee_ret) size refl e
          go (err x) size e = cc
