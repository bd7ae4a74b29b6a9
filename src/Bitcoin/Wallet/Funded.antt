-- ===== src/Bitcoin/Wallet/Funded.antt =====
-- The loops of `fund_transaction` (bitcoin/src/light/wallet.rs), and the transactions they return.
use interbtc_clients_cli.Prelude.{
  ℕ, zero, suc, ◌+◌, ◌≤◌, ◌<◌, ◌≡◌, refl, ap, ap₂, ◌∙◌, sym, subst, true, false, List, [], ◌∷◌,
  Result, ok, err, ◌>>=◌, ◌==◌, ==_iff, Bool, if◌then◌else◌, arith, AllPairs,
}
use interbtc_clients_cli.Bitcoin.{TxOut}
use interbtc_clients_cli.Bitcoin.Wallet.{
  u64_mod, get_fee, CoinOutput, SelectCoins, get_selected_value, get_selected_effective_value,
  get_change,
}
use interbtc_clients_cli.Bitcoin.Wallet.Fund.{
  Error, Utxo, PsbtInput, PartiallySignedTransaction, Target, Selection, Wallet, settle, finish,
  coin_of, select_utxo, take_utxo, Flow, continue, return, check_selected, add_utxo, select_utxos,
  select_addresses, noinputs_size, target_for, start_selection, fund_transaction, expect,
}
use interbtc_clients_cli.Bitcoin.Wallet.Coins.{
  sum, sum64-eq-sum, out_values, in_values, coin_values, effective_values, coin_fees, covered,
  effective-covered, InputFee, Tracks, select_utxo-Tracks,
}
use interbtc_clients_cli.Bitcoin.Wallet.Conserve.{IsFunded, settle_nothing, settle_change}

expect-ok : (r : Result Error (List ℕ)) (key : List ℕ) → expect r ≡ ok key → r ≡ ok key
expect-ok (ok k) key h = h
expect-ok (err e) key h = cc

-- Before the change is settled the inputs are complete.
settle-inputs :
    (wallet : Wallet) (t : Target) (selected change : ℕ) (psbt psbt' : PartiallySignedTransaction)
    → settle wallet t selected change psbt ≡ ok psbt'
    → psbt'.inputs ≡ psbt.inputs
unfolding settle
settle-inputs wallet t selected zero psbt psbt' h = ground arith
settle-inputs wallet t selected (suc c) psbt psbt' h = ground arith

module _ (wallet : Wallet) (t : Target) (outputs : List TxOut)
    (exact : t.recipients_sum ≡ sum (out_values outputs))
    (base : t.selection_target
      ≡ t.recipients_sum + get_fee t.n_satoshis_per_k (noinputs_size wallet outputs)) where
  -- The amounts of the inputs do not overflow u64.
  abbrev Good : PartiallySignedTransaction → Type 0
  Good psbt =
      sum (in_values psbt.inputs) < u64_mod
      → IsFunded wallet t.change_script t.n_satoshis_per_k outputs psbt

  settled-IsFunded :
      (is : List PsbtInput) (effective c : ℕ) (fees : List ℕ) (psbt : PartiallySignedTransaction)
      → sum (in_values is) < u64_mod
      → t.selection_target ≤ effective
      → AllPairs (InputFee wallet t.n_satoshis_per_k) is fees
      → effective + covered (in_values is) fees ≡ sum (in_values is)
      → t.selection_target + c ≤ effective
      → settle wallet t (sum (in_values is)) c (record { inputs = is; outputs = outputs }) ≡ ok psbt
      → IsFunded wallet t.change_script t.n_satoshis_per_k outputs psbt
  settled-IsFunded is effective zero fees psbt fits reached priced whole left h =
      settle_nothing wallet t outputs is effective fits exact base reached fees priced whole psbt h
  settled-IsFunded is effective (suc c) fees psbt fits reached priced whole left h =
      settle_change wallet t outputs is effective fits exact base reached fees priced whole c left
        psbt h

  change-le :
      (s : SelectCoins) (fee : ℕ)
      → s.target_value ≤ get_selected_effective_value s
      → s.target_value + get_change s 0 fee ≤ get_selected_effective_value s
  unfolding get_change
  change-le s fee h = ground arith

  finish-Good :
      (s : Selection) (psbt : PartiallySignedTransaction)
      → Tracks wallet t outputs s
      → s.value_to_select ≡ 0
      → finish wallet t s ≡ ok psbt
      → Good psbt
  unfolding finish get_selected_value get_selected_effective_value
  finish-Good s psbt tracks enough h fits =
      let is : List PsbtInput = s.psbt.inputs in
      let coins : List CoinOutput = s.select_coins.preset_inputs in
      let same : psbt.inputs ≡ is = settle-inputs wallet t _ _ s.psbt psbt h in
      let fits_is : sum (in_values is) < u64_mod = rw (sym same) fits in
      let values : sum (coin_values coins) ≡ sum (in_values is) = ap sum tracks.same_values in
      let fees : List ℕ = coin_fees coins in
      let whole : sum (effective_values coins) + covered (in_values is) fees ≡ sum (in_values is) =
        subst (λ vs. sum (effective_values coins) + covered vs fees ≡ sum vs) tracks.same_values
          (effective-covered coins) in
      let selected : get_selected_value s.select_coins ≡ sum (in_values is) =
        sum64-eq-sum (coin_values coins) (omega (arith, values, fits_is)) ∙ values in
      let effective : get_selected_effective_value s.select_coins ≡ sum (effective_values coins) =
        sum64-eq-sum (effective_values coins) (omega (arith, whole, fits_is)) in
      let reached : t.selection_target ≤ sum (effective_values coins) =
        omega (arith, tracks.remaining, enough) in
      let c : ℕ = get_change s.select_coins 0 t.change_fee in
      let left : t.selection_target + c ≤ sum (effective_values coins) = omega (
        arith,
        effective,
        reached,
        tracks.same_target,
        change-le s.select_coins t.change_fee
            (omega (arith, effective, reached, tracks.same_target)),
      ) in
      let shape : s.psbt ≡ record { inputs = is; outputs = outputs } =
        ap (λ o. record { inputs = is; outputs = o }) tracks.same_outputs in
      let run : settle wallet t (sum (in_values is)) c (record { inputs = is; outputs = outputs })
          ≡ ok psbt =
        sym (ap₂ (λ v p. settle wallet t v c p) selected shape) ∙ h in
      settled-IsFunded is _ c fees psbt fits_is reached tracks.priced whole left run

  take_utxo-Tracks :
      (s s' : Selection) (utxo : Utxo)
      → Tracks wallet t outputs s
      → take_utxo wallet t s utxo ≡ ok s'
      → Tracks wallet t outputs s'
  unfolding take_utxo coin_of
  take_utxo-Tracks s s' utxo tracks h = outer (wallet.get_script_pubkey utxo.outpoint) h
    where
      inner :
          (script : List ℕ) (r : Result Error (List ℕ))
          → expect (wallet.get_pub_key script) ≡ r
          → (r >>= λ key. ok (select_utxo s utxo script (coin_of wallet t utxo key))) ≡ ok s'
          → Tracks wallet t outputs s'
      inner script (ok key) known k = subst (Tracks wallet t outputs) (cc) (
          select_utxo-Tracks wallet t outputs s utxo script (coin_of wallet t utxo key) refl
            (key, expect-ok (wallet.get_pub_key script) key known, refl) tracks)
      inner script (err x) known k = cc

      outer :
          (r : Result Error (List ℕ))
          → (r >>= λ script.
              (expect (wallet.get_pub_key script) >>= λ key.
              ok (select_utxo s utxo script (coin_of wallet t utxo key))))
            ≡ ok s'
          → Tracks wallet t outputs s'
      outer (ok script) k = inner script (expect (wallet.get_pub_key script)) refl k
      outer (err x) k = cc

  abbrev FlowGood : Flow → Type 0
  FlowGood (continue s) = Tracks wallet t outputs s
  FlowGood (return psbt) = Good psbt

  check_selected-FlowGood :
      (s : Selection) (f : Flow)
      → Tracks wallet t outputs s
      → check_selected wallet t s ≡ ok f
      → FlowGood f
  unfolding check_selected
  check_selected-FlowGood s f tracks h = pick (s.value_to_select == 0) refl h
    where
      done :
          (r : Result Error PartiallySignedTransaction)
          → finish wallet t s ≡ r
          → s.value_to_select ≡ 0
          → (r >>= λ psbt. ok (return psbt)) ≡ ok f
          → FlowGood f
      done (ok psbt) e enough k =
          subst FlowGood {x = return psbt} {y = f} (cc) (finish-Good s psbt tracks enough e)
      done (err x) e enough k = cc

      pick :
          (b : Bool)
          → (s.value_to_select == 0) ≡ b
          → (if b then (finish wallet t s >>= λ psbt. ok (return psbt)) else ok (continue s)) ≡ ok f
          → FlowGood f
      pick true e k = done (finish wallet t s) refl ((==_iff s.value_to_select 0).0 e) k
      pick false e k = subst FlowGood {x = continue s} {y = f} (cc) tracks

  add_utxo-FlowGood :
      (s : Selection) (utxo : Utxo) (f : Flow)
      → Tracks wallet t outputs s
      → add_utxo wallet t s utxo ≡ ok f
      → FlowGood f
  unfolding add_utxo
  add_utxo-FlowGood s utxo f tracks h = go (take_utxo wallet t s utxo) refl h
    where
      go :
          (r : Result Error Selection)
          → take_utxo wallet t s utxo ≡ r
          → (r >>= λ s'. check_selected wallet t s') ≡ ok f
          → FlowGood f
      go (ok s') e k = check_selected-FlowGood s' f (take_utxo-Tracks s s' utxo tracks e) k
      go (err x) e k = cc

  select_utxos-FlowGood :
      (utxos : List Utxo) (s : Selection) (f : Flow)
      → Tracks wallet t outputs s
      → select_utxos wallet t utxos s ≡ ok f
      → FlowGood f
  unfolding select_utxos
  select_utxos-FlowGood [] s f tracks h = subst FlowGood {x = continue s} {y = f} (cc) tracks
  select_utxos-FlowGood (utxo ∷ utxos) s f tracks h =
      go (add_utxo wallet t s utxo) refl (λ s'. select_utxos-FlowGood utxos s' f) h
    where
      go :
          (r : Result Error Flow)
          → add_utxo wallet t s utxo ≡ r
          → ((s' : Selection)
              → Tracks wallet t outputs s'
              → select_utxos wallet t utxos s' ≡ ok f
              → FlowGood f)
          → elim r [
            | err e ↦ err e
            | ok (return psbt) ↦ ok (return psbt)
            | ok (continue s') ↦ select_utxos wallet t utxos s'
          ]
            ≡ ok f
          → FlowGood f
      go (err x) e later k = cc
      go (ok (return psbt)) e later k =
          subst FlowGood {x = return psbt} {y = f} (cc)
            (add_utxo-FlowGood s utxo (return psbt) tracks e)
      go (ok (continue s')) e later k = later s' (add_utxo-FlowGood s utxo (continue s') tracks e) k

  select_addresses-Good :
      (addresses : List ℕ) (s : Selection) (psbt : PartiallySignedTransaction)
      → Tracks wallet t outputs s
      → select_addresses wallet t addresses s ≡ ok psbt
      → Good psbt
  unfolding select_addresses
  select_addresses-Good [] s psbt tracks h = cc
  select_addresses-Good (address ∷ addresses) s psbt tracks h =
      outer (wallet.get_utxos_for_address address) (λ s'. select_addresses-Good addresses s' psbt) h
    where
      rest : Result Error Flow → Result Error PartiallySignedTransaction
      rest (err e) = err e
      rest (ok (return found)) = ok found
      rest (ok (continue s')) = select_addresses wallet t addresses s'

      inner :
          (utxos : List Utxo) (r : Result Error Flow)
          → select_utxos wallet t utxos s ≡ r
          → ((s' : Selection)
              → Tracks wallet t outputs s'
              → select_addresses wallet t addresses s' ≡ ok psbt
              → Good psbt)
          → rest r ≡ ok psbt
          → Good psbt
      inner utxos (err x) e later k = cc
      inner utxos (ok (return found)) e later k =
          subst Good {x = found} {y = psbt} (cc)
            (select_utxos-FlowGood utxos s (return found) tracks e)
      inner utxos (ok (continue s')) e later k =
          later s' (select_utxos-FlowGood utxos s (continue s') tracks e) k

      outer :
          (r : Result Error (List Utxo))
          → ((s' : Selection)
              → Tracks wallet t outputs s'
              → select_addresses wallet t addresses s' ≡ ok psbt
              → Good psbt)
          → rest (r >>= λ utxos. select_utxos wallet t utxos s) ≡ ok psbt
          → Good psbt
      outer (ok utxos) later k = inner utxos (select_utxos wallet t utxos s) refl later k
      outer (err x) later k = cc

-- The recipients' amounts and the fee of a transaction without inputs.
abbrev pub needed : Wallet → List TxOut → ℕ → ℕ
needed wallet outputs rate = sum (out_values outputs) + get_fee rate (noinputs_size wallet outputs)

pub fund_transaction-IsFunded :
    (wallet : Wallet) (outputs : List TxOut) (change_script : List ℕ) (rate : ℕ)
    (psbt : PartiallySignedTransaction)
    → needed wallet outputs rate < u64_mod
    → fund_transaction wallet outputs change_script rate ≡ ok psbt
    → sum (in_values psbt.inputs) < u64_mod
    → IsFunded wallet change_script rate outputs psbt
unfolding fund_transaction target_for
fund_transaction-IsFunded wallet outputs change_script rate psbt bounded h fits =
    let t : Target = target_for wallet outputs change_script rate in
    let exact : t.recipients_sum ≡ sum (out_values outputs) =
      sum64-eq-sum (out_values outputs) (omega (arith, bounded)) in
    let base : t.selection_target
        ≡ t.recipients_sum + get_fee t.n_satoshis_per_k (noinputs_size wallet outputs) =
      omega (arith, exact, bounded) in
    select_addresses-Good wallet t outputs exact base wallet.addresses
      (start_selection wallet t outputs) psbt
      (record {
        same_values = refl;
        same_outputs = refl;
        same_target = refl;
        priced = tt;
        remaining = omega arith;
      })
      h fits
