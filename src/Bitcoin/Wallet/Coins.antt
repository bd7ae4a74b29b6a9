-- ===== src/Bitcoin/Wallet/Coins.antt =====
-- The sums over the selected coins (bitcoin/src/light/wallet.rs), and what the loops keep.
use interbtc_clients_cli.Prelude.{
  ℕ, ◌+◌, ◌-◌, ◌<◌, ◌≡◌, refl, ap, ap₂, ◌∙◌, sym, List, [], ◌∷◌, ◌++◌, map, arith, subst, ok,
  AllPairs,
}
use Prim.Native.Nat.{min}
use interbtc_clients_cli.Bitcoin.{TxOut}
use interbtc_clients_cli.Bitcoin.Wallet.{
  u64_mod, sum64, CoinOutput, get_effective_value, add_coin, get_fee,
  calculate_maximum_signed_input_size,
}
use interbtc_clients_cli.Bitcoin.Wallet.Fund.{
  Utxo, PsbtInput, Target, Selection, select_utxo, Wallet, unsigned,
}

abbrev pub sum : List ℕ → ℕ
sum [] = 0
sum (x ∷ xs) = x + sum xs

pub sum-append : (xs ys : List ℕ) → sum (xs ++ ys) ≡ sum xs + sum ys
sum-append [] ys = omega arith
sum-append (x ∷ xs) ys = omega (arith, sum-append xs ys)

pub sum64-eq-sum : (xs : List ℕ) → sum xs < u64_mod → sum64 xs ≡ sum xs
sum64-eq-sum [] h = refl
sum64-eq-sum (x ∷ xs) h = omega (arith, sum64-eq-sum xs (omega arith))

abbrev pub out_values : List TxOut → List ℕ
out_values = map (λ (o : TxOut). o.value)

abbrev pub in_values : List PsbtInput → List ℕ
in_values = map (λ (i : PsbtInput). i.witness_utxo.value)

abbrev pub coin_values : List CoinOutput → List ℕ
coin_values = map (λ (c : CoinOutput). c.value)

abbrev pub effective_values : List CoinOutput → List ℕ
effective_values = map get_effective_value

abbrev pub coin_fees : List CoinOutput → List ℕ
coin_fees = map (λ (c : CoinOutput). c.fee)

-- The part of some fees that as many amounts pay, each for its own.
abbrev pub covered : List ℕ → List ℕ → ℕ
covered [] fees = 0
covered (v ∷ values) [] = 0
covered (v ∷ values) (f ∷ fees) = min v f + covered values fees

pub effective-covered :
    (cs : List CoinOutput)
    → sum (effective_values cs) + covered (coin_values cs) (coin_fees cs) ≡ sum (coin_values cs)
unfolding get_effective_value
effective-covered [] = refl
effective-covered (c ∷ cs) = omega (arith, effective-covered cs)

-- The fee for the largest size that an input has once it is signed.
abbrev pub InputFee : Wallet → ℕ → PsbtInput → ℕ → Type 0
InputFee wallet rate i fee =
    (key : List ℕ) × (wallet.get_pub_key i.witness_utxo.script_pubkey ≡ ok key)
    × (fee
        ≡ get_fee rate
            (calculate_maximum_signed_input_size wallet.varint_len i.txin.previous_output key))

-- What holds of the selection at every round: the coins have the values of the inputs, the outputs
-- are still the recipients', each coin has the fee of its input, and what is left to select is the target less the effective values.
pub record Tracks (wallet : Wallet) (t : Target) (outputs : List TxOut) (s : Selection)
    : Type 0 where
  pub same_values : coin_values s.select_coins.preset_inputs ≡ in_values s.psbt.inputs
  pub same_outputs : s.psbt.outputs ≡ outputs
  pub same_target : s.select_coins.target_value ≡ t.selection_target
  pub priced :
      AllPairs
        (InputFee wallet t.n_satoshis_per_k)
        s.psbt.inputs
        (coin_fees s.select_coins.preset_inputs)
  pub remaining :
      s.value_to_select ≡ t.selection_target - sum (effective_values s.select_coins.preset_inputs)

coin_values-snoc :
    (cs : List CoinOutput) (c : CoinOutput)
    → coin_values (cs ++ c ∷ []) ≡ coin_values cs ++ c.value ∷ []
coin_values-snoc [] c = refl
coin_values-snoc (d ∷ cs) c = ap (λ r. d.value ∷ r) (coin_values-snoc cs c)

in_values-snoc :
    (is : List PsbtInput) (i : PsbtInput)
    → in_values (is ++ i ∷ []) ≡ in_values is ++ i.witness_utxo.value ∷ []
in_values-snoc [] i = refl
in_values-snoc (j ∷ is) i = ap (λ r. j.witness_utxo.value ∷ r) (in_values-snoc is i)

sum-effective-snoc :
    (cs : List CoinOutput) (c : CoinOutput)
    → sum (effective_values (cs ++ c ∷ [])) ≡ sum (effective_values cs) + get_effective_value c
sum-effective-snoc [] c = omega arith
sum-effective-snoc (d ∷ cs) c = omega (arith, sum-effective-snoc cs c)

coin_fees-snoc :
    (cs : List CoinOutput) (c : CoinOutput) → coin_fees (cs ++ c ∷ []) ≡ coin_fees cs ++ c.fee ∷ []
coin_fees-snoc [] c = refl
coin_fees-snoc (d ∷ cs) c = ap (λ r. d.fee ∷ r) (coin_fees-snoc cs c)

AllPairs-snoc :
    {A B : Type 0} (R : A → B → Type 0) (xs : List A) (ys : List B) (x : A) (y : B)
    → AllPairs R xs ys
    → R x y
    → AllPairs R (xs ++ x ∷ []) (ys ++ y ∷ [])
AllPairs-snoc R [] [] x y h r = (r, tt)
AllPairs-snoc R (a ∷ xs) (b ∷ ys) x y h r = (h.0, AllPairs-snoc R xs ys x y h.1 r)
AllPairs-snoc R (a ∷ xs) [] x y h r = absurd h
AllPairs-snoc R [] (b ∷ ys) x y h r = absurd h

-- The input that a coin is selected as.
abbrev pub input_of : Utxo → List ℕ → PsbtInput
input_of utxo script = record {
  txin = unsigned utxo.outpoint;
  witness_utxo = record { value = utxo.value; script_pubkey = script };
}

pub select_utxo-Tracks :
    (wallet : Wallet) (t : Target) (outputs : List TxOut) (s : Selection) (utxo : Utxo)
    (script : List ℕ) (coin : CoinOutput)
    → coin.value ≡ utxo.value
    → InputFee wallet t.n_satoshis_per_k (input_of utxo script) coin.fee
    → Tracks wallet t outputs s
    → Tracks wallet t outputs (select_utxo s utxo script coin)
unfolding select_utxo add_coin
select_utxo-Tracks wallet t outputs s utxo script coin e fee h = record {
  same_values =
      coin_values-snoc s.select_coins.preset_inputs coin
      ∙ ap₂ (λ r v. r ++ v ∷ []) h.same_values e
      ∙ sym (in_values-snoc s.psbt.inputs _);
  same_outputs = h.same_outputs;
  same_target = h.same_target;
  priced =
      subst
        (AllPairs (InputFee wallet t.n_satoshis_per_k) (s.psbt.inputs ++ input_of utxo script ∷ []))
        (sym (coin_fees-snoc s.select_coins.preset_inputs coin))
        (AllPairs-snoc (InputFee wallet t.n_satoshis_per_k) s.psbt.inputs _ (input_of utxo script)
          coin.fee h.priced fee);
  remaining = omega (arith, h.remaining, sum-effective-snoc s.select_coins.preset_inputs coin);
}
