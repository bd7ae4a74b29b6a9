-- ===== src/Vault/Payment/Kept.antt =====
-- What a payment keeps when the client of Bitcoin Core takes its change out and funds it again
-- (`bump_fee`, bitcoin/src/lib.rs), against the test for a payment of vault/src/execution.rs.
use interbtc_clients_cli.Prelude.{
  ℕ, ◌≤◌, ◌≡◌, ◌≢◌, refl, sym, ◌∙◌, ap, subst, Bool, true, false, ◌&&◌, Option, none, some, List,
  Result, ok, err, ◌==◌, length, take, find_map, arith,
}
use mathlib.Core.Option
use interbtc_clients_cli.Bitcoin.{TxOut, Transaction}
use interbtc_clients_cli.Bitcoin.TransactionExt.{
  BitcoinTypes, op_return_bytes, skip_two, get_op_return_bytes, get_op_return, amount_to,
  get_payment_amount_to, extract_return_to_self_address,
}
use interbtc_clients_cli.Bitcoin.TransactionExt as Ext
use interbtc_clients_cli.Bitcoin.Rpc.{Error, too_many_return_to_self_addresses}
use interbtc_clients_cli.Bitcoin.Core.Kept.{
  Inserted, find_map-Inserted, find_map-take-remove_at, find_map-remove_at, take-all,
  length-Inserted, extract_return_to_self_address-elem,
}
use interbtc_clients_cli.Bitcoin.Core.Calls.{remove_at, without_return_to_self}
use interbtc_clients_cli.Vault.Deadline.{Request}
use interbtc_clients_cli.Vault.Execution.{pays_amount}
use interbtc_clients_cli.Vault.Execution.Payments.{is_payment, pays_enough, pays_enough_lem}

module _ (types : BitcoinTypes) (payload : ℕ) where
  -- A transaction keeps what another one pays: the bytes after OP_RETURN, if there are some, and the
  -- amount to the payload.
  pub record Keeps (before after : Transaction) : Type 0 where
    pub bytes :
        (z : List ℕ) → get_op_return_bytes before ≡ some z → get_op_return_bytes after ≡ some z
    pub amount :
        get_payment_amount_to types after payload ≡ get_payment_amount_to types before payload

  -- A script that pays to an address is none with OP_RETURN.
  abbrev pub NoOpReturn : Type 0
  NoOpReturn =
      (o : TxOut) (p : ℕ) → types.from_script o.script_pubkey ≡ some p → op_return_bytes o ≡ none

  -- Funding keeps the outputs, or puts in one for the change: to the change address that is given, or
  -- to a new address of the wallet, which is not the payload.
  pub data IsFundedFrom (change : Option ℕ) (before after : Transaction) : Type 0 where
    no_change : after.output ≡ before.output → IsFundedFrom change before after
    to_given :
        (c : TxOut) (p : ℕ)
        → change ≡ some p
        → types.from_script c.script_pubkey ≡ some p
        → Inserted c before.output after.output
        → IsFundedFrom change before after
    to_new :
        (c : TxOut) (p : ℕ)
        → change ≡ none
        → types.from_script c.script_pubkey ≡ some p
        → p ≢ payload
        → Inserted c before.output after.output
        → IsFundedFrom change before after

  -- The change address that `bump_fee` gives is that of another output than the payment.
  pub without_return_to_self-other :
      (tx : Transaction) (s : Transaction × Option ℕ) (p : ℕ)
      → without_return_to_self types payload tx ≡ ok s
      → s.1 ≡ some p
      → p ≢ payload
  unfolding without_return_to_self
  without_return_to_self-other tx s p h e =
      go (extract_return_to_self_address types tx payload) refl h
    where
      go :
          (r : Result Ext.Error (Option (ℕ × ℕ)))
          → extract_return_to_self_address types tx payload ≡ r
          → elim r as (λ _. Result Error (Transaction × Option ℕ)) [
            | err e ↦ err too_many_return_to_self_addresses
            | ok none ↦ ok (tx, none)
            | ok (some (i, q)) ↦
                ok (record { txid = tx.txid; output = remove_at tx.output i }, some q)
          ]
            ≡ ok s
          → p ≢ payload
      go (err f) g k = cc
      go (ok none) g k = cc
      go (ok (some (i, q))) g k =
          let (_, n) = extract_return_to_self_address-elem types tx payload i q g in
          let same : q ≡ p = cc in subst (λ x. x ≢ payload) same n

  amount_to-other :
      (o : TxOut) (p : ℕ)
      → types.from_script o.script_pubkey ≡ some p
      → p ≢ payload
      → amount_to types payload o ≡ none
  unfolding amount_to
  amount_to-other o p e n = rw (e, not_same, amount_to) refl
    where
      not_same : (p == payload) ≡ false
      not_same = ground (arith, n)

  module _ (apart : NoOpReturn) where
    pub without_return_to_self-Keeps :
        (tx : Transaction) (s : Transaction × Option ℕ)
        → without_return_to_self types payload tx ≡ ok s
        → Keeps tx s.0
    unfolding without_return_to_self get_op_return_bytes get_payment_amount_to
    without_return_to_self-Keeps tx s h =
        go (extract_return_to_self_address types tx payload) refl h
      where
        kept : Transaction → Transaction → Type 0
        kept before after =
            ((z : List ℕ)
              → find_map op_return_bytes (take 3 before.output) ≡ some z
              → find_map op_return_bytes (take 3 after.output) ≡ some z)
            × (find_map (amount_to types payload) after.output
                ≡ find_map (amount_to types payload) before.output)

        keeps : (after : Transaction) → kept tx after → Keeps tx after
        keeps after k = record { bytes = k.0; amount = k.1 }

        removed : ℕ → Transaction
        removed i = record { txid = tx.txid; output = remove_at tx.output i }

        of_result : Result Ext.Error (Option (ℕ × ℕ)) → Result Error (Transaction × Option ℕ)
        of_result r = elim r [
          | err e ↦ err too_many_return_to_self_addresses
          | ok none ↦ ok (tx, none)
          | ok (some (i, p)) ↦ ok (removed i, some p)
        ]

        go :
            (r : Result Ext.Error (Option (ℕ × ℕ)))
            → extract_return_to_self_address types tx payload ≡ r
            → of_result r ≡ ok s
            → Keeps tx s.0
        go (err e) f h = cc
        go (ok none) f h =
            let same : (tx, none) ≡ s = cc in
            subst (λ (z : Transaction × Option ℕ). Keeps tx z.0) same (keeps tx ((λ z k. k), refl))
        go (ok (some (i, p))) f h =
            let ((o, at, pays), n) = extract_return_to_self_address-elem types tx payload i p f in
            let same : (removed i, some p) ≡ s = cc in
            subst (λ (z : Transaction × Option ℕ). Keeps tx z.0) same
              (keeps (removed i) (
                (λ z k.
                    find_map-take-remove_at op_return_bytes 3 tx.output i o z at (apart o p pays)
                      k),
                find_map-remove_at (amount_to types payload) tx.output i o at
                    (amount_to-other o p pays n),
              ))

    Inserted-Keeps :
        (before after : Transaction) (c : TxOut) (p : ℕ)
        → length before.output ≤ 2
        → types.from_script c.script_pubkey ≡ some p
        → p ≢ payload
        → Inserted c before.output after.output
        → Keeps before after
    unfolding get_op_return_bytes get_payment_amount_to
    Inserted-Keeps before after c p le pays n i =
        let more = length-Inserted c before.output after.output i in
        let all = take-all 3 before.output (omega (arith, le)) in
        let all' = take-all 3 after.output (omega (arith, le, more)) in
        record {
          bytes = λ z k.
              ap (find_map op_return_bytes) all'
              ∙ find_map-Inserted op_return_bytes c before.output after.output i (apart c p pays)
              ∙ ap (find_map op_return_bytes) (sym all)
              ∙ k;
          amount =
              find_map-Inserted (amount_to types payload) c before.output after.output i
                (amount_to-other c p pays n);
        }

    pub IsFundedFrom-Keeps :
        (change : Option ℕ) (before after : Transaction)
        → ((p : ℕ) → change ≡ some p → p ≢ payload)
        → length before.output ≤ 2
        → IsFundedFrom change before after
        → Keeps before after
    unfolding get_op_return_bytes get_payment_amount_to
    IsFundedFrom-Keeps change before after other le (no_change e) = record {
      bytes = λ z k. ap (λ l. find_map op_return_bytes (take 3 l)) e ∙ k;
      amount = ap (find_map (amount_to types payload)) e;
    }
    IsFundedFrom-Keeps change before after other le (to_given c p given pays i) =
        Inserted-Keeps before after c p le pays (other p given) i
    IsFundedFrom-Keeps change before after other le (to_new c p fresh pays n i) =
        Inserted-Keeps before after c p le pays n i

  Keeps-pays_amount :
      (to_payload : ℕ → Option ℕ) (r : Request) (before after : Transaction)
      → to_payload r.btc_address ≡ some payload
      → Keeps before after
      → pays_amount types to_payload after r ≡ pays_amount types to_payload before r
  unfolding pays_amount
  Keeps-pays_amount to_payload r before after e k = rw (e, k.amount, pays_amount) refl

  pub Keeps-is_payment :
      (to_payload : ℕ → Option ℕ) (r : Request) (before after : Transaction)
      → to_payload r.btc_address ≡ some payload
      → Keeps before after
      → is_payment types to_payload r before ≡ true
      → is_payment types to_payload r after ≡ true
  unfolding is_payment get_op_return
  Keeps-is_payment to_payload r before after e k h = go (get_op_return_bytes before) refl h
    where
      same_amount : pays_enough types to_payload r after ≡ pays_enough types to_payload r before
      same_amount =
          pays_enough_lem types to_payload r after
          ∙ Keeps-pays_amount to_payload r before after e k
          ∙ sym (pays_enough_lem types to_payload r before)

      test : Option ℕ → Transaction → Bool
      test o tx = elim o [
        | none ↦ false
        | some hash ↦ hash == r.hash && pays_enough types to_payload r tx
      ]

      go :
          (o : Option (List ℕ))
          → get_op_return_bytes before ≡ o
          → test (Option.map (λ x. types.from_slice (skip_two x)) o) before ≡ true
          → is_payment types to_payload r after ≡ true
      go none f h = cc
      go (some z) f h = rw (k.bytes z f, same_amount, is_payment, get_op_return) h
