-- ===== src/Vault/Payment/Bumped.antt =====
-- The replacement of a payment by one with a higher fee: `bump_fee` of the client of Bitcoin Core
-- (bitcoin/src/lib.rs), against the test for a payment of vault/src/execution.rs.
mod Tests
use interbtc_clients_cli.Prelude.{
  ℕ, suc, ◌+◌, ◌≤◌, ◌≡◌, ◌≢◌, refl, sym, ◌∙◌, ap, subst, Bool, true, false, ◌&&◌, Option, none,
  some, List, [], ◌∷◌, Result, ok, err, ◌>>=◌, ◌==◌, if◌then◌else◌, length, get_elem?, take,
  find_map, ◌⊎◌, inl, inr, arith, bind-ok,
}
use mathlib.Core.Option
use interbtc_clients_cli.Bitcoin.{TxOut, Transaction}
use interbtc_clients_cli.Bitcoin.TransactionExt.{
  BitcoinTypes, op_return_bytes, skip_two, get_op_return_bytes, get_op_return, amount_to,
  get_payment_amount_to, extract_return_to_self_address,
}
use interbtc_clients_cli.Bitcoin.TransactionExt as Ext
use interbtc_clients_cli.Bitcoin.Rpc.{
  Error, too_many_return_to_self_addresses, transaction_signing_error,
}
use interbtc_clients_cli.Bitcoin.Core.Kept.{
  Inserted, find_map-Inserted, find_map-take-remove_at, find_map-remove_at, take-all,
  length-Inserted, extract_return_to_self_address-elem,
}
use interbtc_clients_cli.Bitcoin.Core.Attempts.{with_wallet_inner-ok}
use interbtc_clients_cli.Bitcoin.Core.Calls.{
  Node, fund_and_sign_once, remove_at, without_return_to_self, fund_and_sign_transaction,
  bumped_transaction, with_wallet_inner,
}
use interbtc_clients_cli.Vault.Deadline.{Request}
use interbtc_clients_cli.Vault.Execution.{pays_amount}
use interbtc_clients_cli.Vault.Execution.Payments.{is_payment, pays_enough, pays_enough_lem}
use interbtc_clients_cli.Vault.Payment.Kept.{
  Keeps, NoOpReturn, IsFundedFrom, no_change, to_given, to_new, without_return_to_self-other,
  without_return_to_self-Keeps, IsFundedFrom-Keeps, Keeps-is_payment,
}

module _ (types : BitcoinTypes) (payload : ℕ) where
  module _ (apart : NoOpReturn types payload) (node : ℕ → Node) (load : ℕ → Result Error (Unit {0}))
      (funds : (n rate : ℕ) (raw_tx funded : Transaction) (change : Option ℕ)
        → (node n).fund_raw_transaction raw_tx rate change ≡ ok funded
        → IsFundedFrom types payload change raw_tx funded)
      (signs : (n : ℕ) (funded : Transaction) (signed : Transaction × Bool)
        → (node n).sign_raw_transaction_with_wallet funded ≡ ok signed
        → signed.0.output ≡ funded.output) where
    fund_and_sign_once-IsFundedFrom :
        (n rate : ℕ) (raw_tx tx : Transaction) (change : Option ℕ)
        → fund_and_sign_once (node n) rate raw_tx change ≡ ok tx
        → IsFundedFrom types payload change raw_tx tx
    unfolding fund_and_sign_once
    fund_and_sign_once-IsFundedFrom n rate raw_tx tx change h =
        let (funded, e, h1) = bind-ok _ _ tx h in
        let (signed, e', h2) = bind-ok ((node n).sign_raw_transaction_with_wallet funded) _ tx h1 in
        onto funded tx (last signed.1 signed.0 (signs n funded signed e') h2)
          (funds n _ raw_tx funded change e)
      where
        last :
            (errors : Bool) (signed : Transaction) {out : List TxOut}
            → signed.output ≡ out
            → (if errors then err transaction_signing_error else ok signed) ≡ ok tx
            → tx.output ≡ out
        last true signed e h = cc
        last false signed e h =
            let same : signed ≡ tx = cc in ap (λ (t : Transaction). t.output) (sym same) ∙ e

        onto :
            (funded tx : Transaction)
            → tx.output ≡ funded.output
            → IsFundedFrom types payload change raw_tx funded
            → IsFundedFrom types payload change raw_tx tx
        onto funded tx e (no_change s) = no_change (e ∙ s)
        onto funded tx e (to_given c p given pays i) =
            to_given c p given pays
              (subst (λ (l : List TxOut). Inserted c raw_tx.output l) (sym e) i)
        onto funded tx e (to_new c p fresh pays n i) =
            to_new c p fresh pays n
              (subst (λ (l : List TxOut). Inserted c raw_tx.output l) (sym e) i)

    Keeps-trans :
        (a b c : Transaction)
        → Keeps types payload a b
        → Keeps types payload b c
        → Keeps types payload a c
    Keeps-trans a b c k l = record {
      bytes = λ z e. l.bytes z (k.bytes z e);
      amount = l.amount ∙ k.amount;
    }

    -- Let a node of Bitcoin Core, when it funds a transaction, keep its outputs but for one more, to the
    -- change address that it is given, or, if it is given none, to an address other than that of the
    -- request; let it keep the outputs when it signs, and let no script that pays to an address be one
    -- with OP_RETURN. If a transaction is a payment for a request to its address, and
    -- has no more than two outputs besides the return to the wallet itself, then the transaction that
    -- `bump_fee` makes in its place is a payment for the request as well: it carries the hash of the
    -- request, and pays its address at least its amount.
    pub bumped_transaction-is_payment :
        (to_payload : ℕ → Option ℕ) (r : Request) (backoff : List ℕ) (txid fee_rate : ℕ)
        (tx new_tx : Transaction)
        → to_payload r.btc_address ≡ some payload
        → ((n : ℕ) (t : Transaction) → (node n).get_raw_transaction txid ≡ ok t → t ≡ tx)
        → ((s : Transaction × Option ℕ)
            → without_return_to_self types payload tx ≡ ok s
            → length s.0.output ≤ 2)
        → is_payment types to_payload r tx ≡ true
        → bumped_transaction types node load backoff txid payload fee_rate ≡ ok new_tx
        → is_payment types to_payload r new_tx ≡ true
    unfolding bumped_transaction fund_and_sign_transaction
    bumped_transaction-is_payment to_payload r backoff txid fee_rate tx new_tx e known small pays
          h =
        let (s, first, h1) = bind-ok _ _ new_tx h in
        let (n, stripped) =
          with_wallet_inner-ok false
            (λ n. (node n).get_raw_transaction txid >>= without_return_to_self types payload) load 0
            backoff s first in
        let (t, got, stripped_t) =
          bind-ok ((node n).get_raw_transaction txid) (without_return_to_self types payload) s
            stripped in
        let of_tx =
          subst (λ (z : Transaction). without_return_to_self types payload z ≡ ok s) (known n t got)
            stripped_t in
        let (m, once) =
          with_wallet_inner-ok false (λ n. fund_and_sign_once (node n) fee_rate s.0 s.1) load 0
            backoff new_tx h1 in
        let funded = fund_and_sign_once-IsFundedFrom m fee_rate s.0 new_tx s.1 once in
        Keeps-is_payment types payload to_payload r tx new_tx e
          (Keeps-trans tx s.0 new_tx (without_return_to_self-Keeps types payload apart tx s of_tx) (
            IsFundedFrom-Keeps types payload apart s.1 s.0 new_tx
              (λ p. without_return_to_self-other types payload tx s p of_tx) (small s of_tx)
              funded))
          pays
