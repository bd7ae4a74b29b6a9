-- ===== src/Vault/Execution/Payments.antt =====
-- What a payment for a request is, read off the outputs of a transaction, against the test of
-- `get_request_for_btc_tx` (vault/src/execution.rs).
use interbtc_clients_cli.Prelude.{
  ℕ, ◌≡◌, refl, ◌∙◌, Bool, true, false, ◌&&◌, Option, none, some, List, [], ◌∷◌, leb, ◌==◌,
  if◌then◌else◌, find_map,
}
use interbtc_clients_cli.Bitcoin.{TxOut, Transaction}
use interbtc_clients_cli.Bitcoin.TransactionExt.{
  BitcoinTypes, get_op_return, amount_to, get_payment_amount_to,
}
use interbtc_clients_cli.Vault.Deadline.{Request}
use interbtc_clients_cli.Vault.Execution.{pays_amount}

module _ (types : BitcoinTypes) (to_payload : ℕ → Option ℕ) where
  -- Whether the first of some outputs that goes to a payload holds at least an amount.
  unfoldable pub pays_at_least : ℕ → ℕ → List TxOut → Bool
  pays_at_least amount payload [] = false
  pays_at_least amount payload (o ∷ os) =
      let rest = pays_at_least amount payload os in
      elim (types.from_script o.script_pubkey) [
        | none ↦ rest
        | some other ↦ if other == payload then leb amount o.value else rest
      ]

  -- Whether a transaction pays the address of a request its amount.
  unfoldable pub pays_enough : Request → Transaction → Bool
  unfolding pays_at_least
  pays_enough r tx = elim (to_payload r.btc_address) [
    | none ↦ false
    | some payload ↦ pays_at_least r.amount payload tx.output
  ]

  -- Whether a transaction is a payment for a request: it carries its hash, and pays its address at
  -- least its amount.
  unfoldable pub is_payment : Request → Transaction → Bool
  unfolding pays_enough
  is_payment r tx = elim (get_op_return types tx) [
    | none ↦ false
    | some hash ↦ hash == r.hash && pays_enough r tx
  ]

  abbrev pub enough : ℕ → Option ℕ → Bool
  enough amount none = false
  enough amount (some paid_amount) = leb amount paid_amount

  pub pays_at_least_lem :
      (amount payload : ℕ) (os : List TxOut)
      → pays_at_least amount payload os ≡ enough amount (find_map (amount_to types payload) os)
  unfolding pays_at_least amount_to
  pays_at_least_lem amount payload [] = refl
  pays_at_least_lem amount payload (o ∷ os) =
      pick (types.from_script o.script_pubkey) (pays_at_least_lem amount payload os)
    where
      found :
          (b : Bool)
          → pays_at_least amount payload os ≡ enough amount (find_map (amount_to types payload) os)
          → (if b then leb amount o.value else pays_at_least amount payload os)
            ≡ enough amount (elim (if b then some o.value else none) [
              | some y ↦ some y
              | none ↦ find_map (amount_to types payload) os
            ])
      found true ih = refl
      found false ih = ih

      pick :
          (s : Option ℕ)
          → pays_at_least amount payload os ≡ enough amount (find_map (amount_to types payload) os)
          → elim s [
            | none ↦ pays_at_least amount payload os
            | some other ↦
                if other == payload then leb amount o.value else pays_at_least amount payload os
          ]
            ≡ enough amount
                (elim (elim s as (λ x. Option ℕ) [
                  | none ↦ none
                  | some p ↦ if p == payload then some o.value else none
                ]) [ some y ↦ some y | none ↦ find_map (amount_to types payload) os ])
      pick none ih = ih
      pick (some p) ih = found (p == payload) ih

  pub pays_enough_lem :
      (r : Request) (tx : Transaction) → pays_enough r tx ≡ pays_amount types to_payload tx r
  unfolding pays_enough pays_amount get_payment_amount_to
  pays_enough_lem r tx = pick (to_payload r.btc_address)
    where
      split :
          (o : Option ℕ)
          → enough r.amount o
            ≡ elim o [ none ↦ false | some paid_amount ↦ leb r.amount paid_amount ]
      split none = refl
      split (some paid_amount) = refl

      pick :
          (o : Option ℕ)
          → elim o [ none ↦ false | some payload ↦ pays_at_least r.amount payload tx.output ]
            ≡ elim o [
              | none ↦ false
              | some payload ↦ elim (find_map (amount_to types payload) tx.output) [
                | none ↦ false
                | some paid_amount ↦ leb r.amount paid_amount
              ]
            ]
      pick none = refl
      pick (some payload) =
          pays_at_least_lem r.amount payload tx.output
          ∙ split (find_map (amount_to types payload) tx.output)
