-- ===== src/Vault/Payment/Bumped/Tests.antt =====
-- A payment with change, whose fee is bumped (bitcoin/src/lib.rs).
use interbtc_clients_cli.Prelude.{
  ℕ, zero, suc, ◌≤◌, ◌≡◌, refl, sym, ap, subst, Bool, true, false, ◌&&◌, Option, none, some, List,
  [], ◌∷◌, Result, ok, if◌then◌else◌, ◌==◌, length, arith,
}
use interbtc_clients_cli.Bitcoin.{TxOut, Transaction}
use interbtc_clients_cli.Bitcoin.TransactionExt.{
  BitcoinTypes, starts_op_return, op_return_bytes, get_op_return_bytes, get_op_return,
  extract_return_to_self_address,
}
use interbtc_clients_cli.Bitcoin.Wallet.{zeros}
use interbtc_clients_cli.Bitcoin.Rpc.{Error}
use interbtc_clients_cli.Bitcoin.Core.Kept.{here}
use interbtc_clients_cli.Bitcoin.Core.Calls.{Node, without_return_to_self, bumped_transaction}
use interbtc_clients_cli.Vault.Deadline.{Request, redeem}
use interbtc_clients_cli.Vault.Execution.Payments.{is_payment}
use interbtc_clients_cli.Vault.Payment.Kept.{NoOpReturn, IsFundedFrom, to_given, to_new}
use interbtc_clients_cli.Vault.Payment.Bumped.{bumped_transaction-is_payment}

-- The script of an address is two bytes, and a hash is its first byte.
abbrev payload_of : List ℕ → Option ℕ
payload_of (zero ∷ a ∷ []) = some a
payload_of _ = none

abbrev first_byte : List ℕ → ℕ
first_byte [] = 0
first_byte (b ∷ bs) = b

abbrev types : BitcoinTypes
types = record {
  from_script = payload_of;
  from_slice = first_byte;
  as_bytes = λ h. h ∷ zeros 31;
  script_pubkey = λ a. 0 ∷ a ∷ [];
  op_return_script = λ bytes. 0x6a ∷ 32 ∷ bytes;
}

short :
    (s : List ℕ) (p : ℕ)
    → payload_of s ≡ some p
    → (if length s == 34 && starts_op_return s then some s else none) ≡ none
short [] p e = cc
short (a ∷ []) p e = refl
short (a ∷ b ∷ []) p e = refl
short (zero ∷ b ∷ c ∷ rest) p e = cc
short (suc a ∷ b ∷ c ∷ rest) p e = cc

no_op_return : NoOpReturn types 9
unfolding op_return_bytes
no_op_return o p e = short o.script_pubkey p e

abbrev as_is : ℕ → Option ℕ
as_is a = some a

abbrev request : Request
request = record {
  hash = 7;
  deadline = none;
  btc_height = none;
  amount = 50;
  btc_address = 9;
  request_type = redeem;
  vault_id = 1;
  fee_budget = none;
}

abbrev change : ℕ → TxOut
change value = record { value = value; script_pubkey = 0 ∷ 4 ∷ [] }

abbrev payment : Transaction
payment = record {
  txid = 1;
  output =
      record { value = 50; script_pubkey = 0 ∷ 9 ∷ [] }
      ∷ record { value = 0; script_pubkey = 0x6a ∷ 32 ∷ 7 ∷ zeros 31 }
      ∷ change 30
      ∷ [];
}

-- The node puts the change first, to the address that it is given or to the address 6.
abbrev change_to : Option ℕ → TxOut
change_to none = record { value = 20; script_pubkey = 0 ∷ 6 ∷ [] }
change_to (some a) = record { value = 20; script_pubkey = 0 ∷ a ∷ [] }

abbrev funded_from : Transaction → Option ℕ → Transaction
funded_from raw_tx to = record { txid = 2; output = change_to to ∷ raw_tx.output }

abbrev node : ℕ → Node
node n = record {
  get_raw_transaction = λ txid. ok payment;
  fund_raw_transaction = λ raw_tx rate to. ok (funded_from raw_tx to);
  sign_raw_transaction_with_wallet = λ tx. ok (tx, false);
  send_raw_transaction = λ tx. ok tx.txid;
}

abbrev load : ℕ → Result Error (Unit {0})
load n = ok tt

funded_from-IsFundedFrom :
    (raw_tx : Transaction) (to : Option ℕ) → IsFundedFrom types 9 to raw_tx (funded_from raw_tx to)
funded_from-IsFundedFrom raw_tx none =
    to_new (change_to none) 6 refl refl (omega arith) (here raw_tx.output)
funded_from-IsFundedFrom raw_tx (some a) =
    to_given (change_to (some a)) a refl refl (here raw_tx.output)

funds :
    (n rate : ℕ) (raw_tx funded : Transaction) (to : Option ℕ)
    → (node n).fund_raw_transaction raw_tx rate to ≡ ok funded
    → IsFundedFrom types 9 to raw_tx funded
funds n rate raw_tx funded to e =
    let same : funded_from raw_tx to ≡ funded = cc in
    subst (λ (t : Transaction). IsFundedFrom types 9 to raw_tx t) same
      (funded_from-IsFundedFrom raw_tx to)

signs :
    (n : ℕ) (funded : Transaction) (signed : Transaction × Bool)
    → (node n).sign_raw_transaction_with_wallet funded ≡ ok signed
    → signed.0.output ≡ funded.output
signs n funded signed e =
    let same : (funded, false) ≡ signed = cc in
    ap (λ (s : Transaction × Bool). s.0.output) (sym same)

known : (n : ℕ) (t : Transaction) → (node n).get_raw_transaction 1 ≡ ok t → t ≡ payment
known n t e = cc

abbrev stripped : Transaction
stripped = record {
  txid = 1;
  output =
      record { value = 50; script_pubkey = 0 ∷ 9 ∷ [] }
      ∷ record { value = 0; script_pubkey = 0x6a ∷ 32 ∷ 7 ∷ zeros 31 }
      ∷ [];
}

is_stripped : without_return_to_self types 9 payment ≡ ok (stripped, some 4)
unfolding without_return_to_self extract_return_to_self_address
is_stripped = refl

small :
    (s : Transaction × Option ℕ)
    → without_return_to_self types 9 payment ≡ ok s
    → length s.0.output ≤ 2
small s e =
    let found = is_stripped in
    let same : (stripped, some 4) ≡ s = cc in
    subst (λ (z : Transaction × Option ℕ). length z.0.output ≤ 2) same (omega arith)

pays : is_payment types as_is request payment ≡ true
unfolding is_payment get_op_return get_op_return_bytes
pays = refl

abbrev bumped : Transaction
bumped = funded_from stripped (some 4)

is_bumped : bumped_transaction types node load (1 ∷ []) 1 9 5 ≡ ok bumped
unfolding bumped_transaction extract_return_to_self_address
is_bumped = refl

bumped_transaction-is_payment_example : is_payment types as_is request bumped ≡ true
bumped_transaction-is_payment_example =
    bumped_transaction-is_payment types 9 no_op_return node load funds signs as_is request (1 ∷ [])
      1 5 payment bumped refl known small pays is_bumped
