-- ===== src/Bitcoin/Core/Calls.antt =====
-- The calls of the wallet of Bitcoin Core with their retries, and the transactions that are funded,
-- bumped and waited for (bitcoin/src/lib.rs). A call is a function of the number of its attempt, and a
-- backoff is the list of its waits.
use interbtc_clients_cli.Prelude.{
  ℕ, suc, ◌-◌, Bool, true, false, ◌&&◌, Option, none, some, List, [], ◌∷◌, Result, ok, err, ◌>>=◌,
  leb, ◌==◌, if◌then◌else◌,
}
use interbtc_clients_cli.Prelude.Words.{u64_max, saturating_mul}
use interbtc_clients_cli.Bitcoin.{Transaction}
use interbtc_clients_cli.Bitcoin.TransactionExt.{BitcoinTypes, extract_return_to_self_address}
use interbtc_clients_cli.Bitcoin.Rpc.{
  Error, wallet_not_found, connection_refused, confirmation_error, transaction_signing_error,
  too_many_return_to_self_addresses, is_wallet_error, is_wallet_not_found, is_transport_error, ℤ,
  pos, negsuc,
}

-- The retries of a call, from an attempt on, with the loading of the wallet after an attempt.
module _ {T : Type 0} (retry_on_wallet_error : Bool) (call : ℕ → Result Error T)
    (create_or_load_wallet : ℕ → Result Error (Unit {0})) where
  -- What an attempt comes to: its result, or another attempt.
  unfoldable pub attempt : ℕ → Result Error T → Option (Result Error T)
  unfolding is_wallet_error is_wallet_not_found
  attempt n (ok t) = some (ok t)
  attempt n (err e) =
      if is_wallet_not_found e
      then elim (create_or_load_wallet n) [ ok u ↦ none | err f ↦ some (err f) ]
      else (if retry_on_wallet_error && is_wallet_error e then none else some (err e))

  unfoldable pub with_wallet_inner : ℕ → List ℕ → Result Error T
  unfolding attempt
  with_wallet_inner n [] = elim (attempt n (call n)) [
    | some result ↦ result
    | none ↦ err connection_refused
  ]
  with_wallet_inner n (wait ∷ backoff) =
      let rest = with_wallet_inner (suc n) backoff in
      elim (attempt n (call n)) [ some result ↦ result | none ↦ rest ]

-- The results of a call, each with whether it took the time of the transport's timeout: the first that
-- is no timeout, if there is one.
unfoldable pub with_retry_on_timeout :
    {T : Type 0} → List (Result Error T × Bool) → Option (Result Error T)
unfolding is_transport_error
with_retry_on_timeout [] = none
with_retry_on_timeout ((ok t, elapsed) ∷ calls) = some (ok t)
with_retry_on_timeout ((err e, elapsed) ∷ calls) =
    let rest = with_retry_on_timeout calls in
    if is_transport_error e && elapsed then rest else some (err e)

-- What the node answers on wallets: whether the wallet is loaded, whether it is in the directory, and
-- the calls that load or create it.
pub record Wallets : Type 0 where
  pub loaded : Result Error Bool
  pub in_directory : Result Error Bool
  pub load_wallet : Result Error (Unit {0})
  pub create_wallet : Result Error (Unit {0})

-- One attempt of `create_or_load_wallet`.
unfoldable pub load_or_create : Wallets → Result Error (Unit {0})
load_or_create wallets = elim wallets.loaded [
  | err e ↦ err e
  | ok true ↦ ok tt
  | ok false ↦ elim wallets.in_directory [
    | err e ↦ err e
    | ok true ↦ wallets.load_wallet
    | ok false ↦ wallets.create_wallet
  ]
]

abbrev pub attempts_of : List (Wallets × Bool) → List (Result Error (Unit {0}) × Bool)
attempts_of [] = []
attempts_of ((wallets, elapsed) ∷ rest) = (load_or_create wallets, elapsed) ∷ attempts_of rest

unfoldable pub create_or_load_wallet :
    Option ℕ → List (Wallets × Bool) → Option (Result Error (Unit {0}))
unfolding with_retry_on_timeout load_or_create
create_or_load_wallet none attempts = some (err wallet_not_found)
create_or_load_wallet (some wallet_name) attempts = with_retry_on_timeout (attempts_of attempts)

-- The calls of the node for transactions: `fund_raw_transaction` takes the rate per 1000 virtual bytes
-- and the address for the change, and signing tells whether there were errors.
pub record Node : Type 0 where
  pub get_raw_transaction : ℕ → Result Error Transaction
  pub fund_raw_transaction : Transaction → ℕ → Option ℕ → Result Error Transaction
  pub sign_raw_transaction_with_wallet : Transaction → Result Error (Transaction × Bool)
  pub send_raw_transaction : Transaction → Result Error ℕ

unfoldable pub fund_and_sign_once : Node → ℕ → Transaction → Option ℕ → Result Error Transaction
fund_and_sign_once node fee_rate raw_tx return_to_self_address = do
  funded ←
      node.fund_raw_transaction raw_tx (saturating_mul u64_max fee_rate 1000) return_to_self_address
  signed ← node.sign_raw_transaction_with_wallet funded
  if signed.1 then err transaction_signing_error else ok signed.0

-- `output.remove(idx)`
unfoldable pub remove_at : {A : Type 0} → List A → ℕ → List A
remove_at [] i = []
remove_at (x ∷ xs) i = let rest = remove_at xs (i - 1) in if i == 0 then xs else x ∷ rest

-- A transaction without its output to the wallet itself, and the payload of that output.
unfoldable pub without_return_to_self :
    BitcoinTypes → ℕ → Transaction → Result Error (Transaction × Option ℕ)
unfolding remove_at
without_return_to_self types destination tx =
    elim (extract_return_to_self_address types tx destination) [
      | err e ↦ err too_many_return_to_self_addresses
      | ok none ↦ ok (tx, none)
      | ok (some (idx, payload)) ↦
          ok (record { txid = tx.txid; output = remove_at tx.output idx }, some payload)
    ]

-- The libraries of Bitcoin types, and the node and the loading of its wallet at an attempt of a call.
module _ (types : BitcoinTypes) (node : ℕ → Node) (load : ℕ → Result Error (Unit {0})) where
  unfoldable pub fund_and_sign_transaction :
      List ℕ → Bool → ℕ → Transaction → Option ℕ → Result Error Transaction
  unfolding with_wallet_inner fund_and_sign_once
  fund_and_sign_transaction backoff auto_retry fee_rate raw_tx return_to_self_address =
      with_wallet_inner auto_retry
        (λ n. fund_and_sign_once (node n) fee_rate raw_tx return_to_self_address) load 0 backoff

  -- The transaction that replaces another one, before it is sent.
  unfoldable pub bumped_transaction : List ℕ → ℕ → ℕ → ℕ → Result Error Transaction
  unfolding fund_and_sign_transaction without_return_to_self
  bumped_transaction backoff txid destination fee_rate = do
    stripped ←
        with_wallet_inner false
          (λ n. (node n).get_raw_transaction txid >>= without_return_to_self types destination) load
          0 backoff
    fund_and_sign_transaction backoff false fee_rate stripped.0 stripped.1

  unfoldable pub bump_fee : List ℕ → ℕ → ℕ → ℕ → Result Error ℕ
  unfolding bumped_transaction
  bump_fee backoff txid destination fee_rate = do
    tx ← bumped_transaction backoff txid destination fee_rate
    with_wallet_inner false (λ n. (node n).send_raw_transaction tx) load 0 backoff

-- `retry` of the library: the attempts of a call until one succeeds or the backoff ends.
unfoldable pub retry : {T : Type 0} → (ℕ → Result Error T) → ℕ → List ℕ → Result Error T
retry call n [] = call n
retry call n (wait ∷ backoff) =
    let rest = retry call (suc n) backoff in elim (call n) [ ok t ↦ ok t | err e ↦ rest ]

-- What the wallet knows of a transaction.
pub record WalletTxInfo : Type 0 where
  pub confirmations : ℤ
  pub blockhash : Option ℕ
  pub blockheight : Option ℕ
  pub fee : Option ℤ

pub record TransactionMetadata : Type 0 where
  pub txid : ℕ
  pub proof : ℕ
  pub raw_tx : ℕ
  pub block_height : ℕ
  pub block_hash : ℕ
  pub fee : Option ℤ

-- At least some number of confirmations.
unfoldable pub has_confirmations : ℕ → ℤ → Bool
has_confirmations n (pos confirmations) = leb n confirmations
has_confirmations n (negsuc m) = false

unfoldable pub confirmed_in : ℕ → WalletTxInfo → Result Error (ℕ × ℕ × Option ℤ)
unfolding has_confirmations
confirmed_in n info = elim info.blockhash [
  | none ↦ err confirmation_error
  | some hash ↦ elim info.blockheight [
    | none ↦ err confirmation_error
    | some height ↦
        if has_confirmations n info.confirmations
        then ok (height, hash, info.fee)
        else err confirmation_error
  ]
]

unfoldable pub wait_for_transaction_metadata :
    List ℕ
    → (ℕ → ℕ → Result Error WalletTxInfo)
    → (ℕ → ℕ → ℕ → Result Error ℕ)
    → (ℕ → ℕ → ℕ → Result Error ℕ)
    → ℕ
    → ℕ
    → Result Error TransactionMetadata
unfolding retry confirmed_in
wait_for_transaction_metadata backoff get_transaction get_proof get_raw_tx txid n = do
  (block_height, block_hash, fee) ← retry (λ i. get_transaction i txid >>= confirmed_in n) 0 backoff
  proof ← retry (λ i. get_proof i txid block_hash) 0 backoff
  raw_tx ← retry (λ i. get_raw_tx i txid block_hash) 0 backoff
  ok (record {
    txid = txid;
    proof = proof;
    raw_tx = raw_tx;
    block_height = block_height;
    block_hash = block_hash;
    fee = fee;
  })
