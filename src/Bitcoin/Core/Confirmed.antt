-- ===== src/Bitcoin/Core/Confirmed.antt =====
-- The metadata of a transaction (`wait_for_transaction_metadata`, bitcoin/src/lib.rs).
use interbtc_clients_cli.Prelude.{
  ℕ, ◌≤◌, ◌≡◌, refl, subst, Bool, true, false, Option, none, some, List, Result, ok, err, ◌>>=◌,
  if◌then◌else◌, leb, leb→le, bind-ok,
}
use interbtc_clients_cli.Bitcoin.Rpc.{Error, confirmation_error, ℤ, pos, negsuc}
use interbtc_clients_cli.Bitcoin.Core.Calls.{
  retry, WalletTxInfo, TransactionMetadata, has_confirmations, confirmed_in,
  wait_for_transaction_metadata,
}
use interbtc_clients_cli.Bitcoin.Core.Attempts.{retry-ok}

-- A wallet knows a transaction with some confirmations in a block.
pub record IsConfirmed (n : ℕ) (info : WalletTxInfo) (m : TransactionMetadata) : Type 0 where
  pub count : ℕ
  pub counted : info.confirmations ≡ pos count
  pub enough : n ≤ count
  pub hash : info.blockhash ≡ some m.block_hash
  pub height : info.blockheight ≡ some m.block_height
  pub fee : info.fee ≡ m.fee

confirmed_in-IsConfirmed :
    (n : ℕ) (info : WalletTxInfo) (m : TransactionMetadata)
    → confirmed_in n info ≡ ok (m.block_height, m.block_hash, m.fee)
    → IsConfirmed n info m
unfolding confirmed_in has_confirmations
confirmed_in-IsConfirmed n info m h =
    go info.blockhash info.blockheight info.confirmations refl refl refl h
  where
    found : ℕ → ℕ → ℕ × ℕ × Option ℤ
    found height hash = (height, hash, info.fee)

    answer : Result Error (ℕ × ℕ × Option ℤ) → Result Error (ℕ × ℕ × Option ℤ)
    answer r = r

    test :
        (hash height count : ℕ) (b : Bool)
        → info.blockhash ≡ some hash
        → info.blockheight ≡ some height
        → info.confirmations ≡ pos count
        → leb n count ≡ b
        → answer (if b then ok (found height hash) else err confirmation_error)
          ≡ ok (m.block_height, m.block_hash, m.fee)
        → IsConfirmed n info m
    test hash height count false e e' c l h = cc
    test hash height count true e e' c l h = record {
      count = count;
      counted = c;
      enough = leb→le n count l;
      hash = cc;
      height = cc;
      fee = cc;
    }

    go :
        (hash height : Option ℕ) (c : ℤ)
        → info.blockhash ≡ hash
        → info.blockheight ≡ height
        → info.confirmations ≡ c
        → elim hash as (λ _. Result Error (ℕ × ℕ × Option ℤ)) [
          | none ↦ err confirmation_error
          | some hash ↦ elim height as (λ _. Result Error (ℕ × ℕ × Option ℤ)) [
            | none ↦ err confirmation_error
            | some height ↦
                if has_confirmations n c
                then ok (height, hash, info.fee)
                else err confirmation_error
          ]
        ]
          ≡ ok (m.block_height, m.block_hash, m.fee)
        → IsConfirmed n info m
    go none height c e e' e'' h = cc
    go (some hash) none c e e' e'' h = cc
    go (some hash) (some height) (pos count) e e' e'' h =
        test hash height count (leb n count) e e' e'' refl h
    go (some hash) (some height) (negsuc k) e e' e'' h = cc

module _ (backoff : List ℕ) (get_transaction : ℕ → ℕ → Result Error WalletTxInfo)
    (get_proof get_raw_tx : ℕ → ℕ → ℕ → Result Error ℕ) where
  -- Where metadata come from: at one attempt each, the wallet has reported the transaction as
  -- confirmed in the block, and the node has given the proof and the bytes for that block.
  pub record IsMetadata (txid n : ℕ) (m : TransactionMetadata) : Type 0 where
    pub info : WalletTxInfo
    pub asked : (i : ℕ) × (get_transaction i txid ≡ ok info)
    pub confirmed : IsConfirmed n info m
    pub proven : (i : ℕ) × (get_proof i txid m.block_hash ≡ ok m.proof)
    pub read : (i : ℕ) × (get_raw_tx i txid m.block_hash ≡ ok m.raw_tx)

  -- Let the wait for a transaction return metadata. Then they are for that transaction, the wallet has
  -- reported at least the number of confirmations that was asked for, in a block with the hash and the
  -- height of the metadata, and the proof and the bytes are those that the node gave for this block.
  pub wait_for_transaction-IsMetadata :
      (txid n : ℕ) (m : TransactionMetadata)
      → wait_for_transaction_metadata backoff get_transaction get_proof get_raw_tx txid n ≡ ok m
      → (m.txid ≡ txid) × IsMetadata txid n m
  unfolding wait_for_transaction_metadata
  wait_for_transaction-IsMetadata txid n m h =
      let ((height, hash, fee), e, h1) =
        bind-ok (retry (λ i. get_transaction i txid >>= confirmed_in n) 0 backoff) _ m h in
      let (proof, e', h2) = bind-ok (retry (λ i. get_proof i txid hash) 0 backoff) _ m h1 in
      let (raw_tx, e'', h3) = bind-ok (retry (λ i. get_raw_tx i txid hash) 0 backoff) _ m h2 in
      let (i, found) =
        retry-ok (λ i. get_transaction i txid >>= confirmed_in n) 0 backoff (height, hash, fee) e in
      let (info, got, conf) =
        bind-ok (get_transaction i txid) (confirmed_in n) (height, hash, fee) found in
      finish height hash fee proof raw_tx info (i, got) conf
        (retry-ok (λ i. get_proof i txid hash) 0 backoff proof e')
        (retry-ok (λ i. get_raw_tx i txid hash) 0 backoff raw_tx e'') h3
    where
      metadata : ℕ → ℕ → Option ℤ → ℕ → ℕ → TransactionMetadata
      metadata height hash fee proof raw_tx = record {
        txid = txid;
        proof = proof;
        raw_tx = raw_tx;
        block_height = height;
        block_hash = hash;
        fee = fee;
      }

      made : ℕ → ℕ → Option ℤ → ℕ → ℕ → Result Error TransactionMetadata
      made height hash fee proof raw_tx = ok (metadata height hash fee proof raw_tx)

      finish :
          (height hash : ℕ) (fee : Option ℤ) (proof raw_tx : ℕ) (info : WalletTxInfo)
          → ((i : ℕ) × (get_transaction i txid ≡ ok info))
          → confirmed_in n info ≡ ok (height, hash, fee)
          → ((i : ℕ) × (get_proof i txid hash ≡ ok proof))
          → ((i : ℕ) × (get_raw_tx i txid hash ≡ ok raw_tx))
          → made height hash fee proof raw_tx ≡ ok m
          → (m.txid ≡ txid) × IsMetadata txid n m
      finish height hash fee proof raw_tx info got conf p r e =
          let same : metadata height hash fee proof raw_tx ≡ m = cc in
          subst (λ (k : TransactionMetadata). (k.txid ≡ txid) × IsMetadata txid n k) same
            (
              refl,
              record {
                info = info;
                asked = got;
                confirmed =
                    confirmed_in-IsConfirmed n info (metadata height hash fee proof raw_tx) conf;
                proven = p;
                read = r;
              },
            )
