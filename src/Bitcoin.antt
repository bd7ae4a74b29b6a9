-- ===== src/Bitcoin.antt =====
-- The Bitcoin library (bitcoin/src): transactions and blocks, and what the node answers.
pub mod Iter
pub mod TransactionExt
pub mod Wallet
pub mod Rpc
pub mod Core
use interbtc_clients_cli.Prelude.{ℕ, List, Result}

-- A script is the list of its bytes.
pub record TxOut : Type 0 where
  pub value : ℕ
  pub script_pubkey : List ℕ

-- Transaction ids and block hashes are only compared, so each is a number.
pub record Transaction : Type 0 where
  pub txid : ℕ
  pub output : List TxOut

pub record Block : Type 0 where
  pub prev_blockhash : ℕ
  pub txdata : List Transaction

-- The errors of a call of the node, as the streams tell them apart: `rpc_misc_error` is what the
-- node says of a pruned block.
pub data Error : Type 0 where
  rpc_misc_error other : Error

-- The answers of the node that the streams read.
pub record BitcoinCoreApi : Type 0 where
  pub get_block_count : Result Error ℕ
  pub get_block_hash : ℕ → Result Error ℕ
  pub get_block : ℕ → Result Error Block
  pub get_mempool_transactions : Result Error (List (Result Error Transaction))
