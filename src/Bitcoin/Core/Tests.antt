-- ===== src/Bitcoin/Core/Tests.antt =====
-- Runs of the client of Bitcoin Core (bitcoin/src/lib.rs).
use interbtc_clients_cli.Prelude.{
  ℕ, ◌≡◌, refl, ◌↔◌, true, false, some, List, [], ◌∷◌, Result, ok, err, arith, if◌then◌else◌, ◌==◌,
}
use interbtc_clients_cli.Bitcoin.{Block}
use interbtc_clients_cli.Bitcoin.Rpc.{
  Error, rpc, other, transport, connection_refused, ℤ, pos, negsuc,
}
use interbtc_clients_cli.Bitcoin.Core.{
  returned, BlockPoll, wait_for_block, fee_rate, rescan_blockchain,
}
use interbtc_clients_cli.Bitcoin.Core.Calls.{
  with_wallet_inner, WalletTxInfo, TransactionMetadata, wait_for_transaction_metadata,
}
use interbtc_clients_cli.Bitcoin.Core.Blocks.{EndsWith, wait_for_block_ends}
use interbtc_clients_cli.Bitcoin.Core.Confirmed.{IsMetadata, wait_for_transaction-IsMetadata}

abbrev block : Block
block = record { prev_blockhash = 4; txdata = [] }

abbrev poll_of : ℤ → BlockPoll
poll_of confirmations = record {
  get_block_hash = ok 5;
  get_block_info = λ hash. ok confirmations;
  get_block = λ hash. ok block;
}

abbrev no_block_yet : BlockPoll
no_block_yet = record {
  get_block_hash = err (rpc (negsuc 7));
  get_block_info = λ hash. err other;
  get_block = λ hash. err other;
}

abbrev polls : List BlockPoll
polls = no_block_yet ∷ poll_of (pos 1) ∷ poll_of (negsuc 0) ∷ poll_of (pos 6) ∷ []

waited : wait_for_block 6 polls ≡ returned (ok block)
unfolding wait_for_block
waited = refl

wait_for_block_ends_example : wait_for_block 6 polls ≡ returned (ok block) ↔ EndsWith 6 block polls
wait_for_block_ends_example = wait_for_block_ends 6 block polls (omega arith)

-- A transaction that is confirmed at the second attempt.
abbrev info : WalletTxInfo
info = record {
  confirmations = pos 7;
  blockhash = some 5;
  blockheight = some 100;
  fee = some (negsuc 199);
}

abbrev get_transaction : ℕ → ℕ → Result Error WalletTxInfo
get_transaction i txid = if i == 0 then err other else ok info

abbrev answer : ℕ → ℕ → ℕ → Result Error ℕ
answer i txid block_hash = ok 60

abbrev metadata : TransactionMetadata
metadata = record {
  txid = 1;
  proof = 60;
  raw_tx = 60;
  block_height = 100;
  block_hash = 5;
  fee = some (negsuc 199);
}

has_waited : wait_for_transaction_metadata (1 ∷ []) get_transaction answer answer 1 6 ≡ ok metadata
unfolding wait_for_transaction_metadata
has_waited = refl

wait_for_transaction-IsMetadata_example :
    (metadata.txid ≡ 1) × IsMetadata (1 ∷ []) get_transaction answer answer 1 6 metadata
wait_for_transaction-IsMetadata_example =
    wait_for_transaction-IsMetadata (1 ∷ []) get_transaction answer answer 1 6 metadata has_waited

-- 200 satoshis for a weight of 561, which is 141 virtual bytes.
fee_rate_run : fee_rate 561 (some (negsuc 199)) ≡ ok 1
unfolding fee_rate
fee_rate_run = refl

-- The wallet is loaded after the first attempt, and the second one succeeds.
abbrev unloaded : ℕ → Result Error ℕ
unloaded n = if n == 0 then err (rpc (negsuc 17)) else ok 3

abbrev failing : ℕ → Result Error ℕ
failing n = err (rpc (negsuc 3))

reloaded : with_wallet_inner false unloaded (λ n. ok tt) 0 (1 ∷ []) ≡ ok 3
unfolding with_wallet_inner
reloaded = refl

refused : with_wallet_inner true failing (λ n. ok tt) 0 (1 ∷ []) ≡ err connection_refused
unfolding with_wallet_inner
refused = refl

rescanned :
    rescan_blockchain (ok true ∷ ok false ∷ []) (err transport) (ok false ∷ []) ≡ returned (ok tt)
unfolding rescan_blockchain
rescanned = refl
