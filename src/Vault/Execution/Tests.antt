-- ===== src/Vault/Execution/Tests.antt =====
-- Two open redeem requests, one of them paid (vault/src/execution.rs).
use interbtc_clients_cli.Prelude.{
  ℕ, zero, suc, ◌+◌, ◌-◌, ◌%◌, ◌≤◌, ◌<◌, ◌≡◌, refl, true, Option, none, some, List, [], ◌∷◌, ok,
  err, arith, leb, ◌==◌, if◌then◌else◌,
}
use interbtc_clients_cli.Bitcoin.{Transaction, Block, other, BitcoinCoreApi}
use interbtc_clients_cli.Bitcoin.Iter.Reverse.{HasChain}
use interbtc_clients_cli.Bitcoin.TransactionExt.{
  BitcoinTypes, create_outputs, get_op_return, get_op_return_bytes, get_payment_amount_to,
}
use interbtc_clients_cli.Bitcoin.Wallet.{
  zeros, get_fee, txout_serialize_size, get_effective_value, calculate_maximum_signed_input_size,
  get_change, add_coin, get_selected_value,
}
use interbtc_clients_cli.Bitcoin.Wallet.Fund.{
  Wallet, PartiallySignedTransaction, fund_transaction, select_utxos, add_utxo,
  calculate_maximum_signed_tx_size, noinputs_size,
}
use interbtc_clients_cli.Prelude.{map_result}
use interbtc_clients_cli.Vault.Deadline.{
  Request, redeem, InterBtcRedeemRequest, from_redeem_request, calculate_deadline,
  duration_to_parachain_blocks, parachain_blocks_to_bitcoin_blocks_rounded_up,
}
use interbtc_clients_cli.Vault.Execution.{
  get, collect_open_requests, get_request_for_btc_tx, Listed, min_height, Task, await_payment,
  pay_and_execute, spawn_tasks, execute_open_requests,
}
use interbtc_clients_cli.Vault.Execution.Keys.{Distinct}
use interbtc_clients_cli.Vault.Execution.Open.{open_request}
use interbtc_clients_cli.Vault.Execution.Lowest.{min_height-IsLowest}
use interbtc_clients_cli.Vault.Execution.Assigned.{tasks_for, expected, spawn_tasks-expected}
use interbtc_clients_cli.Vault.Execution.Payments.{is_payment}
use interbtc_clients_cli.Vault.Execution.Scan.{scanned, execute_open_requests-expected}
use interbtc_clients_cli.Vault.Execution.Recognised.{Lawful, fund_transaction-is_payment}

-- The script of an address is two bytes, and a hash is its first byte.
abbrev payload_of : List ℕ → Option ℕ
payload_of (zero ∷ a ∷ []) = some a
payload_of _ = none

abbrev first_byte : List ℕ → ℕ
first_byte [] = 0
first_byte (b ∷ bs) = b

abbrev types : BitcoinTypes
types = record {
  from_script = payload_of;
  from_slice = first_byte;
  as_bytes = λ h. h ∷ zeros 31;
  script_pubkey = λ a. 0 ∷ a ∷ [];
  op_return_script = λ bytes. 0x6a ∷ 32 ∷ bytes;
}

types-Lawful : Lawful types
types-Lawful = record { sized = λ h. refl; read_back = λ h. refl; pushed = λ bytes e. refl }

abbrev to_payload : ℕ → Option ℕ
to_payload a = some a

-- Requests with the hashes 7 and 8 at the heights 1 and 2; the first is paid in the block at 2.
abbrev open_redeem : ℕ → ℕ → ℕ → ℕ → Listed InterBtcRedeemRequest
open_redeem hash height amount address = record {
  hash = hash;
  request = record {
    opentime = 10;
    btc_height = height;
    period = 100;
    amount_btc = amount;
    btc_address = address;
    vault = 1;
    transfer_fee_btc = 5;
  };
  pending = true;
}

abbrev redeems : List (Listed InterBtcRedeemRequest)
redeems = open_redeem 7 1 30_000 40 ∷ open_redeem 8 2 20_000 50 ∷ []

abbrev paying : Transaction
paying = record {
  txid = 99;
  output =
      record { value = 30_000; script_pubkey = 0 ∷ 40 ∷ [] }
      ∷ record { value = 0; script_pubkey = 0x6a ∷ 32 ∷ 7 ∷ zeros 31 }
      ∷ [];
}

abbrev block : ℕ → Block
block h = record { prev_blockhash = h; txdata = if h == 2 then paying ∷ [] else [] }

abbrev node : BitcoinCoreApi
node = record {
  get_block_count = ok 2;
  get_block_hash = λ h. ok (h + 1);
  get_block = λ x. if leb 1 x then ok (block (x - 1)) else err other;
  get_mempool_transactions = ok [];
}

blocks_known : (h : ℕ) → h ≤ 2 → node.get_block (h + 1) ≡ ok (block h)
blocks_known h l = let e : h + 1 - 1 ≡ h = omega arith in rw e (ground arith)

blocks_linked : (h : ℕ) → h < 2 → (block (suc h)).prev_blockhash ≡ h + 1
blocks_linked h l = omega arith

node_chain : HasChain node 2 (λ h. h + 1) block
node_chain = record {
  count = refl;
  best_fits = omega arith;
  best_hash = refl;
  blocks = blocks_known;
  linked = blocks_linked;
}

lowest_height : min_height (collect_open_requests redeems [] 0) ≡ some 1
unfolding min_height collect_open_requests from_redeem_request calculate_deadline
    duration_to_parachain_blocks parachain_blocks_to_bitcoin_blocks_rounded_up get
lowest_height = refl

execute_open_requests-expected_example :
    (tasks : List Task) × (execute_open_requests types to_payload node
        (1 + 2)
        (ok redeems)
        (ok [])
        0
      ≡ ok tasks)
    × ((h : ℕ)
        → tasks_for h tasks
          ≡ expected types to_payload (open_request redeems [] 0 h) (scanned block 1 1 []))
execute_open_requests-expected_example =
    execute_open_requests-expected types to_payload node 2 (λ h. h + 1) block redeems [] 0 1 1 []
      node_chain (min_height-IsLowest redeems [] 0 1 lowest_height) (omega arith) refl refl

abbrev request : ℕ → ℕ → ℕ → Request
request hash amount address = record {
  hash = hash;
  btc_height = some 1;
  deadline = none;
  amount = amount;
  btc_address = address;
  request_type = redeem;
  vault_id = 1;
  fee_budget = none;
}

abbrev requests : List Request
requests = request 7 30_000 40 ∷ request 8 20_000 50 ∷ []

requests-Distinct : Distinct requests
unfolding get
requests-Distinct = (refl, (refl, tt))

tasks_run :
    spawn_tasks types to_payload (err other ∷ ok paying ∷ []) requests
    ≡ await_payment (request 7 30_000 40) 99 ∷ pay_and_execute (request 8 20_000 50) ∷ []
unfolding spawn_tasks get_request_for_btc_tx get_op_return get_op_return_bytes get
    get_payment_amount_to
tasks_run = refl

spawn_tasks-expected_example :
    tasks_for 7 (spawn_tasks types to_payload (err other ∷ ok paying ∷ []) requests)
    ≡ expected types to_payload (get 7 requests) (err other ∷ ok paying ∷ [])
spawn_tasks-expected_example =
    spawn_tasks-expected types to_payload (err other ∷ ok paying ∷ []) requests 7 requests-Distinct

-- A wallet with one coin of 100,000 satoshis, and the payment of the first request with its change.
abbrev wallet : Wallet
wallet = record {
  addresses = 3 ∷ [];
  get_utxos_for_address = λ address. ok (record { outpoint = 6; value = 100_000 } ∷ []);
  get_script_pubkey = λ outpoint. ok (0 ∷ 3 ∷ []);
  get_pub_key = λ script. ok (2 ∷ 5 ∷ []);
  varint_len = λ n. 1;
  weight = λ inputs outputs. 800;
}

abbrev paid : PartiallySignedTransaction
paid = record {
  inputs =
      record {
        txin = record { previous_output = 6; script_sig = []; witness = [] };
        witness_utxo = record { value = 100_000; script_pubkey = 0 ∷ 3 ∷ [] };
      }
      ∷ [];
  outputs =
      record { value = 30_000; script_pubkey = 0 ∷ 40 ∷ [] }
      ∷ record { value = 0; script_pubkey = 0x6a ∷ 32 ∷ 7 ∷ zeros 31 }
      ∷ record { value = 69_865; script_pubkey = 4 ∷ [] }
      ∷ [];
}

payment_funded :
    fund_transaction wallet
      (create_outputs types 40 (30_000 % 18_446_744_073_709_551_616) (some 7))
      (4 ∷ [])
      1000
    ≡ ok paid
unfolding fund_transaction create_outputs select_utxos add_utxo get_fee txout_serialize_size
    get_effective_value calculate_maximum_signed_input_size get_change add_coin
    calculate_maximum_signed_tx_size map_result get_selected_value
payment_funded = refl

fund_transaction-is_payment_example :
    is_payment types to_payload (request 7 30_000 40) (record { txid = 99; output = paid.outputs })
    ≡ true
unfolding create_outputs get_fee noinputs_size txout_serialize_size
fund_transaction-is_payment_example =
    fund_transaction-is_payment types to_payload wallet (request 7 30_000 40) 40 40 99 1000 (4 ∷ [])
      paid types-Lawful (omega arith) refl refl refl (omega arith) payment_funded (omega arith)
