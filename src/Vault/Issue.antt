-- ===== src/Vault/Issue.antt =====
-- Issue requests (vault/src/issue.rs): the set of those that are watched, the execution of a request
-- once its payment is seen, and the listeners for the events of the parachain. What the Bitcoin node
-- and the parachain answer is a parameter; ids, addresses, accounts and keys are numbers.
pub mod Listeners
pub mod Run
pub mod Processed
pub mod Once
pub mod Execute
pub mod Rescan
pub mod Listed
pub mod Covered
mod Tests
use interbtc_clients_cli.Prelude.{
  ℕ, ◌+◌, ◌-◌, ◌%◌, ◌^◌, ◌≡◌, max, Bool, true, false, Option, none, some, List, [], ◌∷◌, ◌++◌, map,
  Result, ok, err, ◌>>=◌, ltb, leb, ◌==◌, if◌then◌else◌, select, find_map,
}
use interbtc_clients_cli.Bitcoin.{Transaction}
use interbtc_clients_cli.Bitcoin as Node
use interbtc_clients_cli.Bitcoin.TransactionExt.{
  BitcoinTypes, extract_output_addresses, get_payment_amount_to,
}
use interbtc_clients_cli.Vault.Cancellation.{Event, opened, executed}
use interbtc_clients_cli.Vault.IssueSet.{
  ReversibleHashMap, insert, remove_key, remove_value, get_key_for_value,
}

-- What is read of an issue request of the parachain; `completed` tells its status.
pub record IssueRequest : Type 0 where
  pub vault : ℕ
  pub amount : ℕ
  pub fee : ℕ
  pub btc_address : ℕ
  pub btc_public_key : ℕ
  pub btc_height : ℕ
  pub completed : Bool

-- The failures of the calls; `issue_completed` is what the parachain says of a request that has been
-- executed.
pub data Error : Type 0 where
  issue_completed other : Error

-- `is_issue_completed`
abbrev pub is_issue_completed : Error → Bool
is_issue_completed issue_completed = true
is_issue_completed other = false

-- The requests that are listed are put into the set, and the height to watch from is the lowest of
-- theirs, or that of the chain.
unfoldable pub watch_all : ReversibleHashMap → List (ℕ × IssueRequest) → ReversibleHashMap
watch_all issue_set [] = issue_set
watch_all issue_set ((issue_id, request) ∷ requests) =
    watch_all (insert issue_set issue_id request.btc_address) requests

unfoldable pub min_btc_height : List (ℕ × IssueRequest) → Option ℕ
min_btc_height [] = none
min_btc_height ((issue_id, request) ∷ requests) = elim (min_btc_height requests) [
  | none ↦ some request.btc_height
  | some h ↦ some (if leb request.btc_height h then request.btc_height else h)
]

unfoldable pub start_height : Option ℕ → Result Error ℕ → Result Error ℕ
start_height (some x) get_block_count = ok x
start_height none get_block_count = do count ← get_block_count; ok (count % 2 ^ 32)

unfoldable pub initialize_issue_set :
    Result Error ℕ
    → Result Error (List (ℕ × IssueRequest))
    → ReversibleHashMap
    → Result Error (ReversibleHashMap × ℕ)
unfolding watch_all min_btc_height start_height
initialize_issue_set get_block_count get_all_active_issues issue_set = do
  requests ← get_all_active_issues
  btc_start_height ← start_height (min_btc_height requests) get_block_count
  ok (watch_all issue_set requests, btc_start_height)

-- What is handed to `execute_issue`.
pub record Execution : Type 0 where
  pub issue_id : ℕ
  pub proof : ℕ
  pub raw_tx : ℕ

-- The answers during the processing of one transaction. The request is read twice: when the
-- transaction is seen, and after the relay and the random delay.
pub record Answers : Type 0 where
  pub get_issue_request : ℕ → Result Error IssueRequest
  pub wait_for_block_in_relay : ℕ → ℕ → Result Error (Unit {0})
  pub delay : ℕ → Result Error (Unit {0})
  pub get_issue_request_again : ℕ → Result Error IssueRequest
  pub get_raw_tx : ℕ → ℕ → Result Error ℕ
  pub get_proof : ℕ → ℕ → Result Error ℕ
  pub execute_issue : Execution → Result Error (Unit {0})

-- What the processing of a transaction leaves: the set, the call of `execute_issue` if there was one,
-- and what is returned.
pub record Outcome : Type 0 where
  pub issue_set : ReversibleHashMap
  pub execution : Option Execution
  pub result : Result Error (Unit {0})

-- `issue.amount + issue.fee` as u128
unfoldable pub expected : IssueRequest → ℕ
expected issue = (issue.amount + issue.fee) % 2 ^ 128

-- `get_raw_tx` and `get_proof`
unfoldable pub proven : Answers → ℕ → ℕ → Transaction → Result Error (Option Execution)
proven answers issue_id block_hash tx = do
  raw_tx ← answers.get_raw_tx tx.txid block_hash
  proof ← answers.get_proof tx.txid block_hash
  ok (some (record { issue_id = issue_id; proof = proof; raw_tx = raw_tx }))

-- What follows the removal from the set, up to the call of `execute_issue`.
unfoldable pub prepare : Answers → ℕ → ℕ → ℕ → Transaction → Result Error (Option Execution)
unfolding proven
prepare answers issue_id num_confirmations block_hash tx = do
  relayed ← answers.wait_for_block_in_relay block_hash num_confirmations
  delayed ← answers.delay issue_id
  issue ← answers.get_issue_request_again issue_id
  if issue.completed then ok none else proven answers issue_id block_hash tx

-- The call of `execute_issue`: a request that has been completed is no error.
unfoldable pub submit : Answers → ReversibleHashMap → Result Error (Option Execution) → Outcome
submit answers issue_set (err e) = record {
  issue_set = issue_set;
  execution = none;
  result = err e;
}
submit answers issue_set (ok none) = record {
  issue_set = issue_set;
  execution = none;
  result = ok tt;
}
submit answers issue_set (ok (some execution)) = record {
  issue_set = issue_set;
  execution = some execution;
  result = elim (answers.execute_issue execution) [
    | ok u ↦ ok tt
    | err e ↦ if is_issue_completed e then ok tt else err e
  ];
}

-- The libraries of Bitcoin types, and the addresses of payloads and back, where there are some.
module _ (types : BitcoinTypes) (from_payload to_payload : ℕ → Option ℕ) where
  -- The first output address that is watched, and the request that it is watched for.
  unfoldable pub find_issue : ReversibleHashMap → Transaction → Option (ℕ × ℕ)
  unfolding get_key_for_value
  find_issue issue_set tx =
      find_map
        (λ (payload : ℕ). elim (from_payload payload) [
          | none ↦ none
          | some address ↦ elim (get_key_for_value issue_set address) [
            | none ↦ none
            | some issue_id ↦ some (issue_id, address)
          ]
        ])
        (extract_output_addresses types tx)

  -- What the transaction pays to an address, if the address has a payload.
  unfoldable pub transferred : Transaction → ℕ → Option ℕ
  transferred tx address = elim (to_payload address) [
    | none ↦ none
    | some payload ↦ get_payment_amount_to types tx payload
  ]

  unfoldable pub process_paid :
      Answers → ReversibleHashMap → ℕ → ℕ → Transaction → ℕ × ℕ → IssueRequest → Outcome
  unfolding transferred expected submit prepare
  process_paid answers issue_set num_confirmations block_hash tx (issue_id, address) issue =
      elim (transferred tx address) [
        | none ↦ record { issue_set = issue_set; execution = none; result = ok tt }
        | some amount ↦
            if ltb amount (expected issue)
            then record { issue_set = issue_set; execution = none; result = ok tt }
            else submit answers ((remove_value issue_set address).0)
                (prepare answers issue_id num_confirmations block_hash tx)
      ]

  -- The set is locked from its first reading to the end.
  unfoldable pub process_transaction_and_execute_issue :
      Answers → ReversibleHashMap → ℕ → ℕ → Transaction → Outcome
  unfolding find_issue process_paid
  process_transaction_and_execute_issue answers issue_set num_confirmations block_hash tx =
      elim (find_issue issue_set tx) [
        | none ↦ record { issue_set = issue_set; execution = none; result = ok tt }
        | some (issue_id, address) ↦ elim (answers.get_issue_request issue_id) [
          | err e ↦ record { issue_set = issue_set; execution = none; result = err e }
          | ok issue ↦
              process_paid answers issue_set num_confirmations block_hash tx (issue_id, address)
                issue
        ]
      ]

-- The errors of the service that end the stream of transactions.
pub data ServiceError : Type 0 where
  client_shutdown : ServiceError
  bitcoin_error : Node.Error → ServiceError

-- The transactions for which a task is spawned, and the error that ends the loop.
unfoldable pub process_issue_requests :
    List (Result Node.Error (ℕ × Transaction)) → List (ℕ × Transaction) × ServiceError
process_issue_requests [] = ([], client_shutdown)
process_issue_requests (ok item ∷ items) =
    let (tasks, e) = process_issue_requests items in (item ∷ tasks, e)
process_issue_requests (err e ∷ items) = ([], bitcoin_error e)
