-- ===== src/Vault/Issue/Tests.antt =====
-- A vault that sees the request of an issue and two payments for it, and one that looks for a past
-- issue request (vault/src/issue.rs).
use interbtc_clients_cli.Prelude.{
  ℕ, ◌+◌, ◌≤◌, ◌≡◌, refl, Option, none, some, false, List, [], ◌∷◌, ok, ◌↔◌, All, arith,
}
use interbtc_clients_cli.Bitcoin.{Transaction}
use interbtc_clients_cli.Bitcoin.TransactionExt.{
  BitcoinTypes, extract_output_addresses, get_payment_amount_to,
}
use interbtc_clients_cli.Vault.IssueSet.{new, insert, remove_value}
use interbtc_clients_cli.Vault.IssueSet.Reversible.{new-IsReversible}
use interbtc_clients_cli.Vault.IssueSet.Derived.{IsDerived}
use interbtc_clients_cli.Vault.Issue.{
  IssueRequest, Answers, Execution, process_transaction_and_execute_issue,
}
use interbtc_clients_cli.Vault.Issue.Execute.{Due, process_transaction-Due}
use interbtc_clients_cli.Vault.Issue.Run.{
  Happening, requested, seen, executions, watched, requests, run,
}
use interbtc_clients_cli.Vault.Issue.Once.{IsDerivedRequest, run-IsDerived, run-executions}
use interbtc_clients_cli.Vault.Issue.Rescan.{Past}
use interbtc_clients_cli.Vault.Issue.Covered.{Covered}

-- The script of an address is one byte.
abbrev payload_of : List ℕ → Option ℕ
payload_of (a ∷ []) = some a
payload_of _ = none

abbrev types : BitcoinTypes
types = record {
  from_script = payload_of;
  from_slice = λ bytes. 0;
  as_bytes = λ h. h ∷ [];
  script_pubkey = λ a. a ∷ [];
  op_return_script = λ bytes. bytes;
}

abbrev as_is : ℕ → Option ℕ
as_is a = some a

abbrev hash : ℕ → ℕ → ℕ
hash key id = key + id

-- The address of an issue.
abbrev address_of : ℕ → ℕ
address_of id = id + 100

injective : (j k : ℕ) → address_of j ≡ address_of k → j ≡ k
injective j k e = omega (arith, e)

abbrev issue : IssueRequest
issue = record {
  vault = 1;
  amount = 90;
  fee = 10;
  btc_address = 107;
  btc_public_key = 5;
  btc_height = 20;
  completed = false;
}

abbrev answers : Answers
answers = record {
  get_issue_request = λ id. ok issue;
  wait_for_block_in_relay = λ block_hash n. ok tt;
  delay = λ id. ok tt;
  get_issue_request_again = λ id. ok issue;
  get_raw_tx = λ txid block_hash. ok 60;
  get_proof = λ txid block_hash. ok 61;
  execute_issue = λ x. ok tt;
}

abbrev payment : ℕ → Transaction
payment txid = record {
  txid = txid;
  output = record { value = 100; script_pubkey = 107 ∷ [] } ∷ [];
}

abbrev execution : Execution
execution = record { issue_id = 7; proof = 61; raw_tx = 60 }

process_transaction-Due_example :
    (process_transaction_and_execute_issue types as_is as_is answers
        (insert new 7 107)
        6
        99
        (payment 50)).execution
      ≡ some execution
    ↔ Due types as_is as_is answers (insert new 7 107) 6 99 (payment 50) execution
process_transaction-Due_example =
    process_transaction-Due types as_is as_is answers (insert new 7 107) 6 99 (payment 50) execution
      (λ i e. let a : 100 ≡ i.amount + i.fee = cc in omega (arith, a))

-- An event, and two transactions that pay the issue.
abbrev happenings : List Happening
happenings =
    requested (record {
      account_id = 3;
      vault_id = 1;
      issue_id = 7;
      vault_public_key = 5;
      vault_address = 107;
    })
    ∷ seen answers 99 (payment 50)
    ∷ seen answers 98 (payment 51)
    ∷ []

executed_once : executions ((run types as_is as_is as_is hash 4 as_is 6 new happenings).1) 7 ≡ 1
unfolding executions run extract_output_addresses insert get_payment_amount_to remove_value
executed_once = refl

new-IsDerived : IsDerived address_of new
unfolding new
new-IsDerived = record { reversible = new-IsReversible; derived = λ k v h. cc }

happenings-derived : All (IsDerivedRequest address_of) happenings
happenings-derived = (refl, (tt, (tt, tt)))

run-IsDerived_example :
    IsDerived address_of ((run types as_is as_is as_is hash 4 as_is 6 new happenings).0)
run-IsDerived_example =
    run-IsDerived types as_is as_is as_is hash 4 as_is 6 address_of injective new happenings
      new-IsDerived happenings-derived

run-executions_example :
    executions ((run types as_is as_is as_is hash 4 as_is 6 new happenings).1) 7
      + watched ((run types as_is as_is as_is hash 4 as_is 6 new happenings).0) 7
    ≤ requests happenings 7 + watched new 7
run-executions_example =
    run-executions types as_is as_is as_is hash 4 as_is 6 address_of injective new happenings 7
      new-IsDerived happenings-derived

-- The node has pruned up to 30, and the issue is from 20.
abbrev past : Past
past = record {
  get_vault_issue_requests = ok ((7, issue) ∷ []);
  get_block_count = ok 41;
  get_pruned_height = ok 30;
  rescan_blockchain = λ from end. ok tt;
  rescan_electrs_for_addresses = λ addresses. ok tt;
}
