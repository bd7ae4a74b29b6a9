-- ===== src/Vault/Issue/Run.antt =====
-- Runs of the listeners and of the tasks that process transactions, over the set that they share
-- (vault/src/issue.rs). The set is locked during each of the steps, so a run is a list of them.
use interbtc_clients_cli.Prelude.{
  ℕ, ◌+◌, Bool, true, false, Option, none, some, List, [], ◌∷◌, ◌==◌,
}
use interbtc_clients_cli.Bitcoin.{Transaction}
use interbtc_clients_cli.Bitcoin.TransactionExt.{BitcoinTypes}
use interbtc_clients_cli.Vault.IssueSet.{ReversibleHashMap}
use interbtc_clients_cli.Vault.Issue.{
  Answers, Execution, Outcome, process_transaction_and_execute_issue,
}
use interbtc_clients_cli.Vault.Issue.Listeners.{
  RequestIssueEvent, ExecuteIssueEvent, CancelIssueEvent, on_request, on_execute, on_cancel,
}

-- A step: an event, or a transaction in a block with the answers during its processing.
pub data Happening : Type 0 where
  requested : RequestIssueEvent → Happening
  executed : ExecuteIssueEvent → Happening
  cancelled : CancelIssueEvent → Happening
  seen : Answers → ℕ → Transaction → Happening

abbrev pub one_if : Bool → ℕ
one_if true = 1
one_if false = 0

abbrev pub size : Option ℕ → ℕ
size none = 0
size (some v) = 1

-- How often a request is watched: once or not at all.
abbrev pub watched : ReversibleHashMap → ℕ → ℕ
watched m k = size (m.by_key k)

-- How many of some executions are for a request.
unfoldable pub executions : List Execution → ℕ → ℕ
executions [] k = 0
executions (x ∷ xs) k = one_if (x.issue_id == k) + executions xs k

-- How many of the steps request an issue.
unfoldable pub requests : List Happening → ℕ → ℕ
requests [] k = 0
requests (requested e ∷ es) k = one_if (e.issue_id == k) + requests es k
requests (executed e ∷ es) k = requests es k
requests (cancelled e ∷ es) k = requests es k
requests (seen answers block_hash tx ∷ es) k = requests es k

-- The libraries of Bitcoin types and of addresses, those of keys, the account and the wallets of the
-- vault, and the number of confirmations.
module _ (types : BitcoinTypes) (from_payload to_payload from_slice : ℕ → Option ℕ)
    (hash : ℕ → ℕ → ℕ) (own_account : ℕ) (get_vault : ℕ → Option ℕ) (num_confirmations : ℕ) where
  unfoldable pub process : ReversibleHashMap → Answers → ℕ → Transaction → Outcome
  unfolding process_transaction_and_execute_issue
  process issue_set answers block_hash tx =
      process_transaction_and_execute_issue types from_payload to_payload answers issue_set
        num_confirmations block_hash tx

  -- The set after a step.
  unfoldable pub step : ReversibleHashMap → Happening → ReversibleHashMap
  unfolding on_request on_execute on_cancel process
  step issue_set (requested e) = (on_request from_slice hash own_account get_vault issue_set e).1
  step issue_set (executed e) = (on_execute own_account issue_set e).1
  step issue_set (cancelled e) = on_cancel issue_set e
  step issue_set (seen answers block_hash tx) = (process issue_set answers block_hash tx).issue_set

  -- The call of `execute_issue` in a step, if there is one.
  unfoldable pub called : ReversibleHashMap → Happening → Option Execution
  unfolding process
  called issue_set (requested e) = none
  called issue_set (executed e) = none
  called issue_set (cancelled e) = none
  called issue_set (seen answers block_hash tx) =
      (process issue_set answers block_hash tx).execution

  -- The set after some steps, and the calls of `execute_issue` in them.
  unfoldable pub run : ReversibleHashMap → List Happening → ReversibleHashMap × List Execution
  unfolding step called
  run issue_set [] = (issue_set, [])
  run issue_set (x ∷ xs) =
      let (after, calls) = run (step issue_set x) xs in
      (after, elim (called issue_set x) [ none ↦ calls | some call ↦ call ∷ calls ])
