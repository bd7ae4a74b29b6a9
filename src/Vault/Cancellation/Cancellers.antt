-- ===== src/Vault/Cancellation/Cancellers.antt =====
-- The two implementations of `Canceller` (vault/src/cancellation.rs), over the answers of the
-- parachain's issue and replace pallets.
use interbtc_clients_cli.Prelude.{ℕ, Bool, List, map, Result, ok, ◌>>=◌, select}
use interbtc_clients_cli.Vault.Deadline.{Error}
use interbtc_clients_cli.Vault.Cancellation.{UnconvertedOpenTime, Canceller}

-- The fields that the code reads. `is_pending` is the outcome of the comparison of the status with
-- `Pending`.
pub record InterBtcIssueRequest : Type 0 where
  pub is_pending : Bool
  pub opentime : ℕ
  pub btc_height : ℕ
  pub period : ℕ

pub record InterBtcReplaceRequest : Type 0 where
  pub is_pending : Bool
  pub accept_time : ℕ
  pub btc_height : ℕ
  pub period : ℕ

-- The answers of the pallets' storage queries and extrinsics.
pub record IssuePallet : Type 0 where
  pub get_vault_issue_requests : ℕ → Result Error (List (ℕ × InterBtcIssueRequest))
  pub get_issue_period : Result Error ℕ
  pub cancel_issue : ℕ → Result Error (Unit {0})

pub record ReplacePallet : Type 0 where
  pub get_new_vault_replace_requests : ℕ → Result Error (List (ℕ × InterBtcReplaceRequest))
  pub get_replace_period : Result Error ℕ
  pub cancel_replace : ℕ → Result Error (Unit {0})

abbrev pub issue_open_time : ℕ × InterBtcIssueRequest → UnconvertedOpenTime
issue_open_time (id, issue) = record {
  id = id;
  parachain_open_height = issue.opentime;
  bitcoin_open_height = issue.btc_height;
  period = issue.period;
}

abbrev pub replace_open_time : ℕ × InterBtcReplaceRequest → UnconvertedOpenTime
replace_open_time (id, replace) = record {
  id = id;
  parachain_open_height = replace.accept_time;
  bitcoin_open_height = replace.btc_height;
  period = replace.period;
}

unfoldable pub issue_canceller : IssuePallet → Canceller
issue_canceller p = record {
  get_open_requests = λ vault_id. p.get_vault_issue_requests vault_id >>= λ ret.
      ok (map issue_open_time (select (λ e. e.1.is_pending) ret));
  get_period = p.get_issue_period;
  cancel_request = p.cancel_issue;
}

unfoldable pub replace_canceller : ReplacePallet → Canceller
replace_canceller p = record {
  get_open_requests = λ vault_id. p.get_new_vault_replace_requests vault_id >>= λ ret.
      ok (map replace_open_time (select (λ e. e.1.is_pending) ret));
  get_period = p.get_replace_period;
  cancel_request = p.cancel_replace;
}
