-- ===== src/Vault/Issue/Rescan.antt =====
-- The keys and the payments of past issue requests (`add_keys_from_past_issue_request`,
-- vault/src/issue.rs).
use interbtc_clients_cli.Prelude.{
  ℕ, ◌+◌, ◌-◌, ◌%◌, ◌^◌, max, Option, none, some, List, [], ◌∷◌, ◌++◌, map, Result, ok, err, ltb,
  ◌==◌, if◌then◌else◌, select,
}
use interbtc_clients_cli.Vault.Issue.{IssueRequest, Error, min_btc_height}
use interbtc_clients_cli.Vault.Issue.Listeners.{Effect, add_new_deposit_key}

-- What the node answers: the requests of the account, its heights, and the two ways to look for
-- payments, by the blocks it has stored, and by the addresses at electrs.
pub record Past : Type 0 where
  pub get_vault_issue_requests : Result Error (List (ℕ × IssueRequest))
  pub get_block_count : Result Error ℕ
  pub get_pruned_height : Result Error ℕ
  pub rescan_blockchain : ℕ → ℕ → Result Error (Unit {0})
  pub rescan_electrs_for_addresses : List ℕ → Result Error (Unit {0})

-- The calls, in their order.
pub data Call : Type 0 where
  import : Effect → Call
  rescan_blockchain : ℕ → ℕ → Call
  rescan_electrs : List ℕ → Call

-- `- 1` as usize
unfoldable pub end_height : ℕ → ℕ
end_height count = (count + (2 ^ 64 - 1)) % 2 ^ 64

unfoldable pub of_vault : ℕ → List (ℕ × IssueRequest) → List (ℕ × IssueRequest)
of_vault vault_id = select (λ (x : ℕ × IssueRequest). x.1.vault == vault_id)

module _ (from_slice : ℕ → Option ℕ) (hash : ℕ → ℕ → ℕ) (to_address : ℕ → Option ℕ)
    (btc_rpc : ℕ) where
  unfoldable pub imports : List (ℕ × IssueRequest) → List Call
  imports [] = []
  imports ((issue_id, request) ∷ requests) =
      let rest = imports requests in
      map import (add_new_deposit_key from_slice hash btc_rpc issue_id request.btc_public_key)
      ++ rest

  -- The addresses of the requests from before the height that the node has pruned to.
  unfoldable pub pruned_addresses : ℕ → List (ℕ × IssueRequest) → List ℕ
  pruned_addresses pruned [] = []
  pruned_addresses pruned ((issue_id, request) ∷ requests) =
      let rest = pruned_addresses pruned requests in
      if ltb request.btc_height pruned
      then elim (to_address request.btc_address) [ none ↦ rest | some a ↦ a ∷ rest ]
      else rest

  -- The rescan, and the search at electrs if the start was pruned: the calls, and what is returned.
  unfoldable pub rescan :
      Past → List (ℕ × IssueRequest) → ℕ → ℕ → ℕ → List Call × Result Error (Unit {0})
  unfolding pruned_addresses
  rescan past requests start end pruned =
      let addresses = pruned_addresses pruned requests in
      let from = max start pruned in
      elim (past.rescan_blockchain from end) [
        | err e ↦ (rescan_blockchain from end ∷ [], err e)
        | ok u ↦
            if ltb start pruned
            then (
              rescan_blockchain from end ∷ rescan_electrs addresses ∷ [],
              past.rescan_electrs_for_addresses addresses,
            )
            else (rescan_blockchain from end ∷ [], ok tt)
      ]

  -- What follows the imports.
  unfoldable pub rescan_past :
      Past → List (ℕ × IssueRequest) → ℕ → List Call × Result Error (Unit {0})
  unfolding rescan end_height
  rescan_past past requests start = elim past.get_block_count [
    | err e ↦ ([], err e)
    | ok count ↦ elim past.get_pruned_height [
      | err e ↦ ([], err e)
      | ok pruned ↦ rescan past requests start (end_height count) pruned
    ]
  ]

  unfoldable pub add_keys :
      Past → List (ℕ × IssueRequest) → Option ℕ → List Call × Result Error (Unit {0})
  unfolding imports rescan_past
  add_keys past requests none = ([], ok tt)
  add_keys past requests (some start) =
      let (calls, result) = rescan_past past requests start in (imports requests ++ calls, result)

  unfoldable pub add_keys_from_past_issue_request : Past → ℕ → List Call × Result Error (Unit {0})
  unfolding add_keys of_vault
  add_keys_from_past_issue_request past vault_id = elim past.get_vault_issue_requests [
    | err e ↦ ([], err e)
    | ok listed ↦
        let requests = of_vault vault_id listed in add_keys past requests (min_btc_height requests)
  ]
