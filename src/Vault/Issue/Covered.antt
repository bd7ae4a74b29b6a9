-- ===== src/Vault/Issue/Covered.antt =====
-- Which past issue requests are looked for (`add_keys_from_past_issue_request`, vault/src/issue.rs).
use interbtc_clients_cli.Prelude.{
  ℕ, ◌+◌, ◌^◌, ◌≤◌, ◌<◌, ◌≡◌, Option, none, some, List, ok, Member, ◌⊎◌,
}
use interbtc_clients_cli.Vault.Issue.{IssueRequest}
use interbtc_clients_cli.Vault.Issue.Rescan.{Past, Call, rescan_blockchain, rescan_electrs}

-- Where the payment of a request is looked for: in the blocks of the node from a height at or below
-- that of the request up to the one before the newest, or under its address at electrs. An address
-- without a form for the network is left out there.
pub data Covered (to_address : ℕ → Option ℕ) (past : Past) (calls : List Call) (r : IssueRequest)
    : Type 0 where
  by_node :
      (newest last from : ℕ)
      → past.get_block_count ≡ ok newest
      → last + 1 ≡ newest
      → Member (rescan_blockchain from last) calls
      → from ≤ r.btc_height
      → Covered to_address past calls r
  by_electrs :
      (addresses : List ℕ)
      → Member (rescan_electrs addresses) calls
      → (to_address r.btc_address ≡ none)
        ⊎ ((a : ℕ) × (to_address r.btc_address ≡ some a) × Member a addresses)
      → Covered to_address past calls r

-- The height of a block, not that of the first one, is counted in usize.
abbrev pub IsHeight : ℕ → Type 0
IsHeight n = (0 < n) × (n < 2 ^ 64)
