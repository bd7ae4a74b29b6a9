-- ===== src/Vault/Issue/Listeners.antt =====
-- The listeners for the events of issue requests (vault/src/issue.rs). What is done besides the
-- change of the set, in its order: signals to the cancellation scheduler, the publication of the
-- expected balance, and the import of a deposit key into the wallet of the vault.
use interbtc_clients_cli.Prelude.{ℕ, Option, none, some, List, [], ◌∷◌, ◌==◌, if◌then◌else◌}
use interbtc_clients_cli.Vault.Cancellation.{Event, opened, executed}
use interbtc_clients_cli.Vault.IssueSet.{ReversibleHashMap, insert, remove_key}

-- The wallet that a key is imported to, the public key, and the hash it is derived with.
pub data Effect : Type 0 where
  send : Event → Effect
  publish_expected_bitcoin_balance : ℕ → Effect
  import_deposit_key : ℕ → ℕ → ℕ → Effect

-- `RequestIssueEvent`, `ExecuteIssueEvent` and `CancelIssueEvent`
pub record RequestIssueEvent : Type 0 where
  pub account_id : ℕ
  pub vault_id : ℕ
  pub issue_id : ℕ
  pub vault_public_key : ℕ
  pub vault_address : ℕ

pub record ExecuteIssueEvent : Type 0 where
  pub account_id : ℕ
  pub issue_id : ℕ

pub record CancelIssueEvent : Type 0 where
  pub issue_id : ℕ

-- The reading of a public key, if its bytes are one, and the hash of the key and the id (SHA-256).
module _ (from_slice : ℕ → Option ℕ) (hash : ℕ → ℕ → ℕ) where
  -- The call of the wallet of a vault, unless the key is not readable.
  unfoldable pub add_new_deposit_key : ℕ → ℕ → ℕ → List Effect
  add_new_deposit_key btc_rpc secure_id public_key = elim (from_slice public_key) [
    | none ↦ []
    | some key ↦ import_deposit_key btc_rpc key (hash public_key secure_id) ∷ []
  ]

  -- A request to the vault itself, with the wallet for it: without one, it is not watched.
  unfoldable pub on_own_request :
      Option ℕ → ReversibleHashMap → RequestIssueEvent → List Effect × ReversibleHashMap
  unfolding add_new_deposit_key
  on_own_request none issue_set event = ([], issue_set)
  on_own_request (some btc_rpc) issue_set event = (
    send opened
        ∷ publish_expected_bitcoin_balance event.vault_id
        ∷ add_new_deposit_key btc_rpc event.issue_id event.vault_public_key,
    insert issue_set event.issue_id event.vault_address,
  )

  -- The handler of a request.
  unfoldable pub on_request :
      ℕ → (ℕ → Option ℕ) → ReversibleHashMap → RequestIssueEvent → List Effect × ReversibleHashMap
  unfolding on_own_request
  on_request own_account get_vault issue_set event =
      if event.account_id == own_account
      then on_own_request (get_vault event.vault_id) issue_set event
      else ([], insert issue_set event.issue_id event.vault_address)

unfoldable pub on_execute :
    ℕ → ReversibleHashMap → ExecuteIssueEvent → List Effect × ReversibleHashMap
on_execute own_account issue_set event = (
  if event.account_id == own_account then send (executed event.issue_id) ∷ [] else [],
  (remove_key issue_set event.issue_id).0,
)

unfoldable pub on_cancel : ReversibleHashMap → CancelIssueEvent → ReversibleHashMap
on_cancel issue_set event = (remove_key issue_set event.issue_id).0
