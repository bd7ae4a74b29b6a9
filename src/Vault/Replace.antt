-- ===== src/Vault/Replace.antt =====
-- Replace requests (vault/src/replace.rs): the acceptance of a request by one of the vaults of the
-- client, and the listeners. What the parachain and the wallets answer is a parameter; ids, accounts and
-- addresses are numbers.
pub mod Accepted
mod Tests
use interbtc_clients_cli.Prelude.{
  ℕ, Bool, true, false, Option, none, some, List, [], ◌∷◌, Result, ok, err, ◌>>=◌, ltb, ◌==◌,
  if◌then◌else◌,
}
use interbtc_clients_cli.Prelude.Words.{u128_max, saturating_add}
use interbtc_clients_cli.Vault.Cancellation.{Event, opened, executed}

-- The errors that are raised or passed on.
pub data Error : Type 0 where
  insufficient_funds conversion other : Error

pub record VaultId : Type 0 where
  pub account_id : ℕ
  pub collateral_currency : ℕ
  pub wrapped_currency : ℕ

-- The fields that the handler reads of the event.
pub record RequestReplaceEvent : Type 0 where
  pub old_vault_id : VaultId
  pub amount : ℕ

-- The arguments of a call of `accept_replace`.
pub record AcceptReplace : Type 0 where
  pub new_vault_id : VaultId
  pub old_vault_id : VaultId
  pub amount_btc : ℕ
  pub collateral : ℕ
  pub btc_address : ℕ

-- What is answered while one vault handles a request: the collateral for an amount in a currency, that
-- of a vault and what it needs, a new address of the wallet, in the form for the parachain if there
-- is one, and a call of `accept_replace`.
pub record Answers : Type 0 where
  pub get_required_collateral_for_wrapped : ℕ → ℕ → Result Error ℕ
  pub get_vault_total_collateral : VaultId → Result Error ℕ
  pub get_required_collateral_for_vault : VaultId → Result Error ℕ
  pub get_new_address : Result Error ℕ
  pub from_address : ℕ → Option ℕ
  pub accept_replace : AcceptReplace → Result Error (Unit {0})

-- `BtcAddress::from_address` of a new address
unfoldable pub new_address : Answers → Result Error ℕ
new_address answers = do
  address ← answers.get_new_address
  elim (answers.from_address address) [ none ↦ err conversion | some a ↦ ok a ]

-- The address that the request is to be accepted with, if the collateral is enough.
unfoldable pub address_for_replace : Answers → RequestReplaceEvent → VaultId → Result Error ℕ
unfolding new_address
address_for_replace answers event vault_id = do
  required_replace_collateral ←
      answers.get_required_collateral_for_wrapped event.amount vault_id.collateral_currency
  current_collateral ← answers.get_vault_total_collateral vault_id
  used_collateral ← answers.get_required_collateral_for_vault vault_id
  let total_required_collateral =
      saturating_add u128_max required_replace_collateral used_collateral
  if ltb current_collateral total_required_collateral
      then err insufficient_funds
      else new_address answers

-- The call for a vault with a new address; no additional collateral is locked.
abbrev pub acceptance : RequestReplaceEvent → VaultId → ℕ → AcceptReplace
acceptance event vault_id address = record {
  new_vault_id = vault_id;
  old_vault_id = event.old_vault_id;
  amount_btc = event.amount;
  collateral = 0;
  btc_address = address;
}

-- The call of `accept_replace`, if there is one, and what is returned.
unfoldable pub handle_replace_request :
    Answers → RequestReplaceEvent → VaultId → Option AcceptReplace × Result Error (Unit {0})
unfolding address_for_replace
handle_replace_request answers event vault_id = elim (address_for_replace answers event vault_id) [
  | err e ↦ (none, err e)
  | ok address ↦ (
    some (acceptance event vault_id address),
    answers.accept_replace (acceptance event vault_id address),
  )
]

-- A call of `accept_replace`, and what is answered for its vault.
pub record Call : Type 0 where
  pub accept : AcceptReplace
  pub answers : Answers

abbrev pub with_call : Answers → Option AcceptReplace → List Call → List Call
with_call answers none calls = calls
with_call answers (some accept) calls = record { accept = accept; answers = answers } ∷ calls

-- The loop over the vaults of the client: the calls, and the events that are sent.
unfoldable pub try_vaults : RequestReplaceEvent → List (VaultId × Answers) → List Call × List Event
unfolding handle_replace_request
try_vaults event [] = ([], [])
try_vaults event ((vault_id, answers) ∷ vaults) =
    let (calls, events) = try_vaults event vaults in
    let (call, result) = handle_replace_request answers event vault_id in
    elim result [
      | ok u ↦ (with_call answers call [], opened ∷ [])
      | err e ↦ (with_call answers call calls, events)
    ]

-- The handler of a request to replace a vault, which may be the client's own.
unfoldable pub on_replace_request :
    Bool → Bool → RequestReplaceEvent → List (VaultId × Answers) → List Call × List Event
unfolding try_vaults
on_replace_request is_this_vault accept_replace_requests event vaults =
    if is_this_vault
    then ([], [])
    else (if accept_replace_requests then try_vaults event vaults else ([], []))

-- The handler of the execution of a request: the account of the new vault, and the own one.
unfoldable pub on_execute_replace : ℕ → ℕ → ℕ → List Event
on_execute_replace own_account new_account replace_id =
    if new_account == own_account then executed replace_id ∷ [] else []
