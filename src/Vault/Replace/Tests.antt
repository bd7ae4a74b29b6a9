-- ===== src/Vault/Replace/Tests.antt =====
-- Two vaults for one request, as in the tests of vault/src/replace.rs: the first has not enough
-- collateral, and the second has.
use interbtc_clients_cli.Prelude.{
  ℕ, ◌≡◌, refl, true, false, some, List, [], ◌∷◌, ok, err, ◌==◌, if◌then◌else◌,
}
use interbtc_clients_cli.Vault.Cancellation.{opened}
use interbtc_clients_cli.Vault.Replace.{
  insufficient_funds, Answers, handle_replace_request, on_replace_request, VaultId,
  RequestReplaceEvent, acceptance,
}
use interbtc_clients_cli.Vault.Replace.Accepted.{IsSafe, on_replace_request-IsSafe}

abbrev with_required : ℕ → Answers
with_required required = record {
  get_required_collateral_for_wrapped =
      λ amount currency. ok (if amount == 20 then required else 0);
  get_vault_total_collateral = λ vault_id. ok 100;
  get_required_collateral_for_vault = λ vault_id. ok 50;
  get_new_address = ok 7;
  from_address = λ address. some address;
  accept_replace = λ accept. ok tt;
}

abbrev vault : ℕ → VaultId
vault account = record { account_id = account; collateral_currency = 1; wrapped_currency = 2 }

abbrev event : RequestReplaceEvent
event = record { old_vault_id = vault 9; amount = 20 }

insufficient_balance :
    (handle_replace_request (with_required 51) event (vault 1)).1 ≡ err insufficient_funds
unfolding handle_replace_request
insufficient_balance = refl

sufficient_balance :
    handle_replace_request (with_required 50) event (vault 1)
    ≡ (some (acceptance event (vault 1) 7), ok tt)
unfolding handle_replace_request
sufficient_balance = refl

abbrev vaults : List (VaultId × Answers)
vaults =
    (vault 1, with_required 51) ∷ (vault 2, with_required 50) ∷ (vault 3, with_required 50) ∷ []

announced_once : (on_replace_request false true event vaults).1 ≡ opened ∷ []
unfolding on_replace_request
announced_once = refl

on_replace_request-IsSafe_example :
    IsSafe event
      ((on_replace_request false true event vaults).0)
      ((on_replace_request false true event vaults).1)
    × ((on_replace_request true true event vaults).0 ≡ [])
    × ((on_replace_request false false event vaults).0 ≡ [])
on_replace_request-IsSafe_example = on_replace_request-IsSafe false true event vaults
