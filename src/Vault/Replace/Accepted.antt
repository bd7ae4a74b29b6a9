-- ===== src/Vault/Replace/Accepted.antt =====
-- Which replace requests a client accepts (vault/src/replace.rs).
use interbtc_clients_cli.Prelude.{
  ℕ, ◌+◌, ◌≤◌, ◌≡◌, refl, ap, Bool, true, false, Option, none, some, List, [], ◌∷◌, Result, ok, err,
  ltb, if◌then◌else◌, All, ◌⊎◌, length, bind-ok, arith,
}
use interbtc_clients_cli.Prelude.Words.{u128_max, saturating_add}
use interbtc_clients_cli.Vault.Cancellation.{Event, opened}
use interbtc_clients_cli.Vault.Replace.{
  Error, insufficient_funds, Answers, new_address, address_for_replace, handle_replace_request,
  VaultId, RequestReplaceEvent, AcceptReplace, acceptance, Call, with_call, try_vaults,
  on_replace_request,
}

-- The collateral of the vault of a call covers what the vault has issued and what it would take over,
-- or is the largest amount there is.
pub record IsCovered (call : Call) : Type 0 where
  pub required : ℕ
  pub used : ℕ
  pub total : ℕ
  pub for_replace :
      call.answers.get_required_collateral_for_wrapped call.accept.amount_btc
        call.accept.new_vault_id.collateral_currency
      ≡ ok required
  pub for_vault : call.answers.get_required_collateral_for_vault call.accept.new_vault_id ≡ ok used
  pub held : call.answers.get_vault_total_collateral call.accept.new_vault_id ≡ ok total
  pub enough : (required + used ≤ total) ⊎ (u128_max ≤ total)

abbrev pub succeeded : Result Error (Unit {0}) → ℕ
succeeded (ok u) = 1
succeeded (err e) = 0

-- How many of some calls were accepted by the parachain.
abbrev pub successes : List Call → ℕ
successes [] = 0
successes (call ∷ calls) = succeeded (call.answers.accept_replace call.accept) + successes calls

address-IsCovered :
    (event : RequestReplaceEvent) (vault_id : VaultId) (answers : Answers) (address : ℕ)
    → address_for_replace answers event vault_id ≡ ok address
    → IsCovered (record { accept = acceptance event vault_id address; answers = answers })
unfolding address_for_replace
address-IsCovered event vault_id answers address h =
    let (required, e, h1) = bind-ok _ _ address h in
    let (total, e', h2) = bind-ok (answers.get_vault_total_collateral vault_id) _ address h1 in
    let (used, e'', h3) =
      bind-ok (answers.get_required_collateral_for_vault vault_id) _ address h2 in
    record {
      required = required;
      used = used;
      total = total;
      for_replace = e;
      for_vault = e'';
      held = e';
      enough = test required used total (ltb total (saturating_add u128_max required used)) refl h3;
    }
  where
    test :
        (required used total : ℕ)
        → (b : Bool) → ltb total (saturating_add u128_max required used) ≡ b
        → (if b then err insufficient_funds else new_address answers) ≡ ok address
        → (required + used ≤ total) ⊎ (u128_max ≤ total)
    test required used total true e h = cc
    test required used total false e h = ground (arith, e)

-- A call takes over the amount of the request from its vault, without more collateral.
abbrev pub IsAsked : RequestReplaceEvent → Call → Type 0
IsAsked event call =
    (call.accept.old_vault_id ≡ event.old_vault_id)
    × (call.accept.amount_btc ≡ event.amount)
    × (call.accept.collateral ≡ 0)

-- What holds of the calls and the events of a request.
pub record IsSafe (event : RequestReplaceEvent) (calls : List Call) (events : List Event)
    : Type 0 where
  pub covered : All IsCovered calls
  pub asked : All (IsAsked event) calls
  pub announced : length events ≡ successes calls
  pub once : successes calls ≤ 1

try_vaults-IsSafe :
    (event : RequestReplaceEvent) (vaults : List (VaultId × Answers))
    → IsSafe event ((try_vaults event vaults).0) ((try_vaults event vaults).1)
unfolding try_vaults handle_replace_request
try_vaults-IsSafe event [] = record {
  covered = tt;
  asked = tt;
  announced = refl;
  once = omega arith;
}
try_vaults-IsSafe event ((vault_id, answers) ∷ vaults) =
    asked (address_for_replace answers event vault_id) refl (try_vaults-IsSafe event vaults)
  where
    calls : List Call
    calls = (try_vaults event vaults).0

    events : List Event
    events = (try_vaults event vaults).1

    call_of : ℕ → Call
    call_of address = record { accept = acceptance event vault_id address; answers = answers }

    outcome : Option AcceptReplace → Result Error (Unit {0}) → List Call × List Event
    outcome call result = elim result as (λ _. List Call × List Event) [
      | ok u ↦ (with_call answers call [], opened ∷ [])
      | err e ↦ (with_call answers call calls, events)
    ]

    accepted :
        (address : ℕ) (r : Result Error (Unit {0}))
        → address_for_replace answers event vault_id ≡ ok address
        → answers.accept_replace (acceptance event vault_id address) ≡ r
        → IsSafe event calls events
        → IsSafe event
            ((outcome (some (acceptance event vault_id address)) r).0)
            ((outcome (some (acceptance event vault_id address)) r).1)
    accepted address (ok u) e e' safe =
        let count : succeeded (answers.accept_replace (acceptance event vault_id address)) ≡ 1 =
          ap succeeded e' in
        record {
          covered = (address-IsCovered event vault_id answers address e, tt);
          asked = ((refl, refl, refl), tt);
          announced = omega (arith, count);
          once = omega (arith, count);
        }
    accepted address (err f) e e' safe =
        let count : succeeded (answers.accept_replace (acceptance event vault_id address)) ≡ 0 =
          ap succeeded e' in
        let before = safe.announced in
        let once = safe.once in
        record {
          covered = (address-IsCovered event vault_id answers address e, safe.covered);
          asked = ((refl, refl, refl), safe.asked);
          announced = omega (arith, count, before);
          once = omega (arith, count, once);
        }

    pair : Result Error ℕ → Option AcceptReplace × Result Error (Unit {0})
    pair r = elim r as (λ _. Option AcceptReplace × Result Error (Unit {0})) [
      | err e ↦ (none, err e)
      | ok address ↦ (
        some (acceptance event vault_id address),
        answers.accept_replace (acceptance event vault_id address),
      )
    ]

    asked :
        (r : Result Error ℕ)
        → address_for_replace answers event vault_id ≡ r
        → IsSafe event calls events
        → IsSafe event ((outcome (pair r).0 (pair r).1).0) ((outcome (pair r).0 (pair r).1).1)
    asked (err f) e safe = safe
    asked (ok address) e safe =
        accepted address (answers.accept_replace (acceptance event vault_id address)) e refl safe

-- For a request to replace a vault, `accept_replace` is called only for vaults whose collateral covers
-- both what they have issued and the amount of the request (or is the largest u128), and for this
-- amount of the vault to be replaced, without additional collateral; at most one of these calls
-- succeeds, and the scheduler is told of a new request once for each that succeeds. There is no call if
-- the request is one of the client itself, or if the client is not to accept requests.
pub on_replace_request-IsSafe :
    (is_this_vault accept_replace_requests : Bool) (event : RequestReplaceEvent)
    (vaults : List (VaultId × Answers))
    → IsSafe event
        ((on_replace_request is_this_vault accept_replace_requests event vaults).0)
        ((on_replace_request is_this_vault accept_replace_requests event vaults).1)
      × ((on_replace_request true accept_replace_requests event vaults).0 ≡ [])
      × ((on_replace_request is_this_vault false event vaults).0 ≡ [])
unfolding on_replace_request
on_replace_request-IsSafe true accept event vaults = (nothing, refl, refl)
  where
    nothing : IsSafe event [] []
    nothing = record { covered = tt; asked = tt; announced = refl; once = omega arith }
on_replace_request-IsSafe false false event vaults = (nothing, refl, refl)
  where
    nothing : IsSafe event [] []
    nothing = record { covered = tt; asked = tt; announced = refl; once = omega arith }
on_replace_request-IsSafe false true event vaults = (try_vaults-IsSafe event vaults, refl, refl)
