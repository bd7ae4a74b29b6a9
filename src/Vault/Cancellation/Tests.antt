-- ===== src/Vault/Cancellation/Tests.antt =====
-- A scheduler with two open requests (vault/src/cancellation.rs), and the theorems at it.
use interbtc_clients_cli.Prelude.{
  ℕ, ◌≡◌, refl, some, true, not, List, [], ◌∷◌, ok, err, map_result, subst, ◌≤◌, ◌⊎◌, All, AllPairs,
  select, arith, length,
}
use interbtc_clients_cli.Vault.Deadline.{
  runtime_error, parachain_blocks_to_bitcoin_blocks_rounded_up,
}
use interbtc_clients_cli.Vault.Cancellation.{
  ActiveRequest, UnconvertedOpenTime, Canceller, CancellationScheduler, ListState, valid, invalid,
  Event, opened, executed, parachain_block, bitcoin_block, Call, Outcome, has_expired,
  drain_expired, convert, cancel_each, cancel_requests, get_open_requests, refresh, process_event,
  handle_from, handle_cancellation,
}
use interbtc_clients_cli.Vault.Cancellation.Cancellers.{IssuePallet, issue_canceller}
use interbtc_clients_cli.Vault.Cancellation.Drain.{drain_expired_lem}
use interbtc_clients_cli.Vault.Cancellation.Refresh.{Deadlines, get_open_requests-Deadlines}
use interbtc_clients_cli.Vault.Cancellation.Blocks.{IsDue, Handled, process_event-Handled}
use interbtc_clients_cli.Vault.Cancellation.Runs.{handle_cancellation-IsDue}
use interbtc_clients_cli.Vault.Cancellation.Silence.{failed_query-silent}

abbrev scheduler : CancellationScheduler
scheduler = record { vault_id = 9; parachain_height = 100; bitcoin_height = 10 }

abbrev pallet : IssuePallet
pallet = record {
  get_vault_issue_requests = λ _. ok (
      (1, record { is_pending = true; opentime = 50; btc_height = 5; period = 100 })
      ∷ (2, record { is_pending = true; opentime = 90; btc_height = 9; period = 100 })
      ∷ []);
  get_issue_period = ok 100;
  cancel_issue = λ _. ok tt;
}

-- The parachain as it answers, and while its node is away.
abbrev answering : Canceller
answering = issue_canceller pallet

abbrev away : Canceller
away = record {
  get_open_requests = λ _. err runtime_error;
  get_period = err runtime_error;
  cancel_request = λ _. err runtime_error;
}

abbrev first : ActiveRequest
first = record { id = 1; parachain_deadline_height = 150; bitcoin_deadline_height = 7 }

abbrev second : ActiveRequest
second = record { id = 2; parachain_deadline_height = 190; bitcoin_deadline_height = 11 }

open_runs : get_open_requests scheduler answering ≡ ok (first ∷ second ∷ [])
unfolding get_open_requests issue_canceller convert map_result
    parachain_blocks_to_bitcoin_blocks_rounded_up
open_runs = refl

abbrev events : List (Event × Canceller)
events = (parachain_block 160, answering) ∷ (bitcoin_block 12, answering) ∷ []

drain_runs : drain_expired (first ∷ second ∷ []) 160 12 ≡ some (first ∷ [], second ∷ [])
unfolding drain_expired has_expired interbtc_clients_cli.Vault.Cancellation.remove
drain_runs = refl

get_open_requests-Deadlines_example :
    (us : List UnconvertedOpenTime) × (answering.get_open_requests 9 ≡ ok us)
    × ((us ≡ []) × ((first ∷ second ∷ []) ≡ [])
        ⊎ ((g : ℕ) × (answering.get_period ≡ ok g)
            × AllPairs (Deadlines g) us (first ∷ second ∷ [])))
get_open_requests-Deadlines_example = get_open_requests-Deadlines scheduler answering open_runs

drain_expired_lem_example :
    drain_expired (first ∷ second ∷ []) 160 12
    ≡ some (
      select (has_expired 160 12) (first ∷ second ∷ []),
      select (λ r. not (has_expired 160 12 r)) (first ∷ second ∷ []),
    )
drain_expired_lem_example = drain_expired_lem (first ∷ second ∷ []) 160 12

process_event-Handled_example :
    (o : Outcome) × (process_event scheduler answering (bitcoin_block 12) [] invalid ≡ some o)
    × Handled scheduler answering (bitcoin_block 12) (refresh scheduler answering invalid []) o
process_event-Handled_example =
    process_event-Handled scheduler answering (bitcoin_block 12) [] invalid

-- Every request of this parachain has its parachain deadline at height 150 or above.
abbrev IsLate : ActiveRequest → Type 0
IsLate r = 150 ≤ r.parachain_deadline_height

answers-IsLate :
    (s : CancellationScheduler) (xs : List ActiveRequest)
    → s.vault_id ≡ 9
    → get_open_requests s answering ≡ ok xs
    → All IsLate xs
unfolding get_open_requests issue_canceller convert map_result
    parachain_blocks_to_bitcoin_blocks_rounded_up
answers-IsLate s xs v e =
    let same : (first ∷ second ∷ []) ≡ xs = cc in subst (All IsLate) same (omega arith)

handle_cancellation-IsDue_example :
    (o : Outcome) × (handle_cancellation scheduler events ≡ some o)
    × All (λ c. IsDue c × IsLate c.request) o.calls
handle_cancellation-IsDue_example =
    handle_cancellation-IsDue IsLate scheduler events (answers-IsLate, (answers-IsLate, tt))

-- The request that has expired is cancelled.
run_cancels : (o : Outcome) × (handle_cancellation scheduler events ≡ some o) × (length o.calls ≡ 1)
unfolding handle_cancellation process_event refresh cancel_requests cancel_each drain_expired
    has_expired interbtc_clients_cli.Vault.Cancellation.remove get_open_requests issue_canceller
    convert map_result parachain_blocks_to_bitcoin_blocks_rounded_up
run_cancels = (_, refl, refl)

abbrev stale : Outcome
stale = record { scheduler = scheduler; active_requests = []; list_state = invalid; calls = [] }

failed_query-silent_example :
    (o : Outcome) × (handle_from stale ((parachain_block 160, away) ∷ events) ≡ some o)
    × (o.calls ≡ [])
unfolding get_open_requests
failed_query-silent_example =
    failed_query-silent stale (parachain_block 160) away runtime_error events tt refl refl
