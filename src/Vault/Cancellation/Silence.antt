-- ===== src/Vault/Cancellation/Silence.antt =====
-- What follows a failed query of the open requests (vault/src/cancellation.rs).
use mathlib.Core.List.{append-nil}
use interbtc_clients_cli.Prelude.{◌≡◌, refl, some, List, [], ◌∷◌, ◌++◌, err, ◌∙◌}
use interbtc_clients_cli.Vault.Deadline.{Error}
use interbtc_clients_cli.Vault.Cancellation.{
  ActiveRequest, Canceller, CancellationScheduler, valid, invalid, Event, opened, executed,
  parachain_block, bitcoin_block, Call, Outcome, cancel_each, cancel_requests, drain_expired,
  refresh, process_event, handle_from, get_open_requests,
}

-- No event of the sequence is an opening.
abbrev pub NoOpening : List (Event × Canceller) → Type 0
NoOpening [] = Unit
NoOpening ((opened, _) ∷ rest) = ⊥
NoOpening ((executed _, _) ∷ rest) = NoOpening rest
NoOpening ((parachain_block _, _) ∷ rest) = NoOpening rest
NoOpening ((bitcoin_block _, _) ∷ rest) = NoOpening rest

-- The list is empty and counts as up to date.
abbrev pub forgotten : CancellationScheduler → List Call → Outcome
forgotten s calls = record {
  scheduler = s;
  active_requests = [];
  list_state = valid;
  calls = calls;
}

forgotten-silent :
    (s : CancellationScheduler) (calls : List Call) (events : List (Event × Canceller))
    → NoOpening events
    → (s' : CancellationScheduler) × (handle_from (forgotten s calls) events
        ≡ some (forgotten s' calls))
unfolding handle_from process_event refresh cancel_requests cancel_each drain_expired
forgotten-silent s calls [] h = (s, refl)
forgotten-silent s calls ((opened, _) ∷ rest) h = absurd h
forgotten-silent s calls ((executed id, rpc) ∷ rest) h =
    rw (append-nil calls) (forgotten-silent s calls rest h)
forgotten-silent s calls ((parachain_block k, rpc) ∷ rest) h =
    rw (append-nil calls) (forgotten-silent (record s { parachain_height = k }) calls rest h)
forgotten-silent s calls ((bitcoin_block k, rpc) ∷ rest) h =
    rw (append-nil calls) (forgotten-silent (record s { bitcoin_height = k }) calls rest h)

-- The query fails at an event that is no opening.
query_fails :
    (s : CancellationScheduler) (rpc : Canceller) (event : Event) (active : List ActiveRequest)
    (e : Error)
    → NoOpening ((event, rpc) ∷ [])
    → get_open_requests s rpc ≡ err e
    → (s' : CancellationScheduler) × (process_event s rpc event active invalid
        ≡ some (forgotten s' []))
unfolding process_event refresh cancel_requests cancel_each drain_expired
query_fails s rpc opened active e h failed = absurd h
query_fails s rpc (executed id) active e h failed = (s, rw (failed, refresh))
query_fails s rpc (parachain_block k) active e h failed =
    (record s { parachain_height = k }, rw (failed, refresh))
query_fails s rpc (bitcoin_block k) active e h failed =
    (record s { bitcoin_height = k }, rw (failed, refresh))

NoOpening-split :
    (event : Event) (rpc : Canceller) (rest : List (Event × Canceller))
    → NoOpening ((event, rpc) ∷ rest)
    → NoOpening ((event, rpc) ∷ []) × NoOpening rest
NoOpening-split opened rpc rest h = absurd h
NoOpening-split (executed id) rpc rest h = (tt, h)
NoOpening-split (parachain_block k) rpc rest h = (tt, h)
NoOpening-split (bitcoin_block k) rpc rest h = (tt, h)

handle_from_step :
    (o next : Outcome) (event : Event) (rpc : Canceller) (rest : List (Event × Canceller))
    → process_event o.scheduler rpc event o.active_requests o.list_state ≡ some next
    → handle_from o ((event, rpc) ∷ rest)
      ≡ handle_from (record next { calls = o.calls ++ next.calls }) rest
unfolding handle_from
handle_from_step o next event rpc rest e = rw (e, handle_from)

-- A failed query is not repeated. If the list is out of date and the query at the next event fails,
-- where that event is a block or an execution, then no request is cancelled any more: for as long
-- as no opening is signalled, the scheduler makes no further call at all, whatever blocks arrive
-- and whatever the parachain would answer.
pub failed_query-silent :
    (o : Outcome) (event : Event) (rpc : Canceller) (e : Error) (rest : List (Event × Canceller))
    → NoOpening ((event, rpc) ∷ rest)
    → o.list_state ≡ invalid
    → get_open_requests o.scheduler rpc ≡ err e
    → (o' : Outcome) × (handle_from o ((event, rpc) ∷ rest) ≡ some o') × (o'.calls ≡ o.calls)
failed_query-silent o event rpc e rest h stale failed =
    let (quiet, quiet_rest) = NoOpening-split event rpc rest h in
    let (s', run) = query_fails o.scheduler rpc event o.active_requests e quiet failed in
    let step : handle_from o ((event, rpc) ∷ rest)
        ≡ handle_from (forgotten s' (o.calls ++ [])) rest =
      handle_from_step o (forgotten s' []) event rpc rest (rw stale run) in
    let (s'', runs) = forgotten-silent s' (o.calls ++ []) rest quiet_rest in
    (forgotten s'' (o.calls ++ []), step ∙ runs, append-nil o.calls)
