-- ===== src/Vault/Cancellation/Blocks.antt =====
-- What the handling of one event does (vault/src/cancellation.rs).
use interbtc_clients_cli.Prelude.{
  ℕ, ◌<◌, ◌≡◌, ◌≢◌, refl, ap, Bool, true, not, some, List, [], ◌∷◌, ◌++◌, map, Result, ok, err,
  arith, ◌==◌, All, select,
}
use interbtc_clients_cli.Vault.Deadline.{Error}
use interbtc_clients_cli.Vault.Cancellation.{
  ActiveRequest, Canceller, CancellationScheduler, ListState, valid, invalid, Event, opened,
  executed, parachain_block, bitcoin_block, Call, Outcome, has_expired, cancel_each,
  cancel_requests, refresh, process_event,
}
use interbtc_clients_cli.Vault.Cancellation.Drain.{drain_expired_lem}

-- What became of the requests to be cancelled. A valid list means that every one of them was
-- cancelled; an invalid one, that the calls went on in order up to the first that failed.
abbrev pub Attempts : Canceller → List ActiveRequest → ListState → List Call → Type 0
Attempts rpc rs valid calls =
    (map (λ (c : Call). c.request) calls ≡ rs) × All (λ r. rpc.cancel_request r.id ≡ ok tt) rs
Attempts rpc rs invalid calls =
    (done : List ActiveRequest) × (bad : ActiveRequest) × (untried : List ActiveRequest)
    × (e : Error) × (rs ≡ done ++ bad ∷ untried)
    × (map (λ (c : Call). c.request) calls ≡ done ++ bad ∷ [])
    × All (λ r. rpc.cancel_request r.id ≡ ok tt) done
    × (rpc.cancel_request bad.id ≡ err e)

-- A call was made at the heights of the scheduler, both of them beyond the request's deadlines.
pub record IsDue (c : Call) : Type 0 where
  pub parachain_passed : c.request.parachain_deadline_height < c.parachain_height
  pub bitcoin_passed : c.request.bitcoin_deadline_height < c.bitcoin_height

cancel_each-Attempts :
    (s : CancellationScheduler) (rpc : Canceller) (rs : List ActiveRequest)
    → Attempts rpc rs (cancel_each s rpc rs).0 (cancel_each s rpc rs).1
unfolding cancel_each
cancel_each-Attempts s rpc [] = (refl, tt)
cancel_each-Attempts s rpc (r ∷ rs) =
    go (rpc.cancel_request r.id) refl (cancel_each s rpc rs).0 (cancel_each s rpc rs).1
      (cancel_each-Attempts s rpc rs)
  where
    go :
        (answer : Result Error (Unit {0}))
        → rpc.cancel_request r.id ≡ answer
        → (state : ListState) (calls : List Call) → Attempts rpc rs state calls
        → let call : Call = record {
          request = r;
          parachain_height = s.parachain_height;
          bitcoin_height = s.bitcoin_height;
        } in
          let result : ListState × List Call = elim answer [
            | ok _ ↦ (state, call ∷ calls)
            | err _ ↦ (invalid, call ∷ [])
          ] in
          Attempts rpc (r ∷ rs) result.0 result.1
    go (ok tt) e valid calls (same, all) = (ap (λ t. r ∷ t) same, (e, all))
    go (ok tt) e invalid calls (done, bad, untried, x, split, same, all, failed) =
        (r ∷ done, bad, untried, x, ap (λ t. r ∷ t) split, ap (λ t. r ∷ t) same, (e, all), failed)
    go (err x) e state calls h = ([], r, rs, x, refl, refl, tt, e)

cancel_each-IsDue :
    (s : CancellationScheduler) (rpc : Canceller) (rs : List ActiveRequest)
    → All (λ r. has_expired s.parachain_height s.bitcoin_height r ≡ true) rs
    → All IsDue (cancel_each s rpc rs).1
unfolding cancel_each has_expired
cancel_each-IsDue s rpc [] h = tt
cancel_each-IsDue s rpc (r ∷ rs) h = ground (arith, cancel_each-IsDue s rpc rs h.1)

All-select :
    (p : ActiveRequest → Bool) (rs : List ActiveRequest) → All (λ r. p r ≡ true) (select p rs)
All-select p [] = tt
All-select p (r ∷ rs) = ground (arith, All-select p rs)

-- The outcome of a block event, for the scheduler with its new height and the list at hand.
pub record BlockHandled (s : CancellationScheduler) (rpc : Canceller) (list : List ActiveRequest)
    (o : Outcome) : Type 0 where
  pub heights : o.scheduler ≡ s
  pub left :
      o.active_requests ≡ select (λ r. not (has_expired s.parachain_height s.bitcoin_height r)) list
  pub attempts :
      Attempts rpc
        (select (has_expired s.parachain_height s.bitcoin_height) list)
        o.list_state
        o.calls
  pub due : All IsDue o.calls

pub cancel_requests-BlockHandled :
    (s : CancellationScheduler) (rpc : Canceller) (list : List ActiveRequest)
    → (o : Outcome) × (cancel_requests s rpc list ≡ some o) × BlockHandled s rpc list o
unfolding cancel_requests
cancel_requests-BlockHandled s rpc list =
    let c = s.parachain_height in
    let b = s.bitcoin_height in
    let expired : List ActiveRequest = select (has_expired c b) list in
    let o : Outcome = record {
      scheduler = s;
      active_requests = select (λ r. not (has_expired c b r)) list;
      list_state = (cancel_each s rpc expired).0;
      calls = (cancel_each s rpc expired).1;
    } in
    (
      o,
      rw (drain_expired_lem list c b, cancel_requests),
      record {
        heights = refl;
        left = refl;
        attempts = cancel_each-Attempts s rpc expired;
        due = cancel_each-IsDue s rpc expired (All-select (has_expired c b) list);
      },
    )

-- What each event promises of its outcome, for the list that the handling works on.
abbrev pub Handled :
    CancellationScheduler → Canceller → Event → List ActiveRequest → Outcome → Type 0
Handled s rpc opened list o =
    (o.scheduler ≡ s) × (o.active_requests ≡ list) × (o.list_state ≡ invalid) × (o.calls ≡ [])
Handled s rpc (executed id) list o =
    (o.scheduler ≡ s)
    × (o.active_requests ≡ select (λ r. not (r.id == id)) list)
    × All (λ r. r.id ≢ id) o.active_requests
    × (o.list_state ≡ valid)
    × (o.calls ≡ [])
Handled s rpc (parachain_block height) list o =
    BlockHandled (record s { parachain_height = height }) rpc list o
Handled s rpc (bitcoin_block height) list o =
    BlockHandled (record s { bitcoin_height = height }) rpc list o

All-select_ne :
    (id : ℕ) (rs : List ActiveRequest) → All (λ r. r.id ≢ id) (select (λ r. not (r.id == id)) rs)
All-select_ne id [] = tt
All-select_ne id (r ∷ rs) = ground (arith, All-select_ne id rs)

-- Handling an event always ends, whatever the parachain answers, and works on the list that
-- `refresh` gives. A block
-- updates its height alone; then exactly the requests that are expired at the two heights leave the
-- list, cancellation is tried in order, at these heights and up to the first failure, and the list
-- stays valid exactly if all calls succeeded. An execution takes the request out and makes no call.
-- An opening makes no call and has the list queried at the next event.
pub process_event-Handled :
    (s : CancellationScheduler) (rpc : Canceller) (event : Event) (active : List ActiveRequest)
    (state : ListState)
    → (o : Outcome) × (process_event s rpc event active state ≡ some o)
      × Handled s rpc event (refresh s rpc state active) o
unfolding process_event
process_event-Handled s rpc opened active state = (_, refl, (refl, refl, refl, refl))
process_event-Handled s rpc (executed id) active state =
    (_, refl, (refl, refl, All-select_ne id (refresh s rpc state active), refl, refl))
process_event-Handled s rpc (parachain_block height) active state =
    cancel_requests-BlockHandled (record s { parachain_height = height }) rpc
      (refresh s rpc state active)
process_event-Handled s rpc (bitcoin_block height) active state =
    cancel_requests-BlockHandled (record s { bitcoin_height = height }) rpc
      (refresh s rpc state active)
