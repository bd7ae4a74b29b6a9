-- ===== src/Vault/Cancellation.antt =====
-- The cancellation of expired issue and replace requests (vault/src/cancellation.rs). The answers
-- of the parachain to the calls made while one event is handled are a `Canceller`; the calls of
-- `cancel_request` are logged in the order in which they are made.
pub mod Cancellers
pub mod Drain
pub mod Refresh
pub mod Blocks
pub mod Runs
pub mod Silence
mod Tests
use interbtc_clients_cli.Prelude.{
  ℕ, zero, suc, ◌+◌, Bool, true, false, not, ◌&&◌, Option, none, some, List, [], ◌∷◌, ◌++◌, Result,
  ok, err, ok_or, ◌>>=◌, map_result, ltb, ◌==◌, if◌then◌else◌, length, get_elem?, select, max,
}
use interbtc_clients_cli.Prelude.Words.{u32_max, checked_add}
use interbtc_clients_cli.Vault.Deadline.{
  Error, arithmetic_overflow, parachain_blocks_to_bitcoin_blocks_rounded_up,
}

-- Request ids and account ids are only compared, so each is a number.
pub data Event : Type 0 where
  opened : Event
  executed : ℕ → Event
  parachain_block : ℕ → Event
  bitcoin_block : ℕ → Event

pub record CancellationScheduler : Type 0 where
  pub vault_id : ℕ
  pub parachain_height : ℕ
  pub bitcoin_height : ℕ

pub record ActiveRequest : Type 0 where
  pub id : ℕ
  pub parachain_deadline_height : ℕ
  pub bitcoin_deadline_height : ℕ

pub record UnconvertedOpenTime : Type 0 where
  pub id : ℕ
  pub parachain_open_height : ℕ
  pub bitcoin_open_height : ℕ
  pub period : ℕ

pub data ListState : Type 0 where
  valid invalid : ListState

-- What the parachain answers while one event is handled.
pub record Canceller : Type 0 where
  pub get_open_requests : ℕ → Result Error (List UnconvertedOpenTime)
  pub get_period : Result Error ℕ
  pub cancel_request : ℕ → Result Error (Unit {0})

unfoldable pub has_expired : ℕ → ℕ → ActiveRequest → Bool
has_expired current_height bitcoin_height request =
    ltb request.parachain_deadline_height current_height
    && ltb request.bitcoin_deadline_height bitcoin_height

-- `Vec::remove`, for an index in range.
pub remove : List ActiveRequest → ℕ → List ActiveRequest
remove [] i = []
remove (r ∷ rs) zero = rs
remove (r ∷ rs) (suc i) = r ∷ remove rs i

-- The `while` loop of `drain_expired`. It has no result where the fuel runs out or an index is out
-- of range, which panics; both do not happen (Drain).
pub drain_loop :
    ℕ
    → ℕ
    → ℕ
    → List ActiveRequest
    → ℕ
    → List ActiveRequest
    → Option (List ActiveRequest × List ActiveRequest)
drain_loop c b zero requests i expired = none
drain_loop c b (suc fuel) requests i expired = elim (i == length requests) [
  | true ↦ some (expired, requests)
  | false ↦ elim (get_elem? requests i) [
    | none ↦ none
    | some r ↦ elim (has_expired c b r) [
      | true ↦ drain_loop c b fuel (remove requests i) i (expired ++ r ∷ [])
      | false ↦ drain_loop c b fuel requests (i + 1) expired
    ]
  ]
]

-- The expired requests, and those that are left in the vector. A round removes a request or passes
-- one, so one round more than there are requests is enough.
unfoldable pub drain_expired :
    List ActiveRequest → ℕ → ℕ → Option (List ActiveRequest × List ActiveRequest)
unfolding drain_loop
drain_expired requests current_height bitcoin_height =
    drain_loop current_height bitcoin_height (suc (length requests)) requests 0 []

-- A call of `cancel_request`, with the heights that the scheduler knew when it made the call.
pub record Call : Type 0 where
  pub request : ActiveRequest
  pub parachain_height : ℕ
  pub bitcoin_height : ℕ

-- The `for` loop of `cancel_requests`, which a failed call ends.
unfoldable pub cancel_each :
    CancellationScheduler → Canceller → List ActiveRequest → ListState × List Call
cancel_each s rpc [] = (valid, [])
cancel_each s rpc (r ∷ rs) =
    let (state, calls) = cancel_each s rpc rs in
    let call : Call = record {
      request = r;
      parachain_height = s.parachain_height;
      bitcoin_height = s.bitcoin_height;
    } in
    elim (rpc.cancel_request r.id) [ ok _ ↦ (state, call ∷ calls) | err _ ↦ (invalid, call ∷ []) ]

-- What the handling of an event leaves: the scheduler, the active requests, the state of the list,
-- and the calls that were made.
pub record Outcome : Type 0 where
  pub scheduler : CancellationScheduler
  pub active_requests : List ActiveRequest
  pub list_state : ListState
  pub calls : List Call

unfoldable pub cancel_requests :
    CancellationScheduler → Canceller → List ActiveRequest → Option Outcome
cancel_requests s rpc active = elim (drain_expired active s.parachain_height s.bitcoin_height) [
  | none ↦ none
  | some (expired, left) ↦
      let (state, calls) = cancel_each s rpc expired in
      some (record { scheduler = s; active_requests = left; list_state = state; calls = calls })
]

-- The closure of `get_open_requests`, for the period of the parachain.
unfoldable pub convert : ℕ → UnconvertedOpenTime → Result Error ActiveRequest
convert global_period u = do
  let period = max global_period u.period
  parachain_deadline ←
      ok_or (checked_add u32_max u.parachain_open_height period) arithmetic_overflow
  period_btc ← parachain_blocks_to_bitcoin_blocks_rounded_up period
  bitcoin_deadline ←
      ok_or (checked_add u32_max u.bitcoin_open_height period_btc) arithmetic_overflow
  ok (record {
    id = u.id;
    parachain_deadline_height = parachain_deadline;
    bitcoin_deadline_height = bitcoin_deadline;
  })

-- The part of `get_open_requests` after the first call, which asks for the period only if there
-- are open requests.
unfoldable pub convert_all :
    Canceller → List UnconvertedOpenTime → Result Error (List ActiveRequest)
convert_all rpc [] = ok []
convert_all rpc (u ∷ us) = do
  global_period ← rpc.get_period
  map_result (convert global_period) (u ∷ us)

unfoldable pub get_open_requests :
    CancellationScheduler → Canceller → Result Error (List ActiveRequest)
unfolding convert_all
get_open_requests s rpc = do
  open_requests ← rpc.get_open_requests s.vault_id
  convert_all rpc open_requests

-- The first part of `process_event`: the list is queried if it is not up to date.
unfoldable pub refresh :
    CancellationScheduler → Canceller → ListState → List ActiveRequest → List ActiveRequest
refresh s rpc valid active = active
refresh s rpc invalid active = elim (get_open_requests s rpc) [ ok x ↦ x | err _ ↦ [] ]

-- The second part: what is done for the event, with the list at hand.
unfoldable pub dispatch :
    CancellationScheduler → Canceller → Event → List ActiveRequest → Option Outcome
dispatch s rpc opened active =
    some (record { scheduler = s; active_requests = active; list_state = invalid; calls = [] })
dispatch s rpc (executed id) active = some (record {
  scheduler = s;
  active_requests = select (λ x. not (x.id == id)) active;
  list_state = valid;
  calls = [];
})
dispatch s rpc (parachain_block height) active =
    cancel_requests (record s { parachain_height = height }) rpc active
dispatch s rpc (bitcoin_block height) active =
    cancel_requests (record s { bitcoin_height = height }) rpc active

unfoldable pub process_event :
    CancellationScheduler → Canceller → Event → List ActiveRequest → ListState → Option Outcome
unfolding dispatch
process_event s rpc event active state = dispatch s rpc event (refresh s rpc state active)

-- The loop of `handle_cancellation` over the events that the channel delivers before it is closed,
-- each with the parachain's answers while it is handled; the calls of the whole run are gathered.
unfoldable pub handle_from : Outcome → List (Event × Canceller) → Option Outcome
handle_from o [] = some o
handle_from o ((event, rpc) ∷ rest) =
    elim (process_event o.scheduler rpc event o.active_requests o.list_state) [
      | none ↦ none
      | some o' ↦ handle_from (record o' { calls = o.calls ++ o'.calls }) rest
    ]

unfoldable pub handle_cancellation :
    CancellationScheduler → List (Event × Canceller) → Option Outcome
unfolding handle_from
handle_cancellation s events =
    handle_from (record { scheduler = s; active_requests = []; list_state = invalid; calls = [] })
      events
