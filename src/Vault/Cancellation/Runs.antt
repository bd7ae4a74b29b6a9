-- ===== src/Vault/Cancellation/Runs.antt =====
-- Runs of the scheduler over any events (vault/src/cancellation.rs): the requests it cancels.
use interbtc_clients_cli.Prelude.{
  ℕ, ◌≡◌, refl, ap, ◌∙◌, Bool, some, List, [], ◌∷◌, ◌++◌, map, Result, ok, err, arith, All,
  All-append, select,
}
use interbtc_clients_cli.Vault.Deadline.{Error}
use interbtc_clients_cli.Vault.Cancellation.{
  ActiveRequest, Canceller, CancellationScheduler, ListState, valid, invalid, Event, opened,
  executed, parachain_block, bitcoin_block, Call, Outcome, refresh, handle_from,
  handle_cancellation, get_open_requests,
}
use interbtc_clients_cli.Vault.Cancellation.Blocks.{IsDue, Handled, Attempts, process_event-Handled}

-- A property of requests, which holds of all that the parachain's answers schedule.
module _ (P : ActiveRequest → Type 0) where
  abbrev pub Schedules : ℕ → List (Event × Canceller) → Type 0
  Schedules vault_id [] = Unit
  Schedules vault_id ((_, rpc) ∷ rest) =
      ((s : CancellationScheduler) (xs : List ActiveRequest)
        → s.vault_id ≡ vault_id
        → get_open_requests s rpc ≡ ok xs
        → All P xs)
      × Schedules vault_id rest

  -- What holds between two events.
  pub record Sound (vault_id : ℕ) (o : Outcome) : Type 0 where
    pub same_vault : o.scheduler.vault_id ≡ vault_id
    pub active : All P o.active_requests
    pub made : All (λ c. IsDue c × P c.request) o.calls

  All-select_keep :
      (p : ActiveRequest → Bool) (rs : List ActiveRequest) → All P rs → All P (select p rs)
  All-select_keep p [] h = tt
  All-select_keep p (r ∷ rs) h = ground (arith, All-select_keep p rs h.1)

  refresh-All :
      (s : CancellationScheduler) (rpc : Canceller) (state : ListState)
      (active : List ActiveRequest)
      → ((xs : List ActiveRequest) → get_open_requests s rpc ≡ ok xs → All P xs)
      → All P active
      → All P (refresh s rpc state active)
  unfolding refresh
  refresh-All s rpc valid active answers h = h
  refresh-All s rpc invalid active answers h = go (get_open_requests s rpc) refl
    where
      go :
          (r : Result Error (List ActiveRequest))
          → get_open_requests s rpc ≡ r
          → let xs : List ActiveRequest = elim r [ ok x ↦ x | err _ ↦ [] ] in All P xs
      go (ok xs) e = answers xs e
      go (err _) e = tt

  All-requests :
      (calls : List Call)
      → All P (map (λ (c : Call). c.request) calls)
      → All (λ c. P c.request) calls
  All-requests [] h = tt
  All-requests (c ∷ calls) h = (h.0, All-requests calls h.1)

  All-prefix :
      (done : List ActiveRequest) (bad : ActiveRequest) (untried : List ActiveRequest)
      → All P (done ++ bad ∷ untried)
      → All P (done ++ bad ∷ [])
  All-prefix [] bad untried h = (h.0, tt)
  All-prefix (r ∷ done) bad untried h = (h.0, All-prefix done bad untried h.1)

  Attempts-All :
      (rpc : Canceller) (rs : List ActiveRequest) (state : ListState) (calls : List Call)
      → Attempts rpc rs state calls
      → All P rs
      → All (λ c. P c.request) calls
  Attempts-All rpc rs valid calls a h = All-requests calls (rw a.0 h)
  Attempts-All rpc rs invalid calls (done, bad, untried, e, split, same, _, _) h =
      All-requests calls (rw same (All-prefix done bad untried (rw split at h)))

  All-both :
      (calls : List Call)
      → All IsDue calls
      → All (λ c. P c.request) calls
      → All (λ c. IsDue c × P c.request) calls
  All-both [] d h = tt
  All-both (c ∷ calls) d h = ((d.0, h.0), All-both calls d.1 h.1)

  Handled-Sound :
      (s : CancellationScheduler) (rpc : Canceller) (event : Event) (list : List ActiveRequest)
      (o : Outcome)
      → Handled s rpc event list o
      → All P list
      → Sound s.vault_id o
  Handled-Sound s rpc opened list o (same, left, _, none_made) h = record {
    same_vault = ap (λ (t : CancellationScheduler). t.vault_id) same;
    active = rw left h;
    made = rw none_made tt;
  }
  Handled-Sound s rpc (executed id) list o (same, left, _, _, none_made) h = record {
    same_vault = ap (λ (t : CancellationScheduler). t.vault_id) same;
    active = rw left (All-select_keep _ list h);
    made = rw none_made tt;
  }
  Handled-Sound s rpc (parachain_block height) list o handled h = record {
    same_vault = ap (λ (t : CancellationScheduler). t.vault_id) handled.heights;
    active = rw handled.left (All-select_keep _ list h);
    made =
        All-both o.calls handled.due
          (Attempts-All rpc _ o.list_state o.calls handled.attempts (All-select_keep _ list h));
  }
  Handled-Sound s rpc (bitcoin_block height) list o handled h = record {
    same_vault = ap (λ (t : CancellationScheduler). t.vault_id) handled.heights;
    active = rw handled.left (All-select_keep _ list h);
    made =
        All-both o.calls handled.due
          (Attempts-All rpc _ o.list_state o.calls handled.attempts (All-select_keep _ list h));
  }

  handle_from-Sound :
      (vault_id : ℕ) (o : Outcome) (events : List (Event × Canceller))
      → Schedules vault_id events
      → Sound vault_id o
      → (o' : Outcome) × (handle_from o events ≡ some o') × Sound vault_id o'
  unfolding handle_from
  handle_from-Sound vault_id o [] answers sound = (o, refl, sound)
  handle_from-Sound vault_id o ((event, rpc) ∷ rest) answers sound =
      let list = refresh o.scheduler rpc o.list_state o.active_requests in
      let (next, e, handled) =
        process_event-Handled o.scheduler rpc event o.active_requests o.list_state in
      let new : Sound o.scheduler.vault_id next =
        Handled-Sound o.scheduler rpc event list next handled (
          refresh-All o.scheduler rpc o.list_state o.active_requests
            (λ xs. answers.0 o.scheduler xs sound.same_vault) sound.active) in
      let (o', e', sound') =
        handle_from-Sound vault_id (record next { calls = o.calls ++ next.calls }) rest answers.1
          (record {
            same_vault = new.same_vault ∙ sound.same_vault;
            active = new.active;
            made = All-append _ o.calls next.calls sound.made new.made;
          }) in
      (o', rw (e, handle_from) e', sound')

  -- No request is cancelled early. The scheduler handles any sequence of events to the end, and
  -- whatever holds of all requests that the answers of the parachain schedule for its vault holds of
  -- every request that it calls `cancel_request` for; each call is made when both heights that the
  -- scheduler knows are beyond the request's two deadlines.
  pub handle_cancellation-IsDue :
      (s : CancellationScheduler) (events : List (Event × Canceller))
      → Schedules s.vault_id events
      → (o : Outcome) × (handle_cancellation s events ≡ some o)
        × All (λ c. IsDue c × P c.request) o.calls
  unfolding handle_cancellation
  handle_cancellation-IsDue s events answers =
      let (o, e, sound) =
        handle_from-Sound s.vault_id
          (record { scheduler = s; active_requests = []; list_state = invalid; calls = [] }) events
          answers (record { same_vault = refl; active = tt; made = tt }) in
      (o, e, sound.made)
