-- ===== src/Vault/Issue/Once.antt =====
-- How often a run executes a request (vault/src/issue.rs).
use interbtc_clients_cli.Prelude.{
  ℕ, ◌+◌, ◌≤◌, ◌≡◌, refl, sym, ◌∙◌, ap, subst, Bool, true, false, Option, none, some, List, [], ◌∷◌,
  ◌==◌, if◌then◌else◌, ◌⊎◌, inl, inr, All, arith,
}
use interbtc_clients_cli.Bitcoin.TransactionExt.{BitcoinTypes}
use interbtc_clients_cli.Vault.IssueSet.{
  ReversibleHashMap, insert, forget, put, remove_key, remove_value,
}
use interbtc_clients_cli.Vault.IssueSet.Reversible.{same, apart, equal_or_not, IsReversible}
use interbtc_clients_cli.Vault.IssueSet.Derived.{
  IsDerived, insert-IsDerived, remove_key-IsDerived, remove_value-IsDerived,
}
use interbtc_clients_cli.Vault.Issue.{Execution, Outcome}
use interbtc_clients_cli.Vault.Issue.Listeners.{
  on_own_request, RequestIssueEvent, on_request, on_execute, on_cancel,
}
use interbtc_clients_cli.Vault.Issue.Processed.{Processed, untouched, removed, process-Processed}
use interbtc_clients_cli.Vault.Issue.Run.{
  Happening, requested, executed, cancelled, seen, one_if, size, watched, executions, requests,
  process, step, called, run,
}

size-put :
    (f : ℕ → Option ℕ) (j : ℕ) (o : Option ℕ) (k : ℕ)
    → ((k ≡ j) × (size (put j o f k) ≡ size o)) ⊎ (size (put j o f k) ≡ size (f k))
size-put f j o k = elim (equal_or_not k j) [
  | inl e ↦ inl (e, ap size (subst (λ i. put j o f i ≡ o) (sym e) (same j o f)))
  | inr n ↦ inr (ap size (apart j o f k n))
]

watched-insert :
    (m : ReversibleHashMap) (j v k : ℕ) → watched (insert m j v) k ≤ one_if (j == k) + watched m k
unfolding insert
watched-insert m j v k = elim (size-put m.by_key j (some v) k) [
  | inl (e, w) ↦ (let b : (j == k) ≡ true = ground (arith, e) in ground (arith, b, w))
  | inr w ↦ ground (arith, w)
]

watched-forget : (m : ReversibleHashMap) (j v k : ℕ) → watched (forget m j v) k ≤ watched m k
unfolding forget
watched-forget m j v k = elim (size-put m.by_key j none k) [
  | inl (e, w) ↦ omega (arith, w)
  | inr w ↦ omega (arith, w)
]

watched-forgotten :
    (m : ReversibleHashMap) (j v k : ℕ)
    → m.by_key j ≡ some v
    → one_if (j == k) + watched (forget m j v) k ≤ watched m k
unfolding forget
watched-forgotten m j v k h = elim (equal_or_not j k) [
  | inl e ↦
      (let known : watched m k ≡ 1 = ap size (subst (λ i. m.by_key i ≡ some v) e h) in
        let gone : watched (forget m j v) k ≡ 0 =
          ap size (subst (λ i. put j none m.by_key i ≡ none) e (same j none m.by_key)) in
        let b : (j == k) ≡ true = ground (arith, e) in ground (arith, b, known, gone))
  | inr n ↦
      (let b : (j == k) ≡ false = ground (arith, n) in
        let less = watched-forget m j v k in ground (arith, b, less))
]

-- Whether a step's call is for a request.
abbrev pub calls_for : Option Execution → ℕ → ℕ
calls_for none k = 0
calls_for (some x) k = one_if (x.issue_id == k)

abbrev pub requests_in : Happening → ℕ → ℕ
requests_in (requested e) k = one_if (e.issue_id == k)
requests_in (executed e) k = 0
requests_in (cancelled e) k = 0
requests_in (seen answers block_hash tx) k = 0

watched-remove_key :
    (m : ReversibleHashMap) (j k : ℕ) → watched ((remove_key m j).0) k ≤ watched m k
unfolding remove_key
watched-remove_key m j k = go (m.by_key j)
  where
    go :
        (o : Option ℕ)
        → watched
            ((elim o as (λ _. ReversibleHashMap × Option ℕ) [
              | some v ↦ (forget m j v, some v)
              | none ↦ (m, none)
            ]).0)
            k
          ≤ watched m k
    go none = omega arith
    go (some v) = watched-forget m j v k

watched-remove_value :
    (m : ReversibleHashMap) (a id k : ℕ)
    → m.by_value a ≡ some id
    → m.by_key id ≡ some a
    → one_if (id == k) + watched ((remove_value m a).0) k ≤ watched m k
unfolding remove_value
watched-remove_value m a id k e f = rw (e, remove_value) (watched-forgotten m id a k f)

-- The counts of a request for the processing of a transaction.
Processed-counts :
    (types : BitcoinTypes) (from_payload to_payload : ℕ → Option ℕ) (m : ReversibleHashMap)
    (out : Outcome) (k : ℕ)
    → IsReversible m
    → Processed types from_payload to_payload m out
    → calls_for out.execution k + watched out.issue_set k ≤ watched m k
Processed-counts types from_payload to_payload m out k r (untouched _ e n) = rw (e, n) (omega arith)
Processed-counts types from_payload to_payload m out k r (removed _ id a e s (inl n)) =
    let less = watched-remove_value m a id k e (r.forth id a e) in rw (s, n) (omega (arith, less))
Processed-counts types from_payload to_payload m out k r (removed _ id a e s (inr (x, n, i))) =
    let less = watched-remove_value m a id k e (r.forth id a e) in rw (s, n, i) less

abbrev pub one_or_none : Option Execution → List Execution → List Execution
one_or_none none calls = calls
one_or_none (some call) calls = call ∷ calls

-- A request is for the address that is derived from its id.
abbrev pub IsDerivedRequest : (ℕ → ℕ) → Happening → Type 0
IsDerivedRequest address_of (requested e) = e.vault_address ≡ address_of e.issue_id
IsDerivedRequest address_of (executed e) = Unit {0}
IsDerivedRequest address_of (cancelled e) = Unit {0}
IsDerivedRequest address_of (seen answers block_hash tx) = Unit {0}

module _ (types : BitcoinTypes) (from_payload to_payload from_slice : ℕ → Option ℕ)
    (hash : ℕ → ℕ → ℕ) (own_account : ℕ) (get_vault : ℕ → Option ℕ) (num_confirmations : ℕ) where
  abbrev pub next : ReversibleHashMap → Happening → ReversibleHashMap
  next = step types from_payload to_payload from_slice hash own_account get_vault num_confirmations

  abbrev pub call_in : ReversibleHashMap → Happening → Option Execution
  call_in =
      called types from_payload to_payload from_slice hash own_account get_vault num_confirmations

  abbrev pub through : ReversibleHashMap → List Happening → ReversibleHashMap × List Execution
  through =
      run types from_payload to_payload from_slice hash own_account get_vault num_confirmations

  -- What a request does to the set: it is put in, or nothing changes.
  on_request-cases :
      (m : ReversibleHashMap) (e : RequestIssueEvent)
      → ((on_request from_slice hash own_account get_vault m e).1
          ≡ insert m e.issue_id e.vault_address)
        ⊎ ((on_request from_slice hash own_account get_vault m e).1 ≡ m)
  unfolding on_request on_own_request
  on_request-cases m e = go (e.account_id == own_account) (get_vault e.vault_id)
    where
      after : Bool → Option ℕ → ReversibleHashMap
      after b o =
          (if b
            then on_own_request from_slice hash o m e
            else ([], insert m e.issue_id e.vault_address)).1

      go :
          (b : Bool) (o : Option ℕ)
          → (after b o ≡ insert m e.issue_id e.vault_address) ⊎ (after b o ≡ m)
      go true none = inr refl
      go true (some btc_rpc) = inl refl
      go false o = inl refl

  module _ (address_of : ℕ → ℕ) (injective : (j k : ℕ) → address_of j ≡ address_of k → j ≡ k) where
    step-IsDerived :
        (m : ReversibleHashMap) (x : Happening)
        → IsDerived address_of m
        → IsDerivedRequest address_of x
        → IsDerived address_of (next m x)
    unfolding step on_execute on_cancel process
    step-IsDerived m (requested e) d own = elim (on_request-cases m e) [
      | inl s ↦
          subst (IsDerived address_of) (sym (s ∙ ap (insert m e.issue_id) own))
            (insert-IsDerived address_of injective m e.issue_id d)
      | inr s ↦ subst (IsDerived address_of) (sym s) d
    ]
    step-IsDerived m (executed e) d own = remove_key-IsDerived address_of injective m e.issue_id d
    step-IsDerived m (cancelled e) d own = remove_key-IsDerived address_of injective m e.issue_id d
    step-IsDerived m (seen answers block_hash tx) d own =
        elim (process-Processed types from_payload to_payload answers m num_confirmations block_hash
          tx) [
            | untouched _ s n ↦ subst (IsDerived address_of) (sym s) d
            | removed _ id a e s x ↦
                subst (IsDerived address_of) (sym s)
                  (remove_value-IsDerived address_of injective m a d)
          ]

    -- The counts of a request in a step.
    step-counts :
        (m : ReversibleHashMap) (x : Happening) (k : ℕ)
        → IsReversible m
        → calls_for (call_in m x) k + watched (next m x) k ≤ requests_in x k + watched m k
    unfolding step called on_execute on_cancel process
    step-counts m (requested e) k r = elim (on_request-cases m e) [
      | inl s ↦
          (let less = watched-insert m e.issue_id e.vault_address k in rw (s) (omega (arith, less)))
      | inr s ↦ rw (s) (omega arith)
    ]
    step-counts m (executed e) k r =
        let less = watched-remove_key m e.issue_id k in omega (arith, less)
    step-counts m (cancelled e) k r =
        let less = watched-remove_key m e.issue_id k in omega (arith, less)
    step-counts m (seen answers block_hash tx) k r =
        let less = Processed-counts types from_payload to_payload m _ k r (
          process-Processed types from_payload to_payload answers m num_confirmations block_hash
            tx) in
        omega (arith, less)

    -- Let the address of each request of a run be derived from its id, no two ids having one address,
    -- and let this hold of the set at the start, whose two maps are inverse to each other. Then both
    -- hold of the set after the run, whatever the listeners and the tasks did.
    pub run-IsDerived :
        (m : ReversibleHashMap) (xs : List Happening)
        → IsDerived address_of m
        → All (IsDerivedRequest address_of) xs
        → IsDerived address_of ((through m xs).0)
    unfolding run
    run-IsDerived m [] d all = d
    run-IsDerived m (x ∷ xs) d all = run-IsDerived (next m x) xs (step-IsDerived m x d all.0) all.1

    executions-one_or_none :
        (o : Option Execution) (calls : List Execution) (k : ℕ)
        → executions (elim o as (λ _. List Execution) [ none ↦ calls | some call ↦ call ∷ calls ]) k
          ≡ calls_for o k + executions calls k
    unfolding executions
    executions-one_or_none none calls k = omega arith
    executions-one_or_none (some call) calls k = refl

    executions-run :
        (m : ReversibleHashMap) (x : Happening) (xs : List Happening) (k : ℕ)
        → executions ((through m (x ∷ xs)).1) k
          ≡ calls_for (call_in m x) k + executions ((through (next m x) xs).1) k
    unfolding run
    executions-run m x xs k = executions-one_or_none _ _ k

    requests-cons :
        (x : Happening) (xs : List Happening) (k : ℕ)
        → requests (x ∷ xs) k ≡ requests_in x k + requests xs k
    unfolding requests
    requests-cons (requested e) xs k = refl
    requests-cons (executed e) xs k = omega arith
    requests-cons (cancelled e) xs k = omega arith
    requests-cons (seen answers block_hash tx) xs k = omega arith

    -- Let the address of each request of a run be derived from its id, no two ids having one address,
    -- and let this hold of the set at the start, whose two maps are inverse to each other. Then the
    -- calls of `execute_issue` for an id, and one more if it is watched at the end, are at most the
    -- events that request it, and one more if it was watched at the start. So an issue that is
    -- announced once is executed at most once, whatever transactions pay it.
    pub run-executions :
        (m : ReversibleHashMap) (xs : List Happening) (k : ℕ)
        → IsDerived address_of m
        → All (IsDerivedRequest address_of) xs
        → executions ((through m xs).1) k + watched ((through m xs).0) k
          ≤ requests xs k + watched m k
    unfolding run executions requests
    run-executions m [] k d all = omega arith
    run-executions m (x ∷ xs) k d all =
        let now = step-counts m x k d.reversible in
        let later = run-executions (next m x) xs k (step-IsDerived m x d all.0) all.1 in
        let calls = executions-run m x xs k in
        let asked = requests-cons x xs k in omega (arith, now, later, calls, asked)
