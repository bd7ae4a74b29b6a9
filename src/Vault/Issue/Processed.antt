-- ===== src/Vault/Issue/Processed.antt =====
-- What the processing of a transaction does to the set of issue requests, and what it executes
-- (vault/src/issue.rs).
use interbtc_clients_cli.Prelude.{
  ℕ, ◌≡◌, refl, ◌∙◌, Bool, true, false, Option, none, some, List, [], ◌∷◌, Result, ok, err,
  find_map, ltb, if◌then◌else◌, ◌⊎◌, inl, inr,
}
use interbtc_clients_cli.Bitcoin.{Transaction}
use interbtc_clients_cli.Bitcoin.TransactionExt.{BitcoinTypes, extract_output_addresses}
use interbtc_clients_cli.Vault.IssueSet.{ReversibleHashMap, remove_value, get_key_for_value}
use interbtc_clients_cli.Vault.Issue.{
  IssueRequest, Error, Answers, Execution, Outcome, prepare, submit, transferred, expected,
  find_issue, process_paid, process_transaction_and_execute_issue,
}
use interbtc_clients_cli.Vault.Issue.Execute.{prepare-Ready}

find_map-found :
    (f : ℕ → Option (ℕ × ℕ)) (xs : List ℕ) (y : ℕ × ℕ)
    → find_map f xs ≡ some y
    → (x : ℕ) × (f x ≡ some y)
find_map-found f [] y h = cc
find_map-found f (x ∷ xs) y h = go (f x) refl (find_map-found f xs y) h
  where
    go :
        (o : Option (ℕ × ℕ))
        → f x ≡ o
        → (find_map f xs ≡ some y → (x : ℕ) × (f x ≡ some y))
        → elim o [ some z ↦ some z | none ↦ find_map f xs ] ≡ some y
        → (x : ℕ) × (f x ≡ some y)
    go none e ih h = ih h
    go (some z) e ih h = (x, e ∙ h)

module _ (types : BitcoinTypes) (from_payload to_payload : ℕ → Option ℕ) where
  find_issue-watched :
      (m : ReversibleHashMap) (tx : Transaction) (id address : ℕ)
      → find_issue types from_payload to_payload m tx ≡ some (id, address)
      → m.by_value address ≡ some id
  unfolding find_issue get_key_for_value
  find_issue-watched m tx id address h =
      let (payload, e) =
        find_map-found
          (λ (payload : ℕ). elim (from_payload payload) [
            | none ↦ none
            | some address ↦ elim (m.by_value address) [
              | none ↦ none
              | some issue_id ↦ some (issue_id, address)
            ]
          ])
          (extract_output_addresses types tx) (id, address) h in
      ask (from_payload payload) e
    where
      known :
          (a : ℕ) (o : Option ℕ)
          → m.by_value a ≡ o
          → elim o as (λ _. Option (ℕ × ℕ)) [ none ↦ none | some issue_id ↦ some (issue_id, a) ]
            ≡ some (id, address)
          → m.by_value address ≡ some id
      known a none e h = cc
      known a (some i) e h = cc

      ask :
          (o : Option ℕ)
          → elim o as (λ _. Option (ℕ × ℕ)) [
            | none ↦ none
            | some a ↦ elim (m.by_value a) as (λ _. Option (ℕ × ℕ)) [
              | none ↦ none
              | some issue_id ↦ some (issue_id, a)
            ]
          ]
            ≡ some (id, address)
          → m.by_value address ≡ some id
      ask none h = cc
      ask (some a) h = known a (m.by_value a) refl h

  -- What the processing of a transaction does to the set and executes.
  pub data Processed (m : ReversibleHashMap) : Outcome → Type 0 where
    untouched : (out : Outcome) → out.issue_set ≡ m → out.execution ≡ none → Processed m out
    removed :
        (out : Outcome) (id address : ℕ)
        → m.by_value address ≡ some id
        → out.issue_set ≡ (remove_value m address).0
        → (out.execution ≡ none) ⊎ ((x : Execution) × (out.execution ≡ some x) × (x.issue_id ≡ id))
        → Processed m out

  submit-Processed :
      (answers : Answers) (m : ReversibleHashMap) (id address n block_hash : ℕ) (tx : Transaction)
      → m.by_value address ≡ some id
      → Processed m
          (submit answers ((remove_value m address).0) (prepare answers id n block_hash tx))
  unfolding submit
  submit-Processed answers m id address n block_hash tx e =
      go (prepare answers id n block_hash tx) refl
    where
      go :
          (p : Result Error (Option Execution))
          → prepare answers id n block_hash tx ≡ p
          → Processed m (submit answers ((remove_value m address).0) p)
      go (err f) h = removed _ id address e refl (inl refl)
      go (ok none) h = removed _ id address e refl (inl refl)
      go (ok (some x)) h =
          removed _ id address e refl
            (inr (x, refl, (prepare-Ready answers id n block_hash tx x h).0))

  process_paid-Processed :
      (answers : Answers) (m : ReversibleHashMap) (n block_hash : ℕ) (tx : Transaction)
      (id address : ℕ) (i : IssueRequest)
      → m.by_value address ≡ some id
      → Processed m
          (process_paid types from_payload to_payload answers m n block_hash tx (id, address) i)
  unfolding process_paid
  process_paid-Processed answers m n block_hash tx id address i e =
      go (transferred types from_payload to_payload tx address)
    where
      test :
          (b : Bool)
          → Processed m (
              if b
              then record { issue_set = m; execution = none; result = ok tt }
              else submit answers ((remove_value m address).0) (prepare answers id n block_hash tx))
      test true = untouched _ refl refl
      test false = submit-Processed answers m id address n block_hash tx e

      go :
          (o : Option ℕ)
          → Processed m (elim o as (λ _. Outcome) [
            | none ↦ record { issue_set = m; execution = none; result = ok tt }
            | some amount ↦
                if ltb amount (expected i)
                then record { issue_set = m; execution = none; result = ok tt }
                else submit answers
                    ((remove_value m address).0)
                    (prepare answers id n block_hash tx)
          ])
      go none = untouched _ refl refl
      go (some amount) = test (ltb amount (expected i))

  pub process-Processed :
      (answers : Answers) (m : ReversibleHashMap) (n block_hash : ℕ) (tx : Transaction)
      → Processed m (
          process_transaction_and_execute_issue types from_payload to_payload answers m n block_hash
            tx)
  unfolding process_transaction_and_execute_issue
  process-Processed answers m n block_hash tx =
      found (find_issue types from_payload to_payload m tx) refl
    where
      asked :
          (id address : ℕ) (i : Result Error IssueRequest)
          → m.by_value address ≡ some id
          → Processed m (elim i as (λ _. Outcome) [
            | err e ↦ record { issue_set = m; execution = none; result = err e }
            | ok issue ↦
                process_paid types from_payload to_payload answers m n block_hash tx
                  (id, address)
                  issue
          ])
      asked id address (err e) k = untouched _ refl refl
      asked id address (ok i) k = process_paid-Processed answers m n block_hash tx id address i k

      found :
          (o : Option (ℕ × ℕ))
          → find_issue types from_payload to_payload m tx ≡ o
          → Processed m (elim o as (λ _. Outcome) [
            | none ↦ record { issue_set = m; execution = none; result = ok tt }
            | some (id, address) ↦ elim (answers.get_issue_request id) [
              | err e ↦ record { issue_set = m; execution = none; result = err e }
              | ok issue ↦
                  process_paid types from_payload to_payload answers m n block_hash tx
                    (id, address)
                    issue
            ]
          ])
      found none h = untouched _ refl refl
      found (some (id, address)) h =
          asked id address (answers.get_issue_request id) (find_issue-watched m tx id address h)
