-- ===== src/Vault/Issue/Execute.antt =====
-- When the processing of a transaction executes an issue request
-- (`process_transaction_and_execute_issue`, vault/src/issue.rs).
use interbtc_clients_cli.Prelude.{
  ℕ, ◌+◌, ◌%◌, ◌^◌, ◌<◌, ◌≡◌, refl, sym, ◌∙◌, ap, Bool, true, false, Option, none, some, Result, ok,
  err, ◌>>=◌, ltb, leb, if◌then◌else◌, ◌↔◌, arith,
}
use interbtc_clients_cli.Bitcoin.{Transaction}
use interbtc_clients_cli.Bitcoin.TransactionExt.{BitcoinTypes, get_payment_amount_to}
use interbtc_clients_cli.Vault.Execution.Payments.{pays_at_least, enough, pays_at_least_lem}
use interbtc_clients_cli.Vault.IssueSet.{ReversibleHashMap, remove_value}
use interbtc_clients_cli.Vault.Issue.{
  IssueRequest, Error, Answers, Execution, Outcome, expected, proven, prepare, submit, find_issue,
  transferred, process_paid, process_transaction_and_execute_issue,
}

-- What comes between the removal from the set and the call of `execute_issue`: the relay has
-- confirmed the block, the delay is over, and the request, read again, has not been completed.
pub record Ready (answers : Answers) (n block_hash : ℕ) (tx : Transaction) (x : Execution)
    : Type 0 where
  pub issue : IssueRequest
  pub relayed : answers.wait_for_block_in_relay block_hash n ≡ ok tt
  pub delayed : answers.delay x.issue_id ≡ ok tt
  pub read : answers.get_issue_request_again x.issue_id ≡ ok issue
  pub not_completed : issue.completed ≡ false
  pub raw : answers.get_raw_tx tx.txid block_hash ≡ ok x.raw_tx
  pub proof_of : answers.get_proof tx.txid block_hash ≡ ok x.proof

proven-some :
    (answers : Answers) (id block_hash : ℕ) (tx : Transaction) (x : Execution)
    → proven answers id block_hash tx ≡ ok (some x)
    → (x.issue_id ≡ id)
      × (answers.get_raw_tx tx.txid block_hash ≡ ok x.raw_tx)
      × (answers.get_proof tx.txid block_hash ≡ ok x.proof)
unfolding proven
proven-some answers id block_hash tx x h =
    go (answers.get_raw_tx tx.txid block_hash) (answers.get_proof tx.txid block_hash) h
  where
    go :
        (r p : Result Error ℕ)
        → (r >>= λ raw_tx.
            p >>= λ proof. ok (some (record { issue_id = id; proof = proof; raw_tx = raw_tx })))
          ≡ ok (some x)
        → (x.issue_id ≡ id) × (r ≡ ok x.raw_tx) × (p ≡ ok x.proof)
    go (ok r) (ok p) h = (
      field (λ e. e.issue_id),
      ap ok (sym (field (λ e. e.raw_tx))),
      ap ok (sym (field (λ e. e.proof))),
    )
      where
        field : (g : Execution → ℕ) → g x ≡ g (record { issue_id = id; proof = p; raw_tx = r })
        field g = sym (
            ap
              (λ o. elim o as (λ _. ℕ) [
                | ok e ↦ elim e as (λ _. ℕ) [ some e' ↦ g e' | none ↦ 0 ]
                | err e ↦ 0
              ])
              h)
    go (ok r) (err e) h = cc
    go (err e) p h = cc

pub prepare-Ready :
    (answers : Answers) (id n block_hash : ℕ) (tx : Transaction) (x : Execution)
    → prepare answers id n block_hash tx ≡ ok (some x)
    → (x.issue_id ≡ id) × Ready answers n block_hash tx x
unfolding prepare
prepare-Ready answers id n block_hash tx x h =
    go (answers.wait_for_block_in_relay block_hash n) (answers.delay id)
      (answers.get_issue_request_again id) refl refl refl h
  where
    read :
        (i : IssueRequest) (b : Bool)
        → answers.wait_for_block_in_relay block_hash n ≡ ok tt
        → answers.delay id ≡ ok tt
        → answers.get_issue_request_again id ≡ ok i
        → i.completed ≡ b
        → (if b then ok none else proven answers id block_hash tx) ≡ ok (some x)
        → (x.issue_id ≡ id) × Ready answers n block_hash tx x
    read i true e e' e'' c h = cc
    read i false e e' e'' c h =
        let (same, raw, proof) = proven-some answers id block_hash tx x h in
        (
          same,
          record {
            issue = i;
            relayed = e;
            delayed = cc;
            read = cc;
            not_completed = c;
            raw = raw;
            proof_of = proof;
          },
        )

    go :
        (r d : Result Error (Unit {0})) (i : Result Error IssueRequest)
        → answers.wait_for_block_in_relay block_hash n ≡ r
        → answers.delay id ≡ d
        → answers.get_issue_request_again id ≡ i
        → (r >>= λ _. d >>= λ _.
            i >>= λ issue. if issue.completed then ok none else proven answers id block_hash tx)
          ≡ ok (some x)
        → (x.issue_id ≡ id) × Ready answers n block_hash tx x
    go (ok u) (ok w) (ok i) e e' e'' h = read i i.completed e e' e'' refl h
    go (ok u) (ok w) (err f) e e' e'' h = cc
    go (ok u) (err f) i e e' e'' h = cc
    go (err f) d i e e' e'' h = cc

Ready-prepare :
    (answers : Answers) (n block_hash : ℕ) (tx : Transaction) (x : Execution)
    → Ready answers n block_hash tx x
    → prepare answers x.issue_id n block_hash tx ≡ ok (some x)
unfolding prepare proven
Ready-prepare answers n block_hash tx x r =
    rw (r.relayed, r.delayed, r.read, r.not_completed, r.raw, r.proof_of) refl

pub submit-some :
    (answers : Answers) (s : ReversibleHashMap) (p : Result Error (Option Execution))
    (x : Execution)
    → (submit answers s p).execution ≡ some x
    → p ≡ ok (some x)
unfolding submit
submit-some answers s (err e) x h = cc
submit-some answers s (ok none) x h = cc
submit-some answers s (ok (some y)) x h = ap ok h

module _ (types : BitcoinTypes) (from_payload to_payload : ℕ → Option ℕ) where
  -- An execution is due for a transaction: the first of its output addresses that is watched is
  -- watched for the issue request, the first output to that address holds at least the amount and the
  -- fee of the request, and all that comes before the call has gone well.
  pub record Due (answers : Answers) (issue_set : ReversibleHashMap) (n block_hash : ℕ)
      (tx : Transaction) (x : Execution) : Type 0 where
    pub address : ℕ
    pub payload : ℕ
    pub issue : IssueRequest
    pub watched : find_issue types from_payload to_payload issue_set tx ≡ some (x.issue_id, address)
    pub asked : answers.get_issue_request x.issue_id ≡ ok issue
    pub payable : to_payload address ≡ some payload
    pub paid : pays_at_least types to_payload (issue.amount + issue.fee) payload tx.output ≡ true
    pub ready : Ready answers n block_hash tx x

  transferred-amount :
      (tx : Transaction) (address payload : ℕ)
      → to_payload address ≡ some payload
      → transferred types from_payload to_payload tx address
        ≡ get_payment_amount_to types tx payload
  unfolding transferred
  transferred-amount tx address payload e = rw (e, transferred) refl

  transferred-paid :
      (tx : Transaction) (address payload amount : ℕ)
      → to_payload address ≡ some payload
      → pays_at_least types to_payload amount payload tx.output
        ≡ enough types to_payload amount (transferred types from_payload to_payload tx address)
  unfolding get_payment_amount_to
  transferred-paid tx address payload amount e =
      pays_at_least_lem types to_payload amount payload tx.output
      ∙ ap (enough types to_payload amount) (sym (transferred-amount tx address payload e))

  transferred-payload :
      (tx : Transaction) (address amount : ℕ)
      → transferred types from_payload to_payload tx address ≡ some amount
      → (payload : ℕ) × (to_payload address ≡ some payload)
  unfolding transferred
  transferred-payload tx address amount h = go (to_payload address) refl h
    where
      go :
          (o : Option ℕ)
          → to_payload address ≡ o
          → elim o [ none ↦ none | some payload ↦ get_payment_amount_to types tx payload ]
            ≡ some amount
          → (payload : ℕ) × (to_payload address ≡ some payload)
      go none e h = cc
      go (some p) e h = (p, e)

  module _ (answers : Answers) (issue_set : ReversibleHashMap) (n block_hash : ℕ) (tx : Transaction)
      (x : Execution)
      (in_range : (i : IssueRequest)
        → answers.get_issue_request x.issue_id ≡ ok i
        → i.amount + i.fee < 2 ^ 128) where
    process_paid-Due :
        (id address : ℕ) (i : IssueRequest)
        → find_issue types from_payload to_payload issue_set tx ≡ some (id, address)
        → answers.get_issue_request id ≡ ok i
        → (process_paid types from_payload to_payload answers issue_set n block_hash tx
            (id, address)
            i).execution
          ≡ some x
        → Due answers issue_set n block_hash tx x
    unfolding process_paid expected
    process_paid-Due id address i f e h =
        go (transferred types from_payload to_payload tx address) refl h
      where
        test :
            (amount : ℕ) (b : Bool)
            → transferred types from_payload to_payload tx address ≡ some amount
            → ltb amount ((i.amount + i.fee) % 2 ^ 128) ≡ b
            → (if b
                then record { issue_set = issue_set; execution = none; result = ok tt }
                else submit answers
                    ((remove_value issue_set address).0)
                    (prepare answers id n block_hash tx)).execution
              ≡ some x
            → Due answers issue_set n block_hash tx x
        test amount true t c h = cc
        test amount false t c h =
            let (same, ready) = prepare-Ready answers id n block_hash tx x (
              submit-some answers ((remove_value issue_set address).0)
                (prepare answers id n block_hash tx) x h) in
            let (payload, p) = transferred-payload tx address amount t in
            let asked : answers.get_issue_request x.issue_id ≡ ok i = cc in
            let bound = in_range i asked in
            let large : leb (i.amount + i.fee) amount ≡ true = ground (arith, c, bound) in
            record {
              address = address;
              payload = payload;
              issue = i;
              watched = cc;
              asked = asked;
              payable = p;
              paid =
                  transferred-paid tx address payload (i.amount + i.fee) p
                  ∙ ap (enough types to_payload (i.amount + i.fee)) t
                  ∙ large;
              ready = ready;
            }

        go :
            (o : Option ℕ)
            → transferred types from_payload to_payload tx address ≡ o
            → (elim o as (λ _. Outcome) [
              | none ↦ record { issue_set = issue_set; execution = none; result = ok tt }
              | some amount ↦
                  if ltb amount ((i.amount + i.fee) % 2 ^ 128)
                  then record { issue_set = issue_set; execution = none; result = ok tt }
                  else submit answers
                      ((remove_value issue_set address).0)
                      (prepare answers id n block_hash tx)
            ]).execution
              ≡ some x
            → Due answers issue_set n block_hash tx x
        go none t h = cc
        go (some amount) t h = test amount (ltb amount ((i.amount + i.fee) % 2 ^ 128)) t refl h

    Due-transferred :
        (due : Due answers issue_set n block_hash tx x)
        → (amount : ℕ) × (transferred types from_payload to_payload tx due.address ≡ some amount)
          × (ltb amount ((due.issue.amount + due.issue.fee) % 2 ^ 128) ≡ false)
    Due-transferred due = go (transferred types from_payload to_payload tx due.address) refl (
        sym (
          transferred-paid tx due.address due.payload (due.issue.amount + due.issue.fee)
            due.payable)
        ∙ due.paid)
      where
        go :
            (o : Option ℕ)
            → transferred types from_payload to_payload tx due.address ≡ o
            → enough types to_payload (due.issue.amount + due.issue.fee) o ≡ true
            → (amount : ℕ) × (transferred types from_payload to_payload tx due.address
                ≡ some amount)
              × (ltb amount ((due.issue.amount + due.issue.fee) % 2 ^ 128) ≡ false)
        go none e h = cc
        go (some amount) e h =
            let bound = in_range due.issue due.asked in (amount, e, ground (arith, h, bound))

    Due-execution :
        Due answers issue_set n block_hash tx x
        → (process_transaction_and_execute_issue types from_payload to_payload answers issue_set n
            block_hash tx).execution
          ≡ some x
    unfolding process_transaction_and_execute_issue process_paid expected submit
    Due-execution due =
        let (amount, t, enough_paid) = Due-transferred due in
        rw
          (
            due.watched,
            due.asked,
            t,
            enough_paid,
            Ready-prepare answers n block_hash tx x due.ready,
            process_transaction_and_execute_issue,
            process_paid,
            submit,
          )
          refl

    execution-Due :
        (process_transaction_and_execute_issue types from_payload to_payload answers issue_set n
            block_hash tx).execution
          ≡ some x
        → Due answers issue_set n block_hash tx x
    unfolding process_transaction_and_execute_issue
    execution-Due h = found (find_issue types from_payload to_payload issue_set tx) refl h
      where
        asked :
            (id address : ℕ) (i : Result Error IssueRequest)
            → find_issue types from_payload to_payload issue_set tx ≡ some (id, address)
            → answers.get_issue_request id ≡ i
            → (elim i as (λ _. Outcome) [
              | err e ↦ record { issue_set = issue_set; execution = none; result = err e }
              | ok issue ↦
                  process_paid types from_payload to_payload answers issue_set n block_hash tx
                    (id, address)
                    issue
            ]).execution
              ≡ some x
            → Due answers issue_set n block_hash tx x
        asked id address (err e) f a h = cc
        asked id address (ok i) f a h = process_paid-Due id address i f a h

        found :
            (o : Option (ℕ × ℕ))
            → find_issue types from_payload to_payload issue_set tx ≡ o
            → (elim o as (λ _. Outcome) [
              | none ↦ record { issue_set = issue_set; execution = none; result = ok tt }
              | some (id, address) ↦ elim (answers.get_issue_request id) [
                | err e ↦ record { issue_set = issue_set; execution = none; result = err e }
                | ok issue ↦
                    process_paid types from_payload to_payload answers issue_set n block_hash tx
                      (id, address)
                      issue
              ]
            ]).execution
              ≡ some x
            → Due answers issue_set n block_hash tx x
        found none f h = cc
        found (some (id, address)) f h = asked id address (answers.get_issue_request id) f refl h

    -- Let the amount and the fee of the request that is asked for not overflow a u128. The processing
    -- of a transaction calls `execute_issue` with some arguments if and only if that is due: the first
    -- output address that is watched is watched for the issue, the first output to this address holds
    -- at least the amount and the fee of the issue, the relay has confirmed the block, the delay is
    -- over, the issue has not been completed meanwhile, and the arguments are the proof and the bytes
    -- of the transaction that the node gives.
    pub process_transaction-Due :
        (process_transaction_and_execute_issue types from_payload to_payload answers issue_set n
            block_hash tx).execution
          ≡ some x
        ↔ Due answers issue_set n block_hash tx x
    process_transaction-Due = (execution-Due, Due-execution)
