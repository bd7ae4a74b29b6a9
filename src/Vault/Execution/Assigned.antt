-- ===== src/Vault/Execution/Assigned.antt =====
-- The tasks for each open request (`execute_open_requests`, vault/src/execution.rs).
use interbtc_clients_cli.Prelude.{
  ℕ, ◌≡◌, ◌≢◌, refl, ap, ◌∙◌, sym, subst, Bool, true, false, Option, none, some, List, [], ◌∷◌,
  ◌++◌, map, Result, ok, err, ◌==◌, ==_iff, if◌then◌else◌, select, arith,
}
use interbtc_clients_cli.Bitcoin.{TxOut, Transaction}
use interbtc_clients_cli.Bitcoin as Node
use interbtc_clients_cli.Bitcoin.TransactionExt.{BitcoinTypes, get_op_return}
use interbtc_clients_cli.Vault.Deadline.{Request}
use interbtc_clients_cli.Vault.Execution.Keys.{
  Distinct, get-remove_same, get-remove_other, get-hash, remove-Distinct,
}
use interbtc_clients_cli.Vault.Execution.Payments.{pays_enough, is_payment, pays_enough_lem}
use interbtc_clients_cli.Vault.Execution.{
  get, remove, Task, await_payment, pay_and_execute, pays_amount, get_request_for_btc_tx,
  match_transactions, spawn_tasks,
}

abbrev pub task_hash : Task → ℕ
task_hash (await_payment r txid) = r.hash
task_hash (pay_and_execute r) = r.hash

-- The tasks for a hash.
abbrev pub tasks_for : ℕ → List Task → List Task
tasks_for h = select (λ t. task_hash t == h)

abbrev pub at_most_one : Option Request → List Task
at_most_one none = []
at_most_one (some r) = pay_and_execute r ∷ []

tasks_for-none :
    (h : ℕ) (rs : List Request) → get h rs ≡ none → tasks_for h (map pay_and_execute rs) ≡ []
unfolding get
tasks_for-none h [] e = refl
tasks_for-none h (r ∷ rs) e = ground (arith, tasks_for-none h rs)

tasks_for-pay :
    (h : ℕ) (rs : List Request)
    → Distinct rs
    → tasks_for h (map pay_and_execute rs) ≡ at_most_one (get h rs)
unfolding get
tasks_for-pay h [] d = refl
tasks_for-pay h (r ∷ rs) d = pick (r.hash == h) refl (tasks_for-pay h rs d.1)
  where
    pick :
        (b : Bool)
        → (r.hash == h) ≡ b
        → tasks_for h (map pay_and_execute rs) ≡ at_most_one (get h rs)
        → (if b
            then pay_and_execute r ∷ tasks_for h (map pay_and_execute rs)
            else tasks_for h (map pay_and_execute rs))
          ≡ at_most_one (if b then some r else get h rs)
    pick true e ih =
        ap (λ ts. pay_and_execute r ∷ ts)
          (tasks_for-none h rs (subst (λ k. get k rs ≡ none) ((==_iff r.hash h).0 e) d.0))
    pick false e ih = ih

module _ (types : BitcoinTypes) (to_payload : ℕ → Option ℕ) where
  -- The first payment for a request among the items of the stream.
  unfoldable pub first_payment : Request → List (Result Node.Error Transaction) → Option Transaction
  unfolding is_payment
  first_payment r [] = none
  first_payment r (err e ∷ items) = first_payment r items
  first_payment r (ok tx ∷ items) =
      let rest = first_payment r items in if is_payment types to_payload r tx then some tx else rest

  -- What a request needs: to wait for its first payment, or to be paid.
  abbrev pub task_of : Request → Option Transaction → Task
  task_of r none = pay_and_execute r
  task_of r (some tx) = await_payment r tx.txid

  abbrev pub expected : Option Request → List (Result Node.Error Transaction) → List Task
  expected none items = []
  expected (some r) items = task_of r (first_payment r items) ∷ []

  -- What the lookup for a transaction finds.
  pub data Found (tx : Transaction) (rs : List Request) : Option Request → Type 0 where
    unpaid :
        ((h : ℕ) (r : Request) → get h rs ≡ some r → is_payment types to_payload r tx ≡ false)
        → Found tx rs none
    paid :
        (q : Request)
        → get q.hash rs ≡ some q
        → is_payment types to_payload q tx ≡ true
        → ((r : Request) → r.hash ≢ q.hash → is_payment types to_payload r tx ≡ false)
        → Found tx rs (some q)

  is_payment-other :
      (tx : Transaction) (hash : ℕ) (r : Request)
      → get_op_return types tx ≡ some hash
      → r.hash ≢ hash
      → is_payment types to_payload r tx ≡ false
  unfolding is_payment
  is_payment-other tx hash r e ne = ground (arith, e)

  is_payment-same :
      (tx : Transaction) (hash : ℕ) (r : Request)
      → get_op_return types tx ≡ some hash
      → r.hash ≡ hash
      → is_payment types to_payload r tx ≡ pays_amount types to_payload tx r
  unfolding is_payment
  is_payment-same tx hash r e same =
      let here : is_payment types to_payload r tx ≡ pays_enough types to_payload r tx =
        ground (arith, e) in
      here ∙ pays_enough_lem types to_payload r tx

  -- Whatever is not under the hash that the transaction carries has no payment in it.
  unpaid_elsewhere :
      (tx : Transaction) (hash : ℕ) (rs : List Request)
      → get_op_return types tx ≡ some hash
      → ((r : Request) → get hash rs ≡ some r → pays_amount types to_payload tx r ≡ false)
      → (h : ℕ) (r : Request) → get h rs ≡ some r
      → is_payment types to_payload r tx ≡ false
  unpaid_elsewhere tx hash rs e here h r g = pick (r.hash == hash) refl
    where
      pick : (b : Bool) → (r.hash == hash) ≡ b → is_payment types to_payload r tx ≡ false
      pick true eb =
          let same : r.hash ≡ hash = (==_iff r.hash hash).0 eb in
          is_payment-same tx hash r e same
          ∙ here r (subst (λ k. get k rs ≡ some r) (sym (get-hash h rs r g) ∙ same) g)
      pick false eb = is_payment-other tx hash r e (ground arith)

  get_request_for_btc_tx-Found :
      (tx : Transaction) (rs : List Request)
      → Found tx rs (get_request_for_btc_tx types to_payload tx rs)
  unfolding get_request_for_btc_tx is_payment
  get_request_for_btc_tx-Found tx rs = outer (get_op_return types tx) refl
    where
      inner :
          (hash : ℕ) (q : Request) (b : Bool)
          → get_op_return types tx ≡ some hash
          → get hash rs ≡ some q
          → pays_amount types to_payload tx q ≡ b
          → Found tx rs (if b then some q else none)
      inner hash q true e e' p =
          paid q (subst (λ k. get k rs ≡ some q) (sym (get-hash hash rs q e')) e')
            (is_payment-same tx hash q e (get-hash hash rs q e') ∙ p)
            (λ r ne. is_payment-other tx hash r e (omega (arith, get-hash hash rs q e', ne)))
      inner hash q false e e' p = unpaid (unpaid_elsewhere tx hash rs e (λ r g. cc))

      middle :
          (hash : ℕ) (o : Option Request)
          → get_op_return types tx ≡ some hash
          → get hash rs ≡ o
          → Found tx rs (elim o [
            | none ↦ none
            | some request ↦ if pays_amount types to_payload tx request then some request else none
          ])
      middle hash none e e' = unpaid (unpaid_elsewhere tx hash rs e (λ r g. cc))
      middle hash (some q) e e' = inner hash q (pays_amount types to_payload tx q) e e' refl

      outer :
          (o : Option ℕ)
          → get_op_return types tx ≡ o
          → Found tx rs (elim o [
            | none ↦ none
            | some hash ↦ elim (get hash rs) [
              | none ↦ none
              | some request ↦
                  if pays_amount types to_payload tx request then some request else none
            ]
          ])
      outer none e = unpaid (λ h r g. ground (arith, e))
      outer (some hash) e = middle hash (get hash rs) e refl

  expected-unpaid :
      (tx : Transaction) (items : List (Result Node.Error Transaction)) (o : Option Request)
      → ((r : Request) → o ≡ some r → is_payment types to_payload r tx ≡ false)
      → expected o (ok tx ∷ items) ≡ expected o items
  unfolding first_payment
  expected-unpaid tx items none h = refl
  expected-unpaid tx items (some r) h =
      let e : is_payment types to_payload r tx ≡ false = h r refl in rw e

  expected-paid :
      (tx : Transaction) (items : List (Result Node.Error Transaction)) (q : Request)
      → is_payment types to_payload q tx ≡ true
      → expected (some q) (ok tx ∷ items) ≡ await_payment q tx.txid ∷ []
  unfolding first_payment
  expected-paid tx items q p = rw p

  -- The open requests have different hashes. Whatever the stream returns, the tasks for a hash are
  -- exactly one for the open request with that hash, if there is one: to wait for the inclusion of
  -- the first transaction of the stream that pays it, or, only when there is no such transaction, to
  -- pay it.
  pub spawn_tasks-expected :
      (items : List (Result Node.Error Transaction)) (open_requests : List Request) (h : ℕ)
      → Distinct open_requests
      → tasks_for h (spawn_tasks types to_payload items open_requests)
        ≡ expected (get h open_requests) items
  unfolding spawn_tasks match_transactions first_payment
  spawn_tasks-expected [] rs h d = tasks_for-pay h rs d ∙ same (get h rs)
    where
      same : (o : Option Request) → at_most_one o ≡ expected o []
      same none = refl
      same (some r) = refl
  spawn_tasks-expected (err e ∷ items) rs h d = spawn_tasks-expected items rs h d ∙ same (get h rs)
    where
      same : (o : Option Request) → expected o items ≡ expected o (err e ∷ items)
      same none = refl
      same (some r) = refl
  spawn_tasks-expected (ok tx ∷ items) rs h d =
      pick (get_request_for_btc_tx types to_payload tx rs) (get_request_for_btc_tx-Found tx rs)
        (spawn_tasks-expected items rs h d)
        (λ k. spawn_tasks-expected items (remove k rs) h (remove-Distinct k rs d))
    where
      hit :
          (q : Request) (b : Bool)
          → (q.hash == h) ≡ b
          → get q.hash rs ≡ some q
          → is_payment types to_payload q tx ≡ true
          → ((r : Request) → r.hash ≢ q.hash → is_payment types to_payload r tx ≡ false)
          → tasks_for h (spawn_tasks types to_payload items (remove q.hash rs))
            ≡ expected (get h (remove q.hash rs)) items
          → (if b
              then await_payment q tx.txid
                ∷ tasks_for h (spawn_tasks types to_payload items (remove q.hash rs))
              else tasks_for h (spawn_tasks types to_payload items (remove q.hash rs)))
            ≡ expected (get h rs) (ok tx ∷ items)
      hit q true e g p others ih =
          let same : q.hash ≡ h = (==_iff q.hash h).0 e in
          let gone : get h (remove q.hash rs) ≡ none =
            subst (λ k. get k (remove q.hash rs) ≡ none) same (get-remove_same q.hash rs) in
          let found : get h rs ≡ some q = subst (λ k. get k rs ≡ some q) same g in
          ap (λ ts. await_payment q tx.txid ∷ ts) (ih ∙ ap (λ o. expected o items) gone)
          ∙ sym (ap (λ o. expected o (ok tx ∷ items)) found ∙ expected-paid tx items q p)
      hit q false e g p others ih =
          let differs : h ≢ q.hash = ground arith in
          let kept : get h (remove q.hash rs) ≡ get h rs = get-remove_other h q.hash rs differs in
          ih
          ∙ ap (λ o. expected o items) kept
          ∙ sym (
              expected-unpaid tx items (get h rs)
                (λ r gr. others r (omega (arith, get-hash h rs r gr, differs))))

      pick :
          (o : Option Request)
          → Found tx rs o
          → tasks_for h (spawn_tasks types to_payload items rs) ≡ expected (get h rs) items
          → ((k : ℕ)
              → tasks_for h (spawn_tasks types to_payload items (remove k rs))
                ≡ expected (get h (remove k rs)) items)
          → (let split : List Task × List Request = elim o [
            | none ↦ match_transactions types to_payload items rs
            | some request ↦
                let (tasks, rest) =
                  match_transactions types to_payload items (remove request.hash rs) in
                (await_payment request tx.txid ∷ tasks, rest)
          ] in
              tasks_for h (split.0 ++ map pay_and_execute split.1))
            ≡ expected (get h rs) (ok tx ∷ items)
      pick none (unpaid none_pays) ih later =
          ih ∙ sym (expected-unpaid tx items (get h rs) (none_pays h))
      pick (some q) (paid _ g p others) ih later =
          hit q (q.hash == h) refl g p others (later q.hash)
