-- ===== src/Service/Restarts.antt =====
-- When a client that always restarts returns (service/src/lib.rs).
use interbtc_clients_cli.Prelude.{
  ℕ, suc, ◌≡◌, refl, ap, ◌∙◌, ◌⊎◌, inl, inr, none, some, List, [], ◌∷◌, ◌++◌, ok, err, length, All,
  Result-cases,
}
use interbtc_clients_cli.Service.{
  Error, Round, RestartPolicy, never, always, client_shutdown, connect, restarted, start,
}

-- The node and the parachain can be reached.
abbrev pub Connected : Round → Type 0
Connected round = (round.bitcoin_core ≡ ok tt) × (round.btc_parachain ≡ ok tt)

-- The node, or once that is reached the parachain, answers with an error.
abbrev pub Unreachable : Round → Error → Type 0
Unreachable round e =
    (round.bitcoin_core ≡ err e) ⊎ ((round.bitcoin_core ≡ ok tt) × (round.btc_parachain ≡ err e))

connect-cases :
    (round : Round)
    → (Connected round × (connect round ≡ ok tt))
      ⊎ ((e : Error) × Unreachable round e × (connect round ≡ err e))
unfolding connect
connect-cases round = elim (Result-cases round.bitcoin_core) [
  | inr (e, h) ↦ inr (e, inl h, rw (h, connect) refl)
  | inl (u, h) ↦ elim (Result-cases round.btc_parachain) [
    | inl (v, k) ↦ inl ((h, k), rw (h, k, connect) refl)
    | inr (e, k) ↦ inr (e, inr (h, k), rw (h, k, connect) refl)
  ]
]

-- A round whose connection fails, after a number of rounds that connect.
pub record FailsAfter (rounds : List Round) (n : ℕ) (e : Error) : Type 0 where
  pub before : List Round
  pub round : Round
  pub later : List Round
  pub in_order : rounds ≡ before ++ (round ∷ later)
  pub connected : All Connected before
  pub count : length before ≡ n
  pub failed : Unreachable round e

FailsAfter-next :
    (round : Round) (rounds : List Round) (n : ℕ) (e : Error)
    → Connected round
    → FailsAfter rounds n e
    → FailsAfter (round ∷ rounds) (suc n) e
FailsAfter-next round rounds n e c f = record {
  before = round ∷ f.before;
  round = f.round;
  later = f.later;
  in_order = ap (λ rs. round ∷ rs) f.in_order;
  connected = (c, f.connected);
  count = ap suc f.count;
  failed = f.failed;
}

FailsAfter-now :
    (round : Round) (rounds : List Round) (e : Error)
    → Unreachable round e
    → FailsAfter (round ∷ rounds) 0 e
FailsAfter-now round rounds e h = record {
  before = [];
  round = round;
  later = rounds;
  in_order = refl;
  connected = tt;
  count = refl;
  failed = h;
}

start-failed :
    (policy : RestartPolicy) (round : Round) (rounds : List Round) (e : Error)
    → connect round ≡ err e
    → start policy (round ∷ rounds) ≡ (0, some (err e))
unfolding start
start-failed policy round rounds e h = rw (h, start) refl

start-restarted :
    (round : Round) (rounds : List Round)
    → connect round ≡ ok tt
    → start always (round ∷ rounds) ≡ restarted (start always rounds)
unfolding start
start-restarted round rounds h = rw (h, start) refl

-- Under the policy to restart never, the client runs at most once and returns an error.
pub start-never :
    (round : Round) (rounds : List Round)
    → (e : Error) × (start never (round ∷ rounds) ≡ (0, some (err e)))
unfolding start
start-never round rounds = elim (Result-cases (connect round)) [
  | inl (u, h) ↦ (client_shutdown, rw (h, start) refl)
  | inr (e, h) ↦ (e, rw (h, start) refl)
]

-- The client whose policy is to restart always starts again after every round whose connections
-- succeed, whatever the service ended with; at the first round with a connection that fails it returns
-- the error of that connection, with one restart counted for each round before.
pub start-FailsAfter :
    (rounds : List Round)
    → (All Connected rounds × (start always rounds ≡ (length rounds, none)))
      ⊎ ((n : ℕ) × ((e : Error) × (FailsAfter rounds n e
              × (start always rounds ≡ (n, some (err e))))))
unfolding start
start-FailsAfter [] = inl (tt, refl)
start-FailsAfter (round ∷ rounds) = elim (connect-cases round) [
  | inr (e, bad, h) ↦
      inr (0, (e, (FailsAfter-now round rounds e bad, start-failed always round rounds e h)))
  | inl (good, h) ↦ elim (start-FailsAfter rounds) [
    | inl (all, q) ↦ inl ((good, all), start-restarted round rounds h ∙ ap restarted q)
    | inr (n, (e, (f, q))) ↦ inr (
      suc n,
      (
        e,
        (FailsAfter-next round rounds n e good f, start-restarted round rounds h ∙ ap restarted q),
      ),
    )
  ]
]
