-- ===== src/Service/Tests.antt =====
-- Runs of a client that restarts, and of its tasks (service/src/lib.rs).
use interbtc_clients_cli.Prelude.{
  ℕ, ◌≡◌, refl, Bool, true, false, ◌⊎◌, Option, none, some, List, [], ◌∷◌, ok, err, length, All,
}
use interbtc_clients_cli.Service.{
  Error, Round, always, never, bitcoin_error, runtime_error, client_shutdown,
  failed_to_construct_wallet_name, start, wallet_name, cancelled, completed, run_cancelable,
  wait_or_shutdown,
}
use interbtc_clients_cli.Service.Restarts.{Connected, FailsAfter, start-FailsAfter}

abbrev disconnected : Round
disconnected = record {
  bitcoin_core = ok tt;
  btc_parachain = ok tt;
  service = err (runtime_error 1);
}

abbrev unreachable : Round
unreachable = record {
  bitcoin_core = ok tt;
  btc_parachain = err (runtime_error 2);
  service = ok tt;
}

abbrev three_rounds : List Round
three_rounds = disconnected ∷ disconnected ∷ unreachable ∷ []

two_restarts : start always three_rounds ≡ (2, some (err (runtime_error 2)))
unfolding start
two_restarts = refl

no_restart : start never three_rounds ≡ (0, some (err client_shutdown))
unfolding start
no_restart = refl

start-FailsAfter_example :
    (All Connected three_rounds × (start always three_rounds ≡ (length three_rounds, none)))
    ⊎ ((n : ℕ) × ((e : Error) × (FailsAfter three_rounds n e
            × (start always three_rounds ≡ (n, some (err e))))))
start-FailsAfter_example = start-FailsAfter three_rounds

named : wallet_name (1 ∷ []) (ok (2 ∷ [])) (ok (3 ∷ [])) ≡ ok (1 ∷ 45 ∷ 2 ∷ 45 ∷ 3 ∷ [])
unfolding wallet_name
named = refl

not_named :
    wallet_name (1 ∷ []) (ok (2 ∷ [])) (err client_shutdown) ≡ err failed_to_construct_wallet_name
unfolding wallet_name
not_named = refl

abbrev polls : List (Bool × Option ℕ)
polls = (false, none) ∷ (true, some 5) ∷ []

signal_first : run_cancelable polls ≡ some cancelled
unfolding run_cancelable
signal_first = refl

error_sent : wait_or_shutdown (completed (err (bitcoin_error 1))) ≡ (true, err (bitcoin_error 1))
unfolding wait_or_shutdown
error_sent = refl
