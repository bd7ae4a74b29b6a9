-- ===== src/Service.antt =====
-- A client that is started again when it loses its connection, and the signal that ends its tasks
-- (service/src/lib.rs, service/src/cli.rs). What the node, the parachain and the service answer in a
-- round is a parameter.
pub mod Restarts
mod Tests
use interbtc_clients_cli.Prelude.{
  ℕ, suc, Bool, true, false, Option, none, some, List, [], ◌∷◌, ◌++◌, Result, ok, err, ◌>>=◌, ◌>>◌,
}

-- The errors that are raised here or passed on; a number tells the ones of a client apart.
pub data Error : Type 0 where
  client_shutdown failed_to_construct_wallet_name : Error
  bitcoin_error runtime_error : ℕ → Error

pub data RestartPolicy : Type 0 where
  never always : RestartPolicy

-- The answers of one round: the client of the node, the connection to the parachain, and what the
-- service ends with.
pub record Round : Type 0 where
  pub bitcoin_core : Result Error (Unit {0})
  pub btc_parachain : Result Error (Unit {0})
  pub service : Result Error (Unit {0})

unfoldable pub connect : Round → Result Error (Unit {0})
connect round = round.bitcoin_core >> round.btc_parachain

-- After a restart: the counter is one higher.
abbrev pub restarted : {A : Type 0} → ℕ × A → ℕ × A
restarted (n, a) = (suc n, a)

-- The number of restarts in a list of rounds, and what is returned, if the loop ends within it.
unfoldable pub start : RestartPolicy → List Round → ℕ × Option (Result Error (Unit {0}))
unfolding connect
start policy [] = (0, none)
start policy (round ∷ rounds) =
    let rest = start policy rounds in
    elim (connect round) [
      | err e ↦ (0, some (err e))
      | ok u ↦ elim policy [ never ↦ (0, some (err client_shutdown)) | always ↦ restarted rest ]
    ]

-- The wallet of a vault; 45 is the dash.
unfoldable pub wallet_name :
    List ℕ → Result Error (List ℕ) → Result Error (List ℕ) → Result Error (List ℕ)
wallet_name prefix (err e) wrapped_symbol = err failed_to_construct_wallet_name
wallet_name prefix (ok collateral) (err e) = err failed_to_construct_wallet_name
wallet_name prefix (ok collateral) (ok wrapped) =
    ok (prefix ++ (45 ∷ (collateral ++ (45 ∷ wrapped))))

pub data TerminationStatus (Res : Type 0) : Type 0 where
  cancelled : TerminationStatus Res
  completed : Res → TerminationStatus Res

-- The steps at which a task is looked at: whether the signal has come, and whether the task is done. The
-- signal is looked at first.
unfoldable pub run_cancelable :
    {Res : Type 0} → List (Bool × Option Res) → Option (TerminationStatus Res)
run_cancelable [] = none
run_cancelable ((true, task) ∷ polls) = some cancelled
run_cancelable ((false, some res) ∷ polls) = some (completed res)
run_cancelable ((false, none) ∷ polls) = run_cancelable polls

-- Whether the signal is sent, and what is returned.
unfoldable pub wait_or_shutdown :
    TerminationStatus (Result Error (Unit {0})) → Bool × Result Error (Unit {0})
wait_or_shutdown cancelled = (false, ok tt)
wait_or_shutdown (completed res) = (true, res)
