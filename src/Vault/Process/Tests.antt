-- ===== src/Vault/Process/Tests.antt =====
-- A client and a second one that may not start, and two that start at the same time
-- (vault/src/process.rs). A number has as many characters 49 as it counts.
use interbtc_clients_cli.Prelude.{
  ℕ, zero, suc, ◌≡◌, refl, true, false, Option, none, some, List, [], ◌∷◌, ok, err, length, ◌==◌,
  if◌then◌else◌,
}
use interbtc_clients_cli.Vault.Process.{SystemProcess, Files, create, service_already_running}
use interbtc_clients_cli.Vault.Process.Runs.{Step, look, write, kill, World, run}

abbrev to_string : ℕ → List ℕ
to_string zero = []
to_string (suc n) = 49 ∷ to_string n

abbrev from_str : List ℕ → Option ℕ
from_str s = some (length s)

abbrev files : Files
files = record {
  valid_path = true;
  create = ok tt;
  write_all = ok tt;
  sync_all = ok tt;
  remove_file = ok tt;
}

-- All processes but that with the id 9 run, as clients.
abbrev sys : SystemProcess
sys = record { refresh_process = λ p. if p == 9 then false else true; process_name = λ p. ok 1 }

second :
    (create to_string from_str files sys 3 (some (49 ∷ 49 ∷ 10 ∷ []))).1
    ≡ err (service_already_running 2)
unfolding create
second = refl

over_stale_file : (create to_string from_str files sys 2 (some (to_string 9))).1 ≡ ok tt
unfolding create
over_stale_file = refl

abbrev steps : List Step
steps = look files sys 2 ∷ write files 2 ∷ look files sys 3 ∷ write files 3 ∷ kill 2 ∷ []

abbrev empty : World
empty = record { file = none; checked = []; clients = [] }

-- Both clients look before one of them writes, and both run.
both_run :
    (run to_string from_str empty
      (look files sys 2 ∷ look files sys 3 ∷ write files 2 ∷ write files 3 ∷ [])).clients
    ≡ 3 ∷ 2 ∷ []
unfolding run
both_run = refl
