-- ===== src/Vault/Process/Runs.antt =====
-- Clients that start and end (vault/src/process.rs). A start is two steps, as in `create`: the look at
-- the file, and its writing, between which other clients make steps.
use interbtc_clients_cli.Prelude.{
  ℕ, ◌≡◌, refl, ap, Bool, true, false, Option, List, [], ◌∷◌, Result, ok, err, ◌==◌, if◌then◌else◌,
  arith, select, not,
}
use interbtc_clients_cli.Vault.Process.{
  Error, SystemProcess, Files, remove, check_file, write_or_drop, create,
}

-- A client with a process id looks at the file, writes it, ends and drops it, or is killed.
pub data Step : Type 0 where
  look : Files → SystemProcess → ℕ → Step
  write : Files → ℕ → Step
  stop : Files → ℕ → Step
  kill : ℕ → Step

-- The file, the clients that have looked at it and are to write it, and those that run with it.
pub record World : Type 0 where
  pub file : Option (List ℕ)
  pub checked : List ℕ
  pub clients : List ℕ

abbrev pub contains : ℕ → List ℕ → Bool
contains p [] = false
contains p (q ∷ ps) = if q == p then true else contains p ps

abbrev pub without : ℕ → List ℕ → List ℕ
without p = select (λ q. not (q == p))

module _ (to_string : ℕ → List ℕ) (from_str : List ℕ → Option ℕ) where
  -- The client runs on if it has got the file.
  abbrev pub started : ℕ → List ℕ → Result Error (Unit {0}) → List ℕ
  started own clients (ok u) = own ∷ clients
  started own clients (err e) = clients

  -- The world after a client has looked at the file: it goes on to write it, or ends with the error.
  abbrev pub looked : World → ℕ → Result Error (Unit {0}) → World
  looked world own (ok u) = record world { checked = own ∷ world.checked }
  looked world own (err e) = world

  unfoldable pub step : World → Step → World
  unfolding check_file write_or_drop remove
  step world (look files sys own) =
      looked world own (check_file to_string from_str files sys own world.file)
  step world (write files own) =
      let (file, result) = write_or_drop to_string from_str files own world.file in
      if contains own world.checked
      then record {
        file = file;
        checked = without own world.checked;
        clients = started own world.clients result;
      }
      else world
  step world (stop files own) = record {
    file = (remove files true world.file).0;
    checked = world.checked;
    clients = without own world.clients;
  }
  step world (kill own) = record {
    file = world.file;
    checked = without own world.checked;
    clients = without own world.clients;
  }

  unfoldable pub run : World → List Step → World
  unfolding step
  run world [] = world
  run world (x ∷ xs) = run (step world x) xs

  -- The two steps of a start, one right after the other, are `create`.
  create-steps :
      (world : World) (files : Files) (sys : SystemProcess) (own : ℕ)
      → world.checked ≡ []
      → run world (look files sys own ∷ write files own ∷ []) ≡ (
          let (file, result) = create to_string from_str files sys own world.file in
          record { file = file; checked = []; clients = started own world.clients result })
  unfolding run step create
  create-steps world files sys own c = go (check_file to_string from_str files sys own world.file)
    where
      done : Option (List ℕ) × Result Error (Unit {0})
      done = write_or_drop to_string from_str files own world.file

      go :
          (r : Result Error (Unit {0}))
          → step (looked world own r) (write files own) ≡ (
              let (file, result) = elim r as (λ _. Option (List ℕ) × Result Error (Unit {0})) [
                | err e ↦ (world.file, err e)
                | ok u ↦ done
              ] in
              record { file = file; checked = []; clients = started own world.clients result })
      go (err e) =
          let none_checked : contains own world.checked ≡ false = ap (contains own) c in
          rw none_checked (ap (λ (l : List ℕ). record world { checked = l }) c)
      go (ok u) = let same : (own == own) ≡ true = ground arith in rw (same, c) refl
