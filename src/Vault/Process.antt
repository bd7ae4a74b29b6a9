-- ===== src/Vault/Process.antt =====
-- The file with the id of the process (vault/src/process.rs), which keeps two clients from running for
-- one account. The file is its text or is not there; a text is the list of its characters. What the
-- operating system answers is a parameter.
pub mod Runs
pub mod Exclusive
mod Tests
use interbtc_clients_cli.Prelude.{
  ℕ, Bool, true, false, not, Option, none, some, List, [], ◌∷◌, ◌++◌, Result, ok, err, ◌>>=◌, ◌>>◌,
  ok_or, ◌==◌, if◌then◌else◌,
}

-- The errors that are raised or told apart.
pub data Error : Type 0 where
  service_already_running : ℕ → Error
  process_not_found parse_error os_string_error other : Error

-- `strip_suffix('\n').unwrap_or(..)`; the new line is the character 10.
unfoldable pub strip_newline : List ℕ → List ℕ
strip_newline [] = []
strip_newline (c ∷ []) = if c == 10 then [] else c ∷ []
strip_newline (c ∷ d ∷ cs) = let rest = strip_newline (d ∷ cs) in c ∷ rest

-- What the processes of the system answer for an id.
pub record SystemProcess : Type 0 where
  pub refresh_process : ℕ → Bool
  pub process_name : ℕ → Result Error ℕ

-- The results of the calls on the file: it is created empty, written, and written through, or removed.
-- The path is a string or is not.
pub record Files : Type 0 where
  pub valid_path : Bool
  pub create : Result Error (Unit {0})
  pub write_all : Result Error (Unit {0})
  pub sync_all : Result Error (Unit {0})
  pub remove_file : Result Error (Unit {0})

unfoldable pub path_string : Files → Result Error (Unit {0})
path_string files = if files.valid_path then ok tt else err os_string_error

-- The file after a call, and what the call returns.
unfoldable pub remove : Files → Bool → Option (List ℕ) → Option (List ℕ) × Result Error (Unit {0})
unfolding path_string
remove files created_pidfile file =
    let removed : Option (List ℕ) × Result Error (Unit {0}) =
      elim (path_string files >> files.remove_file) [
        | ok u ↦ (none, ok tt)
        | err e ↦ (file, err e)
      ] in
    if created_pidfile then removed else (file, ok tt)

-- The names of the client's own process and of another one.
unfoldable pub pid_name_matches_existing_client : SystemProcess → ℕ → ℕ → Result Error Bool
pid_name_matches_existing_client sys own pidfile_value = do
  name ← sys.process_name own
  other_name ← sys.process_name pidfile_value
  ok (name == other_name)

-- Whether a client may start, by the id in the file.
unfoldable pub check_name : Result Error Bool → ℕ → Result Error (Unit {0})
check_name (ok true) pid = err (service_already_running pid)
check_name (ok false) pid = ok tt
check_name (err process_not_found) pid = ok tt
check_name (err e) pid = err e

unfoldable pub check_process : SystemProcess → ℕ → ℕ → Result Error (Unit {0})
unfolding check_name pid_name_matches_existing_client
check_process sys own pid =
    if sys.refresh_process pid
    then check_name (pid_name_matches_existing_client sys own pid) pid
    else ok tt

-- The library's text for a number, and its reading.
module _ (to_string : ℕ → List ℕ) (from_str : List ℕ → Option ℕ) where
  unfoldable pub pid : List ℕ → Result Error ℕ
  unfolding strip_newline
  pid text = ok_or (from_str (strip_newline text)) parse_error

  -- The file after the writing, which leaves it empty when it fails.
  unfoldable pub set_pid : Files → ℕ → Option (List ℕ) → Option (List ℕ) × Result Error (Unit {0})
  set_pid files own file = elim files.create [
    | err e ↦ (file, err e)
    | ok u ↦ elim files.write_all [
      | err e ↦ (some [], err e)
      | ok v ↦ (some (to_string own ++ (10 ∷ [])), files.sync_all)
    ]
  ]

  unfoldable pub check_file : Files → SystemProcess → ℕ → Option (List ℕ) → Result Error (Unit {0})
  unfolding pid check_process path_string
  check_file files sys own none = path_string files
  check_file files sys own (some text) = do
    found ← pid text
    u ← check_process sys own found
    path_string files

  -- The writing of the id; when it fails, the file is removed as the value is dropped.
  unfoldable pub write_or_drop :
      Files → ℕ → Option (List ℕ) → Option (List ℕ) × Result Error (Unit {0})
  unfolding set_pid remove
  write_or_drop files own file =
      let (written, result) = set_pid files own file in
      elim result [ ok v ↦ (written, ok tt) | err e ↦ ((remove files true written).0, err e) ]

  -- The file after `create`, and what it returns.
  unfoldable pub create :
      Files → SystemProcess → ℕ → Option (List ℕ) → Option (List ℕ) × Result Error (Unit {0})
  unfolding check_file write_or_drop
  create files sys own file = elim (check_file files sys own file) [
    | err e ↦ (file, err e)
    | ok u ↦ write_or_drop files own file
  ]
