-- ===== src/Vault/Process/Exclusive.antt =====
-- At most one client runs for an account (vault/src/process.rs), if the starts of clients do not overlap.
use interbtc_clients_cli.Prelude.{ℕ, ◌≡◌, true, Option, some, List, [], ◌∷◌, ok, Member, All}
use interbtc_clients_cli.Vault.Process.{SystemProcess, pid}
use interbtc_clients_cli.Vault.Process.Runs.{Step, look, write, stop, kill, World, step}

module _ (to_string : ℕ → List ℕ) (from_str : List ℕ → Option ℕ) where
  module _ (read_back : (n : ℕ) → from_str (to_string n) ≡ some n) where
    -- At most one client runs, and then the file has its id and none is about to write it. At most one
    -- client is about to write the file.
    pub data IsExclusive : World → Type 0 where
      idle : (world : World) → world.clients ≡ [] → world.checked ≡ [] → IsExclusive world
      starting :
          (world : World) (own : ℕ)
          → world.clients ≡ []
          → world.checked ≡ own ∷ []
          → IsExclusive world
      held :
          (world : World) (own : ℕ) (text : List ℕ)
          → world.clients ≡ own ∷ []
          → world.checked ≡ []
          → world.file ≡ some text
          → pid to_string from_str text ≡ ok own
          → IsExclusive world

    -- The system sees a client: the process runs under the name of the client that starts.
    pub record IsSeen (sys : SystemProcess) (own other_client : ℕ) : Type 0 where
      pub alive : sys.refresh_process other_client ≡ true
      pub name : ℕ
      pub own_name : sys.process_name own ≡ ok name
      pub other_name : sys.process_name other_client ≡ ok name

    -- What a step assumes: a client looks at the file only while no other one is between its look and
    -- its writing, and the system shows it the clients that run, under its own name; and only a client
    -- that runs ends.
    abbrev pub Fits : World → Step → Type 0
    Fits world (look files sys own) = (world.checked ≡ []) × All (IsSeen sys own) world.clients
    Fits world (write files own) = Unit {0}
    Fits world (stop files own) = Member own world.clients
    Fits world (kill own) = Unit {0}

    abbrev pub AllFit : World → List Step → Type 0
    AllFit world [] = Unit {0}
    AllFit world (x ∷ xs) = Fits world x × AllFit (step to_string from_str world x) xs
