-- ===== src/Faucet/Tests.antt =====
-- Two calls of a user, six hours apart, with one in between (faucet/src/http.rs).
use interbtc_clients_cli.Prelude.{
  ℕ, ◌+◌, ◌*◌, ◌/◌, ◌≡◌, refl, true, false, Option, some, map, length, if◌then◌else◌, List, [], ◌∷◌,
  Result, ok, err, arith,
}
use interbtc_clients_cli.Faucet.{
  Error, FundingRequestAccountType, user, vault, Client, fund_accounts, account_already_funded,
  get_account_type, FaucetRequest, Transfer, runtime_error,
}
use interbtc_clients_cli.Faucet.Cooldown.{Lawful, entry, AllApart, fund_accounts-AllApart}

-- A text is its number of seconds.
abbrev to_rfc2822 : ℕ → ℕ
to_rfc2822 t = t / 1000

abbrev parse : ℕ → Result Error ℕ
parse text = ok (1000 * text)

texts-Lawful : Lawful to_rfc2822 parse
texts-Lawful = record {
  read = λ t. 1000 * (t / 1000);
  read_back = λ t. refl;
  close = λ t. omega arith;
}

abbrev allowances : FundingRequestAccountType → ℕ
allowances user = 1
allowances vault = 50

abbrev client : ℕ → Client
client now = record {
  free_balance = ok 10;
  reserved_balance = ok 0;
  vaults = ok [];
  one = ok 100;
  native = true;
  transfer = λ in_native amount. ok tt;
  now = now;
  later = now + 5;
  kv_get = ok tt;
  kv_set = ok tt;
}

abbrev calls : List Client
calls = client 30_000_000 ∷ client 60_000_000 ∷ []

-- The store after a success of the user.
abbrev store : Option FaucetRequest
store = some (entry to_rfc2822 parse texts-Lawful allowances (client 25_000_000))

abbrev paid : Transfer
paid = record { in_native = false; amount = 100 }

fund_accounts-AllApart_example :
    AllApart (client 25_000_000) (fund_accounts to_rfc2822 parse allowances calls store)
fund_accounts-AllApart_example =
    fund_accounts-AllApart to_rfc2822 parse texts-Lawful allowances calls (client 25_000_000)

calls_run :
    fund_accounts to_rfc2822 parse allowances calls store
    ≡ (client 30_000_000, ([], err account_already_funded))
      ∷ (client 60_000_000, (paid ∷ [], ok tt))
      ∷ []
unfolding fund_accounts get_account_type
calls_run = refl

-- The first transfer succeeds, the one in the native currency fails.
abbrev half : ℕ → Client
half now = record (client now) {
  native = false;
  transfer = λ in_native amount. if in_native then err runtime_error else ok tt;
}

-- The account is paid twice within a second.
paid_again :
    map
      (λ (c : Client × (List Transfer × Result Error (Unit {0}))). length c.1.0)
      (fund_accounts to_rfc2822 parse allowances (half 60_000_000 ∷ half 60_000_001 ∷ []) store)
    ≡ 2 ∷ 2 ∷ []
unfolding fund_accounts get_account_type
paid_again = refl
