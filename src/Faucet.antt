-- ===== src/Faucet.antt =====
-- The faucet (faucet/src/http.rs): whether an account may be funded, and the funding of one account
-- in one currency. Times are in milliseconds since the epoch; `account_str` is the key of the store
-- here, so the store is the request that stands under it, if there is one.
pub mod Cooldown
mod Tests
use interbtc_clients_cli.Prelude.{
  ℕ, ◌+◌, ◌-◌, ◌*◌, ◌%◌, Bool, true, false, ◌&&◌, ◌||◌, not, Option, none, some, List, [], ◌∷◌,
  Result, ok, err, ◌>>=◌, ok_or, ltb, ◌==◌, if◌then◌else◌,
}
use interbtc_clients_cli.Prelude.Words.{u128_max, checked_sub, checked_mul}

-- The errors of faucet/src/error.rs that this code raises or passes on.
pub data Error : Type 0 where
  runtime_error kv_error datetime_parsing_error : Error
  account_balance_exceeds_maximum account_already_funded math_error : Error

pub data FundingRequestAccountType : Type 0 where
  user vault : FundingRequestAccountType

-- A date is the text that the store keeps, which is only parsed.
pub record FaucetRequest : Type 0 where
  pub datetime : ℕ
  pub account_type : FundingRequestAccountType

abbrev pub max_fundable_client_balance : ℕ
max_fundable_client_balance = 100

-- FAUCET_COOLDOWN_HOURS: 6 hours, in milliseconds.
abbrev pub cooldown : ℕ
cooldown = 21_600_000

abbrev pub u128_mod : ℕ
u128_mod = 340_282_366_920_938_463_463_374_607_431_768_211_456

-- What a call reads of the parachain, the clock and the store, for an account and a currency: `one`
-- is a unit of the currency, if it is known; `native` tells whether it is the native one; `now` is the
-- time of the test and `later` the one that is stored; `transfer` sends an amount, in the native
-- currency if told so.
pub record Client : Type 0 where
  pub free_balance : Result Error ℕ
  pub reserved_balance : Result Error ℕ
  pub vaults : Result Error (List ℕ)
  pub one : Result Error ℕ
  pub native : Bool
  pub transfer : Bool → ℕ → Result Error (Unit {0})
  pub now : ℕ
  pub later : ℕ
  pub kv_get : Result Error (Unit {0})
  pub kv_set : Result Error (Unit {0})

-- A transfer to the account, in the native currency or in the one of the call.
pub record Transfer : Type 0 where
  pub in_native : Bool
  pub amount : ℕ

unfoldable pub get_account_type : Result Error (List ℕ) → FundingRequestAccountType
get_account_type (ok []) = user
get_account_type (ok (x ∷ xs)) = vault
get_account_type (err e) = user

-- `eq` of the account types
abbrev pub same_type : FundingRequestAccountType → FundingRequestAccountType → Bool
same_type user user = true
same_type vault vault = true
same_type user vault = false
same_type vault user = false

unfoldable pub is_type_and_was_user :
    FundingRequestAccountType → FundingRequestAccountType → FundingRequestAccountType → Bool
is_type_and_was_user account_type current_account_type previous_account_type =
    same_type current_account_type account_type && same_type previous_account_type user

unfoldable pub has_request_expired :
    ℕ → ℕ → FundingRequestAccountType → FundingRequestAccountType → Bool
unfolding is_type_and_was_user
has_request_expired request_datetime cooldown_threshold current_account_type previous_account_type =
    ltb request_datetime cooldown_threshold
    || is_type_and_was_user vault current_account_type previous_account_type

-- The text for a time, and the time that is parsed from a text.
module _ (to_rfc2822 : ℕ → ℕ) (parse_from_rfc2822 : ℕ → Result Error ℕ) where
  -- The test of the last request.
  unfoldable pub ensure_cooled :
      ℕ → Option FaucetRequest → FundingRequestAccountType → Result Error (Unit {0})
  unfolding has_request_expired
  ensure_cooled cooldown_threshold none account_type = ok tt
  ensure_cooled cooldown_threshold (some last_request) account_type = do
    request_datetime ← parse_from_rfc2822 last_request.datetime
    let expired =
        has_request_expired request_datetime cooldown_threshold account_type
          last_request.account_type
    if expired then ok tt else err account_already_funded

  unfoldable pub ensure_funding_allowed :
      Client → Option FaucetRequest → FundingRequestAccountType → Result Error (Unit {0})
  unfolding ensure_cooled
  ensure_funding_allowed client last_request account_type = do
    free_balance ← client.free_balance
    reserved_balance ← client.reserved_balance
    one ← client.one
    let enough =
        ltb ((max_fundable_client_balance * one) % u128_mod)
          ((free_balance + reserved_balance) % u128_mod)
    if enough
        then err account_balance_exceeds_maximum
        else (ok_or (checked_sub client.now cooldown) math_error >>= λ threshold.
            ensure_cooled threshold last_request account_type)

  -- The amount of a transfer, once the funding is allowed. Both kinds of accounts have an allowance.
  unfoldable pub amount_allowed :
      (FundingRequestAccountType → ℕ) → Client → Option FaucetRequest → Result Error ℕ
  unfolding ensure_funding_allowed
  amount_allowed allowances client last_request = client.one >>= λ one. client.kv_get >>= λ u.
      ensure_funding_allowed client last_request (get_account_type client.vaults) >>= λ u'.
      ok_or (checked_mul u128_max (allowances (get_account_type client.vaults)) one) math_error

  -- The transfers, all of which are made; the first error counts.
  unfoldable pub transfer_all : Client → ℕ → List Transfer × Result Error (Unit {0})
  transfer_all client amount =
      if client.native
      then (record { in_native = false; amount = amount } ∷ [], client.transfer false amount)
      else (
        record { in_native = false; amount = amount }
            ∷ record { in_native = true; amount = amount }
            ∷ [],
        (client.transfer false amount >>= λ u. client.transfer true amount),
      )

  -- The transfers that are asked for, and the result of the call. A failure of the store's update is one
  -- of the call.
  unfoldable pub try_funding :
      (FundingRequestAccountType → ℕ)
      → Client
      → Option FaucetRequest
      → List Transfer × Result Error (Unit {0})
  unfolding amount_allowed transfer_all
  try_funding allowances client last_request =
      elim (amount_allowed allowances client last_request) [
        | err e ↦ ([], err e)
        | ok amount ↦
            let (transfers, result) = transfer_all client amount in
            (transfers, (result >>= λ u. client.kv_set))
      ]

  -- What the store holds after a call with a result.
  unfoldable pub update_kv_store :
      Client → Option FaucetRequest → Result Error (Unit {0}) → Option FaucetRequest
  update_kv_store client last_request (err e) = last_request
  update_kv_store client last_request (ok u) =
      some (record {
        datetime = to_rfc2822 client.later;
        account_type = get_account_type client.vaults;
      })

  -- The call, with the store after it.
  unfoldable pub atomic_faucet_funding :
      (FundingRequestAccountType → ℕ)
      → Client
      → Option FaucetRequest
      → (List Transfer × Result Error (Unit {0})) × Option FaucetRequest
  unfolding try_funding update_kv_store
  atomic_faucet_funding allowances client last_request =
      let done = try_funding allowances client last_request in
      (done, update_kv_store client last_request done.1)

  -- Calls for one account and currency, one after the other, with their transfers and results.
  unfoldable pub fund_accounts :
      (FundingRequestAccountType → ℕ)
      → List Client
      → Option FaucetRequest
      → List (Client × (List Transfer × Result Error (Unit {0})))
  unfolding atomic_faucet_funding
  fund_accounts allowances [] last_request = []
  fund_accounts allowances (client ∷ clients) last_request =
      let (done, next) = atomic_faucet_funding allowances client last_request in
      (client, done) ∷ fund_accounts allowances clients next
