-- ===== src/Faucet/Cooldown.antt =====
-- The cooldown between two fundings of one account (faucet/src/http.rs).
use interbtc_clients_cli.Prelude.{
  ℕ, ◌+◌, ◌<◌, ◌≡◌, refl, ap, sym, ◌>>=◌, Bool, true, false, Option, none, some, List, [], ◌∷◌,
  Result, ok, err, ok_or, if◌then◌else◌, ◌⊎◌, inl, inr, arith, bind-ok,
}
use interbtc_clients_cli.Prelude.Words.{checked_sub}
use interbtc_clients_cli.Faucet.{
  Error, account_already_funded, account_balance_exceeds_maximum, math_error,
  FundingRequestAccountType, user, vault, FaucetRequest, cooldown, Client, Transfer, amount_allowed,
  transfer_all, get_account_type, has_request_expired, is_type_and_was_user, ensure_cooled,
  ensure_funding_allowed, atomic_faucet_funding, fund_accounts, try_funding, update_kv_store,
}

-- What the clock and the library's formats promise: a text is read back as the time it was made for,
-- up to the seconds.
pub record Lawful (to_rfc2822 : ℕ → ℕ) (parse_from_rfc2822 : ℕ → Result Error ℕ) : Type 0 where
  pub read : ℕ → ℕ
  pub read_back : (t : ℕ) → parse_from_rfc2822 (to_rfc2822 t) ≡ ok (read t)
  pub close : (t : ℕ) → t < read t + 1000

abbrev pub type_of : Client → FundingRequestAccountType
type_of client = get_account_type client.vaults

-- Two fundings are apart: by the cooldown, up to a second, or the first was one of a user that has
-- become a vault.
abbrev pub Apart : Client → Client → Type 0
Apart first second =
    (first.later + cooldown < second.now + 1000)
    ⊎ ((type_of first ≡ user) × (type_of second ≡ vault))

-- The last call that succeeded.
abbrev pub last_success : Client → Client → Result Error (Unit {0}) → Client
last_success previous client (ok u) = client
last_success previous client (err e) = previous

-- Each call fails without a transfer, or it is apart from the last one before it that succeeded.
abbrev pub AllApart : Client → List (Client × (List Transfer × Result Error (Unit {0}))) → Type 0
AllApart previous [] = Unit {0}
AllApart previous ((client, (transfers, result)) ∷ calls) =
    (((transfers ≡ []) × (e : Error) × (result ≡ err e)) ⊎ Apart previous client)
    × AllApart (last_success previous client result) calls

sub-some : (a b c : ℕ) → checked_sub a b ≡ some c → c + b ≡ a
sub-some a b c h = ground arith

-- A test that must have held.
passed :
    (b : Bool) (e : Error) (m : Result Error (Unit {0}))
    → (if b then m else err e) ≡ ok tt
    → (b ≡ true) × (m ≡ ok tt)
passed true e m h = (refl, h)
passed false e m h = cc

refused :
    (b : Bool) (e : Error) (m : Result Error (Unit {0}))
    → (if b then err e else m) ≡ ok tt
    → m ≡ ok tt
refused true e m h = cc
refused false e m h = h

some_of : (o : Option ℕ) (e : Error) (a : ℕ) → ok_or o e ≡ ok a → o ≡ some a
some_of none e a h = cc
some_of (some b) e a h = cc

module _ (to_rfc2822 : ℕ → ℕ) (parse_from_rfc2822 : ℕ → Result Error ℕ)
    (lawful : Lawful to_rfc2822 parse_from_rfc2822)
    (allowances : FundingRequestAccountType → ℕ) where
  -- What the store keeps of a funding.
  abbrev pub entry : Client → FaucetRequest
  entry client = record { datetime = to_rfc2822 client.later; account_type = type_of client }

  read_same :
      {text date date' : ℕ}
      → parse_from_rfc2822 text ≡ ok date'
      → parse_from_rfc2822 text ≡ ok date
      → date ≡ date'
  read_same e e' = cc

  expired-Apart :
      (threshold date : ℕ) (current previous : FundingRequestAccountType)
      → has_request_expired date threshold current previous ≡ true
      → (date < threshold) ⊎ ((previous ≡ user) × (current ≡ vault))
  unfolding has_request_expired is_type_and_was_user
  expired-Apart threshold date user user h = inl (ground arith)
  expired-Apart threshold date user vault h = inl (ground arith)
  expired-Apart threshold date vault user h = inr (refl, refl)
  expired-Apart threshold date vault vault h = inl (ground arith)

  ensure_cooled-Apart :
      (previous client : Client) (threshold : ℕ)
      → checked_sub client.now cooldown ≡ some threshold
      → ensure_cooled to_rfc2822 parse_from_rfc2822 threshold
          (some (entry previous))
          (type_of client)
        ≡ ok tt
      → Apart previous client
  unfolding ensure_cooled
  ensure_cooled-Apart previous client threshold t h =
      let (date, e, k) = bind-ok (parse_from_rfc2822 (to_rfc2822 previous.later)) _ tt h in
      let exact : date ≡ lawful.read previous.later =
        read_same (lawful.read_back previous.later) e in
      let near : previous.later < date + 1000 = omega (arith, exact, lawful.close previous.later) in
      let (due, _) = passed _ account_already_funded (ok tt) k in
      elim (expired-Apart threshold date (type_of client) (type_of previous) due) [
        | inl early ↦ inl (omega (arith, early, near, sub-some client.now cooldown threshold t))
        | inr was ↦ inr was
      ]

  ensure_funding_allowed-Apart :
      (previous client : Client)
      → ensure_funding_allowed to_rfc2822 parse_from_rfc2822 client
          (some (entry previous))
          (type_of client)
        ≡ ok tt
      → Apart previous client
  unfolding ensure_funding_allowed
  ensure_funding_allowed-Apart previous client h =
      let (free, _, k) = bind-ok client.free_balance _ tt h in
      let (reserved, _, k2) = bind-ok client.reserved_balance _ tt k in
      let (one, _, k3) = bind-ok client.one _ tt k2 in
      let k4 = refused _ account_balance_exceeds_maximum _ k3 in
      let (threshold, t, k5) =
        bind-ok (ok_or (checked_sub client.now cooldown) math_error) _ tt k4 in
      ensure_cooled-Apart previous client threshold (some_of _ math_error threshold t) k5

  amount_allowed-Apart :
      (previous client : Client) (amount : ℕ)
      → amount_allowed to_rfc2822 parse_from_rfc2822 allowances client (some (entry previous))
        ≡ ok amount
      → Apart previous client
  unfolding amount_allowed
  amount_allowed-Apart previous client amount h =
      let (one, _, k) = bind-ok client.one _ amount h in
      let (_, _, k2) = bind-ok client.kv_get _ amount k in
      let (_, allowed, _) =
        bind-ok
          (ensure_funding_allowed to_rfc2822 parse_from_rfc2822 client (some (entry previous))
            (type_of client))
          _ amount k2 in
      ensure_funding_allowed-Apart previous client allowed

  -- A call after a success that asks for a transfer, or succeeds.
  try_funding-Apart :
      (previous client : Client) (transfers : List Transfer) (result : Result Error (Unit {0}))
      → try_funding to_rfc2822 parse_from_rfc2822 allowances client (some (entry previous))
        ≡ (transfers, result)
      → ((transfers ≡ []) × (e : Error) × (result ≡ err e)) ⊎ Apart previous client
  unfolding try_funding
  try_funding-Apart previous client transfers result h =
      go (amount_allowed to_rfc2822 parse_from_rfc2822 allowances client (some (entry previous)))
        refl h
    where
      paid : ℕ → List Transfer × Result Error (Unit {0})
      paid amount =
          let (sent, answer) = transfer_all to_rfc2822 parse_from_rfc2822 client amount in
          (sent, (answer >>= λ u. client.kv_set))

      go :
          (r : Result Error ℕ)
          → amount_allowed to_rfc2822 parse_from_rfc2822 allowances client (some (entry previous))
            ≡ r
          → elim r as (λ _. List Transfer × Result Error (Unit {0})) [
            | err e ↦ ([], err e)
            | ok amount ↦ paid amount
          ]
            ≡ (transfers, result)
          → ((transfers ≡ []) × (e : Error) × (result ≡ err e)) ⊎ Apart previous client
      go (err e) a k = inl (
        ap (λ (x : List Transfer × Result Error (Unit {0})). x.0) (sym k),
        e,
        ap (λ (x : List Transfer × Result Error (Unit {0})). x.1) (sym k),
      )
      go (ok amount) a k = inr (amount_allowed-Apart previous client amount a)

  -- In any run of calls for one account and currency, one after the other, that follows a call that
  -- succeeded, each call that asks for a transfer or succeeds is apart from the last one before it that
  -- succeeded: by the cooldown of six hours, up to the second that the store keeps, or because the
  -- account was a user then and is a vault now. A call that fails changes nothing for the later ones,
  -- even if it asked for transfers.
  pub fund_accounts-AllApart :
      (clients : List Client) (previous : Client)
      → AllApart previous
          (fund_accounts to_rfc2822 parse_from_rfc2822 allowances clients (some (entry previous)))
  unfolding fund_accounts atomic_faucet_funding update_kv_store
  fund_accounts-AllApart [] previous = tt
  fund_accounts-AllApart (client ∷ clients) previous =
      go (try_funding to_rfc2822 parse_from_rfc2822 allowances client (some (entry previous))).0
        (try_funding to_rfc2822 parse_from_rfc2822 allowances client (some (entry previous))).1 refl
        (fund_accounts-AllApart clients previous) (fund_accounts-AllApart clients client)
    where
      go :
          (transfers : List Transfer) (result : Result Error (Unit {0}))
          → try_funding to_rfc2822 parse_from_rfc2822 allowances client (some (entry previous))
            ≡ (transfers, result)
          → AllApart previous (
              fund_accounts to_rfc2822 parse_from_rfc2822 allowances clients
                (some (entry previous)))
          → AllApart client
              (fund_accounts to_rfc2822 parse_from_rfc2822 allowances clients (some (entry client)))
          → AllApart previous (
              (client, (transfers, result))
              ∷ fund_accounts to_rfc2822 parse_from_rfc2822 allowances clients (
                  update_kv_store to_rfc2822 parse_from_rfc2822 client
                    (some (entry previous))
                    result))
      go transfers (err e) h unchanged changed =
          (try_funding-Apart previous client transfers (err e) h, unchanged)
      go transfers (ok u) h unchanged changed =
          (try_funding-Apart previous client transfers (ok u) h, changed)
