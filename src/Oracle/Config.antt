-- ===== src/Oracle/Config.antt =====
-- The configuration of the oracle and its validation (oracle/src/config.rs).
use interbtc_clients_cli.Prelude.{
  Option, none, some, List, [], ◌∷◌, Result, ok, err, ◌>>=◌, if◌then◌else◌,
}
use interbtc_clients_cli.Oracle.{Currency, CurrencyPair, contains, has_shared, Prices}

pub data FeedName : Type 0 where
  kraken gate_io coin_gecko dia : FeedName

-- The feeds stand in the order of their names.
pub record PriceConfig (prices : Prices) : Type 0 where
  pub pair : CurrencyPair
  pub value : Option prices.Price
  pub feeds : List (FeedName × List CurrencyPair)

pub data ConfigError : Type 0 where
  no_start no_end : ConfigError
  no_path : CurrencyPair → CurrencyPair → ConfigError

pub record PriceConfigError : Type 0 where
  pub feed : FeedName
  pub pair : CurrencyPair
  pub error : ConfigError

unfoldable pub first : List CurrencyPair → Option CurrencyPair
first [] = none
first (x ∷ xs) = some x

unfoldable pub last : List CurrencyPair → Option CurrencyPair
last [] = none
last (x ∷ xs) = elim (last xs) [ none ↦ some x | some y ↦ some y ]

-- The end that a path must have, by the end that its first pair has.
unfoldable pub end_of : CurrencyPair → List CurrencyPair → Result ConfigError Currency
unfolding first
end_of pair path = elim (first path) [
  | none ↦ err no_start
  | some currency_pair ↦
      if contains currency_pair pair.base
      then ok pair.quote
      else (if contains currency_pair pair.quote then ok pair.base else err no_start)
]

unfoldable pub check_end : Currency → List CurrencyPair → Result ConfigError (Unit {0})
unfolding last
check_end end path = elim (last path) [
  | none ↦ err no_end
  | some currency_pair ↦ if contains currency_pair end then ok tt else err no_end
]

-- Each two neighbours share a currency.
unfoldable pub check_windows : List CurrencyPair → Result ConfigError (Unit {0})
check_windows [] = ok tt
check_windows (left ∷ []) = ok tt
check_windows (left ∷ right ∷ path) =
    let rest = check_windows (right ∷ path) in
    if has_shared left right then rest else err (no_path left right)

unfoldable pub check_path : CurrencyPair → List CurrencyPair → Result ConfigError (Unit {0})
unfolding end_of check_end check_windows
check_path pair path = do end ← end_of pair path; u ← check_end end path; check_windows path

unfoldable pub validate_feeds :
    CurrencyPair → List (FeedName × List CurrencyPair) → Result PriceConfigError (Unit {0})
unfolding check_path
validate_feeds pair [] = ok tt
validate_feeds pair ((name, path) ∷ feeds) =
    let rest = validate_feeds pair feeds in
    elim (check_path pair path) [
      | ok u ↦ rest
      | err e ↦ err (record { feed = name; pair = pair; error = e })
    ]

unfoldable pub validate :
    {prices : Prices} → PriceConfig prices → Result PriceConfigError (Unit {0})
unfolding validate_feeds
validate config = validate_feeds config.pair config.feeds
