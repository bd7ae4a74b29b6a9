-- ===== src/Oracle.antt =====
-- The oracle (oracle/src): currencies, pairs of them and their prices (oracle/src/currency.rs). A
-- currency is a string, the list of its characters; a price is an element of a type of floating-point
-- numbers, of which only the operations that the code uses are known.
pub mod Config
pub mod Feeds
pub mod Units
pub mod Routes
pub mod Quotes
mod Tests
use interbtc_clients_cli.Prelude.{
  ℕ, ◌^◌, ◌%◌, Bool, true, false, ◌&&◌, ◌||◌, Option, none, some, List, [], ◌∷◌, Result, ok, err,
  ◌>>=◌, ok_or, ◌==◌, if◌then◌else◌,
}

-- A string.
abbrev pub Currency : Type 0
Currency = List ℕ

-- `==` on strings
unfoldable pub same : Currency → Currency → Bool
same [] [] = true
same [] (d ∷ ds) = false
same (c ∷ cs) [] = false
same (c ∷ cs) (d ∷ ds) = c == d && same cs ds

-- `split("=").next()`: what stands before the first `=`, which is the character 61.
unfoldable pub strip : Currency → Currency
strip [] = []
strip (c ∷ cs) = let rest = strip cs in if c == 61 then [] else c ∷ rest

pub record CurrencyPair : Type 0 where
  pub base : Currency
  pub quote : Currency

unfoldable pub contains : CurrencyPair → Currency → Bool
unfolding same strip
contains pair currency =
    same (strip pair.base) (strip currency) || same (strip pair.quote) (strip currency)

unfoldable pub has_shared : CurrencyPair → CurrencyPair → Bool
unfolding contains
has_shared pair other = contains pair other.base || contains pair other.quote

unfoldable pub invert : CurrencyPair → CurrencyPair
invert pair = record { base = pair.quote; quote = pair.base }

-- The operations on prices: the product, and one over a price.
pub record Prices : Type 1 where
  pub Price : Type 0
  pub times : Price → Price → Price
  pub invert : Price → Price

-- The errors of oracle/src/error.rs that are told apart here.
pub data Error : Type 0 where
  invalid_exchange_rate invalid_currency not_configured other : Error

module _ (prices : Prices) where
  pub record CurrencyPairAndPrice : Type 0 where
    pub pair : CurrencyPair
    pub price : prices.Price

  unfoldable pub invert_price : CurrencyPairAndPrice → CurrencyPairAndPrice
  unfolding invert
  invert_price x = record { pair = invert x.pair; price = prices.invert x.price }

  -- The two prices in the order and the direction in which they are combined.
  unfoldable pub oriented :
      CurrencyPairAndPrice → CurrencyPairAndPrice → CurrencyPairAndPrice × CurrencyPairAndPrice
  unfolding invert_price
  oriented x y =
      if same x.pair.quote y.pair.quote
      then (x, invert_price y)
      else (if same x.pair.base y.pair.base
          then (invert_price x, y)
          else (if same x.pair.base y.pair.quote then (invert_price x, invert_price y) else (x, y)))

  unfoldable pub reduce : CurrencyPairAndPrice → CurrencyPairAndPrice → CurrencyPairAndPrice
  unfolding oriented
  reduce x y =
      let (left, right) = oriented x y in
      record {
        pair = record { base = left.pair.base; quote = right.pair.quote };
        price = prices.times left.price right.price;
      }

  -- The library's fixed-point numbers: from a float, the checked product, and the checked quotient of
  -- two integers; and the decimals of a currency, if it is configured. `10_u128.pow` wraps.
  unfoldable pub exchange_rate :
      (prices.Price → ℕ)
      → (ℕ → ℕ → Option ℕ)
      → (ℕ → ℕ → Option ℕ)
      → (Currency → Option ℕ)
      → CurrencyPairAndPrice
      → Result Error ℕ
  exchange_rate from_float checked_mul checked_from_rational decimals x = do
    quote_decimals ← ok_or (decimals x.pair.quote) invalid_currency
    base_decimals ← ok_or (decimals x.pair.base) invalid_currency
    conversion ←
        ok_or (checked_from_rational (10 ^ quote_decimals % 2 ^ 128) (10 ^ base_decimals % 2 ^ 128))
          invalid_exchange_rate
    ok_or (checked_mul (from_float x.price) conversion) invalid_exchange_rate
