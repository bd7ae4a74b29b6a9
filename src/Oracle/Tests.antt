-- ===== src/Oracle/Tests.antt =====
-- Routes of the tests of oracle/src/config.rs and oracle/src/currency.rs, over prices that are pairs
-- of a numerator and a denominator.
use interbtc_clients_cli.Prelude.{
  ℕ, ◌*◌, ◌≡◌, ◌≢◌, refl, ap, Option, none, some, List, [], ◌∷◌, ok, err, All, length, arith, inl,
  inr,
}
use interbtc_clients_cli.Oracle.{
  Currency, CurrencyPair, Prices, CurrencyPairAndPrice, contains, has_shared, same,
}
use interbtc_clients_cli.Oracle.Config.{
  FeedName, kraken, PriceConfig, no_start, no_end, check_path, validate,
}
use interbtc_clients_cli.Oracle.Feeds.{PriceFeed, reduce_all, get_prices}
use interbtc_clients_cli.Oracle.Routes.{Walk, arrived, along, from_base}
use interbtc_clients_cli.Oracle.Quotes.{AllHonest, IsPriceFor, get_prices-IsPriceFor}

abbrev btc : Currency
btc = 66 ∷ []

abbrev dot : Currency
dot = 68 ∷ []

abbrev usd : Currency
usd = 85 ∷ []

abbrev intr : Currency
intr = 73 ∷ []

abbrev pair_of : Currency → Currency → CurrencyPair
pair_of b q = record { base = b; quote = q }

abbrev prices : Prices
prices = record { Price = ℕ × ℕ; times = λ x y. (x.0 * y.0, x.1 * y.1); invert = λ x. (x.1, x.0) }

-- A feed with the prices 6 for DOT/USD as USD/DOT, and 2 for USD/INTR.
abbrev feed : PriceFeed prices
feed pair = ok (record { pair = pair; price = (2, 6) })

abbrev feeds : FeedName → Option (PriceFeed prices)
feeds name = some feed

abbrev route : List CurrencyPair
route = pair_of usd dot ∷ pair_of usd intr ∷ []

abbrev config : PriceConfig prices
config = record { pair = pair_of dot intr; value = none; feeds = (kraken, route) ∷ [] }

accepted : validate config ≡ ok tt
unfolding validate contains has_shared
accepted = refl

no_first : check_path (pair_of btc intr) (pair_of usd dot ∷ []) ≡ err no_start
unfolding check_path contains
no_first = refl

no_last : check_path (pair_of btc intr) (pair_of btc usd ∷ []) ≡ err no_end
unfolding check_path contains
no_last = refl

abbrev found : List (CurrencyPairAndPrice prices)
found = record { pair = pair_of dot intr; price = (12, 12) } ∷ []

priced : get_prices prices feeds config ≡ ok found
unfolding get_prices same
priced = refl

apart : (c d : ℕ) → c ≢ d → (c ∷ []) ≢ (d ∷ [])
apart c d n e = n (ap first e)
  where
    first : Currency → ℕ
    first [] = 0
    first (x ∷ xs) = x

walk : Walk dot dot route intr
walk = along (pair_of usd dot) _ dot usd intr (inr (refl, refl)) (apart 85 68 (omega arith)) (
    along (pair_of usd intr) _ usd intr intr (inl (refl, refl)) (apart 73 68 (omega arith))
      (arrived intr))

honest : AllHonest prices feeds
honest name f p x e h = let e' : feed ≡ f = cc in let h' : feed p ≡ ok x = cc in cc

get_prices-IsPriceFor_example :
    (length found ≡ 1) × All (IsPriceFor prices feeds (pair_of dot intr)) found
get_prices-IsPriceFor_example =
    get_prices-IsPriceFor prices feeds honest config found
      (
        record { other = intr; named = refl; routed = from_base (apart 68 73 (omega arith)) walk },
        tt,
      )
      priced

-- A route that the validation accepts and that leads back over a pair: the price is no price for the
-- pair, since the second and the third pair share a currency that the first two have lost.
abbrev forked : List CurrencyPair
forked = pair_of btc usd ∷ pair_of usd dot ∷ pair_of usd intr ∷ []

forked_accepted : check_path (pair_of btc intr) forked ≡ ok tt
unfolding check_path contains has_shared
forked_accepted = refl

abbrev priced_as : CurrencyPair → ℕ × ℕ → CurrencyPairAndPrice prices
priced_as pair price = record { pair = pair; price = price }

-- BTC/DOT is multiplied with USD/INTR and stands as BTC/INTR.
forked_reduced :
    reduce_all prices (
      priced_as (pair_of btc usd) (20, 1)
      ∷ priced_as (pair_of usd dot) (5, 1)
      ∷ priced_as (pair_of usd intr) (7, 1)
      ∷ [])
    ≡ some (priced_as (pair_of btc intr) (700, 1))
unfolding reduce_all same
forked_reduced = refl
