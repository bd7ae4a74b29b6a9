-- ===== src/Oracle/Feeds.antt =====
-- The prices from the feeds (oracle/src/feeds.rs): each route of pairs is reduced to one price, and
-- the median is taken of the feeds. The feeds themselves and the median of the library of statistics
-- are parameters.
use interbtc_clients_cli.Prelude.{
  ℕ, not, Option, none, some, List, [], ◌∷◌, map, Result, ok, ◌>>=◌, ok_or, map_result,
  if◌then◌else◌,
}
use interbtc_clients_cli.Oracle.{
  same, CurrencyPair, Prices, Error, not_configured, CurrencyPairAndPrice, invert_price, reduce,
}
use interbtc_clients_cli.Oracle.Config.{FeedName, PriceConfig}

module _ (prices : Prices) where
  -- What a feed says of a pair.
  abbrev pub PriceFeed : Type 0
  PriceFeed = CurrencyPair → Result Error (CurrencyPairAndPrice prices)

  -- `reduce` of the iterator, after its first item.
  unfoldable pub reduce_from :
      CurrencyPairAndPrice prices → List (CurrencyPairAndPrice prices) → CurrencyPairAndPrice prices
  unfolding reduce
  reduce_from x [] = x
  reduce_from x (y ∷ ys) = reduce_from (reduce prices x y) ys

  unfoldable pub reduce_all :
      List (CurrencyPairAndPrice prices) → Option (CurrencyPairAndPrice prices)
  unfolding reduce_from
  reduce_all [] = none
  reduce_all (x ∷ xs) = some (reduce_from x xs)

  -- The price is inverted unless its base is that of the pair.
  unfoldable pub directed : CurrencyPair → CurrencyPairAndPrice prices → CurrencyPairAndPrice prices
  unfolding invert_price
  directed pair x = if not (same x.pair.base pair.base) then invert_price prices x else x

  -- The price of one feed, by its route.
  unfoldable pub price_by :
      CurrencyPair
      → List CurrencyPair × PriceFeed
      → Result Error (Option (CurrencyPairAndPrice prices))
  unfolding map_result reduce_all directed
  price_by pair (route, feed) = do
    quoted ← map_result feed route
    elim (reduce_all quoted) [ none ↦ ok none | some x ↦ ok (some (directed pair x)) ]

  unfoldable pub flatten :
      List (Option (CurrencyPairAndPrice prices)) → List (CurrencyPairAndPrice prices)
  flatten [] = []
  flatten (none ∷ xs) = flatten xs
  flatten (some x ∷ xs) = x ∷ flatten xs

  -- The feeds that are configured.
  module _ (feeds : FeedName → Option PriceFeed) where
    unfoldable pub configured :
        FeedName × List CurrencyPair → Result Error (List CurrencyPair × PriceFeed)
    configured (name, route) = do feed ← ok_or (feeds name) not_configured; ok (route, feed)

    unfoldable pub get_prices :
        PriceConfig prices → Result Error (List (CurrencyPairAndPrice prices))
    unfolding configured price_by flatten
    get_prices config = do
      routes ← map_result configured config.feeds
      found ← map_result (price_by config.pair) routes
      ok (flatten found)

    unfoldable pub get_value_or_median :
        (List prices.Price → prices.Price)
        → PriceConfig prices
        → Result Error (CurrencyPairAndPrice prices)
    unfolding get_prices
    get_value_or_median median config = elim config.value [
      | some value ↦ ok (record { pair = config.pair; price = value })
      | none ↦ do
        found ← get_prices config
        ok (record {
          pair = config.pair;
          price = median (map (λ (x : CurrencyPairAndPrice prices). x.price) found);
        })
    ]

-- The estimates of the fee of all feeds, and their median if there are feeds.
module _ {Fee : Type 0} (feeds : List (ℕ → Result Error Fee)) (median : List Fee → Fee) where
  unfoldable pub get_fee_estimates : ℕ → Result Error (List Fee)
  unfolding map_result
  get_fee_estimates confirmation_target = map_result (λ feed. feed confirmation_target) feeds

  unfoldable pub maybe_get_median : ℕ → Result Error (Option Fee)
  unfolding get_fee_estimates
  maybe_get_median confirmation_target = elim feeds [
    | [] ↦ ok none
    | feed ∷ rest ↦ do
      estimates ← get_fee_estimates confirmation_target
      ok (some (median estimates))
  ]
