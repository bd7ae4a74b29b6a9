-- ===== src/Oracle/Quotes.antt =====
-- The prices that the feeds give for a configured pair (`get_prices`, oracle/src/feeds.rs).
use interbtc_clients_cli.Prelude.{
  suc, ◌≡◌, refl, sym, ap, subst, Option, none, some, List, [], ◌∷◌, Result, ok, err, ◌>>=◌, ok_or,
  map_result, AllPairs, map_result-AllPairs, All, bind-ok, length,
}
use interbtc_clients_cli.Oracle.{
  Currency, strip, CurrencyPair, Prices, Error, not_configured, CurrencyPairAndPrice,
}
use interbtc_clients_cli.Oracle.Units.{Derived}
use interbtc_clients_cli.Oracle.Config.{FeedName, PriceConfig}
use interbtc_clients_cli.Oracle.Feeds.{PriceFeed, price_by, flatten, configured, get_prices}
use interbtc_clients_cli.Oracle.Routes.{Quoted, Routed, price_by-Derived}

module _ (prices : Prices) (feeds : FeedName → Option (PriceFeed prices)) where
  -- The configured feeds answer for the pair that they are asked for.
  abbrev pub AllHonest : Type 0
  AllHonest =
      (name : FeedName) (feed : PriceFeed prices) (p : CurrencyPair)
      (x : CurrencyPairAndPrice prices)
      → feeds name ≡ some feed
      → feed p ≡ ok x
      → x.pair ≡ p

  -- The route of a feed goes between the base of the pair and its quote, of which it may have another
  -- name for the feed after a `=`.
  pub record IsRoute (pair : CurrencyPair) (x : FeedName × List CurrencyPair) : Type 0 where
    pub other : Currency
    pub named : strip other ≡ strip pair.quote
    pub routed : Routed pair.base x.1 other

  -- A price for a pair: it is derived from the quotes of one of the feeds.
  pub record IsPriceFor (pair : CurrencyPair) (x : CurrencyPairAndPrice prices) : Type 0 where
    pub name : FeedName
    pub feed : PriceFeed prices
    pub other : Currency
    pub is_configured : feeds name ≡ some feed
    pub named : strip other ≡ strip pair.quote
    pub derived : Derived prices (Quoted prices feed) pair.base other x.price

  configured-feed :
      (x : FeedName × List CurrencyPair) (y : List CurrencyPair × PriceFeed prices)
      → configured prices feeds x ≡ ok y
      → (y.0 ≡ x.1) × (feeds x.0 ≡ some y.1)
  unfolding configured
  configured-feed (name, route) y h = go (feeds name) h
    where
      go :
          (o : Option (PriceFeed prices))
          → (ok_or o not_configured >>= λ feed. ok (route, feed)) ≡ ok y
          → (y.0 ≡ route) × (o ≡ some y.1)
      go none h = cc
      go (some f) h = (sym (ap (route_of) h), ap (λ r. some (feed_of r)) h)
        where
          route_of : Result Error (List CurrencyPair × PriceFeed prices) → List CurrencyPair
          route_of (ok z) = z.0
          route_of (err e) = route

          feed_of : Result Error (List CurrencyPair × PriceFeed prices) → PriceFeed prices
          feed_of (ok z) = z.1
          feed_of (err e) = f

  flatten-IsPriceFor :
      (honest : AllHonest) (pair : CurrencyPair) (xs : List (FeedName × List CurrencyPair))
      (routes : List (List CurrencyPair × PriceFeed prices))
      (found : List (Option (CurrencyPairAndPrice prices)))
      → All (IsRoute pair) xs
      → AllPairs (λ x y. configured prices feeds x ≡ ok y) xs routes
      → AllPairs (λ y o. price_by prices pair y ≡ ok o) routes found
      → (length (flatten prices found) ≡ length xs) × All (IsPriceFor pair) (flatten prices found)
  unfolding flatten
  flatten-IsPriceFor honest pair [] [] [] r c p = (refl, tt)
  flatten-IsPriceFor honest pair [] [] (o ∷ found) r c p = elim p [ ]
  flatten-IsPriceFor honest pair [] (y ∷ routes) found r c p = elim c [ ]
  flatten-IsPriceFor honest pair (x ∷ xs) [] found r c p = elim c [ ]
  flatten-IsPriceFor honest pair (x ∷ xs) (y ∷ routes) [] r c p = elim p [ ]
  flatten-IsPriceFor honest pair (x ∷ xs) ((route, feed) ∷ routes) (o ∷ found) r c p =
      let (same_route, known) = configured-feed x (route, feed) c.0 in
      let routed =
        subst (λ (z : List CurrencyPair). Routed pair.base z r.0.other) (sym same_route)
          r.0.routed in
      let (z, is_some, b, q, derived) =
        price_by-Derived prices feed pair r.0.other route o (λ q z k. honest x.0 feed q z known k)
          routed p.0 in
      let (n, all) = flatten-IsPriceFor honest pair xs routes found r.1 c.1 p.1 in
      rw (is_some) (
        ap suc n,
        (
          record {
            name = x.0;
            feed = feed;
            other = r.0.other;
            is_configured = known;
            named = r.0.named;
            derived = derived;
          },
          all,
        ),
      )

  -- Let each feed answer for the pair that it is asked for, and let the route of each configured feed
  -- go, over shared currencies and never back to its start, between the base of the configured pair
  -- and its quote, up to the feed's own name of the quote. If the prices are had without an error, then
  -- there is one for each route, and each is derived from the quotes of the pairs of one feed for the
  -- base and the quote of the configured pair: by inverting a price together with its pair, and by
  -- multiplying two prices over the currency that they share.
  pub get_prices-IsPriceFor :
      (honest : AllHonest) (config : PriceConfig prices)
      (found : List (CurrencyPairAndPrice prices))
      → All (IsRoute config.pair) config.feeds
      → get_prices prices feeds config ≡ ok found
      → (length found ≡ length config.feeds) × All (IsPriceFor config.pair) found
  unfolding get_prices
  get_prices-IsPriceFor honest config found routes h =
      let (ys, e, h') = bind-ok (map_result (configured prices feeds) config.feeds) _ found h in
      let (os, e', h'') = bind-ok (map_result (price_by prices config.pair) ys) _ found h' in
      let c =
        map_result-AllPairs (λ x y. configured prices feeds x ≡ ok y) (configured prices feeds)
          (λ x y k. k) config.feeds ys e in
      let p =
        map_result-AllPairs (λ y o. price_by prices config.pair y ≡ ok o)
          (price_by prices config.pair) (λ y o k. k) ys os e' in
      let same : flatten prices os ≡ found = cc in
      subst
        (λ (l : List (CurrencyPairAndPrice prices)).
          (length l ≡ length config.feeds) × All (IsPriceFor config.pair) l)
        same (flatten-IsPriceFor honest config.pair config.feeds ys os routes c p)
