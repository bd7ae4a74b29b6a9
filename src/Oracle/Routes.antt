-- ===== src/Oracle/Routes.antt =====
-- The routes of the configured feeds, and the price that a route gives (oracle/src/config.rs,
-- oracle/src/feeds.rs).
use interbtc_clients_cli.Prelude.{
  ◌≡◌, ◌≢◌, refl, sym, subst, true, false, Option, none, some, List, [], ◌∷◌, Result, ok,
  map_result, AllPairs, map_result-AllPairs, ◌⊎◌, inl, inr, bind-ok,
}
use interbtc_clients_cli.Oracle.{
  Currency, same, CurrencyPair, Prices, Error, CurrencyPairAndPrice, invert, invert_price, reduce,
}
use interbtc_clients_cli.Oracle.Units.{
  Between, Derived, quote, Holds, same-cases, invert_price-Holds, reduce-Holds,
}
use interbtc_clients_cli.Oracle.Feeds.{PriceFeed, reduce_from, reduce_all, directed, price_by}

-- A route that goes from a currency to another one by pairs that share the currency in the middle,
-- each in one direction or the other, and that never comes back to its start.
pub data Walk (start : Currency) : Currency → List CurrencyPair → Currency → Type 0 where
  arrived : (c : Currency) → Walk start c [] c
  along :
      (pair : CurrencyPair) (route : List CurrencyPair) (c d e : Currency)
      → Between pair c d
      → d ≢ start
      → Walk start d route e
      → Walk start c (pair ∷ route) e

-- A route between the currency that is asked for and another one.
pub data Routed (base : Currency) (route : List CurrencyPair) (other : Currency) : Type 0 where
  from_base : base ≢ other → Walk base base route other → Routed base route other
  to_base : base ≢ other → Walk other other route base → Routed base route other

module _ (prices : Prices) (feed : PriceFeed prices) where
  -- What a feed quotes: the price that it gives for a pair.
  abbrev pub Quoted : CurrencyPair → prices.Price → Type 0
  Quoted pair x = feed pair ≡ ok (record { pair = pair; price = x })

  -- A feed answers for the pair that it is asked for.
  abbrev pub Answers : CurrencyPair → CurrencyPairAndPrice prices → Type 0
  Answers pair x = (x.pair ≡ pair) × Quoted pair x.price

  Answers-Holds :
      (pair : CurrencyPair) (x : CurrencyPairAndPrice prices)
      → Answers pair x
      → Holds prices Quoted x
  Answers-Holds pair x (e, q) =
      subst (λ (p : CurrencyPair). Derived prices Quoted p.base p.quote x.price) (sym e)
        (quote pair x.price q)

  Answers-Between :
      (pair : CurrencyPair) (x : CurrencyPairAndPrice prices) (c d : Currency)
      → Answers pair x
      → Between pair c d
      → Between x.pair c d
  Answers-Between pair x c d (e, q) b = subst (λ (p : CurrencyPair). Between p c d) (sym e) b

  -- The rest of a route, once its first part has been reduced to one price.
  reduce_from-Holds :
      (s : Currency) (c : Currency) (route : List CurrencyPair) (e : Currency)
      (x : CurrencyPairAndPrice prices) (ys : List (CurrencyPairAndPrice prices))
      → Walk s c route e
      → Holds prices Quoted x
      → Between x.pair s c
      → AllPairs Answers route ys
      → Holds prices Quoted (reduce_from prices x ys) × Between (reduce_from prices x ys).pair s e
  unfolding reduce_from
  reduce_from-Holds s c [] e x [] (arrived _) h b all = (h, b)
  reduce_from-Holds s c [] e x (y ∷ ys) (arrived _) h b all = elim all [ ]
  reduce_from-Holds s c (pair ∷ route) e x [] (along _ _ _ d _ b' n w) h b all = elim all [ ]
  reduce_from-Holds s c (pair ∷ route) e x (y ∷ ys) (along _ _ _ d _ b' n w) h b all =
      let (r, (e1, e2)) =
        reduce-Holds prices Quoted x y s c d h (Answers-Holds pair y all.0) n b
          (Answers-Between pair y c d all.0 b') in
      reduce_from-Holds s d route e (reduce prices x y) ys w r (inl (e1, e2)) all.1

  -- The price is turned to the currency that is asked for.
  directed-Holds :
      (pair : CurrencyPair) (x : CurrencyPairAndPrice prices) (b o : Currency)
      → pair.base ≡ b
      → b ≢ o
      → Between x.pair b o
      → Holds prices Quoted x
      → ((directed prices pair x).pair.base ≡ b)
        × ((directed prices pair x).pair.quote ≡ o)
        × Holds prices Quoted (directed prices pair x)
  unfolding directed invert_price invert
  directed-Holds pair x b o e n between h = go (same-cases x.pair.base pair.base) between
    where
      go :
          ((same x.pair.base pair.base ≡ true) × (x.pair.base ≡ pair.base))
            ⊎ ((same x.pair.base pair.base ≡ false) × (x.pair.base ≢ pair.base))
          → Between x.pair b o
          → ((directed prices pair x).pair.base ≡ b)
            × ((directed prices pair x).pair.quote ≡ o)
            × Holds prices Quoted (directed prices pair x)
      go (inl (t, e')) (inl (f, g)) = rw (t) (f, g, h)
      go (inl (t, e')) (inr (f, g)) = let k : b ≡ o = cc in elim (n k) [ ]
      go (inr (t, n')) (inl (f, g)) = let k : x.pair.base ≡ pair.base = cc in elim (n' k) [ ]
      go (inr (t, n')) (inr (f, g)) = rw (t) (g, f, invert_price-Holds prices Quoted x h)

  reduce_all-Between :
      (s e : Currency) (route : List CurrencyPair) (ys : List (CurrencyPairAndPrice prices))
      → s ≢ e
      → Walk s s route e
      → AllPairs Answers route ys
      → (x : CurrencyPairAndPrice prices) × (reduce_all prices ys ≡ some x)
        × Holds prices Quoted x
        × Between x.pair s e
  unfolding reduce_all
  reduce_all-Between s e [] ys n (arrived _) all = elim (n refl) [ ]
  reduce_all-Between s e (pair ∷ route) [] n (along _ _ _ d _ b n' w) all = elim all [ ]
  reduce_all-Between s e (pair ∷ route) (y ∷ ys) n (along _ _ _ d _ b n' w) all =
      let (h, between) =
        reduce_from-Holds s d route e y ys w (Answers-Holds pair y all.0)
          (Answers-Between pair y s d all.0 b) all.1 in
      (reduce_from prices y ys, refl, h, between)

  reduced :
      (base other : Currency) (route : List CurrencyPair) (ys : List (CurrencyPairAndPrice prices))
      → Routed base route other
      → AllPairs Answers route ys
      → (base ≢ other)
        × ((x : CurrencyPairAndPrice prices) × (reduce_all prices ys ≡ some x)
            × Holds prices Quoted x
            × Between x.pair base other)
  reduced base other route ys (from_base n w) all =
      (n, reduce_all-Between base other route ys n w all)
  reduced base other route ys (to_base n w) all =
      let (x, e, h, between) = reduce_all-Between other base route ys (λ k. n (sym k)) w all in
      (n, (x, e, h, flip x.pair between))
    where
      flip : (p : CurrencyPair) → Between p other base → Between p base other
      flip p (inl (a, b)) = inr (a, b)
      flip p (inr (a, b)) = inl (a, b)

  -- The price of a feed by a route.
  pub price_by-Derived :
      (pair : CurrencyPair) (other : Currency) (route : List CurrencyPair)
      (r : Option (CurrencyPairAndPrice prices))
      → ((p : CurrencyPair) (x : CurrencyPairAndPrice prices) → feed p ≡ ok x → x.pair ≡ p)
      → Routed pair.base route other
      → price_by prices pair (route, feed) ≡ ok r
      → (x : CurrencyPairAndPrice prices) × (r ≡ some x)
        × (x.pair.base ≡ pair.base)
        × (x.pair.quote ≡ other)
        × Derived prices Quoted pair.base other x.price
  unfolding price_by
  price_by-Derived pair other route r honest routed h =
      let (quoted, e, g) = bind-ok (map_result feed route) _ r h in
      let all =
        map_result-AllPairs Answers feed
          (λ p x k.
            let f = honest p x k in
            (
              f,
              subst (λ (q : CurrencyPair). feed p ≡ ok (record { pair = q; price = x.price })) f k,
            ))
          route quoted e in
      let (n, (x, found, holds, between)) = reduced pair.base other route quoted routed all in
      let (b, q, holds') = directed-Holds pair x pair.base other refl n between holds in
      (
        directed prices pair x,
        chosen x quoted found g,
        b,
        q,
        subst (λ a. Derived prices Quoted a other (directed prices pair x).price) b
            (subst
              (λ a.
                Derived prices Quoted (directed prices pair x).pair.base a
                  (directed prices pair x).price)
              q holds'),
      )
    where
      chosen :
          (x : CurrencyPairAndPrice prices) (quoted : List (CurrencyPairAndPrice prices))
          → reduce_all prices quoted ≡ some x
          → (elim (reduce_all prices quoted)
              as (λ _. Result Error (Option (CurrencyPairAndPrice prices))) [
                | none ↦ ok none
                | some x ↦ ok (some (directed prices pair x))
              ])
            ≡ ok r
          → r ≡ some (directed prices pair x)
      chosen x quoted e k =
          let k' =
            subst
              (λ o.
                (elim o as (λ _. Result Error (Option (CurrencyPairAndPrice prices))) [
                  | none ↦ ok none
                  | some x ↦ ok (some (directed prices pair x))
                ])
                ≡ ok r)
              e k in
          cc
