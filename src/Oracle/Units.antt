-- ===== src/Oracle/Units.antt =====
-- The prices of the oracle and the pairs that they are for (oracle/src/currency.rs,
-- oracle/src/feeds.rs).
use interbtc_clients_cli.Prelude.{
  ◌≡◌, ◌≢◌, refl, sym, subst, Bool, true, false, ◌&&◌, [], ◌∷◌, ◌==◌, ◌⊎◌, inl, inr, ==_iff, arith,
}
use interbtc_clients_cli.Oracle.{
  Currency, same, CurrencyPair, Prices, CurrencyPairAndPrice, invert, invert_price, oriented,
  reduce,
}

and-true : (a b : Bool) → (a && b) ≡ true → (a ≡ true) × (b ≡ true)
and-true true b h = (refl, h)
and-true false b h = cc

pub same→≡ : (c d : Currency) → same c d ≡ true → c ≡ d
unfolding same
same→≡ [] [] h = refl
same→≡ [] (d ∷ ds) h = cc
same→≡ (c ∷ cs) [] h = cc
same→≡ (c ∷ cs) (d ∷ ds) h =
    let (e, e') = and-true (c == d) (same cs ds) h in
    let first = (==_iff c d).0 e in let rest = same→≡ cs ds e' in cc

pub same_refl : (c : Currency) → same c c ≡ true
unfolding same
same_refl [] = refl
same_refl (c ∷ cs) = let rest = same_refl cs in ground (arith, rest)

-- Two currencies are compared: the outcome, and what it says.
pub same-cases : (c d : Currency) → ((same c d ≡ true) × (c ≡ d)) ⊎ ((same c d ≡ false) × (c ≢ d))
same-cases c d = go (same c d) refl
  where
    go : (b : Bool) → same c d ≡ b → ((same c d ≡ true) × (c ≡ d)) ⊎ ((same c d ≡ false) × (c ≢ d))
    go true e = inl (e, same→≡ c d e)
    go false e =
        inr (e, λ h. (let r = same_refl c in let r' = subst (λ x. same c x ≡ true) h r in cc))

-- Where two pairs stand: from a currency to another one, in the one direction or in the other.
abbrev pub Between : CurrencyPair → Currency → Currency → Type 0
Between pair c d = ((pair.base ≡ c) × (pair.quote ≡ d)) ⊎ ((pair.base ≡ d) × (pair.quote ≡ c))

module _ (prices : Prices) where
  -- A price that is had from quotes alone: by the exchange of the two currencies together with the
  -- inversion of the price, and by the product of two prices over a currency in the middle.
  pub data Derived (quoted : CurrencyPair → prices.Price → Type 0)
      : Currency → Currency → prices.Price → Type 0 where
    quote :
        (pair : CurrencyPair) (x : prices.Price)
        → quoted pair x
        → Derived quoted pair.base pair.quote x
    inverted :
        (a b : Currency) (x : prices.Price)
        → Derived quoted a b x
        → Derived quoted b a (prices.invert x)
    chained :
        (a b c : Currency) (x y : prices.Price)
        → Derived quoted a b x
        → Derived quoted b c y
        → Derived quoted a c (prices.times x y)

  module _ (quoted : CurrencyPair → prices.Price → Type 0) where
    abbrev pub Holds : CurrencyPairAndPrice prices → Type 0
    Holds x = Derived quoted x.pair.base x.pair.quote x.price

    pub invert_price-Holds :
        (x : CurrencyPairAndPrice prices) → Holds x → Holds (invert_price prices x)
    unfolding invert_price invert
    invert_price-Holds x h = inverted x.pair.base x.pair.quote x.price h

    -- The two prices that are combined, with what their product is for.
    abbrev Fitting :
        CurrencyPairAndPrice prices × CurrencyPairAndPrice prices → Currency → Currency → Type 0
    Fitting xy s d =
        Holds xy.0
        × Holds xy.1
        × (xy.0.pair.quote ≡ xy.1.pair.base)
        × (xy.0.pair.base ≡ s)
        × (xy.1.pair.quote ≡ d)

    oriented-Fitting :
        (x y : CurrencyPairAndPrice prices) (s c d : Currency)
        → Holds x
        → Holds y
        → d ≢ s
        → Between x.pair s c
        → Between y.pair c d
        → Fitting (oriented prices x y) s d
    unfolding oriented invert_price invert
    oriented-Fitting x y s c d hx hy n bx by =
        first (same-cases x.pair.quote y.pair.quote) (same-cases x.pair.base y.pair.base)
          (same-cases x.pair.base y.pair.quote) bx by
      where
        Cases : Currency → Currency → Type 0
        Cases a b = ((same a b ≡ true) × (a ≡ b)) ⊎ ((same a b ≡ false) × (a ≢ b))

        quotes_same :
            x.pair.quote ≡ y.pair.quote
            → Between x.pair s c
            → Between y.pair c d
            → (x.pair.base ≡ s) × (y.pair.base ≡ d)
        quotes_same e (inl (a, b)) (inl (a', b')) = (cc, cc)
        quotes_same e (inl (a, b)) (inr (a', b')) = (cc, cc)
        quotes_same e (inr (a, b)) (inl (a', b')) = (let f : d ≡ s = cc in elim (n f) [ ])
        quotes_same e (inr (a, b)) (inr (a', b')) = (cc, cc)

        bases_same :
            x.pair.base ≡ y.pair.base
            → Between x.pair s c
            → Between y.pair c d
            → (x.pair.quote ≡ s) × (y.pair.quote ≡ d)
        bases_same e (inl (a, b)) (inl (a', b')) = (cc, cc)
        bases_same e (inl (a, b)) (inr (a', b')) = (let f : d ≡ s = cc in elim (n f) [ ])
        bases_same e (inr (a, b)) (inl (a', b')) = (cc, cc)
        bases_same e (inr (a, b)) (inr (a', b')) = (cc, cc)

        crossed :
            x.pair.base ≡ y.pair.quote
            → Between x.pair s c
            → Between y.pair c d
            → (x.pair.quote ≡ s) × (y.pair.base ≡ d)
        crossed e (inl (a, b)) (inl (a', b')) = (let f : d ≡ s = cc in elim (n f) [ ])
        crossed e (inl (a, b)) (inr (a', b')) = (cc, cc)
        crossed e (inr (a, b)) (inl (a', b')) = (cc, cc)
        crossed e (inr (a, b)) (inr (a', b')) = (cc, cc)

        straight :
            x.pair.quote ≢ y.pair.quote
            → x.pair.base ≢ y.pair.base
            → x.pair.base ≢ y.pair.quote
            → Between x.pair s c
            → Between y.pair c d
            → (x.pair.base ≡ s) × (y.pair.quote ≡ d) × (x.pair.quote ≡ y.pair.base)
        straight n1 n2 n3 (inl (a, b)) (inl (a', b')) = (a, b', cc)
        straight n1 n2 n3 (inl (a, b)) (inr (a', b')) =
            (let f : x.pair.quote ≡ y.pair.quote = cc in elim (n1 f) [ ])
        straight n1 n2 n3 (inr (a, b)) (inl (a', b')) =
            (let f : x.pair.base ≡ y.pair.base = cc in elim (n2 f) [ ])
        straight n1 n2 n3 (inr (a, b)) (inr (a', b')) =
            (let f : x.pair.base ≡ y.pair.quote = cc in elim (n3 f) [ ])

        first :
            Cases x.pair.quote y.pair.quote
            → Cases x.pair.base y.pair.base
            → Cases x.pair.base y.pair.quote
            → Between x.pair s c
            → Between y.pair c d
            → Fitting (oriented prices x y) s d
        first (inl (t, e)) _ _ bx by =
            let (l, r) = quotes_same e bx by in rw (t) (hx, invert_price-Holds y hy, e, l, r)
        first (inr (f, n1)) (inl (t, e)) _ bx by =
            let (l, r) = bases_same e bx by in rw (f, t) (invert_price-Holds x hx, hy, e, l, r)
        first (inr (f, n1)) (inr (f', n2)) (inl (t, e)) bx by =
            let (l, r) = crossed e bx by in
            rw (f, f', t) (invert_price-Holds x hx, invert_price-Holds y hy, e, l, r)
        first (inr (f, n1)) (inr (f', n2)) (inr (f'', n3)) bx by =
            let (l, r, m) = straight n1 n2 n3 bx by in rw (f, f', f'') (hx, hy, m, l, r)

    pub reduce-Holds :
        (x y : CurrencyPairAndPrice prices) (s c d : Currency)
        → Holds x
        → Holds y
        → d ≢ s
        → Between x.pair s c
        → Between y.pair c d
        → Holds (reduce prices x y)
          × (((reduce prices x y).pair.base ≡ s) × ((reduce prices x y).pair.quote ≡ d))
    unfolding reduce
    reduce-Holds x y s c d hx hy n bx by =
        let (l, r, m, e, e') = oriented-Fitting x y s c d hx hy n bx by in
        (
          chained _ _ _ _ _ l (
              subst
                (λ a.
                  Derived quoted a (oriented prices x y).1.pair.quote (oriented prices x y).1.price)
                (sym m) r),
          (e, e'),
        )
