-- ===== src/Vault/Execution/Open.antt =====
-- Which request is open under a hash (`execute_open_requests`, vault/src/execution.rs).
use interbtc_clients_cli.Prelude.{
  ℕ, ◌≡◌, refl, ap, ap₂, sym, ◌∙◌, subst, Bool, true, false, ◌&&◌, Option, none, some, List, [],
  ◌∷◌, ◌++◌, Result, ok, err, ◌==◌, ==_iff, if◌then◌else◌, bind-ok,
}
use interbtc_clients_cli.Vault.Deadline as Deadlines
use interbtc_clients_cli.Vault.Deadline.{
  Request, InterBtcRedeemRequest, InterBtcReplaceRequest, calculate_deadline, from_redeem_request,
  from_replace_request,
}
use interbtc_clients_cli.Vault.Execution.{Listed, get, collect, open_listed, collect_open_requests}

-- The second answer, if the first is none.
abbrev or_else : Option Request → Option Request → Option Request
or_else (some r) o = some r
or_else none o = o

-- The request of a listed one, if it is pending, has the hash and has deadlines.
abbrev open_at :
    {R : Type 0} → (ℕ → R → Result Deadlines.Error Request) → ℕ → Listed R → Option Request
open_at build h x =
    if x.pending && x.hash == h
    then elim (build x.hash x.request) [ ok r ↦ some r | err e ↦ none ]
    else none

-- The last one in a list.
abbrev last_open :
    {R : Type 0} → (ℕ → R → Result Deadlines.Error Request) → ℕ → List (Listed R) → Option Request
last_open build h [] = none
last_open build h (x ∷ xs) = or_else (last_open build h xs) (open_at build h x)

-- The open request with a hash: the last such replace request that the parachain lists, and if there is
-- none the last such redeem request.
abbrev pub open_request :
    List (Listed InterBtcRedeemRequest)
    → List (Listed InterBtcReplaceRequest)
    → ℕ
    → ℕ
    → Option Request
open_request redeems replaces margin h =
    or_else (last_open (λ hash r. from_replace_request hash r margin) h replaces)
      (last_open (λ hash r. from_redeem_request hash r margin) h redeems)

abbrev at_hash : ℕ → Request → Option Request
at_hash h r = if r.hash == h then some r else none

-- The last request with a hash.
abbrev last_with : ℕ → List Request → Option Request
last_with h [] = none
last_with h (r ∷ rs) = or_else (last_with h rs) (at_hash h r)

or_else-none : (o : Option Request) → or_else o none ≡ o
or_else-none none = refl
or_else-none (some r) = refl

abbrev no_request : Option Request
no_request = none

none_either : (b : Bool) → (if b then none else none) ≡ no_request
none_either true = refl
none_either false = refl

or_else_assoc : (a b c : Option Request) → or_else (or_else a b) c ≡ or_else a (or_else b c)
or_else_assoc none b c = refl
or_else_assoc (some r) b c = refl

get-collect : (h : ℕ) (rs : List Request) → get h (collect rs) ≡ last_with h rs
unfolding get collect
get-collect h [] = refl
get-collect h (r ∷ rs) =
    kept (get r.hash (collect rs)) refl ∙ ap (λ o. or_else o (at_hash h r)) (get-collect h rs)
  where
    found :
        (b : Bool) (o : Option Request)
        → (r.hash == h) ≡ b
        → get r.hash (collect rs) ≡ none
        → get h (collect rs) ≡ o
        → (if b then some r else o) ≡ or_else o (if b then some r else none)
    found false none e n g = refl
    found false (some q) e n g = refl
    found true none e n g = refl
    found true (some q) e n g =
        let same : r.hash ≡ h = (==_iff r.hash h).0 e in
        let clash : some q ≡ none = sym g ∙ subst (λ i. get i (collect rs) ≡ none) same n in cc

    passed :
        (later : Request) (b : Bool) (o : Option Request)
        → (r.hash == h) ≡ b
        → get r.hash (collect rs) ≡ some later
        → get h (collect rs) ≡ o
        → o ≡ or_else o (if b then some r else none)
    passed later b (some q) e n g = refl
    passed later false none e n g = refl
    passed later true none e n g =
        let same : r.hash ≡ h = (==_iff r.hash h).0 e in
        let clash : none ≡ some later =
          sym g ∙ subst (λ i. get i (collect rs) ≡ some later) same n in
        cc

    kept :
        (o : Option Request)
        → get r.hash (collect rs) ≡ o
        → get h (elim o [ none ↦ r ∷ collect rs | some later ↦ collect rs ])
          ≡ or_else (get h (collect rs)) (at_hash h r)
    kept none e = found (r.hash == h) (get h (collect rs)) refl e refl
    kept (some later) e = passed later (r.hash == h) (get h (collect rs)) refl e refl

last_with-append :
    (h : ℕ) (xs ys : List Request)
    → last_with h (xs ++ ys) ≡ or_else (last_with h ys) (last_with h xs)
last_with-append h [] ys = sym (or_else-none (last_with h ys))
last_with-append h (x ∷ xs) ys =
    ap (λ o. or_else o (at_hash h x)) (last_with-append h xs ys)
    ∙ or_else_assoc (last_with h ys) (last_with h xs) (at_hash h x)

module _ {R : Type 0} (build : ℕ → R → Result Deadlines.Error Request)
    (keeps_hash : (hash : ℕ) (q : R) (r : Request) → build hash q ≡ ok r → r.hash ≡ hash) where
  last_with-open_listed :
      (h : ℕ) (xs : List (Listed R)) → last_with h (open_listed build xs) ≡ last_open build h xs
  unfolding open_listed
  last_with-open_listed h [] = refl
  last_with-open_listed h (x ∷ xs) =
      go x.pending (build x.hash x.request) refl (last_with-open_listed h xs)
    where
      rest : List Request
      rest = open_listed build xs

      same_hash : (r : Request) → build x.hash x.request ≡ ok r → (r.hash == h) ≡ (x.hash == h)
      same_hash r e = ap (λ i. i == h) (keeps_hash x.hash x.request r e)

      go :
          (pending : Bool) (b : Result Deadlines.Error Request)
          → build x.hash x.request ≡ b
          → last_with h rest ≡ last_open build h xs
          → last_with h (if pending then elim b [ ok r ↦ r ∷ rest | err e ↦ rest ] else rest)
            ≡ or_else
                (last_open build h xs)
                (if pending && x.hash == h then elim b [ ok r ↦ some r | err e ↦ none ] else none)
      go false b e ih = ih ∙ sym (or_else-none (last_open build h xs))
      go true (err f) e ih =
          ih
          ∙ sym (or_else-none (last_open build h xs))
          ∙ ap (or_else (last_open build h xs)) (sym (none_either (x.hash == h)))
      go true (ok r) e ih = ap₂ or_else ih (ap (λ b. if b then some r else none) (same_hash r e))

abbrev valid : Request → Result Deadlines.Error Request
valid r = ok r

hash-of_valid : (made r : Request) → valid made ≡ ok r → r.hash ≡ made.hash
hash-of_valid made r k = let same : made ≡ r = cc in ap (λ (x : Request). x.hash) (sym same)

redeem-hash :
    (margin hash : ℕ) (q : InterBtcRedeemRequest) (r : Request)
    → from_redeem_request hash q margin ≡ ok r
    → r.hash ≡ hash
unfolding from_redeem_request
redeem-hash margin hash q r h =
    let (d, _, k) = bind-ok (calculate_deadline q.opentime q.btc_height q.period margin) _ r h in
    hash-of_valid _ r k

replace-hash :
    (margin hash : ℕ) (q : InterBtcReplaceRequest) (r : Request)
    → from_replace_request hash q margin ≡ ok r
    → r.hash ≡ hash
unfolding from_replace_request
replace-hash margin hash q r h =
    let (d, _, k) = bind-ok (calculate_deadline q.accept_time q.btc_height q.period margin) _ r h in
    hash-of_valid _ r k

-- The collected map holds under each hash the open request with it.
pub get-collect_open_requests :
    (redeems : List (Listed InterBtcRedeemRequest))
    (replaces : List (Listed InterBtcReplaceRequest)) (margin h : ℕ)
    → get h (collect_open_requests redeems replaces margin) ≡ open_request redeems replaces margin h
unfolding collect_open_requests
get-collect_open_requests redeems replaces margin h =
    get-collect h _
    ∙ last_with-append h (open_listed (λ hash r. from_redeem_request hash r margin) redeems)
        (open_listed (λ hash r. from_replace_request hash r margin) replaces)
    ∙ ap₂ or_else
        (last_with-open_listed (λ hash r. from_replace_request hash r margin) (replace-hash margin)
          h replaces)
        (last_with-open_listed (λ hash r. from_redeem_request hash r margin) (redeem-hash margin) h
          redeems)
