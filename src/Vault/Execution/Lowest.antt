-- ===== src/Vault/Execution/Lowest.antt =====
-- The lowest height of an open request (`execute_open_requests`, vault/src/execution.rs).
use interbtc_clients_cli.Prelude.{
  ℕ, ◌≤◌, ◌≡◌, refl, ap, sym, ◌∙◌, subst, Bool, true, false, Option, none, some, List, [], ◌∷◌, leb,
  ◌==◌, ==_iff, if◌then◌else◌, arith,
}
use interbtc_clients_cli.Vault.Deadline.{Request, InterBtcRedeemRequest, InterBtcReplaceRequest}
use interbtc_clients_cli.Vault.Execution.{Listed, get, height_of, min_height, collect_open_requests}
use interbtc_clients_cli.Vault.Execution.Keys.{Distinct, collect-Distinct}
use interbtc_clients_cli.Vault.Execution.Open.{open_request, get-collect_open_requests}

-- The lowest height among requests that are found by a hash: no one is below it, and one has it.
pub record IsLowest (find : ℕ → Option Request) (stop : ℕ) : Type 0 where
  pub bound : (h : ℕ) (r : Request) → find h ≡ some r → stop ≤ height_of r
  pub hash : ℕ
  pub request : Request
  pub found : find hash ≡ some request
  pub reached : height_of request ≡ stop

abbrev smaller : Request → Option ℕ → Option ℕ
smaller r o = elim o [
  | none ↦ some (height_of r)
  | some h ↦ some (if leb (height_of r) h then height_of r else h)
]

smaller-le : (r : Request) (o : Option ℕ) → (m : ℕ) × (smaller r o ≡ some m) × (m ≤ height_of r)
smaller-le r none = (height_of r, refl, omega arith)
smaller-le r (some h) = ((if leb (height_of r) h then height_of r else h), refl, ground arith)

smaller-le_other :
    (r : Request) (o : Option ℕ) (n : ℕ) → o ≡ some n → (m : ℕ) × (smaller r o ≡ some m) × (m ≤ n)
smaller-le_other r none n e = cc
smaller-le_other r (some h) n e =
    let same : h ≡ n = cc in
    ((if leb (height_of r) h then height_of r else h), refl, ground (arith, same))

min_height-le :
    (rs : List Request) (h : ℕ) (r : Request)
    → get h rs ≡ some r
    → (m : ℕ) × (min_height rs ≡ some m) × (m ≤ height_of r)
unfolding get min_height
min_height-le [] h r e = cc
min_height-le (q ∷ rs) h r e = pick (q.hash == h) e (min_height-le rs h r)
  where
    pick :
        (b : Bool)
        → (if b then some q else get h rs) ≡ some r
        → (get h rs ≡ some r → (m : ℕ) × (min_height rs ≡ some m) × (m ≤ height_of r))
        → (m : ℕ) × (smaller q (min_height rs) ≡ some m) × (m ≤ height_of r)
    pick true k ih =
        let same : q ≡ r = cc in
        let (m, e', le) = smaller-le q (min_height rs) in
        (m, e', subst (λ (x : Request). m ≤ height_of x) same le)
    pick false k ih =
        let (n, f, le) = ih k in
        let (m, e', le') = smaller-le_other q (min_height rs) n f in (m, e', omega (arith, le, le'))

get-cons_other :
    (q : Request) (rs : List Request) (h : ℕ) (r : Request)
    → get q.hash rs ≡ none
    → get h rs ≡ some r
    → get h (q ∷ rs) ≡ some r
unfolding get
get-cons_other q rs h r n e = pick (q.hash == h) refl
  where
    pick : (b : Bool) → (q.hash == h) ≡ b → (if b then some q else get h rs) ≡ some r
    pick false k = e
    pick true k =
        let same : q.hash ≡ h = (==_iff q.hash h).0 k in
        let clash : none ≡ some r = sym n ∙ ap (λ i. get i rs) same ∙ e in cc

get-cons_same : (q : Request) (rs : List Request) → get q.hash (q ∷ rs) ≡ some q
unfolding get
get-cons_same q rs = let same : (q.hash == q.hash) ≡ true = ground arith in rw (same) refl

min_height-reached :
    (rs : List Request) (m : ℕ)
    → Distinct rs
    → min_height rs ≡ some m
    → (h : ℕ) × (r : Request) × (get h rs ≡ some r) × (height_of r ≡ m)
unfolding min_height
min_height-reached [] m d e = cc
min_height-reached (q ∷ rs) m d e = go (min_height rs) refl e (λ n. min_height-reached rs n d.1)
  where
    Found : List Request → ℕ → Type 0
    Found xs n = (h : ℕ) × (r : Request) × (get h xs ≡ some r) × (height_of r ≡ n)

    at_head : height_of q ≡ m → Found (q ∷ rs) m
    at_head k = (q.hash, q, get-cons_same q rs, k)

    chosen : (n : ℕ) (b : Bool) → (if b then height_of q else n) ≡ m → Found rs n → Found (q ∷ rs) m
    chosen n true k later = at_head k
    chosen n false k (h, r, f, e') = (h, r, get-cons_other q rs h r d.0 f, e' ∙ k)

    go :
        (o : Option ℕ)
        → min_height rs ≡ o
        → smaller q o ≡ some m
        → ((n : ℕ) → min_height rs ≡ some n → Found rs n)
        → Found (q ∷ rs) m
    go none f k ih = at_head (cc)
    go (some n) f k ih = chosen n (leb (height_of q) n) (cc) (ih n f)

module _ (redeems : List (Listed InterBtcRedeemRequest))
    (replaces : List (Listed InterBtcReplaceRequest)) (margin : ℕ) where
  abbrev requests : List Request
  requests = collect_open_requests redeems replaces margin

  same_get : (h : ℕ) → get h requests ≡ open_request redeems replaces margin h
  same_get h = get-collect_open_requests redeems replaces margin h

  pub open-Distinct : Distinct requests
  unfolding collect_open_requests
  open-Distinct = collect-Distinct _

  pub min_height-IsLowest :
      (stop : ℕ)
      → min_height requests ≡ some stop
      → IsLowest (open_request redeems replaces margin) stop
  min_height-IsLowest stop e =
      let (h, r, f, k) = min_height-reached requests stop open-Distinct e in
      record {
        bound = λ i q g.
            (let (m, e', le) = min_height-le requests i q (same_get i ∙ g) in
              let same : stop ≡ m = cc in omega (arith, same, le));
        hash = h;
        request = r;
        found = sym (same_get h) ∙ f;
        reached = k;
      }

  pub IsLowest-min_height :
      (stop : ℕ)
      → IsLowest (open_request redeems replaces margin) stop
      → min_height requests ≡ some stop
  IsLowest-min_height stop low =
      let (m, e, le) =
        min_height-le requests low.hash low.request (same_get low.hash ∙ low.found) in
      let (h, r, f, k) = min_height-reached requests m open-Distinct e in
      let below = low.bound h r (sym (same_get h) ∙ f) in
      let same : m ≡ stop = omega (arith, le, low.reached, below, k) in e ∙ ap some same
