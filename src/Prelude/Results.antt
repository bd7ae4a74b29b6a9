-- ===== src/Prelude/Results.antt =====
-- Rust's `Result`, with `?` as the bind of a `do` block.
use mathlib.Core.Path.{◌≡◌, refl}
use mathlib.Core.Logic.{◌⊎◌, inl, inr}
use mathlib.Core.Option.{Option, none, some}
use mathlib.Core.List.{List, [], ◌∷◌}

pub data Result {ℓ κ} (E : Type ℓ) (A : Type κ) : Type (ℓ ⊔ κ) where
  ok : A → Result E A
  err : E → Result E A

infixl 5 ◌>>=◌ ◌>>◌
abbrev pub ◌>>=◌ {ℓ κ μ} :
    {E : Type ℓ} {A : Type κ} {B : Type μ} → Result E A → (A → Result E B) → Result E B
ok a >>= f = f a
err e >>= f = err e

abbrev pub ◌>>◌ {ℓ κ μ} :
    {E : Type ℓ} {A : Type κ} {B : Type μ} → Result E A → Result E B → Result E B
m >> k = m >>= λ _. k

-- `Option::ok_or`
abbrev pub ok_or {ℓ κ} : {E : Type ℓ} {A : Type κ} → Option A → E → Result E A
ok_or none e = err e
ok_or (some a) e = ok a

-- `iter().map(f).collect::<Result<Vec<_>, _>>()`: the first error ends it.
unfoldable pub map_result {ℓ κ μ} :
    {E : Type ℓ} {A : Type κ} {B : Type μ} → (A → Result E B) → List A → Result E (List B)
map_result f [] = ok []
map_result f (x ∷ xs) = let rest = map_result f xs in do y ← f x; ys ← rest; ok (y ∷ ys)

pub Result-cases {ℓ κ} :
    {E : Type ℓ} {A : Type κ} (r : Result E A) → ((a : A) × (r ≡ ok a)) ⊎ ((e : E) × (r ≡ err e))
Result-cases (ok a) = inl (a, refl)
Result-cases (err e) = inr (e, refl)

-- Two lists of one length, related member by member.
abbrev pub AllPairs {ℓ κ} : {A : Type ℓ} {B : Type κ} → (A → B → Type 0) → List A → List B → Type 0
AllPairs R [] [] = Unit
AllPairs R (x ∷ xs) (y ∷ ys) = R x y × AllPairs R xs ys
AllPairs R (x ∷ xs) [] = ⊥
AllPairs R [] (y ∷ ys) = ⊥

-- If the collection succeeds, so does the function at each member.
pub map_result-AllPairs {ℓ κ} :
    {E : Type 0} {A : Type ℓ} {B : Type κ} (R : A → B → Type 0) (f : A → Result E B)
    → ((x : A) (y : B) → f x ≡ ok y → R x y)
    → (xs : List A) (ys : List B) → map_result f xs ≡ ok ys
    → AllPairs R xs ys
unfolding map_result
map_result-AllPairs R f sound [] [] h = tt
map_result-AllPairs R f sound [] (y ∷ ys) h = cc
map_result-AllPairs {E = E} {A = A} {B = B} R f sound (x ∷ xs) ys h =
    pick (f x) (map_result f xs) ys refl refl (map_result-AllPairs R f sound xs) h
  where
    pick :
        (r : Result E B) (rest : Result E (List B)) (zs : List B)
        → f x ≡ r
        → map_result f xs ≡ rest
        → ((more : List B) → map_result f xs ≡ ok more → AllPairs R xs more)
        → (r >>= λ y. rest >>= λ more. ok (y ∷ more)) ≡ ok zs
        → AllPairs R (x ∷ xs) zs
    pick (ok y) (ok more) [] e e' ih g = cc
    pick (ok y) (ok more) (z ∷ zs) e e' ih g = (sound x z (cc), ih zs (cc))
    pick (ok y) (err _) zs e e' ih g = cc
    pick (err _) rest zs e e' ih g = cc

-- If a bind succeeds, so do both of its parts.
pub bind-ok {ℓ κ μ} :
    {E : Type ℓ} {A : Type κ} {B : Type μ} (m : Result E A) (f : A → Result E B) (b : B)
    → (m >>= f) ≡ ok b
    → (a : A) × (m ≡ ok a) × (f a ≡ ok b)
bind-ok (ok a) f b h = (a, refl, h)
bind-ok (err e) f b h = cc
