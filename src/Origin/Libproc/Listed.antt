-- ===== src/Origin/Libproc/Listed.antt =====
-- The descriptors of internal/origin/origin_darwin.go behind a `take` and a `map`.
use proxysim.Prelude.{ℕ, zero, suc, ◌≡◌, refl, ap, inl, inr, List, [], ◌∷◌, ◌++◌, map, take}
use proxysim.Origin.Resolve.{In}

pub map-append {ℓ κ} :
    {A : Type ℓ} {B : Type κ} (g : A → B) (xs ys : List A) → map g (xs ++ ys) ≡ map g xs ++ map g ys
map-append g [] ys = refl
map-append g (x ∷ xs) ys = ap (◌∷◌ (g x)) (map-append g xs ys)

pub In-take : {A : Type 0} (x : A) (n : ℕ) (l : List A) → In x (take n l) → In x l
In-take x zero [] h = h
In-take x zero (y ∷ l) h = absurd h
In-take x (suc n) [] h = h
In-take x (suc n) (y ∷ l) (inl e) = inl e
In-take x (suc n) (y ∷ l) (inr h) = inr (In-take x n l h)

pub In-map :
    {A B : Type 0} (g : A → B) (d : B) (l : List A) → In d (map g l) → (x : A) × In x l × (d ≡ g x)
In-map g d [] h = absurd h
In-map g d (y ∷ l) (inl e) = (y, inl refl, e)
In-map g d (y ∷ l) (inr h) = let (x, place, e) = In-map g d l h in (x, inr place, e)
