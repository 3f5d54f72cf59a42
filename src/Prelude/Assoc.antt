-- ===== src/Prelude/Assoc.antt =====
-- Go's `map[string]V` as an association list, and `map[string]struct{}` as a list of keys.
use mathlib.Core.Path.{◌≡◌, refl}
use mathlib.Core.Bool.{Bool, false, ◌||◌}
use mathlib.Core.Option.{Option, none, some}
use mathlib.Core.List.{List, [], ◌∷◌, ◌++◌}
use native.Mathlib.Omega.{arith}
use proxysim.Prelude.Tests.{if◌then◌else◌}
use proxysim.Prelude.Bytes.{Text, text_eq, text_eq_iff}

module _ {ℓ} {V : Type ℓ} where
  -- `m[k]`
  unfoldable pub lookup : Text → List (Text × V) → Option V
  lookup k [] = none
  lookup k ((j, v) ∷ m) = if text_eq j k then some v else lookup k m

  -- `delete(m, k)`
  unfoldable pub erase : Text → List (Text × V) → List (Text × V)
  erase k [] = []
  erase k ((j, v) ∷ m) = let rest = erase k m in if text_eq j k then rest else (j, v) ∷ rest

  -- `m[k] = v`
  unfoldable pub put : Text → V → List (Text × V) → List (Text × V)
  put k v m = (k, v) ∷ erase k m

  pub lookup-erase :
      (k j : Text) (m : List (Text × V))
      → lookup j (erase k m) ≡ (if text_eq k j then none else lookup j m)
  unfolding lookup erase
  lookup-erase k j [] = ground arith
  lookup-erase k j ((i, v) ∷ m) =
      ground (arith, lookup-erase k j m, text_eq_iff i k, text_eq_iff i j, text_eq_iff k j)

  pub lookup-put :
      (k j : Text) (v : V) (m : List (Text × V))
      → lookup j (put k v m) ≡ (if text_eq k j then some v else lookup j m)
  unfolding lookup put
  lookup-put k j v m = ground (arith, lookup-erase k j m)

-- `_, ok := set[k]`
unfoldable pub member : Text → List Text → Bool
member k [] = false
member k (j ∷ s) = text_eq j k || member k s

pub member-append : (k : Text) (s t : List Text) → member k (s ++ t) ≡ (member k s || member k t)
unfolding member
member-append k [] t = refl
member-append k (j ∷ s) t = ground (arith, member-append k s t)
