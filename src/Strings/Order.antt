-- ===== src/Strings/Order.antt =====
-- The order of Go's strings, byte by byte, and `sort.Strings`.
use proxysim.Prelude.{
  ◌≡◌, refl, Bool, true, false, ◌&&◌, ◌||◌, List, [], ◌∷◌, Text, ltb, ◌==◌, text_eq, arith, member,
  sort, insert, IsOrder,
}

unfoldable pub text_le : Text → Text → Bool
text_le [] t = true
text_le (a ∷ s) [] = false
text_le (a ∷ s) (b ∷ t) = ltb a b || (a == b && text_le s t)

text_le_total : (s t : Text) → text_le s t ≡ false → text_le t s ≡ true
unfolding text_le
text_le_total [] t h = cc
text_le_total (a ∷ s) [] h = refl
text_le_total (a ∷ s) (b ∷ t) h = ground (arith, text_le_total s t)

text_le_trans : (s t u : Text) → text_le s t ≡ true → text_le t u ≡ true → text_le s u ≡ true
unfolding text_le
text_le_trans [] t u h k = refl
text_le_trans (a ∷ s) [] u h k = cc
text_le_trans (a ∷ s) (b ∷ t) [] h k = cc
text_le_trans (a ∷ s) (b ∷ t) (c ∷ u) h k = ground (arith, text_le_trans s t u)

pub text_le_antisymm : (s t : Text) → (text_le s t && text_le t s) ≡ true → s ≡ t
unfolding text_le
text_le_antisymm [] [] h = refl
text_le_antisymm [] (b ∷ t) h = cc
text_le_antisymm (a ∷ s) [] h = cc
text_le_antisymm (a ∷ s) (b ∷ t) h = ground (arith, text_le_antisymm s t)

pub text_le-IsOrder : IsOrder text_le
text_le-IsOrder = record { total = text_le_total; trans = text_le_trans }

member-insert :
    (k x : Text) (xs : List Text) → member k (insert text_le x xs) ≡ (text_eq x k || member k xs)
unfolding insert member
member-insert k x [] = refl
member-insert k x (y ∷ ys) = ground (arith, member-insert k x ys)

pub member-sort : (k : Text) (xs : List Text) → member k (sort text_le xs) ≡ member k xs
unfolding sort member
member-sort k [] = refl
member-sort k (x ∷ xs) = ground (arith, member-insert k x (sort text_le xs), member-sort k xs)
