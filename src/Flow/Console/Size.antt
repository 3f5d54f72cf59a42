-- ===== src/Flow/Console/Size.antt =====
-- `humanBytes` of internal/flow/console.go. A body has fewer than 2^63 bytes; an index out of range
-- is `none`.
use proxysim.Prelude.{
  ℕ, zero, suc, ◌+◌, ◌*◌, ◌/◌, ◌%◌, ◌^◌, ◌<◌, ◌≤◌, ◌≡◌, ltb, leb, ◌==◌, Bool, true, false, ◌&&◌,
  ◌||◌, [], ◌∷◌, ◌++◌, Option, none, some, is_some, Text, codes, drop, arith, if◌then◌else◌,
}
use proxysim.Strings.Decimal.{decimal}

-- A panic ends what follows.
infixl 5 ◌>>=◌
abbrev pub ◌>>=◌ : {A B : Type 0} → Option A → (A → Option B) → Option B
◌>>=◌ none f = none
◌>>=◌ (some a) f = f a

-- n / d, rounded to the nearest, and to the even one of two
half_even : ℕ → ℕ → ℕ
half_even n d =
    let q = n / d in
    let r = n % d in if ltb d (2 * r) || (d == 2 * r && q % 2 == 1) then q + 1 else q

-- the power of two that leaves a number 53 bits
coarsen : ℕ → ℕ → ℕ → ℕ
coarsen zero s n = s
coarsen (suc fuel) s n =
    let rest = coarsen fuel (2 * s) n in if ltb (n / s) (2 ^ 53) then s else rest

-- `float64(n)`
float64 : ℕ → ℕ
unfolding half_even coarsen
float64 n = let s = coarsen 10 1 n in half_even n s * s

-- `%.1f` of float64(n) / float64(div), where div is a power of two
unfoldable pub fixed : ℕ → ℕ → Text
unfolding float64
fixed n div =
    let tenths = half_even (10 * float64 n) div in
    decimal (tenths / 10) ++ b'.' ∷ decimal (tenths % 10)

-- the loop: the divisor and the index of its letter
unfoldable pub scale : ℕ → ℕ → ℕ → ℕ → Option (ℕ × ℕ)
scale zero m div exp = none
scale (suc fuel) m div exp =
    let rest = scale fuel (m / 1024) (div * 1024) (exp + 1) in
    if ltb m 1024 then some (div, exp) else rest

unfoldable pub letter : ℕ → Option ℕ
letter exp = elim (drop exp (codes "KMGTPE")) [ [] ↦ none | c ∷ rest ↦ some c ]

unfoldable pub human_bytes : ℕ → Option Text
unfolding scale letter fixed
human_bytes n = if ltb n 1024 then some (decimal n ++ codes "B") else do
  (div, exp) ← scale 6 (n / 1024) 1024 0
  c ← letter exp
  some (fixed n div ++ c ∷ codes "iB")

-- A divisor is a power of 1024 that is not above the number, of which it leaves less than 1024, that
-- has a letter and fits an int64.
abbrev pub is_unit : ℕ → ℕ × ℕ → Bool
is_unit n (div, exp) =
    leb div n && ltb n (1024 * div) && ltb exp 6 && div == 1024 ^ (exp + 1) && ltb div (2 ^ 63)

abbrev pub fits : Option (ℕ × ℕ) → ℕ → Bool
fits none n = false
fits (some unit) n = is_unit n unit

-- For a size from 1024 up to the largest int64 the loop ends, in six rounds, with a divisor that is the
-- largest power of 1024 not above the size, that has a letter and that has not overflowed.
pub scale_lem : (n : ℕ) → 1024 ≤ n → n < 2 ^ 63 → fits (scale 6 (n / 1024) 1024 0) n ≡ true
unfolding scale
scale_lem n h k = ground arith

pub human_bytes_some : (n : ℕ) → n < 2 ^ 63 → is_some (human_bytes n) ≡ true
unfolding human_bytes letter scale
human_bytes_some n h = ground arith
