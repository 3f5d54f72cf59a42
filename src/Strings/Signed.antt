-- ===== src/Strings/Signed.antt =====
-- Go's int of 64 bits as text: `strconv.Itoa` and `strconv.Atoi`.
use proxysim.Prelude.{
  ℕ, zero, suc, ◌^◌, [], ◌∷◌, Option, none, some, Text, ltb, ◌==◌, if◌then◌else◌,
}
use proxysim.Strings.Decimal.{decimal, parse_uint}

pub data ℤ : Type 0 where
  pos : ℕ → ℤ
  -- `negsuc n` is -(n + 1)
  negsuc : ℕ → ℤ

unfoldable pub itoa : ℤ → Text
unfolding decimal
itoa (pos n) = decimal n
itoa (negsuc n) = b'-' ∷ decimal (suc n)

unfoldable pub positive : Option ℕ → Option ℤ
positive none = none
positive (some n) = if ltb n (2 ^ 63) then some (pos n) else none

unfoldable pub negative : Option ℕ → Option ℤ
negative none = none
negative (some zero) = some (pos 0)
negative (some (suc n)) = if ltb n (2 ^ 63) then some (negsuc n) else none

-- `none` is an error, of syntax or range
unfoldable pub atoi : Text → Option ℤ
unfolding parse_uint positive negative
atoi [] = none
atoi (c ∷ s) =
    if c == b'-'
    then negative (parse_uint s)
    else positive (parse_uint (if c == b'+' then s else c ∷ s))
