-- ===== src/Strings/Decimal.antt =====
-- Decimal numbers: `strconv.Itoa` and `%d` of a number below 10^20, and `strconv.ParseUint`.
use proxysim.Prelude.{
  ℕ, zero, suc, ◌+◌, ◌-◌, ◌*◌, ◌/◌, ◌%◌, ◌^◌, ◌<◌, ◌≡◌, refl, ap, ◌∙◌, Bool, true, false, ◌&&◌, [],
  ◌∷◌, Option, none, some, Text, leb, ltb, if◌then◌else◌, arith, Bool-cases, inl, inr,
}

-- prepends the digits of `n`; the fuel is a bound on their number
print_digits : ℕ → ℕ → Text → Text
print_digits zero n out = out
print_digits (suc fuel) n out =
    let out' = (b'0' + n % 10) ∷ out in
    let rest = print_digits fuel (n / 10) out' in if ltb n 10 then out' else rest

unfoldable pub decimal : ℕ → Text
unfolding print_digits
decimal n = print_digits 20 n []

is_digit : ℕ → Bool
is_digit c = leb b'0' c && leb c b'9'

abbrev max_u64 : ℕ
max_u64 = 2 ^ 64 - 1

digits : Text → ℕ → Option ℕ
unfolding is_digit
digits [] n = some n
digits (c ∷ s) n =
    let m = n * 10 + (c - b'0') in
    let rest = digits s m in if is_digit c then (if ltb max_u64 m then none else rest) else none

-- `strconv.ParseUint(s, 10, 64)`; `none` is its error, of syntax or range.
unfoldable pub parse_uint : Text → Option ℕ
unfolding digits
parse_uint [] = none
parse_uint (c ∷ s) = digits (c ∷ s) 0

digits_digit :
    (a d : ℕ) (out : Text) (n : ℕ)
    → d < 10
    → n ≡ a * 10 + d
    → n < 2 ^ 64
    → digits ((b'0' + d) ∷ out) a ≡ digits out n
unfolding digits is_digit
digits_digit a d out n h e b =
    let m : a * 10 + (b'0' + d - b'0') ≡ n = omega (arith, e) in
    let c : leb b'0' (b'0' + d) && leb (b'0' + d) b'9' ≡ true = ground (arith, h) in
    let small : ltb max_u64 n ≡ false = ground (arith, b) in rw (c, m, small) refl

-- what is printed in front of a text is read before it
digits-print_digits :
    (fuel n : ℕ) (out : Text)
    → n < 10 ^ fuel
    → n < 2 ^ 64
    → digits (print_digits fuel n out) 0 ≡ digits out n
unfolding print_digits digits is_digit
digits-print_digits zero n out h b = let e : 0 ≡ n = omega (arith, h) in ap (digits out) e
digits-print_digits (suc fuel) n out h b =
    let d : ℕ = b'0' + n % 10 in
    elim (Bool-cases (ltb n 10)) [
      | inl e ↦ ground (arith, e)
      | inr e ↦
          let ih : digits (print_digits fuel (n / 10) (d ∷ out)) 0 ≡ digits (d ∷ out) (n / 10) =
            digits-print_digits fuel (n / 10) (d ∷ out) (omega (arith, h)) (omega (arith, b)) in
          rw e (ih ∙ digits_digit (n / 10) (n % 10) out n (omega arith) (omega arith) b)
    ]

parse_uint-behind :
    (fuel n c : ℕ) (out : Text)
    → parse_uint (print_digits fuel n (c ∷ out)) ≡ digits (print_digits fuel n (c ∷ out)) 0
unfolding print_digits parse_uint
parse_uint-behind zero n c out = refl
parse_uint-behind (suc fuel) n c out = elim (Bool-cases (ltb n 10)) [
  | inl e ↦ rw e
  | inr e ↦ rw e (parse_uint-behind fuel (n / 10) (b'0' + n % 10) (c ∷ out))
]

parse_uint-print_digits :
    (fuel n : ℕ)
    → parse_uint (print_digits (suc fuel) n []) ≡ digits (print_digits (suc fuel) n []) 0
unfolding print_digits parse_uint
parse_uint-print_digits fuel n = elim (Bool-cases (ltb n 10)) [
  | inl e ↦ rw e
  | inr e ↦ rw e (parse_uint-behind fuel (n / 10) (b'0' + n % 10) [])
]

-- A uint64 that is printed is read back.
pub parse_uint-decimal : (n : ℕ) → n < 2 ^ 64 → parse_uint (decimal n) ≡ some n
unfolding decimal digits
parse_uint-decimal n b =
    parse_uint-print_digits 19 n ∙ digits-print_digits 20 n [] (omega (arith, b)) b
