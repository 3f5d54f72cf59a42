-- ===== src/Strings.antt =====
-- The functions of Go's `strings` and `net` packages that the program calls, over bytes. White
-- space and letter case are those of ASCII.
pub mod Signed
pub mod Order
pub mod Laws
pub mod HostPort
pub mod Decimal
use proxysim.Prelude.{
  ℕ, suc, ◌-◌, ◌+◌, Bool, true, false, ◌&&◌, ◌||◌, List, [], ◌∷◌, ◌++◌, map, Option, none, some,
  Text, text_eq, is_some, ltb, leb, ◌==◌, if◌then◌else◌, is_nil,
}
use mathlib.Core.Option

-- `s[len(prefix):]`, if `s` starts with the prefix
unfoldable pub strip_prefix : Text → Text → Option Text
strip_prefix [] s = some s
strip_prefix (c ∷ p) [] = none
strip_prefix (c ∷ p) (d ∷ s) = if c == d then strip_prefix p s else none

-- `strings.HasPrefix(s, prefix)`
unfoldable pub has_prefix : Text → Text → Bool
unfolding strip_prefix
has_prefix s p = is_some (strip_prefix p s)

-- `strings.HasSuffix(s, suffix)`
unfoldable pub has_suffix : Text → Text → Bool
has_suffix [] t = text_eq [] t
has_suffix (c ∷ s) t = text_eq (c ∷ s) t || has_suffix s t

abbrev cons_first : ℕ → Text × Text → Text × Text
cons_first c (before, after) = (c ∷ before, after)

-- `strings.Cut(s, sep)`: what stands before and after the first `sep`
unfoldable pub cut : Text → Text → Option (Text × Text)
cut [] sep = Option.map (λ rest. ([], rest)) (strip_prefix sep [])
cut (c ∷ s) sep = elim (strip_prefix sep (c ∷ s)) [
  | some rest ↦ some ([], rest)
  | none ↦ Option.map (cons_first c) (cut s sep)
]

-- `strings.Contains(s, sub)`
unfoldable pub contains : Text → Text → Bool
unfolding cut
contains s sub = is_some (cut s sub)

-- puts a byte at the head of the first part
abbrev pub cons_part : ℕ → List Text → List Text
cons_part c [] = (c ∷ []) ∷ []
cons_part c (p ∷ ps) = (c ∷ p) ∷ ps

-- `strings.SplitSeq(s, sep)`, for a separator of one byte
unfoldable pub split_on : ℕ → Text → List Text
split_on sep [] = [] ∷ []
split_on sep (c ∷ s) = let rest = split_on sep s in if c == sep then [] ∷ rest else cons_part c rest

-- space, \t, \n, \v, \f and \r
unfoldable pub is_space : ℕ → Bool
is_space c = c == 32 || (leb 9 c && leb c 13)

unfoldable pub trim_left : Text → Text
unfolding is_space
trim_left [] = []
trim_left (c ∷ s) = if is_space c then trim_left s else c ∷ s

unfoldable pub trim_right : Text → Text
unfolding is_space
trim_right [] = []
trim_right (c ∷ s) = let rest = trim_right s in if is_space c && is_nil rest then [] else c ∷ rest

-- `strings.TrimSpace(s)`
unfoldable pub trim_space : Text → Text
unfolding trim_left trim_right
trim_space s = trim_right (trim_left s)

unfoldable pub lower : ℕ → ℕ
lower c = if leb b'A' c && leb c b'Z' then c + 32 else c

unfoldable pub upper : ℕ → ℕ
upper c = if leb b'a' c && leb c b'z' then c - 32 else c

-- `strings.ToLower(s)`
unfoldable pub to_lower : Text → Text
unfolding lower
to_lower s = map lower s

-- The nonblank parts of a comma-separated list, each trimmed: a loop that several files write.
unfoldable pub nonblank : List Text → List Text
nonblank [] = []
nonblank (p ∷ ps) =
    let t = trim_space p in let rest = nonblank ps in if is_nil t then rest else t ∷ rest
