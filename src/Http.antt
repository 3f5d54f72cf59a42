-- ===== src/Http.antt =====
-- Go's `http.Header`: a map from canonical names to lists of values.
pub mod Laws
use mathlib.Core.List.{foldl}
use proxysim.Prelude.{
  ℕ, ◌+◌, ◌≡◌, refl, Bool, true, false, ◌&&◌, ◌||◌, List, [], ◌∷◌, ◌++◌, none, some, Text, codes,
  lookup, erase, put, leb, ◌==◌, if◌then◌else◌, text_eq,
}
use proxysim.Strings.{lower, upper}

abbrev pub Header : Type 0
Header = List (Text × List Text)

has_code : ℕ → Text → Bool
has_code c [] = false
has_code c (d ∷ s) = c == d || has_code c s

-- `validHeaderFieldByte` of net/textproto
is_token : ℕ → Bool
unfolding has_code
is_token c =
    (leb b'a' c && leb c b'z')
    || (leb b'A' c && leb c b'Z')
    || (leb b'0' c && leb c b'9')
    || has_code c (codes "!#$%&'*+-.^_`|~")

all_tokens : Text → Bool
unfolding is_token
all_tokens [] = true
all_tokens (c ∷ s) = is_token c && all_tokens s

-- upper case at the start and behind each dash, lower case elsewhere
words : Bool → Text → Text
words start [] = []
words start (c ∷ s) = (if start then upper c else lower c) ∷ words (c == b'-') s

-- `http.CanonicalHeaderKey`
unfoldable pub canonical : Text → Text
unfolding all_tokens words upper lower
canonical k = if all_tokens k then words true k else k

-- `h[k]`, for a canonical name
unfoldable pub values : Header → Text → List Text
values h k = elim (lookup k h) [ some vs ↦ vs | none ↦ [] ]

-- `h.Get(k)`
unfoldable pub get : Header → Text → Text
unfolding values
get h k = elim (values h (canonical k)) [ [] ↦ [] | v ∷ vs ↦ v ]

-- `h.Del(k)`
unfoldable pub del : Text → Header → Header
del k h = erase (canonical k) h

-- `h.Add(k, v)`
unfoldable pub add : Header → Text → Text → Header
add h k v = put (canonical k) (values h (canonical k) ++ v ∷ []) h

-- `copyHeaders` of internal/proxy/server.go
add_values : Text → Header → List Text → Header
add_values k dst [] = dst
add_values k dst (v ∷ vs) = add_values k (add dst k v) vs

unfoldable pub copy_headers : Header → Header → Header
unfolding add_values
copy_headers dst [] = dst
copy_headers dst ((k, vs) ∷ src) = copy_headers (add_values k dst vs) src
