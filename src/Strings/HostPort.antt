-- ===== src/Strings/HostPort.antt =====
-- Go's `net.SplitHostPort`; `none` is its error.
use proxysim.Prelude.{
  ℕ, suc, ◌+◌, Bool, false, [], ◌∷◌, Option, none, some, Text, ◌==◌, if◌then◌else◌, length, take,
  drop, is_some,
}
use mathlib.Core.Option

-- `bytealg.IndexByteString`
unfoldable pub index_byte : ℕ → Text → Option ℕ
index_byte b [] = none
index_byte b (c ∷ s) = if c == b then some 0 else Option.map suc (index_byte b s)

-- `bytealg.LastIndexByteString`
unfoldable pub last_index_byte : ℕ → Text → Option ℕ
last_index_byte b [] = none
last_index_byte b (c ∷ s) = elim (last_index_byte b s) [
  | some i ↦ some (suc i)
  | none ↦ if c == b then some 0 else none
]

abbrev pub has_byte : ℕ → Text → Bool
has_byte b s = is_some (index_byte b s)

-- the last two tests, on brackets that stand where none may, and the result
finish : Text → Text → Text → Text → Option (Text × Text)
finish host rest_open rest_close port =
    if has_byte b'[' rest_open
    then none
    else if has_byte b']' rest_close
    then none
    else some (host, port)

-- `hostport[0] == '['`; `i` is the place of the last colon
bracketed : Text → ℕ → Option (Text × Text)
bracketed s i = elim (index_byte b']' s) [
  | none ↦ none
  | some end ↦
      if end + 1 == length s
      then none
      else if end + 1 == i
      then finish (drop 1 (take end s)) (drop 1 s) (drop (end + 1) s) (drop (i + 1) s)
      else none
]

plain : Text → ℕ → Option (Text × Text)
plain s i =
    let host = take i s in if has_byte b':' host then none else finish host s s (drop (i + 1) s)

abbrev starts_bracket : Text → Bool
starts_bracket [] = false
starts_bracket (c ∷ s) = c == b'['

unfoldable pub split_host_port : Text → Option (Text × Text)
unfolding index_byte last_index_byte finish bracketed plain
split_host_port s = elim (last_index_byte b':' s) [
  | none ↦ none
  | some i ↦ if starts_bracket s then bracketed s i else plain s i
]

-- The host of "host:port", or the text itself where it has no port.
unfoldable pub without_port : Text → Text
unfolding split_host_port
without_port s = elim (split_host_port s) [ some (h, p) ↦ h | none ↦ s ]
