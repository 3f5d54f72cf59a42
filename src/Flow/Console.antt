-- ===== src/Flow/Console.antt =====
-- The console sink of internal/flow/console.go: one block of text for a flow. A writer appends to
-- the text it is given; `none` is a panic. The packages time and json are arguments.
pub mod Size
pub mod Hidden
pub mod Growth
pub mod Block
use proxysim.Prelude.{
  ℕ, ◌==◌, Bool, true, false, not, ◌&&◌, ◌||◌, List, [], ◌∷◌, ◌++◌, map, Option, none, some, Text,
  codes, is_nil, length, member, lookup, sort, if◌then◌else◌,
}
use proxysim.Strings.{contains, cut, has_prefix, has_suffix, to_lower, trim_space}
use proxysim.Strings.Decimal.{decimal}
use proxysim.Strings.Order.{text_le}
use proxysim.Http.{Header, get, values}
use proxysim.Flow.{Flow}
use proxysim.Flow.Decode.{Codecs, DecodeReport, decode}
use proxysim.Flow.Console.Size.{◌>>=◌, human_bytes}

-- `f.Duration.Round(1e6)` as `%s`, and `json.Indent` with the prefix and the indent of the source.
pub record Printers : Type 0 where
  pub duration : ℕ → Text
  pub indent : Text → Option Text

-- ↑ and ↓ in UTF-8
abbrev pub up_arrow : Text
up_arrow = 226 ∷ 134 ∷ 145 ∷ []

abbrev pub down_arrow : Text
down_arrow = 226 ∷ 134 ∷ 147 ∷ []

abbrev pub newline : Text
newline = 10 ∷ []

abbrev pub outcome : Flow → Text
outcome f =
    if not (is_nil f.error)
    then codes " ERROR: " ++ f.error
    else if not f.intercepted
    then codes " [tunnelled, not inspected]"
    else codes " " ++ decimal f.status_code

unfoldable pub summary : Printers → Text → Flow → Option Text
unfolding human_bytes decimal
summary p b f = do
  sent ← human_bytes (length f.request_body)
  received ← human_bytes (length f.response_body)
  some (
      b
      ++ (codes "[#"
          ++ decimal f.id
          ++ codes "] "
          ++ f.method
          ++ codes " "
          ++ f.scheme
          ++ codes "://"
          ++ f.host
          ++ f.path)
      ++ outcome f
      ++ (codes " ("
          ++ p.duration f.duration
          ++ codes ") "
          ++ up_arrow
          ++ sent
          ++ codes " "
          ++ down_arrow
          ++ received
          ++ newline))

-- one line of the inner loop of `writeHeaders`, and the loop
unfoldable pub write_values : Text → Text → List Text → Text
write_values b k [] = b
write_values b k (v ∷ vs) =
    write_values (b ++ (codes "    " ++ k ++ codes ": " ++ v ++ newline)) k vs

unfoldable pub write_keys : Text → Header → List Text → Text
unfolding write_values
write_keys b h [] = b
write_keys b h (k ∷ ks) = write_keys (write_values b k (values h k)) h ks

unfoldable pub write_headers : Text → Header → Text
unfolding write_keys
write_headers b h = write_keys b h (sort text_le (map (λ e. e.0) h))

-- `strings.Join(parts, sep)`
join : List Text → Text → Text
join [] sep = []
join (p ∷ []) sep = p
join (p ∷ q ∷ ps) sep = p ++ sep ++ join (q ∷ ps) sep

unfoldable pub coding_suffix : DecodeReport → Text
unfolding join
coding_suffix report =
    if not report.decoded || is_nil report.encodings
    then []
    else codes ", decoded from " ++ join report.encodings (codes ", ")

unfoldable pub render_text : Printers → Text → Text → Text
unfolding contains to_lower
render_text p ct body =
    if contains (to_lower ct) (codes "json")
    then elim (p.indent body) [ some pretty ↦ codes "    " ++ pretty | none ↦ codes "    " ++ body ]
    else codes "    " ++ body

has_byte : ℕ → Text → Bool
has_byte c [] = false
has_byte c (d ∷ s) = d == c || has_byte c s

unfoldable pub utf8_printable : Text → Bool
unfolding has_byte
utf8_printable body = not (has_byte 0 body)

unfoldable pub is_textual : Text → Text → Bool
unfolding utf8_printable to_lower has_prefix contains
is_textual ct body =
    let lc = to_lower ct in
    if has_prefix lc (codes "text/")
      || contains lc (codes "json")
      || contains lc (codes "xml")
      || contains lc (codes "javascript")
      || contains lc (codes "x-www-form-urlencoded")
    then true
    else if is_nil ct
    then utf8_printable body
    else false

unfoldable pub content_type_or : Text → Text → Text
unfolding cut trim_space
content_type_or ct fallback = if is_nil ct then fallback else elim (cut ct (codes ";")) [
  | some (before, after) ↦ trim_space before
  | none ↦ trim_space ct
]

-- The first line of a body that is text, with it.
unfoldable pub write_text : Printers → Text → Text → Text → Text → Text × DecodeReport → Text
unfolding coding_suffix render_text has_suffix
write_text p b label ct size (decoded, report) =
    let line = label ++ codes " (" ++ size ++ coding_suffix report ++ codes "):" ++ newline in
    let shown = b ++ line ++ render_text p ct decoded in
    if has_suffix shown newline then shown else shown ++ newline

-- the line of another one
unfoldable pub write_binary : Text → Text → Text → Text → DecodeReport → Text
unfolding coding_suffix content_type_or
write_binary b label ct size report =
    let kind = content_type_or ct (codes "application/octet-stream") in
    b
    ++ (label
        ++ codes ": <binary "
        ++ kind
        ++ codes ", "
        ++ size
        ++ coding_suffix report
        ++ codes ">"
        ++ newline)

unfoldable pub write_decoded : Printers → Text → Text → Text → Text × DecodeReport → Option Text
unfolding human_bytes is_textual write_text write_binary
write_decoded p b label ct (decoded, report) = do
  size ← human_bytes (length decoded)
  some (
      if is_textual ct decoded
      then write_text p b label ct size (decoded, report)
      else write_binary b label ct size report)

abbrev pub partial_line : Text → DecodeReport → Text
partial_line label report =
    if report.partial then label ++ codes "  [" ++ report.note ++ codes "]" ++ newline else []

-- the line of a capture that was cut
unfoldable pub write_truncated : Text → Text → Text → Bool → Option Text
unfolding human_bytes
write_truncated b label body truncated =
    if truncated
    then human_bytes (length body) >>= (λ size.
      some (b ++ (label ++ codes "  [captured " ++ size ++ codes ", truncated]" ++ newline)))
    else some b

module _ (p : Printers) (c : Codecs) where
  unfoldable pub write_body : Text → Text → Header → Text → Bool → Option Text
  unfolding decode get write_decoded write_truncated
  write_body b label h body truncated =
      if is_nil body
      then some (
          b
          ++ (label
              ++ (if truncated then codes ": [truncated; body not buffered]" else codes ": <empty>")
              ++ newline))
      else do
        let result = decode c (get h (codes "Content-Encoding")) body 0
        shown ← write_decoded p b label (get h (codes "Content-Type")) result
        write_truncated (shown ++ partial_line label result.1) label body truncated

  unfoldable pub verbose_detail : Text → Flow → Option Text
  unfolding write_headers write_body
  verbose_detail b f = do
    let request = write_headers (b ++ codes "  Request headers:" ++ newline) f.request_headers
    b1 ←
        write_body request (codes "  Request body") f.request_headers f.request_body
          f.request_truncated
    b2 ←
        if f.intercepted && is_nil f.error
        then write_body
            (write_headers (b1 ++ codes "  Response headers:" ++ newline) f.response_headers)
            (codes "  Response body") f.response_headers f.response_body f.response_truncated
        else some b1
    some (b2 ++ newline)

  -- `Emit`: the text that the writer has got
  unfoldable pub emit : Bool → Flow → Text → Option Text
  unfolding summary verbose_detail
  emit verbose f w = do
    b1 ← summary p [] f
    b ← if verbose then verbose_detail b1 f else some b1
    some (w ++ b)
