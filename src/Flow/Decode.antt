-- ===== src/Flow/Decode.antt =====
-- internal/flow/decode.go: a body decoded for display. The decompressors (compress/gzip, zlib, flate
-- and brotli) are the argument `Codecs`.
pub mod Report
pub mod RoundTrip
use proxysim.Prelude.{
  ℕ, ◌+◌, Bool, true, false, ◌||◌, List, [], ◌∷◌, ◌++◌, Option, none, some, Text, codes, text_eq,
  length, take, is_nil, ltb, ◌==◌, if◌then◌else◌, map,
}
use mathlib.Core.List.{reverse}
use proxysim.Strings.{contains, split_on, to_lower, trim_space}
use proxysim.Flow.Caps.{default_body_cap}

-- How a reader ends: at the end of its input, with io.ErrUnexpectedEOF, or with another error.
pub data Ending : Type 0 where
  eof unexpected_eof : Ending
  broken : Text → Ending

-- The bytes that a decompressing reader yields, and how it ends.
pub record Stream : Type 0 where
  pub bytes : Text
  pub ending : Ending

pub data Opened : Type 0 where
  refused : Text → Opened
  opened : Stream → Opened

-- `gzip` and `zlib` read a header when they are opened, and may refuse it.
pub record Codecs : Type 0 where
  pub gzip : Text → Opened
  pub zlib : Text → Option Stream
  pub flate : Text → Stream
  pub brotli : Text → Stream

pub record DecodeReport : Type 0 where
  pub encodings : List Text
  pub decoded : Bool
  pub partial : Bool
  pub note : Text

abbrev pub Decoder : Type 0
Decoder = Text → Opened

-- Raw DEFLATE where the input is not zlib's.
unfoldable pub inflate : Codecs → Decoder
inflate c input = elim (c.zlib input) [ some s ↦ opened s | none ↦ opened (c.flate input) ]

unfoldable pub decoder_for : Codecs → Text → Option Decoder
decoder_for c coding =
    if text_eq coding (codes "gzip") || text_eq coding (codes "x-gzip")
    then some c.gzip
    else if text_eq coding (codes "deflate")
    then some (inflate c)
    else if text_eq coding (codes "br")
    then some (λ input. opened (c.brotli input))
    else none

unfoldable pub message : Ending → Text
message eof = codes "EOF"
message unexpected_eof = codes "unexpected EOF"
message (broken e) = e

unfoldable pub is_truncation : Ending → Bool
unfolding message
is_truncation unexpected_eof = true
is_truncation e =
    contains (message e) (codes "unexpected EOF")
    || contains (message e) (codes "truncated")
    || contains (message e) (codes "corrupt")

-- `failed` carries the error's message.
pub data Layer : Type 0 where
  got : Text → Bool → Layer
  failed : Text → Layer

-- what `decodeOne` makes of the bytes that it read and the error that ended them
unfoldable pub conclude : Text → Ending → Layer
unfolding is_truncation
conclude buf eof = got buf false
conclude buf unexpected_eof =
    if is_truncation unexpected_eof then got buf true else failed (message unexpected_eof)
conclude buf (broken e) = if is_truncation (broken e) then got buf true else failed e

-- One byte past the cap is read, to detect an overflow.
unfoldable pub read_limited : ℕ → Opened → Layer
unfolding conclude
read_limited limit (refused e) = failed e
read_limited limit (opened s) =
    let buf = take (limit + 1) s.bytes in
    if ltb limit (length buf) then got (take limit buf) true else conclude buf s.ending

unfoldable pub decode_one : Decoder → Text → ℕ → Layer
unfolding read_limited
decode_one dec input limit = read_limited limit (dec input)

unfoldable pub parse_tokens : List Text → List Text
parse_tokens [] = []
parse_tokens (token ∷ tokens) =
    let t = to_lower (trim_space token) in
    let rest = parse_tokens tokens in
    if is_nil t || text_eq t (codes "identity") then rest else t ∷ rest

unfoldable pub parse_codings : Text → List Text
unfolding parse_tokens
parse_codings value = parse_tokens (split_on b',' value)

abbrev pub unsupported : Text
unsupported = codes "unsupported content-encoding: "

abbrev pub could_not : Text
could_not = codes "could not decode "

abbrev pub truncated_note : Text
truncated_note = codes "body truncated before decoding completed"

-- One round of the loop returns from the function, or goes on to the next layer.
pub data Step : Type 0 where
  stop : Text × DecodeReport → Step
  go_on : Text → DecodeReport → Step

unfoldable pub after_layer : Text → Text → DecodeReport → Layer → Step
after_layer coding out report (failed e) =
    stop (out, record report { partial = true; note = could_not ++ (coding ++ (codes ": " ++ e)) })
after_layer coding out report (got decoded true) =
    stop (decoded, record report { decoded = true; partial = true; note = truncated_note })
after_layer coding out report (got decoded false) = go_on decoded (record report { decoded = true })

unfoldable pub round : Codecs → ℕ → Text → Text → DecodeReport → Step
unfolding after_layer
round c limit coding out report = elim (decoder_for c coding) [
  | none ↦ stop (out, record report { partial = true; note = unsupported ++ coding })
  | some dec ↦ after_layer coding out report (decode_one dec out limit)
]

unfoldable pub next : (Text → DecodeReport → Text × DecodeReport) → Step → Text × DecodeReport
next continue (stop result) = result
next continue (go_on out report) = continue out report

-- the loop, over the codings that are left, the last applied first
unfoldable pub undo : Codecs → ℕ → List Text → Text → DecodeReport → Text × DecodeReport
unfolding round next
undo c limit [] out report = (out, report)
undo c limit (coding ∷ rest) out report = next (undo c limit rest) (round c limit coding out report)

-- A cap of 0 stands for the default, as does a negative one in the source.
unfoldable pub effective_cap : ℕ → ℕ
effective_cap limit = if limit == 0 then default_body_cap else limit

unfoldable pub decode : Codecs → Text → Text → ℕ → Text × DecodeReport
unfolding undo
decode c content_encoding body limit =
    let codings = parse_codings content_encoding in
    let report : DecodeReport = record {
      encodings = codings;
      decoded = false;
      partial = false;
      note = [];
    } in
    if is_nil codings
    then (body, report)
    else undo c (effective_cap limit) (reverse codings) body report
