-- ===== src/Flow/Decode/Report.antt =====
-- What the report of `Decode` says of the bytes beside it.
use mathlib.Core.List.{reverse}
use proxysim.Prelude.{
  ℕ, ◌+◌, ◌≤◌, ◌≡◌, ◌⊎◌, inl, inr, refl, true, false, not, List, [], ◌∷◌, Text, length, length-take,
  take, is_nil, ltb, arith, Option-cases, Bool-cases,
}
use proxysim.Flow.Decode.{
  Codecs, Step, stop, go_on, after_layer, round, next, read_limited, DecodeReport, Ending, Layer,
  Opened, eof, got, failed, refused, opened, conclude, decoder_for, decode_one, undo, effective_cap,
  decode, parse_codings,
}

-- one layer's output within the limit
abbrev LayerFits : ℕ → Layer → Type 0
LayerFits limit (got out partial) = length out ≤ limit
LayerFits limit (failed e) = Unit

conclude_fits :
    (limit : ℕ) (buf : Text) (e : Ending) → length buf ≤ limit → LayerFits limit (conclude buf e)
unfolding conclude
conclude_fits limit buf eof h = h
conclude_fits limit buf _ h = ground arith

read_limited_fits : (limit : ℕ) (o : Opened) → LayerFits limit (read_limited limit o)
unfolding read_limited
read_limited_fits limit (refused e) = tt
read_limited_fits limit (opened s) =
    let buf : Text = take (limit + 1) s.bytes in
    elim (Bool-cases (ltb limit (length buf))) [
      | inl e ↦ ground (arith, e, length-take limit buf)
      | inr e ↦ rw e (conclude_fits limit buf s.ending (ground (arith, e)))
    ]

-- The body as it was given, or decoded bytes within the limit.
abbrev pub Within : ℕ → Text → Text × DecodeReport → Type 0
Within limit body result =
    ((result.1.decoded ≡ false) × (result.0 ≡ body))
    ⊎ ((result.1.decoded ≡ true) × (length result.0 ≤ limit))

abbrev StepWithin : ℕ → Text → Step → Type 0
StepWithin limit body (stop result) = Within limit body result
StepWithin limit body (go_on out report) = Within limit body (out, report)

after_layer-Within :
    (limit : ℕ) (body coding out : Text) (report : DecodeReport) (l : Layer)
    → LayerFits limit l
    → Within limit body (out, report)
    → StepWithin limit body (after_layer coding out report l)
unfolding after_layer
after_layer-Within limit body coding out report (failed e) fits h = h
after_layer-Within limit body coding out report (got decoded true) fits h = inr (refl, fits)
after_layer-Within limit body coding out report (got decoded false) fits h = inr (refl, fits)

round-Within :
    (c : Codecs) (limit : ℕ) (body coding out : Text) (report : DecodeReport)
    → Within limit body (out, report)
    → StepWithin limit body (round c limit coding out report)
unfolding round decode_one
round-Within c limit body coding out report h = elim (Option-cases (decoder_for c coding)) [
  | inl e ↦ rw (e, round) h
  | inr (dec, e) ↦
      rw (e, round)
        (after_layer-Within limit body coding out report _ (read_limited_fits limit (dec out)) h)
]

undo-Within :
    (c : Codecs) (limit : ℕ) (body : Text) (codings : List Text) (out : Text)
    (report : DecodeReport)
    → Within limit body (out, report)
    → Within limit body (undo c limit codings out report)
unfolding undo
undo-Within c limit body [] out report h = h
undo-Within c limit body (coding ∷ rest) out report h =
    settle (round c limit coding out report) (round-Within c limit body coding out report h)
      (undo-Within c limit body rest)
  where
    settle :
        (st : Step)
        → StepWithin limit body st
        → ((o : Text) (r : DecodeReport)
            → Within limit body (o, r)
            → Within limit body (undo c limit rest o r))
        → Within limit body (next (undo c limit rest) st)
    settle (stop result) k ih = k
    settle (go_on o r) k ih = ih o r k

-- Either nothing was decoded and the body is shown as it was sent, or the result holds at most the
-- cap's bytes, however far the layers expand.
pub decode-Within :
    (c : Codecs) (content_encoding body : Text) (limit : ℕ)
    → Within (effective_cap limit) body (decode c content_encoding body limit)
unfolding decode
decode-Within c content_encoding body limit =
    elim (Bool-cases (is_nil (parse_codings content_encoding))) [
      | inl e ↦ rw e (inl (refl, refl))
      | inr e ↦ rw e (
          undo-Within c (effective_cap limit) body (reverse (parse_codings content_encoding)) body _
            (inl (refl, refl)))
    ]

-- the report lists the codings, and has a note exactly if it is partial
abbrev pub Honest : List Text → DecodeReport → Type 0
Honest codings report = (report.partial ≡ not (is_nil report.note)) × (report.encodings ≡ codings)

abbrev StepHonest : List Text → Step → Type 0
StepHonest codings (stop result) = (result.1.partial ≡ true) × Honest codings result.1
StepHonest codings (go_on out report) = (report.partial ≡ false) × Honest codings report

round-Honest :
    (c : Codecs) (limit : ℕ) (codings : List Text) (coding out : Text) (report : DecodeReport)
    → report.partial ≡ false
    → Honest codings report
    → StepHonest codings (round c limit coding out report)
unfolding round
round-Honest c limit codings coding out report p h = elim (Option-cases (decoder_for c coding)) [
  | inl e ↦ rw (e, round) (refl, (refl, h.1))
  | inr (dec, e) ↦ rw (e, round) (by_layer (decode_one dec out limit))
]
  where
    by_layer : (l : Layer) → StepHonest codings (after_layer coding out report l)
    by_layer (failed e) = (refl, (refl, h.1))
    by_layer (got d true) = (refl, (refl, h.1))
    by_layer (got d false) = (p, h)

undo-Honest :
    (c : Codecs) (limit : ℕ) (codings rest : List Text) (out : Text) (report : DecodeReport)
    → report.partial ≡ false
    → Honest codings report
    → Honest codings (undo c limit rest out report).1
unfolding undo
undo-Honest c limit codings [] out report p h = h
undo-Honest c limit codings (coding ∷ rest) out report p h =
    settle (round c limit coding out report) (round-Honest c limit codings coding out report p h)
      (undo-Honest c limit codings rest)
  where
    settle :
        (st : Step)
        → StepHonest codings st
        → ((o : Text) (r : DecodeReport)
            → r.partial ≡ false
            → Honest codings r
            → Honest codings (undo c limit rest o r).1)
        → Honest codings (next (undo c limit rest) st).1
    settle (stop result) k ih = k.1
    settle (go_on o r) k ih = ih o r k.0 k.1

-- The report lists the codings of the header, and it has a note exactly when decoding stopped early.
pub decode_report :
    (c : Codecs) (content_encoding body : Text) (limit : ℕ)
    → Honest (parse_codings content_encoding) (decode c content_encoding body limit).1
unfolding decode
decode_report c content_encoding body limit =
    elim (Bool-cases (is_nil (parse_codings content_encoding))) [
      | inl e ↦ rw e (refl, refl)
      | inr e ↦ rw e (
          undo-Honest c (effective_cap limit) (parse_codings content_encoding)
            (reverse (parse_codings content_encoding)) body _ refl (refl, refl))
    ]
