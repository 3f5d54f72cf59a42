-- ===== src/Flow/Decode/RoundTrip.antt =====
-- Decoding undoes what an origin server applied, layer by layer.
use mathlib.Core.List.{reverse, reverse-cons}
use proxysim.Prelude.{
  ℕ, ◌+◌, ◌≤◌, ◌≡◌, ◌⊎◌, inl, inr, refl, sym, ◌∙◌, ap, Bool, true, false, not, List, [], ◌∷◌, ◌++◌,
  append_assoc, append-nil, none, some, Text, codes, length, take_whole, is_nil, if◌then◌else◌,
  arith, text_eq,
}
use proxysim.Flow.Decode.{
  Codecs, DecodeReport, Decoder, Stream, eof, opened, got, inflate, decoder_for, read_limited,
  decode_one, round, undo, effective_cap, decode, parse_codings,
}

abbrev whole : Text → Stream
whole x = record { bytes = x; ending = eof }

-- A server's encoder, and what the decompressors owe it: a stream that they open yields just the
-- bytes that were encoded. Servers send deflate with zlib's wrapper or without.
pub record Inverts (c : Codecs) (encode : Text → Text → Text) : Type 0 where
  pub gzip : (x : Text) → c.gzip (encode (codes "gzip") x) ≡ opened (whole x)
  pub x_gzip : (x : Text) → c.gzip (encode (codes "x-gzip") x) ≡ opened (whole x)
  pub deflate :
      (x : Text)
      → (c.zlib (encode (codes "deflate") x) ≡ some (whole x))
        ⊎ ((c.zlib (encode (codes "deflate") x) ≡ none)
            × (c.flate (encode (codes "deflate") x) ≡ whole x))
  pub br : (x : Text) → c.brotli (encode (codes "br") x) ≡ whole x

abbrev pub IsSupported : Text → Type 0
IsSupported coding =
    (coding ≡ codes "gzip")
    ⊎ (coding ≡ codes "x-gzip")
    ⊎ (coding ≡ codes "deflate")
    ⊎ (coding ≡ codes "br")

-- the codings in the order in which they were applied
abbrev pub encode_all : (Text → Text → Text) → List Text → Text → Text
encode_all encode [] x = x
encode_all encode (k ∷ ks) x = encode_all encode ks (encode k x)

-- every coding is supported, and what it was applied to fits the limit
abbrev pub Fits : (Text → Text → Text) → ℕ → List Text → Text → Type 0
Fits encode limit [] x = Unit
Fits encode limit (k ∷ ks) x =
    IsSupported k × (length x ≤ limit) × Fits encode limit ks (encode k x)

read_whole :
    (limit : ℕ) (x : Text) → length x ≤ limit → read_limited limit (opened (whole x)) ≡ got x false
unfolding read_limited
read_whole limit x h = ground (arith, take_whole x (limit + 1))

module _ (c : Codecs) (encode : Text → Text → Text) (inverts : Inverts c encode) (limit : ℕ) where
  inflated : (x : Text) → inflate c (encode (codes "deflate") x) ≡ opened (whole x)
  unfolding inflate
  inflated x = elim (inverts.deflate x) [
    | inl e ↦ rw (e, inflate)
    | inr (e, f) ↦ rw (e, inflate) (rw f)
  ]

  layer_inverts :
      (coding x : Text)
      → IsSupported coding
      → length x ≤ limit
      → (dec : Decoder) × (decoder_for c coding ≡ some dec)
        × (decode_one dec (encode coding x) limit ≡ got x false)
  unfolding decoder_for decode_one text_eq
  layer_inverts coding x (inl e) h =
      (c.gzip, rw e refl, rw (e, inverts.gzip) (read_whole limit x h))
  layer_inverts coding x (inr (inl e)) h =
      (c.gzip, rw e refl, rw (e, inverts.x_gzip) (read_whole limit x h))
  layer_inverts coding x (inr (inr (inl e))) h =
      (inflate c, rw e refl, rw (e, inflated x) (read_whole limit x h))
  layer_inverts coding x (inr (inr (inr e))) h =
      (λ input. opened (c.brotli input), rw e refl, rw (e, inverts.br) (read_whole limit x h))

  undo_layer :
      (k x : Text) (rest : List Text) (report : DecodeReport)
      → IsSupported k
      → length x ≤ limit
      → undo c limit (k ∷ rest) (encode k x) report
        ≡ undo c limit rest x (record report { decoded = true })
  unfolding undo
  undo_layer k x rest report supported h =
      let (dec, e, f) = layer_inverts k x supported h in rw (e, round) (rw f)

  marked :
      (done : Bool) (report : DecodeReport)
      → record (if done then report else record report { decoded = true }) { decoded = true }
        ≡ record report { decoded = true }
  marked true report = refl
  marked false report = refl

  undo_encoded :
      (ks rest : List Text) (x : Text) (report : DecodeReport)
      → Fits encode limit ks x
      → undo c limit (reverse ks ++ rest) (encode_all encode ks x) report
        ≡ undo c limit rest x (if is_nil ks then report else record report { decoded = true })
  undo_encoded [] rest x report h = refl
  undo_encoded (k ∷ ks) rest x report h =
      let report' : DecodeReport = if is_nil ks then report else record report { decoded = true } in
      ap (λ l. undo c limit l (encode_all encode ks (encode k x)) report)
        (rw reverse-cons (append_assoc (reverse ks) (k ∷ []) rest))
      ∙ undo_encoded ks (k ∷ rest) (encode k x) report h.2
      ∙ undo_layer k x rest report' h.0 h.1
      ∙ ap (undo c limit rest x) (marked (is_nil ks) report)

  abbrev complete : List Text → DecodeReport
  complete ks = record { encodings = ks; decoded = not (is_nil ks); partial = false; note = [] }

  abbrev fresh : List Text → DecodeReport
  fresh ks = record { encodings = ks; decoded = false; partial = false; note = [] }

  decode_codings :
      (x : Text) (ks : List Text)
      → Fits encode limit ks x
      → (if is_nil ks
          then (encode_all encode ks x, fresh ks)
          else undo c limit (reverse ks) (encode_all encode ks x) (fresh ks))
        ≡ (x, complete ks)
  unfolding undo
  decode_codings x [] h = refl
  decode_codings x (k ∷ ks) h =
      ap (λ l. undo c limit l (encode_all encode (k ∷ ks) x) (fresh (k ∷ ks)))
        (sym (append-nil (reverse (k ∷ ks))))
      ∙ undo_encoded (k ∷ ks) [] x (fresh (k ∷ ks)) h

-- A body that a server encoded by any sequence of supported codings, each applied to at most the
-- cap's bytes, is decoded to the body: the report lists the codings and is complete.
pub decode-encode_all :
    (c : Codecs) (encode : Text → Text → Text) (content_encoding x : Text) (limit : ℕ)
    → Inverts c encode
    → Fits encode (effective_cap limit) (parse_codings content_encoding) x
    → decode c content_encoding (encode_all encode (parse_codings content_encoding) x) limit ≡ (
      x,
      record {
        encodings = parse_codings content_encoding;
        decoded = not (is_nil (parse_codings content_encoding));
        partial = false;
        note = [];
      },
    )
unfolding decode
decode-encode_all c encode content_encoding x limit inverts fits =
    decode_codings c encode inverts (effective_cap limit) x (parse_codings content_encoding) fits
