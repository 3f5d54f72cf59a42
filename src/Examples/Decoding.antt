-- ===== src/Examples/Decoding.antt =====
-- internal/flow/decode.go with decompressors that add and drop a byte.
use proxysim.Prelude.{
  ℕ, ◌≡◌, refl, Bool, not, false, List, [], ◌∷◌, Option, some, Text, codes, length, is_nil, inl,
  inr, arith,
}
use proxysim.Flow.Decode.{decode, parse_codings, effective_cap}
use proxysim.Examples.Data.{letter_codecs}
use proxysim.Flow.Decode.Report.{Within, decode-Within}
use proxysim.Flow.Decode.RoundTrip.{Inverts, Fits, encode_all, decode-encode_all}

-- every coding puts its own first letter in front
abbrev letter : Text → ℕ
letter [] = 0
letter (c ∷ s) = c

abbrev encode_letter : Text → Text → Text
encode_letter coding x = letter coding ∷ x

letter-Inverts : Inverts letter_codecs encode_letter
letter-Inverts = record {
  gzip = λ x. refl;
  x_gzip = λ x. refl;
  deflate = λ x. inl refl;
  br = λ x. refl;
}

abbrev two_codings : Text
two_codings = codes "gzip, br"

abbrev hello : Text
hello = codes "hello"

two_codings_fit : Fits encode_letter (effective_cap 10) (parse_codings two_codings) hello
unfolding parse_codings effective_cap proxysim.Strings.split_on proxysim.Strings.to_lower
    proxysim.Strings.trim_space proxysim.Prelude.Bytes.text_eq
two_codings_fit = (inl refl, omega arith, (inr (inr (inr refl)), omega arith, tt))

decode-encode_all_example :
    decode letter_codecs two_codings (encode_all encode_letter (parse_codings two_codings) hello) 10
    ≡ (
      hello,
      record {
        encodings = parse_codings two_codings;
        decoded = not (is_nil (parse_codings two_codings));
        partial = false;
        note = [];
      },
    )
decode-encode_all_example =
    decode-encode_all letter_codecs encode_letter two_codings hello 10 letter-Inverts
      two_codings_fit

decode-Within_example :
    Within
      (effective_cap 3)
      (codes "bghello")
      (decode letter_codecs two_codings (codes "bghello") 3)
decode-Within_example = decode-Within letter_codecs two_codings (codes "bghello") 3
