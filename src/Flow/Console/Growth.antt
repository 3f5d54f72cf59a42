-- ===== src/Flow/Console/Growth.antt =====
-- The console's writers only append, and do not panic on a body of fewer than 2^63 bytes.
use proxysim.Prelude.{
  ◌≡◌, refl, ap, sym, ◌∙◌, subst, ◌<◌, ◌^◌, inl, inr, Bool-cases, Option-cases, Bool, true, false,
  List, [], ◌∷◌, ◌++◌, append_assoc, append-nil, map, sort, Option, some, Text, codes, length, ℕ,
  if◌then◌else◌, arith,
}
use proxysim.Strings.{has_suffix}
use proxysim.Strings.Order.{text_le}
use proxysim.Http.{Header, get, values}
use proxysim.Flow.Decode.{Codecs, DecodeReport, decode, effective_cap}
use proxysim.Flow.Decode.Report.{decode-Within}
use proxysim.Flow.Console.Size.{◌>>=◌, human_bytes, human_bytes_some}
use proxysim.Flow.Console.{
  Printers, newline, coding_suffix, render_text, write_headers, write_values, write_keys,
  is_textual, write_text, write_binary, write_decoded, write_truncated, partial_line, write_body,
}

-- A writer that does not panic, and leaves what was written.
abbrev pub Grows : Text → Option Text → Type 0
Grows b r = (extra : Text) × (r ≡ some (b ++ extra))

-- so of one that cannot panic
abbrev pub Extends : Text → Text → Type 0
Extends b r = (extra : Text) × (r ≡ b ++ extra)

pub Extends-trans : (a b c : Text) → Extends a b → Extends b c → Extends a c
Extends-trans a b c (x, p) (y, q) = (x ++ y, q ∙ ap (λ t. t ++ y) p ∙ append_assoc a x y)

pub grows_trans : (a b : Text) (r : Option Text) → Extends a b → Grows b r → Grows a r
grows_trans a b r (x, p) (y, q) =
    (x ++ y, q ∙ ap (λ t. some (t ++ y)) p ∙ ap some (append_assoc a x y))

whole : (b r : Text) → Extends b r → Grows b (some r)
whole b r (x, p) = (x, ap some p)

grows_bind :
    (b : Text) (r : Option Text) (f : Text → Option Text)
    → Grows b r
    → ((t : Text) → Grows t (f t))
    → Grows b (r >>= f)
grows_bind b r f (x, p) g =
    subst (λ o. Grows b (o >>= f)) (sym p)
      (grows_trans b (b ++ x) (f (b ++ x)) (x, refl) (g (b ++ x)))

pub sized :
    (n : ℕ) (b : Text) (f : Text → Option Text)
    → n < 2 ^ 63
    → ((size : Text) → Grows b (f size))
    → Grows b (human_bytes n >>= f)
sized n b f h g = elim (Option-cases (human_bytes n)) [
  | inl e ↦ absurd (ground (arith, e, human_bytes_some n h))
  | inr (size, e) ↦ rw e (g size)
]

write_values-Extends : (b k : Text) (vs : List Text) → Extends b (write_values b k vs)
unfolding write_values
write_values-Extends b k [] = ([], sym (append-nil b))
write_values-Extends b k (v ∷ vs) =
    let line = codes "    " ++ k ++ codes ": " ++ v ++ newline in
    Extends-trans b (b ++ line) (write_values (b ++ line) k vs) (line, refl)
      (write_values-Extends (b ++ line) k vs)

write_keys-Extends : (b : Text) (h : Header) (ks : List Text) → Extends b (write_keys b h ks)
unfolding write_keys
write_keys-Extends b h [] = ([], sym (append-nil b))
write_keys-Extends b h (k ∷ ks) =
    let next = write_values b k (values h k) in
    Extends-trans b next (write_keys next h ks) (write_values-Extends b k (values h k))
      (write_keys-Extends next h ks)

pub write_headers-Extends : (b : Text) (h : Header) → Extends b (write_headers b h)
unfolding write_headers
write_headers-Extends b h = write_keys-Extends b h (sort text_le (map (λ e. e.0) h))

pub extend : (b x : Text) → Extends b (b ++ x)
extend b x = (x, refl)

pub grow : (b t x : Text) → Extends b t → Extends b (t ++ x)
grow b t x h = Extends-trans b t (t ++ x) h (extend t x)

write_text-Extends :
    (p : Printers) (b label ct size : Text) (result : Text × DecodeReport)
    → Extends b (write_text p b label ct size result)
unfolding write_text
write_text-Extends p b label ct size (d, r) =
    close (label ++ codes " (" ++ size ++ coding_suffix r ++ codes "):" ++ newline)
      (render_text p ct d)
  where
    close :
        (line body : Text)
        → let shown = b ++ line ++ body in
          Extends b (if has_suffix shown newline then shown else shown ++ newline)
    close line body =
        let shown = b ++ line ++ body in
        elim (Bool-cases (has_suffix shown newline)) [
          | inl e ↦ rw e (grow b (b ++ line) body (extend b line))
          | inr e ↦ rw e (grow b shown newline (grow b (b ++ line) body (extend b line)))
        ]

write_binary-Extends :
    (b label ct size : Text) (r : DecodeReport) → Extends b (write_binary b label ct size r)
unfolding write_binary
write_binary-Extends b label ct size r = extend b _

write_decoded_grows :
    (p : Printers) (b label ct : Text) (result : Text × DecodeReport)
    → length result.0 < 2 ^ 63
    → Grows b (write_decoded p b label ct result)
unfolding write_decoded
write_decoded_grows p b label ct (d, r) h = sized (length d) b _ h λ size.
    elim (Bool-cases (is_textual ct d)) [
      | inl e ↦ rw e (whole b _ (write_text-Extends p b label ct size (d, r)))
      | inr e ↦ rw e (whole b _ (write_binary-Extends b label ct size r))
    ]

write_truncated_grows :
    (b label body : Text) (truncated : Bool)
    → length body < 2 ^ 63
    → Grows b (write_truncated b label body truncated)
unfolding write_truncated
write_truncated_grows b label body true h = sized (length body) b _ h λ size. whole b _ (extend b _)
write_truncated_grows b label body false h = ([], ap some (sym (append-nil b)))

-- Decoding does not give a text that is too long to count.
decoded_fits :
    (c : Codecs) (ce body : Text) → length body < 2 ^ 63 → length (decode c ce body 0).0 < 2 ^ 63
unfolding effective_cap
decoded_fits c ce body h = elim (decode-Within c ce body 0) [
  | inl (e, same) ↦ rw same h
  | inr (e, fits) ↦ ground (arith, fits)
]

pub write_body_grows :
    (p : Printers) (c : Codecs) (b label : Text) (h : Header) (body : Text) (truncated : Bool)
    → length body < 2 ^ 63
    → Grows b (write_body p c b label h body truncated)
unfolding write_body
write_body_grows p c b label h [] truncated fits = whole b _ (extend b _)
write_body_grows p c b label h (k ∷ body) truncated fits =
    let result = decode c (get h (codes "Content-Encoding")) (k ∷ body) 0 in
    grows_bind b (write_decoded p b label (get h (codes "Content-Type")) result) _
      (write_decoded_grows p b label (get h (codes "Content-Type")) result
        (decoded_fits c (get h (codes "Content-Encoding")) (k ∷ body) fits))
      λ shown.
        let line = partial_line label result.1 in
        grows_trans shown (shown ++ line)
          (write_truncated (shown ++ line) label (k ∷ body) truncated) (line, refl)
          (write_truncated_grows (shown ++ line) label (k ∷ body) truncated fits)
