-- ===== src/Flow/Console/Hidden.antt =====
-- No byte of a binary body gets to the terminal.
use proxysim.Prelude.{
  ◌≡◌, refl, ap, sym, ◌∙◌, Bool, false, [], ◌∷◌, ◌++◌, Option, some, Text, codes, is_nil, length,
  arith,
}
use proxysim.Http.{Header, get}
use proxysim.Flow.Decode.{Codecs, DecodeReport, decode}
use proxysim.Flow.Console.Size.{◌>>=◌, human_bytes}
use proxysim.Flow.Console.{
  Printers, is_textual, write_binary, write_decoded, write_truncated, partial_line, write_body,
}

write_decoded_binary :
    (p : Printers) (b label ct d : Text) (r : DecodeReport)
    → is_textual ct d ≡ false
    → write_decoded p b label ct (d, r)
      ≡ (human_bytes (length d) >>= λ size. some (write_binary b label ct size r))
unfolding write_decoded
write_decoded_binary p b label ct d r h = rw (h, write_decoded) refl

-- the lines of a body that is not empty
written :
    (p : Printers) (b label ct : Text) (x : Text) (truncated : Bool)
    → Text × DecodeReport
    → Option Text
written p b label ct x truncated result = write_decoded p b label ct result >>= λ shown.
    write_truncated (shown ++ partial_line label result.1) label x truncated

write_body_some :
    (p : Printers) (c : Codecs) (b label : Text) (h : Header) (x : Text) (truncated : Bool)
    → is_nil x ≡ false
    → write_body p c b label h x truncated
      ≡ written p b label
          (get h (codes "Content-Type"))
          x
          truncated
          (decode c (get h (codes "Content-Encoding")) x 0)
unfolding write_body written
write_body_some p c b label h x truncated e = rw (e, write_body) refl

written_binary :
    (p : Printers) (b label ct x y dx dy : Text) (r : DecodeReport) (truncated : Bool)
    → length x ≡ length y
    → length dx ≡ length dy
    → is_textual ct dx ≡ false
    → is_textual ct dy ≡ false
    → written p b label ct x truncated (dx, r) ≡ written p b label ct y truncated (dy, r)
unfolding written write_truncated
written_binary p b label ct x y dx dy r truncated l d hx hy =
    rw (write_decoded_binary p b label ct dx r hx, write_decoded_binary p b label ct dy r hy, d, l)
      refl

-- Two bodies of one length that decode to binary content of one length with one report are printed
-- alike: what a binary body holds does not get to the terminal, but for its size.
pub write_body_binary :
    (p : Printers) (c : Codecs) (b label : Text) (h : Header) (x y dx dy : Text) (r : DecodeReport)
    (truncated : Bool)
    → length x ≡ length y
    → decode c (get h (codes "Content-Encoding")) x 0 ≡ (dx, r)
    → decode c (get h (codes "Content-Encoding")) y 0 ≡ (dy, r)
    → length dx ≡ length dy
    → is_textual (get h (codes "Content-Type")) dx ≡ false
    → is_textual (get h (codes "Content-Type")) dy ≡ false
    → write_body p c b label h x truncated ≡ write_body p c b label h y truncated
write_body_binary p c b label h [] [] dx dy r truncated l ex ey d hx hy = refl
write_body_binary p c b label h [] (k ∷ y) dx dy r truncated l ex ey d hx hy = ground arith
write_body_binary p c b label h (k ∷ x) [] dx dy r truncated l ex ey d hx hy = ground arith
write_body_binary p c b label h (k ∷ x) (j ∷ y) dx dy r truncated l ex ey d hx hy =
    let ct = get h (codes "Content-Type") in
    write_body_some p c b label h (k ∷ x) truncated refl
    ∙ ap (written p b label ct (k ∷ x) truncated) ex
    ∙ written_binary p b label ct (k ∷ x) (j ∷ y) dx dy r truncated l d hx hy
    ∙ sym (ap (written p b label ct (j ∷ y) truncated) ey)
    ∙ sym (write_body_some p c b label h (j ∷ y) truncated refl)
