-- ===== src/Flow/Console/Block.antt =====
-- One block for a flow: what the sink writes.
use proxysim.Prelude.{
  ◌≡◌, refl, ap, sym, ◌∙◌, subst, ◌<◌, ◌^◌, inl, inr, Option-cases, Bool, true, false, ◌&&◌, [],
  ◌++◌, append_assoc, append-nil, Option, none, some, is_some, Text, codes, is_nil, length, ℕ,
  if◌then◌else◌, arith,
}
use proxysim.Strings.{has_prefix, has_suffix, strip_prefix}
use proxysim.Strings.Laws.{strip_prefix-append, has_suffix-append}
use proxysim.Strings.Decimal.{decimal}
use proxysim.Http.{Header}
use proxysim.Flow.{Flow}
use proxysim.Flow.Decode.{Codecs}
use proxysim.Flow.Console.Size.{◌>>=◌, human_bytes, human_bytes_some}
use proxysim.Flow.Console.{
  Printers, newline, up_arrow, down_arrow, outcome, summary, write_headers, write_body,
  verbose_detail, emit,
}
use proxysim.Flow.Console.Growth.{
  Grows, Extends, Extends-trans, grows_trans, write_headers-Extends, extend, grow, write_body_grows,
}

bind_assoc :
    (r : Option Text) (f g : Text → Option Text) → ((r >>= f) >>= g) ≡ (r >>= λ t. f t >>= g)
bind_assoc none f g = refl
bind_assoc (some t) f g = refl

marked :
    (m t x : Text)
    → t ≡ m ++ x
    → has_suffix t newline ≡ true
    → (has_prefix t m && has_suffix t newline) ≡ true
unfolding has_prefix
marked m t x grown ends =
    let begins : has_prefix t m ≡ true =
      ap (λ s. is_some (strip_prefix m s)) grown ∙ ap is_some (strip_prefix-append m x) in
    ground (arith, begins, ends)

-- how a flow's block begins
abbrev pub mark : Flow → Text
mark f = codes "[#" ++ decimal f.id ++ codes "] "

-- A text that begins with another one, and ends its last line.
abbrev Lines : Text → Option Text → Type 0
Lines b r = (t : Text) × (r ≡ some t) × Extends b t × (has_suffix t newline ≡ true)

sized-Lines :
    (n : ℕ) (b : Text) (f : Text → Option Text)
    → n < 2 ^ 63
    → ((size : Text) → Lines b (f size))
    → Lines b (human_bytes n >>= f)
sized-Lines n b f h g = elim (Option-cases (human_bytes n)) [
  | inl e ↦ absurd (ground (arith, e, human_bytes_some n h))
  | inr (size, e) ↦ rw e (g size)
]

ended : (b t : Text) → Extends b t → Lines b (some (t ++ newline))
ended b t h = (t ++ newline, refl, grow b t newline h, has_suffix-append t newline)

ended_line : (b t line : Text) → Extends b t → Lines b (some (t ++ (line ++ newline)))
ended_line b t line h =
    subst (λ x. Lines b (some x)) (append_assoc t line newline)
      (ended b (t ++ line) (grow b t line h))

grows-Lines : (b : Text) (r : Option Text) → Grows b r → Lines b (r >>= λ t. some (t ++ newline))
grows-Lines b r (x, e) = rw e (ended b (b ++ x) (extend b x))

summary-Lines :
    (p : Printers) (f : Flow)
    → length f.request_body < 2 ^ 63
    → length f.response_body < 2 ^ 63
    → Lines (mark f) (summary p [] f)
unfolding summary
summary-Lines p f h k = sized-Lines (length f.request_body) (mark f) _ h λ sent.
    sized-Lines (length f.response_body) (mark f) _ k λ received.
      let m = mark f in
      let e1 = extend m f.method in
      let e2 = grow m _ (codes " ") e1 in
      let e3 = grow m _ f.scheme e2 in
      let e4 = grow m _ (codes "://") e3 in
      let e5 = grow m _ f.host e4 in
      let e6 = grow m _ f.path e5 in
      let e7 = grow m _ (outcome f) e6 in
      ended_line m _
        (codes " ("
          ++ p.duration f.duration
          ++ codes ") "
          ++ up_arrow
          ++ sent
          ++ codes " "
          ++ down_arrow
          ++ received)
        e7

Lines-bind :
    (b : Text) (r : Option Text) (f : Text → Option Text)
    → Grows b r
    → ((t : Text) → Lines t (f t))
    → Lines b (r >>= f)
Lines-bind b r f (x, e) g =
    let (t, q, grown, ends) = g (b ++ x) in
    subst (λ o. Lines b (o >>= f)) (sym e)
      (t, q, Extends-trans b (b ++ x) t (extend b x) grown, ends)

-- headers under a title, and the body behind them
part_grows :
    (p : Printers) (c : Codecs) (b title label : Text) (h : Header) (body : Text) (truncated : Bool)
    → length body < 2 ^ 63
    → Grows b (write_body p c (write_headers (b ++ title ++ newline) h) label h body truncated)
part_grows p c b title label h body truncated fits =
    let titled = b ++ title ++ newline in
    let headed = write_headers titled h in
    let start = grow b (b ++ title) newline (extend b title) in
    grows_trans b headed (write_body p c headed label h body truncated)
      (Extends-trans b titled headed start (write_headers-Extends titled h))
      (write_body_grows p c headed label h body truncated fits)

verbose-Lines :
    (p : Printers) (c : Codecs) (b : Text) (f : Flow)
    → length f.request_body < 2 ^ 63
    → length f.response_body < 2 ^ 63
    → Lines b (verbose_detail p c b f)
unfolding verbose_detail
verbose-Lines p c b f h k =
    Lines-bind b _ _
      (part_grows p c b (codes "  Request headers:") (codes "  Request body") f.request_headers
        f.request_body f.request_truncated h)
      λ b1. grows-Lines b1 _ (response b1 (f.intercepted && is_nil f.error))
  where
    response :
        (t : Text) (shown : Bool)
        → Grows t (
            if shown
            then write_body p c
                (write_headers (t ++ codes "  Response headers:" ++ newline) f.response_headers)
                (codes "  Response body")
                f.response_headers
                f.response_body
                f.response_truncated
            else some t)
    response t true =
        part_grows p c t (codes "  Response headers:") (codes "  Response body") f.response_headers
          f.response_body f.response_truncated k
    response t false = ([], ap some (sym (append-nil t)))

-- the text of `emit` before it is written
emit-Lines :
    (p : Printers) (c : Codecs) (verbose : Bool) (f : Flow)
    → length f.request_body < 2 ^ 63
    → length f.response_body < 2 ^ 63
    → Lines (mark f) (summary p [] f >>= λ b. if verbose then verbose_detail p c b f else some b)
emit-Lines p c true f h k =
    let (b, e, (x, grown), ends) = summary-Lines p f h k in
    let (t, q, more, ended') = verbose-Lines p c b f h k in
    rw e (t, q, Extends-trans (mark f) b t (x, grown) more, ended')
emit-Lines p c false f h k =
    let (b, e, grown, ends) = summary-Lines p f h k in rw e (b, refl, grown, ends)

-- For bodies of fewer than 2^63 bytes, verbose or not, the sink does not panic, and writes one block
-- behind what was written, which does not depend on that, begins with the flow's number in brackets
-- and ends its last line.
pub emit_block :
    (p : Printers) (c : Codecs) (verbose : Bool) (f : Flow)
    → length f.request_body < 2 ^ 63
    → length f.response_body < 2 ^ 63
    → (block : Text) × ((w : Text) → emit p c verbose f w ≡ some (w ++ block))
      × ((has_prefix block (mark f) && has_suffix block newline) ≡ true)
unfolding emit
emit_block p c verbose f h k =
    let (t, e, (x, grown), ends) = emit-Lines p c verbose f h k in
    (
      t,
      λ w.
          sym (bind_assoc (summary p [] f) _ λ b. some (w ++ b))
          ∙ ap (λ o. o >>= λ b. some (w ++ b)) e,
      marked (mark f) t x grown ends,
    )
