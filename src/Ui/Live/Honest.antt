-- ===== src/Ui/Live/Honest.antt =====
-- What a browser of internal/ui/hub.go is told, and when it loses an event.
use proxysim.Prelude.{
  ℕ, zero, suc, ◌+◌, ◌≤◌, ◌≡◌, ◌⊎◌, refl, sym, ap, ◌∙◌, Bool, true, false, List, [], ◌∷◌, ◌++◌, All,
  All-append, Option, Text, length, length-append, arith, Option-cases, inl, inr,
}
use proxysim.Flow.{Flow}
use proxysim.Ui.{Event, client_buffer, meta, offer, send_event, dropped_count, payload}
use proxysim.Ui.Clients.{payloads, told, offer_bounded}
use proxysim.Ui.Live.{
  Phase, waiting, holding, leaving, gone, Browser, Sending, Live, enter, update_at, offer_to, pick,
  send, join, take_event, write_event, leave, remove, Act, enters, sends, joins, takes, writes,
  leaves, removes, act, acts,
}
use proxysim.Ui.Live.Stream.{held, length-payloads, one_payload}

-- A browser's queue is bounded, it counts losses only if it got 256 events, and the last number
-- of losses that it was told is the loop's variable.
pub record IsHonest (b : Browser) : Type 0 where
  pub bounded : length b.client.ch ≤ client_buffer
  pub late :
      (b.client.dropped ≡ 0)
      ⊎ (client_buffer ≤ length (payloads b.written) + held b.phase + length b.client.ch)
  pub notice : told 0 b.written ≡ b.last_dropped

told-append : (n : ℕ) (es fs : List Event) → told n (es ++ fs) ≡ told (told n es) fs
told-append n [] fs = refl
told-append n (payload t ∷ es) fs = told-append n es fs
told-append n (dropped_count m ∷ es) fs = told-append m es fs

offer_to-IsHonest : (item : Text) (b : Browser) → IsHonest b → IsHonest (offer_to item b)
unfolding offer_to offer
offer_to-IsHonest item b h = record {
  bounded = offer_bounded item b.client h.bounded;
  late = ground (arith, h.late, h.bounded, length-append b.client.ch (item ∷ []));
  notice = h.notice;
}

take_event-IsHonest : (b : Browser) → IsHonest b → IsHonest (take_event b)
unfolding take_event
take_event-IsHonest b h = record {
  bounded = ground (arith, h.bounded);
  late = ground (arith, h.late);
  notice = ground (arith, h.notice);
}

-- after a round the browser was told the counter
told-send_event :
    (last count : ℕ) (item : Text)
    → (told last (send_event last count item).0 ≡ count) × ((send_event last count item).1 ≡ count)
unfolding send_event
told-send_event last count item = ground arith

write_event-IsHonest :
    (is_written : Bool) (b : Browser) → IsHonest b → IsHonest (write_event is_written b)
unfolding write_event
write_event-IsHonest is_written b h = at_phase b.phase refl
  where
    at_phase : (p : Phase) → b.phase ≡ p → IsHonest (write_event is_written b)
    at_phase (holding item) e =
        let es : List Event = (send_event b.last_dropped b.client.dropped item).0 in
        let (now, last) = told-send_event b.last_dropped b.client.dropped item in
        let one : length (payloads es) ≡ 1 = one_payload b.last_dropped b.client.dropped item in
        let was : held b.phase ≡ 1 = ap held e in
        rw (e, write_event)
          (record {
            bounded = h.bounded;
            late = ground (arith, h.late, length-payloads b.written es, one, was);
            notice = told-append 0 b.written es ∙ ap (λ n. told n es) h.notice ∙ now ∙ sym last;
          })
    at_phase waiting e = rw (e, write_event) h
    at_phase leaving e = rw (e, write_event) h
    at_phase gone e = rw (e, write_event) h

leave-IsHonest : (b : Browser) → IsHonest b → IsHonest (leave b)
unfolding leave
leave-IsHonest b h = record {
  bounded = ground (arith, h.bounded);
  late = ground (arith, h.late);
  notice = ground (arith, h.notice);
}

remove-IsHonest : (b : Browser) → IsHonest b → IsHonest (remove b)
unfolding remove
remove-IsHonest b h = record {
  bounded = ground (arith, h.bounded);
  late = ground (arith, h.late);
  notice = ground (arith, h.notice);
}

abbrev pub AllHonest : List Browser → Type 0
AllHonest bs = All IsHonest bs

update_at-AllHonest :
    (g : Browser → Browser) (n : ℕ) (bs : List Browser)
    → ((b : Browser) → IsHonest b → IsHonest (g b))
    → AllHonest bs
    → AllHonest (update_at n g bs)
unfolding update_at
update_at-AllHonest g n [] keep h = tt
update_at-AllHonest g zero (b ∷ bs) keep h = (keep b h.0, h.1)
update_at-AllHonest g (suc n) (b ∷ bs) keep h = (h.0, update_at-AllHonest g n bs keep h.1)

send-AllHonest :
    (i j : ℕ) (ss : List Sending) (bs : List Browser) → AllHonest bs → AllHonest (send i j ss bs).1
unfolding send
send-AllHonest i j [] bs h = h
send-AllHonest zero j (s ∷ ss) bs h = elim (Option-cases (pick j s.targets)) [
  | inl e ↦ rw (e, send) h
  | inr ((t, ts), e) ↦
      rw (e, send) (update_at-AllHonest (offer_to s.item) t bs (offer_to-IsHonest s.item) h)
]
send-AllHonest (suc i) j (s ∷ ss) bs h = send-AllHonest i j ss bs h

act-AllHonest :
    (marshal : Flow → Option Text) (a : Act) (l : Live)
    → AllHonest l.browsers
    → AllHonest (act marshal a l).browsers
unfolding act enter join
act-AllHonest marshal (enters f) l h = elim (Option-cases (marshal (meta f))) [
  | inl e ↦ rw (e, enter) h
  | inr (t, e) ↦ rw (e, enter) h
]
act-AllHonest marshal (sends i j) l h = send-AllHonest i j l.sending l.browsers h
act-AllHonest marshal (joins false) l h = h
act-AllHonest marshal (joins true) l h =
    All-append IsHonest l.browsers _ h
      (record { bounded = omega arith; late = inl refl; notice = refl }, tt)
act-AllHonest marshal (takes n) l h =
    update_at-AllHonest take_event n l.browsers take_event-IsHonest h
act-AllHonest marshal (writes is_written n) l h =
    update_at-AllHonest (write_event is_written) n l.browsers (write_event-IsHonest is_written) h
act-AllHonest marshal (leaves n) l h = update_at-AllHonest leave n l.browsers leave-IsHonest h
act-AllHonest marshal (removes n) l h = update_at-AllHonest remove n l.browsers remove-IsHonest h

-- However emitters and browsers interleave, it stays so for every browser, and is so for those that
-- join, that its queue holds at most 256 events, that its counter of losses is 0 unless 256 events
-- were written to it, are held by its loop or are queued for it, and that the last number of losses
-- that it was told is the one that its loop compares with.
pub acts-AllHonest :
    (marshal : Flow → Option Text) (trace : List Act) (l : Live)
    → AllHonest l.browsers
    → AllHonest (acts marshal trace l).browsers
unfolding acts
acts-AllHonest marshal [] l h = h
acts-AllHonest marshal (a ∷ rest) l h =
    acts-AllHonest marshal rest (act marshal a l) (act-AllHonest marshal a l h)
