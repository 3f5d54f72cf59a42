-- ===== src/Ui/Live/Stream.antt =====
-- What a browser of internal/ui/hub.go has of the events that were sent to it, in order.
use proxysim.Prelude.{
  ℕ, zero, suc, ◌+◌, ◌%◌, ◌^◌, ◌≤◌, ◌≡◌, refl, sym, ap, ◌∙◌, Bool, true, false, List, [], ◌∷◌, ◌++◌,
  append_assoc, Text, length, length-append, ltb, if◌then◌else◌, arith,
}
use proxysim.Ui.{Event, client_buffer, offer, send_event, dropped_count, payload}
use proxysim.Ui.Clients.{payloads}
use proxysim.Ui.Live.{
  Phase, waiting, holding, leaving, gone, Browser, update_at, offer_to, take_event, write_event,
  leave, remove,
}

abbrev pub held : Phase → ℕ
held (holding item) = 1
held _ = 0

pub payloads-append : (es fs : List Event) → payloads (es ++ fs) ≡ payloads es ++ payloads fs
payloads-append [] fs = refl
payloads-append (payload t ∷ es) fs = ap (◌∷◌ t) (payloads-append es fs)
payloads-append (dropped_count n ∷ es) fs = payloads-append es fs

pub length-payloads :
    (es fs : List Event)
    → length (payloads (es ++ fs)) ≡ length (payloads es) + length (payloads fs)
length-payloads es fs =
    ap (λ l. length l) (payloads-append es fs) ∙ length-append (payloads es) (payloads fs)

pub one_payload :
    (last count : ℕ) (item : Text) → length (payloads (send_event last count item).0) ≡ 1
unfolding send_event
one_payload last count item = ground arith

pub length-update_at :
    (g : Browser → Browser) (n : ℕ) (bs : List Browser) → length (update_at n g bs) ≡ length bs
unfolding update_at
length-update_at g n [] = refl
length-update_at g zero (b ∷ bs) = refl
length-update_at g (suc n) (b ∷ bs) = ap suc (length-update_at g n bs)

abbrev held_item : Phase → List Text
held_item (holding item) = item ∷ []
held_item _ = []

-- What a browser got, in order: what was written, what its loop holds, and what is queued.
unfoldable pub stream : Browser → List Text
stream b = payloads b.written ++ (held_item b.phase ++ b.client.ch)

unfoldable pub stream_at : ℕ → List Browser → List Text
unfolding stream
stream_at k [] = []
stream_at zero (b ∷ bs) = stream b
stream_at (suc k) (b ∷ bs) = stream_at k bs

pub ch-stream : (b : Browser) → length b.client.ch ≤ length (stream b)
unfolding stream
ch-stream b =
    let got : List Text = payloads b.written in
    omega (
      arith,
      length-append got (held_item b.phase ++ b.client.ch),
      length-append (held_item b.phase) b.client.ch,
    )

-- A send puts the event behind the others, or leaves them as they are and counts it.
pub stream-offer_to_room :
    (item : Text) (b : Browser)
    → ltb (length b.client.ch) client_buffer ≡ true
    → (stream (offer_to item b) ≡ stream b ++ item ∷ [])
      × ((offer_to item b).client.dropped ≡ b.client.dropped)
unfolding stream offer_to offer
stream-offer_to_room item b e = rw e (
  ap (λ l. payloads b.written ++ l) (sym (append_assoc (held_item b.phase) b.client.ch (item ∷ [])))
      ∙ sym (append_assoc (payloads b.written) (held_item b.phase ++ b.client.ch) (item ∷ [])),
  refl,
)

pub stream-offer_to_full :
    (item : Text) (b : Browser)
    → ltb (length b.client.ch) client_buffer ≡ false
    → (stream (offer_to item b) ≡ stream b)
      × ((offer_to item b).client.dropped ≡ (b.client.dropped + 1) % 2 ^ 64)
unfolding stream offer_to offer
stream-offer_to_full item b e = rw e (refl, refl)

pub stream-take_event : (b : Browser) → stream (take_event b) ≡ stream b
unfolding stream take_event
stream-take_event b = ground arith

payload-send_event :
    (last count : ℕ) (item : Text) → payloads (send_event last count item).0 ≡ item ∷ []
unfolding send_event
payload-send_event last count item = ground arith

idle : (is_written : Bool) → held_item (if is_written then waiting else leaving) ≡ []
idle true = refl
idle false = refl

pub stream-write_event :
    (is_written : Bool) (b : Browser) → stream (write_event is_written b) ≡ stream b
unfolding stream write_event
stream-write_event is_written b = at_phase b.phase refl
  where
    kept : write_event is_written b ≡ b → stream (write_event is_written b) ≡ stream b
    kept same = ap stream same

    at_phase : (p : Phase) → b.phase ≡ p → stream (write_event is_written b) ≡ stream b
    at_phase (holding item) e =
        let (es, last) = send_event b.last_dropped b.client.dropped item in
        let b' : Browser = record b {
          phase = if is_written then waiting else leaving;
          last_dropped = last;
          written = b.written ++ es;
        } in
        let same : write_event is_written b ≡ b' = rw (e, write_event) refl in
        let one : payloads es ≡ item ∷ [] =
          payload-send_event b.last_dropped b.client.dropped item in
        let moved : stream b' ≡ payloads b.written ++ (item ∷ b.client.ch) =
          rw (idle is_written, payloads-append b.written es, one)
            (append_assoc (payloads b.written) (item ∷ []) b.client.ch) in
        ap stream same
        ∙ moved
        ∙ ap (λ p. payloads b.written ++ (held_item p ++ b.client.ch)) (sym e)
    at_phase waiting e = kept (simp (write_event, e))
    at_phase leaving e = kept (simp (write_event, e))
    at_phase gone e = kept (simp (write_event, e))

pub stream-leave : (b : Browser) → stream (leave b) ≡ stream b
unfolding stream leave
stream-leave b = ground arith

pub stream-remove : (b : Browser) → stream (remove b) ≡ stream b
unfolding stream remove
stream-remove b = ground arith
