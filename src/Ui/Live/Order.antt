-- ===== src/Ui/Live/Order.antt =====
-- The order in which a browser of internal/ui/hub.go gets its events.
use proxysim.Prelude.{
  ℕ, zero, suc, ◌≡◌, refl, sym, ap, ◌∙◌, true, false, List, [], ◌∷◌, ◌++◌, append_assoc, append-nil,
  Option, Text, length, ltb, Option-cases, Bool-cases, inl, inr,
}
use proxysim.Flow.{Flow}
use proxysim.Ui.{client_buffer, meta}
use proxysim.Ui.Live.{
  Browser, Sending, Live, enter, update_at, offer_to, pick, send, join, take_event, write_event,
  leave, remove, Act, enters, sends, joins, takes, writes, leaves, removes, act, acts,
}
use proxysim.Ui.Live.Stream.{
  stream, stream_at, stream-offer_to_room, stream-offer_to_full, stream-take_event,
  stream-write_event, stream-leave, stream-remove,
}

-- the first list begins the second
abbrev pub Begins : List Text → List Text → Type 0
Begins xs ys = (more : List Text) × (ys ≡ xs ++ more)

Begins-refl : (xs : List Text) → Begins xs xs
Begins-refl xs = ([], sym (append-nil xs))

Begins-trans : (xs ys zs : List Text) → Begins xs ys → Begins ys zs → Begins xs zs
Begins-trans xs ys zs (m, e) (n, f) = (m ++ n, f ∙ ap (λ l. l ++ n) e ∙ append_assoc xs m n)

Begins-eq : (xs ys : List Text) → ys ≡ xs → Begins xs ys
Begins-eq xs ys e = ([], e ∙ sym (append-nil xs))

stream-offer_to : (item : Text) (b : Browser) → Begins (stream b) (stream (offer_to item b))
stream-offer_to item b = elim (Bool-cases (ltb (length b.client.ch) client_buffer)) [
  | inl e ↦ (item ∷ [], (stream-offer_to_room item b e).0)
  | inr e ↦ Begins-eq (stream b) (stream (offer_to item b)) (stream-offer_to_full item b e).0
]

stream_at-update_at :
    (g : Browser → Browser) (k n : ℕ) (bs : List Browser)
    → ((b : Browser) → Begins (stream b) (stream (g b)))
    → Begins (stream_at k bs) (stream_at k (update_at n g bs))
unfolding stream_at update_at
stream_at-update_at g k n [] h = Begins-refl []
stream_at-update_at g zero zero (b ∷ bs) h = h b
stream_at-update_at g (suc k) zero (b ∷ bs) h = Begins-refl (stream_at k bs)
stream_at-update_at g zero (suc n) (b ∷ bs) h = Begins-refl (stream b)
stream_at-update_at g (suc k) (suc n) (b ∷ bs) h = stream_at-update_at g k n bs h

stream_at-append :
    (k : ℕ) (bs : List Browser) (b : Browser) → Begins (stream_at k bs) (stream_at k (bs ++ b ∷ []))
unfolding stream_at
stream_at-append k [] b = (stream_at k (b ∷ []), refl)
stream_at-append zero (x ∷ bs) b = Begins-refl (stream x)
stream_at-append (suc k) (x ∷ bs) b = stream_at-append k bs b

stream_at-send :
    (k i j : ℕ) (ss : List Sending) (bs : List Browser)
    → Begins (stream_at k bs) (stream_at k (send i j ss bs).1)
unfolding send
stream_at-send k i j [] bs = Begins-refl (stream_at k bs)
stream_at-send k zero j (s ∷ ss) bs = elim (Option-cases (pick j s.targets)) [
  | inl e ↦ rw (e, send) (Begins-refl (stream_at k bs))
  | inr ((t, ts), e) ↦
      rw (e, send) (stream_at-update_at (offer_to s.item) k t bs (stream-offer_to s.item))
]
stream_at-send k (suc i) j (s ∷ ss) bs = stream_at-send k i j ss bs

-- a browser's own act
stream_at-own :
    (g : Browser → Browser) (k n : ℕ) (bs : List Browser)
    → ((b : Browser) → stream (g b) ≡ stream b)
    → Begins (stream_at k bs) (stream_at k (update_at n g bs))
stream_at-own g k n bs h =
    stream_at-update_at g k n bs (λ b. Begins-eq (stream b) (stream (g b)) (h b))

stream_at-act :
    (marshal : Flow → Option Text) (k : ℕ) (a : Act) (l : Live)
    → Begins (stream_at k l.browsers) (stream_at k (act marshal a l).browsers)
unfolding act enter join
stream_at-act marshal k (enters f) l = elim (Option-cases (marshal (meta f))) [
  | inl e ↦ rw (e, enter) (Begins-refl (stream_at k l.browsers))
  | inr (t, e) ↦ rw (e, enter) (Begins-refl (stream_at k l.browsers))
]
stream_at-act marshal k (sends i j) l = stream_at-send k i j l.sending l.browsers
stream_at-act marshal k (joins false) l = Begins-refl (stream_at k l.browsers)
stream_at-act marshal k (joins true) l = stream_at-append k l.browsers _
stream_at-act marshal k (takes n) l = stream_at-own take_event k n l.browsers stream-take_event
stream_at-act marshal k (writes w n) l =
    stream_at-own (write_event w) k n l.browsers (stream-write_event w)
stream_at-act marshal k (leaves n) l = stream_at-own leave k n l.browsers stream-leave
stream_at-act marshal k (removes n) l = stream_at-own remove k n l.browsers stream-remove

-- However emitters and browsers interleave, the events that a browser was written, that its loop holds
-- and that are queued for it stay in the order in which they were sent to it: later acts only put
-- events behind them.
pub stream_at-acts :
    (marshal : Flow → Option Text) (k : ℕ) (trace : List Act) (l : Live)
    → Begins (stream_at k l.browsers) (stream_at k (acts marshal trace l).browsers)
unfolding acts
stream_at-acts marshal k [] l = Begins-refl (stream_at k l.browsers)
stream_at-acts marshal k (a ∷ rest) l =
    let l' : Live = act marshal a l in
    Begins-trans (stream_at k l.browsers) (stream_at k l'.browsers)
      (stream_at k (acts marshal rest l').browsers) (stream_at-act marshal k a l)
      (stream_at-acts marshal k rest l')
