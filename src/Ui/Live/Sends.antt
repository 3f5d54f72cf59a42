-- ===== src/Ui/Live/Sends.antt =====
-- The sends of an `Emit` of internal/ui/hub.go behind its critical section.
use proxysim.Prelude.{
  ℕ, zero, suc, ◌+◌, ◌%◌, ◌^◌, ◌<◌, ◌≤◌, ◌≡◌, refl, ap, ◌∙◌, List, [], ◌∷◌, ◌++◌, All, Option, none,
  some, Text, text_eq, length, ltb, if◌then◌else◌, ◌==◌, arith, Bool-cases, inl, inr, ◌⊎◌,
}
use proxysim.Ui.{client_buffer}
use proxysim.Ui.Live.{Browser, Sending, offer_to, update_at, pick, send}
use proxysim.Ui.Live.Stream.{
  stream, stream_at, stream-offer_to_room, stream-offer_to_full, length-update_at, ch-stream,
}

-- how often a number occurs
unfoldable pub occurs : ℕ → List ℕ → ℕ
occurs k [] = 0
occurs k (t ∷ ts) = (if t == k then 1 else 0) + occurs k ts

-- how often a text occurs
unfoldable pub times : Text → List Text → ℕ
times x [] = 0
times x (t ∷ ts) = (if text_eq t x then 1 else 0) + times x ts

pub times-append : (x : Text) (ts us : List Text) → times x (ts ++ us) ≡ times x ts + times x us
unfolding times
times-append x [] us = omega arith
times-append x (t ∷ ts) us = omega (arith, times-append x ts us)

-- The sends of a text to a browser that are still to come.
unfoldable pub pending : Text → ℕ → List Sending → ℕ
unfolding occurs
pending x k [] = 0
pending x k (s ∷ ss) = (if text_eq s.item x then occurs k s.targets else 0) + pending x k ss

-- the counter of a browser
unfoldable pub dropped_at : ℕ → List Browser → ℕ
dropped_at k [] = 0
dropped_at zero (b ∷ bs) = b.client.dropped
dropped_at (suc k) (b ∷ bs) = dropped_at k bs

-- From some browsers to others, browser `k` was sent some events in all, and lost some of them, which
-- its counter says, and only if it got as many as its queue has places.
abbrev pub Offered : ℕ → List Text → List Browser → List Browser → Type 0
Offered k sent bs bs' =
    (lost : List Text) × ((x : Text)
      → times x (stream_at k bs') + times x lost ≡ times x (stream_at k bs) + times x sent)
    × ((n : ℕ) → dropped_at k bs ≡ n % 2 ^ 64 → dropped_at k bs' ≡ (n + length lost) % 2 ^ 64)
    × ((lost ≡ []) ⊎ (client_buffer ≤ length (stream_at k bs')))

pub next_count : (n : ℕ) → (n % 2 ^ 64 + 1) % 2 ^ 64 ≡ (n + 1) % 2 ^ 64
next_count n = omega arith

Offered-offer_to :
    (item : Text) (k n : ℕ) (bs : List Browser)
    → n < length bs
    → Offered k (if n == k then item ∷ [] else []) bs (update_at n (offer_to item) bs)
unfolding update_at stream_at dropped_at times
Offered-offer_to item k n [] h = absurd (omega arith)
Offered-offer_to item zero zero (b ∷ bs) h =
    elim (Bool-cases (ltb (length b.client.ch) client_buffer)) [
      | inl e ↦
          let (queued, same) = stream-offer_to_room item b e in
          (
            [],
            (λ x. omega (arith, ap (times x) queued, times-append x (stream b) (item ∷ []))),
            (λ n h. omega (arith, same, h)),
            inl refl,
          )
      | inr e ↦
          let (same, counted) = stream-offer_to_full item b e in
          (
            item ∷ [],
            (λ x. omega (arith, ap (times x) same)),
            (λ n h. counted ∙ ap (λ m. (m + 1) % 2 ^ 64) h ∙ next_count n),
            inr (ground (arith, e, ap (λ l. length l) same, ch-stream b)),
          )
    ]
Offered-offer_to item (suc k) zero (b ∷ bs) h =
    ([], (λ x. ground arith), (λ n h. rw h (omega arith)), inl refl)
Offered-offer_to item zero (suc n) (b ∷ bs) h =
    ([], (λ x. ground arith), (λ n h. rw h (omega arith)), inl refl)
Offered-offer_to item (suc k) (suc n) (b ∷ bs) h =
    let (lost, all, counted, late) = Offered-offer_to item k n bs (omega (arith, h)) in
    (lost, (λ x. ground (arith, all x)), counted, late)

abbrev pub Below : ℕ → List ℕ → Type 0
Below n ts = All (λ t. t < n) ts

-- Every target is a browser that there is.
abbrev pub InRange : ℕ → List Sending → Type 0
InRange n ss = All (λ s. Below n s.targets) ss

pub Below-grow : (n m : ℕ) (ts : List ℕ) → n ≤ m → Below n ts → Below m ts
Below-grow n m [] le h = tt
Below-grow n m (t ∷ ts) le h = (omega (arith, h.0, le), Below-grow n m ts le h.1)

pub InRange-grow : (n m : ℕ) (ss : List Sending) → n ≤ m → InRange n ss → InRange m ss
InRange-grow n m [] le h = tt
InRange-grow n m (s ∷ ss) le h = (Below-grow n m s.targets le h.0, InRange-grow n m ss le h.1)

-- a pick takes one occurrence, and there is one unless no target is left
abbrev Picked : List ℕ → Option (ℕ × List ℕ) → Type 0
Picked ts none = ts ≡ []
Picked ts (some (t, us)) =
    ((k : ℕ) → occurs k ts ≡ (if t == k then 1 else 0) + occurs k us)
    × ((n : ℕ) → Below n ts → (t < n) × Below n us)

pick-Picked : (j : ℕ) (ts : List ℕ) → Picked ts (pick j ts)
unfolding pick occurs
pick-Picked j [] = refl
pick-Picked zero (t ∷ ts) = ((λ k. refl), λ n h. h)
pick-Picked (suc j) (t ∷ ts) = behind (pick j ts) (pick-Picked j ts)
  where
    behind :
        (o : Option (ℕ × List ℕ))
        → Picked ts o
        → Picked (t ∷ ts) (elim o [ none ↦ some (t, ts) | some (u, us) ↦ some (u, t ∷ us) ])
    behind none h = ((λ k. refl), λ n h. h)
    behind (some (u, us)) (e, r) =
        ((λ k. omega (arith, e k)), λ n h. let (a, b) = r n h.1 in (a, (h.0, b)))

-- What happened between two states: events became due to browser `k`, and what is due is what it has,
-- has lost, and is still to be sent.
abbrev pub Settled :
    ℕ → List Text → List Sending → List Browser → List Sending → List Browser → Type 0
Settled k due ss bs ss' bs' =
    (lost : List Text) × ((x : Text)
      → times x (stream_at k bs') + times x lost + pending x k ss'
        ≡ times x (stream_at k bs) + pending x k ss + times x due)
    × ((n : ℕ) → dropped_at k bs ≡ n % 2 ^ 64 → dropped_at k bs' ≡ (n + length lost) % 2 ^ 64)
    × ((lost ≡ []) ⊎ (client_buffer ≤ length (stream_at k bs')))

-- where nothing is lost
pub Settled-same :
    (k : ℕ) (due : List Text) (ss ss' : List Sending) (bs bs' : List Browser)
    → stream_at k bs' ≡ stream_at k bs
    → dropped_at k bs' ≡ dropped_at k bs
    → ((x : Text) → pending x k ss' ≡ pending x k ss + times x due)
    → Settled k due ss bs ss' bs'
unfolding times
Settled-same k due ss ss' bs bs' e d p =
    ([], (λ x. omega (arith, ap (times x) e, p x)), (λ n h. omega (arith, d, h)), inl refl)

-- a send to a target takes one of the sends that are to come
took :
    (x : Text) (k t : ℕ) (item : Text) (ts us : List ℕ) (ss : List Sending)
    → occurs k ts ≡ (if t == k then 1 else 0) + occurs k us
    → pending x k ((record { item = item; targets = ts }) ∷ ss)
      ≡ times x (if t == k then item ∷ [] else [])
        + pending x k ((record { item = item; targets = us }) ∷ ss)
unfolding pending times
took x k t item ts us ss e = ground (arith, e)

pub send-Settled :
    (k i j : ℕ) (ss : List Sending) (bs : List Browser)
    → InRange (length bs) ss
    → let (ss', bs') = send i j ss bs in
      InRange (length bs') ss' × (length bs' ≡ length bs) × Settled k [] ss bs ss' bs'
unfolding send pending times
send-Settled k i j [] bs h = (tt, refl, Settled-same k [] [] [] bs bs refl refl λ x. omega arith)
send-Settled k zero j (s ∷ ss) bs h = picked (pick j s.targets) (pick-Picked j s.targets) refl
  where
    picked :
        (o : Option (ℕ × List ℕ))
        → Picked s.targets o
        → pick j s.targets ≡ o
        → let (ss', bs') = send zero j (s ∷ ss) bs in
          InRange (length bs') ss' × (length bs' ≡ length bs) × Settled k [] (s ∷ ss) bs ss' bs'
    picked none p e =
        rw (e, send) (h, refl, Settled-same k [] (s ∷ ss) (s ∷ ss) bs bs refl refl λ x. omega arith)
    picked (some (t, ts)) (occ, range) e =
        let (t_below, ts_below) = range (length bs) h.0 in
        let (lost, all, counted, late) = Offered-offer_to s.item k t bs t_below in
        let same = length-update_at (offer_to s.item) t bs in
        rw (e, send)
          (
            InRange-grow (length bs) (length (update_at t (offer_to s.item) bs))
                (record s { targets = ts } ∷ ss) (omega (arith, same)) (ts_below, h.1),
            same,
            (
              lost,
              (λ x. omega (arith, all x, took x k t s.item s.targets ts ss (occ k))),
              counted,
              late,
            ),
          )
send-Settled k (suc i) j (s ∷ ss) bs h =
    let (range, same, (lost, all, counted, late)) = send-Settled k i j ss bs h.1 in
    (
      (
        Below-grow (length bs) (length (send i j ss bs).1) s.targets (omega (arith, same)) h.0,
        range,
      ),
      same,
      (lost, (λ x. omega (arith, all x)), counted, late),
    )

pub pending-append :
    (x : Text) (k : ℕ) (ss : List Sending) (s : Sending)
    → pending x k (ss ++ s ∷ [])
      ≡ pending x k ss + (if text_eq s.item x then occurs k s.targets else 0)
unfolding pending
pending-append x k [] s = omega arith
pending-append x k (y ∷ ss) s = omega (arith, pending-append x k ss s)
