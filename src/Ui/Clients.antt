-- ===== src/Ui/Clients.antt =====
-- What the browsers of internal/ui/hub.go get: bounded queues, and notices of their losses.
use proxysim.Prelude.{
  ℕ, ◌≤◌, ◌≡◌, refl, List, [], ◌∷◌, ◌++◌, map, Option, Text, length, length-append, length-drop,
  ◌==◌, arith, All, Option-cases, Bool-cases, inl, inr,
}
use proxysim.Flow.{Flow}
use proxysim.Ui.{
  Client, Hub, Op, Event, emits, connects, disconnects, receives, client_buffer, meta, offer, emit,
  without, receive_from, step, run, dropped_count, payload, send_event,
}

abbrev pub IsBounded : Hub → Type 0
IsBounded h = All (λ c. length c.ch ≤ client_buffer) h.clients

pub offer_bounded :
    (item : Text) (c : Client)
    → length c.ch ≤ client_buffer
    → length (offer item c).ch ≤ client_buffer
unfolding offer
offer_bounded item c h = ground (arith, length-append c.ch (item ∷ []))

map_bounded :
    (f : Client → Client) (cs : List Client)
    → ((c : Client) → length c.ch ≤ client_buffer → length (f c).ch ≤ client_buffer)
    → All (λ c. length c.ch ≤ client_buffer) cs
    → All (λ c. length c.ch ≤ client_buffer) (map f cs)
map_bounded f [] keep h = tt
map_bounded f (c ∷ cs) keep h = (keep c h.0, map_bounded f cs keep h.1)

without_bounded :
    (key : ℕ) (cs : List Client)
    → All (λ c. length c.ch ≤ client_buffer) cs
    → All (λ c. length c.ch ≤ client_buffer) (without key cs)
unfolding without
without_bounded key [] h = tt
without_bounded key (c ∷ cs) h = ground (arith, without_bounded key cs h.1)

receive_bounded :
    (key : ℕ) (c : Client)
    → length c.ch ≤ client_buffer
    → length (receive_from key c).ch ≤ client_buffer
unfolding receive_from
receive_bounded key c h = ground (arith, length-drop 1 c.ch)

step-IsBounded :
    (marshal : Flow → Option Text) (h : Hub) (op : Op) → IsBounded h → IsBounded (step marshal h op)
unfolding step
step-IsBounded marshal h (emits f) b = elim (Option-cases (marshal (meta f))) [
  | inl e ↦ rw (e, emit) b
  | inr (t, e) ↦ rw (e, emit) (map_bounded (offer t) h.clients (offer_bounded t) b)
]
step-IsBounded marshal h (connects key) b = (omega arith, b)
step-IsBounded marshal h (disconnects key) b = without_bounded key h.clients b
step-IsBounded marshal h (receives key) b =
    map_bounded (receive_from key) h.clients (receive_bounded key) b

-- No browser's queue ever holds more than its 256 places, whatever is emitted, read or connected.
pub run-IsBounded :
    (marshal : Flow → Option Text) (ops : List Op) (h : Hub)
    → IsBounded h
    → IsBounded (run marshal h ops)
unfolding run
run-IsBounded marshal [] h b = b
run-IsBounded marshal (op ∷ ops) h b =
    run-IsBounded marshal ops (step marshal h op) (step-IsBounded marshal h op b)

-- The rounds of a browser's loop: each has the client's counter and the event that was received.
unfoldable pub send_all : ℕ → List (ℕ × Text) → List Event
send_all last_dropped [] = []
send_all last_dropped ((count, item) ∷ rest) =
    let (written, last) = send_event last_dropped count item in written ++ send_all last rest

-- What a browser makes of what it reads: the events, and the last number of losses that it was told.
abbrev pub payloads : List Event → List Text
payloads [] = []
payloads (payload t ∷ es) = t ∷ payloads es
payloads (dropped_count n ∷ es) = payloads es

abbrev pub told : ℕ → List Event → ℕ
told n [] = n
told n (payload t ∷ es) = told n es
told n (dropped_count m ∷ es) = told m es

abbrev pub last_count : ℕ → List (ℕ × Text) → ℕ
last_count n [] = n
last_count n ((count, item) ∷ rest) = last_count count rest

abbrev pub received : List (ℕ × Text) → List Text
received [] = []
received ((count, item) ∷ rest) = item ∷ received rest

-- Every event that a browser's loop receives is written, in order, and after each the number of
-- losses that the browser was last told is the client's counter.
pub send_all_lem :
    (rounds : List (ℕ × Text)) (last_dropped : ℕ)
    → (payloads (send_all last_dropped rounds) ≡ received rounds)
      × (told last_dropped (send_all last_dropped rounds) ≡ last_count last_dropped rounds)
unfolding send_all send_event
send_all_lem [] last_dropped = (refl, refl)
send_all_lem ((count, item) ∷ rest) last_dropped = elim (Bool-cases (count == last_dropped)) [
  | inl e ↦ ground (arith, e, send_all_lem rest last_dropped)
  | inr e ↦ ground (arith, e, send_all_lem rest count)
]
