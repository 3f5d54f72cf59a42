-- ===== src/Ui/Live/Accounts.antt =====
-- What becomes of each event of internal/ui/hub.go.
use proxysim.Prelude.{
  ℕ, zero, suc, ◌+◌, ◌%◌, ◌^◌, ◌<◌, ◌≡◌, refl, ap, Bool, true, false, List, [], ◌∷◌, ◌++◌,
  All-append, Option, none, some, Text, length, length-append, if◌then◌else◌, arith, Option-cases,
  Bool-cases, inl, inr, ◌⊎◌, ◌≤◌,
}
use proxysim.Flow.{Flow}
use proxysim.Ui.{client_buffer, meta}
use proxysim.Ui.Live.Order.{Begins, stream_at-acts}
use proxysim.Ui.Live.{
  waiting, Browser, Sending, Live, live, is_registered, registered, enter, update_at, join,
  take_event, write_event, leave, remove, Act, enters, sends, joins, takes, writes, leaves, removes,
  act, acts,
}
use proxysim.Ui.Live.Stream.{
  stream, stream_at, stream-take_event, stream-write_event, stream-leave, stream-remove,
  length-update_at,
}
use proxysim.Ui.Live.Sends.{
  occurs, times, times-append, pending, dropped_at, Below, Below-grow, InRange, InRange-grow,
  Settled, Settled-same, send-Settled, pending-append,
}

-- A browser's own acts leave its counter.
dropped-take_event : (b : Browser) → (take_event b).client.dropped ≡ b.client.dropped
unfolding take_event
dropped-take_event b = ground arith

dropped-write_event : (w : Bool) (b : Browser) → (write_event w b).client.dropped ≡ b.client.dropped
unfolding write_event
dropped-write_event w b = ground arith

dropped-leave : (b : Browser) → (leave b).client.dropped ≡ b.client.dropped
unfolding leave
dropped-leave b = ground arith

dropped-remove : (b : Browser) → (remove b).client.dropped ≡ b.client.dropped
unfolding remove
dropped-remove b = ground arith

stream_at-same :
    (g : Browser → Browser) (k n : ℕ) (bs : List Browser)
    → ((b : Browser) → stream (g b) ≡ stream b)
    → stream_at k (update_at n g bs) ≡ stream_at k bs
unfolding stream_at update_at
stream_at-same g k n [] h = refl
stream_at-same g zero zero (b ∷ bs) h = h b
stream_at-same g (suc k) zero (b ∷ bs) h = refl
stream_at-same g zero (suc n) (b ∷ bs) h = refl
stream_at-same g (suc k) (suc n) (b ∷ bs) h = stream_at-same g k n bs h

dropped_at-same :
    (g : Browser → Browser) (k n : ℕ) (bs : List Browser)
    → ((b : Browser) → (g b).client.dropped ≡ b.client.dropped)
    → dropped_at k (update_at n g bs) ≡ dropped_at k bs
unfolding dropped_at update_at
dropped_at-same g k n [] h = refl
dropped_at-same g zero zero (b ∷ bs) h = h b
dropped_at-same g (suc k) zero (b ∷ bs) h = refl
dropped_at-same g zero (suc n) (b ∷ bs) h = refl
dropped_at-same g (suc k) (suc n) (b ∷ bs) h = dropped_at-same g k n bs h

-- a browser that joins has nothing yet
stream_at-joined :
    (k : ℕ) (bs : List Browser) (b : Browser)
    → stream b ≡ []
    → stream_at k (bs ++ b ∷ []) ≡ stream_at k bs
unfolding stream_at
stream_at-joined zero [] b h = h
stream_at-joined (suc k) [] b h = refl
stream_at-joined zero (x ∷ bs) b h = refl
stream_at-joined (suc k) (x ∷ bs) b h = stream_at-joined k bs b h

dropped_at-joined :
    (k : ℕ) (bs : List Browser) (b : Browser)
    → b.client.dropped ≡ 0
    → dropped_at k (bs ++ b ∷ []) ≡ dropped_at k bs
unfolding dropped_at
dropped_at-joined zero [] b h = h
dropped_at-joined (suc k) [] b h = refl
dropped_at-joined zero (x ∷ bs) b h = refl
dropped_at-joined (suc k) (x ∷ bs) b h = dropped_at-joined k bs b h

-- whether a browser is registered
unfoldable pub registered_at : ℕ → List Browser → Bool
unfolding is_registered
registered_at k [] = false
registered_at zero (b ∷ bs) = is_registered b.phase
registered_at (suc k) (b ∷ bs) = registered_at k bs

due_now : ℕ → (Flow → Option Text) → Act → Live → List Text
unfolding registered_at
due_now k marshal (enters f) l = elim (marshal (meta f)) [
  | none ↦ []
  | some t ↦ if registered_at k l.browsers then t ∷ [] else []
]
due_now k marshal _ l = []

-- The events of the flows that are recorded while a browser is registered.
unfoldable pub due : ℕ → (Flow → Option Text) → List Act → Live → List Text
unfolding due_now
due k marshal [] l = []
due k marshal (a ∷ rest) l = due_now k marshal a l ++ due k marshal rest (act marshal a l)

-- the registered browsers are there
registered-Below : (n : ℕ) (bs : List Browser) → Below (n + length bs) (registered n bs)
unfolding registered
registered-Below n [] = tt
registered-Below n (b ∷ bs) =
    let ih : Below (n + suc (length bs)) (registered (suc n) bs) =
      Below-grow (suc n + length bs) (n + suc (length bs)) (registered (suc n) bs) (omega arith)
        (registered-Below (suc n) bs) in
    elim (Bool-cases (is_registered b.phase)) [ inl e ↦ rw e (omega arith, ih) | inr e ↦ rw e ih ]

occurs_below : (k n : ℕ) (bs : List Browser) → k < n → occurs k (registered n bs) ≡ 0
unfolding registered occurs
occurs_below k n [] h = refl
occurs_below k n (b ∷ bs) h = ground (arith, occurs_below k (suc n) bs (omega (arith, h)), h)

occurs-registered :
    (k n m : ℕ) (bs : List Browser)
    → m ≡ n + k
    → occurs m (registered n bs) ≡ (if registered_at k bs then 1 else 0)
unfolding registered registered_at occurs
occurs-registered k n m [] e = refl
occurs-registered zero n m (b ∷ bs) e =
    ground (arith, e, occurs_below m (suc n) bs (omega (arith, e)))
occurs-registered (suc k) n m (b ∷ bs) e =
    ground (arith, e, occurs-registered k (suc n) m bs (omega (arith, e)))

-- the effect of an act: all targets stay in range, and each event is accounted for
abbrev Acted : ℕ → List Text → Live → Live → Type 0
Acted k new l l' =
    InRange (length l'.browsers) l'.sending
    × Settled k new l.sending l.browsers l'.sending l'.browsers

-- A browser's own act changes neither what it has in all nor its counter.
own-Acted :
    (g : Browser → Browser) (k n : ℕ) (l : Live)
    → ((b : Browser) → stream (g b) ≡ stream b)
    → ((b : Browser) → (g b).client.dropped ≡ b.client.dropped)
    → InRange (length l.browsers) l.sending
    → Acted k [] l (record l { browsers = update_at n g l.browsers })
unfolding times
own-Acted g k n l s d h = (
  InRange-grow (length l.browsers) (length (update_at n g l.browsers)) l.sending
      (omega (arith, length-update_at g n l.browsers)) h,
  Settled-same k [] l.sending l.sending l.browsers (update_at n g l.browsers)
      (stream_at-same g k n l.browsers s) (dropped_at-same g k n l.browsers d) λ x. omega arith,
)

-- the emission that enters is to be sent to the registered browsers
entered :
    (x item : Text) (k : ℕ) (ss : List Sending) (bs : List Browser)
    → pending x k (ss ++ (record { item = item; targets = registered 0 bs }) ∷ [])
      ≡ pending x k ss + times x (if registered_at k bs then item ∷ [] else [])
unfolding times
entered x item k ss bs = ground (
  arith,
  pending-append x k ss (record { item = item; targets = registered 0 bs }),
  occurs-registered k 0 k bs (omega arith),
)

act-Acted :
    (marshal : Flow → Option Text) (k : ℕ) (a : Act) (l : Live)
    → InRange (length l.browsers) l.sending
    → Acted k (due_now k marshal a l) l (act marshal a l)
unfolding act due_now enter join times stream
act-Acted marshal k (enters f) l h = elim (Option-cases (marshal (meta f))) [
  | inl e ↦
      rw (e, enter, due_now)
        (h, Settled-same k [] l.sending l.sending l.browsers l.browsers refl refl λ x. omega arith)
  | inr (t, e) ↦
      let s : Sending = record { item = t; targets = registered 0 l.browsers } in
      rw (e, enter, due_now)
        (
          All-append (λ s. Below (length l.browsers) s.targets) l.sending (s ∷ []) h
              (
                Below-grow (0 + length l.browsers) (length l.browsers) s.targets (omega arith)
                    (registered-Below 0 l.browsers),
                tt,
              ),
          Settled-same k (if registered_at k l.browsers then t ∷ [] else []) l.sending
              (l.sending ++ s ∷ []) l.browsers l.browsers refl refl
              λ x. entered x t k l.sending l.browsers,
        )
]
act-Acted marshal k (sends i j) l h =
    let (range, same, settled) = send-Settled k i j l.sending l.browsers h in (range, settled)
act-Acted marshal k (joins false) l h =
    (h, Settled-same k [] l.sending l.sending l.browsers l.browsers refl refl λ x. omega arith)
act-Acted marshal k (joins true) l h =
    let b : Browser = record {
      client = record { key = length l.browsers; ch = []; dropped = 0 };
      phase = waiting;
      last_dropped = 0;
      written = [];
    } in
    (
      InRange-grow (length l.browsers) (length (l.browsers ++ b ∷ [])) l.sending
          (omega (arith, length-append l.browsers (b ∷ []))) h,
      Settled-same k [] l.sending l.sending l.browsers (l.browsers ++ b ∷ [])
          (stream_at-joined k l.browsers b refl) (dropped_at-joined k l.browsers b refl)
          λ x. omega arith,
    )
act-Acted marshal k (takes n) l h =
    own-Acted take_event k n l stream-take_event dropped-take_event h
act-Acted marshal k (writes w n) l h =
    own-Acted (write_event w) k n l (stream-write_event w) (dropped-write_event w) h
act-Acted marshal k (leaves n) l h = own-Acted leave k n l stream-leave dropped-leave h
act-Acted marshal k (removes n) l h = own-Acted remove k n l stream-remove dropped-remove h

late_or :
    (lost lost' got got' : List Text)
    → (lost ≡ []) ⊎ (client_buffer ≤ length got)
    → (lost' ≡ []) ⊎ (client_buffer ≤ length got')
    → Begins got got'
    → (lost ++ lost' ≡ []) ⊎ (client_buffer ≤ length got')
late_or lost lost' got got' late (inr h) b = inr h
late_or lost lost' got got' (inl e) (inl e') b = inl (rw (e, e') refl)
late_or lost lost' got got' (inr h) (inl e') (more, b) =
    inr (omega (arith, h, ap (λ l. length l) b, length-append got more))

acts-Acted :
    (marshal : Flow → Option Text) (k : ℕ) (trace : List Act) (l : Live)
    → InRange (length l.browsers) l.sending
    → Acted k (due k marshal trace l) l (acts marshal trace l)
unfolding acts due times
acts-Acted marshal k [] l h =
    (h, Settled-same k [] l.sending l.sending l.browsers l.browsers refl refl λ x. omega arith)
acts-Acted marshal k (a ∷ rest) l h =
    let l' : Live = act marshal a l in
    let (h', (lost, all, counted, late)) = act-Acted marshal k a l h in
    let (h'', (lost', all', counted', late')) = acts-Acted marshal k rest l' h' in
    (
      h'',
      (
        lost ++ lost',
        (λ x. omega (
          arith,
          all x,
          all' x,
          times-append x lost lost',
          times-append x (due_now k marshal a l) (due k marshal rest l'),
        )),
        (λ n e. omega (
          arith,
          counted' (n + length lost) (counted n e),
          ap (λ m. (n + m) % 2 ^ 64) (length-append lost lost'),
        )),
        late_or lost lost' (stream_at k l'.browsers) (stream_at k (acts marshal rest l').browsers)
            late late' (stream_at-acts marshal k rest l'),
      ),
    )

-- However emitters and browsers interleave from an unused hub on, the events of the flows that are
-- recorded while a browser is registered are, each as often as it is recorded: written to the browser,
-- held by its loop or queued for it, still to be sent to it, or lost; and there is nothing else. How
-- many are lost is what its counter says, modulo 2^64, and none is unless the browser got 256 others.
pub acts_accounts :
    (marshal : Flow → Option Text) (history : ℕ) (trace : List Act) (k : ℕ)
    → let l = acts marshal trace (live history) in
      (lost : List Text) × ((x : Text)
        → times x (stream_at k l.browsers) + times x lost + pending x k l.sending
          ≡ times x (due k marshal trace (live history)))
      × (dropped_at k l.browsers ≡ length lost % 2 ^ 64)
      × ((lost ≡ []) ⊎ (client_buffer ≤ length (stream_at k l.browsers)))
unfolding live stream_at pending times dropped_at
acts_accounts marshal history trace k =
    let (h, (lost, all, counted, late)) = acts-Acted marshal k trace (live history) tt in
    (lost, (λ x. omega (arith, all x)), omega (arith, counted 0 refl), late)
