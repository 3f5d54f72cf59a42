-- ===== src/Ui/Live.antt =====
-- internal/ui/hub.go with its goroutines interleaved: an `Emit` is its critical section and then one
-- send for each target, and a browser's `handleEvents` is its registration, the receives and writes
-- of its loop, and its removal. Each is an atomic step.
pub mod Stream
pub mod Sends
pub mod Accounts
pub mod Honest
pub mod Atomic
pub mod Ending
pub mod Order
use proxysim.Prelude.{
  ℕ, zero, suc, ◌+◌, ◌&&◌, ◌≡◌, Bool, true, false, not, List, [], ◌∷◌, ◌++◌, map, Option, none,
  some, Text, length, if◌then◌else◌,
}
use proxysim.Flow.{Flow}
use proxysim.Ui.{Client, Hub, Event, meta, new, push_ring, offer, send_event}

-- Where the goroutine of a browser is: at the select of its loop, with an event that it has
-- received, on its way out of the handler, or removed.
pub data Phase : Type 0 where
  waiting : Phase
  holding : Text → Phase
  leaving : Phase
  gone : Phase

-- `last_dropped` is the loop's variable, `written` what went to the browser, the last of it perhaps
-- in vain.
pub record Browser : Type 0 where
  pub client : Client
  pub phase : Phase
  pub last_dropped : ℕ
  pub written : List Event

-- An `Emit` behind its critical section, with the targets that it has not sent to. They are in the
-- order in which Go iterates over a map, which is left open.
pub record Sending : Type 0 where
  pub item : Text
  pub targets : List ℕ

-- All browsers that ever connected; the place in the list is the identity of the client's pointer.
pub record Live : Type 0 where
  pub ring : List Flow
  pub capacity : ℕ
  pub browsers : List Browser
  pub sending : List Sending

-- A hub that nobody has used.
unfoldable pub live : ℕ → Live
unfolding new
live history =
    let h = new history in
    record { ring = h.ring; capacity = h.capacity; browsers = []; sending = [] }

-- whether the client is in the hub's map
unfoldable pub is_registered : Phase → Bool
is_registered gone = false
is_registered _ = true

-- The keys of the hub's map, for browsers that are numbered from `n`.
unfoldable pub registered : ℕ → List Browser → List ℕ
unfolding is_registered
registered n [] = []
registered n (b ∷ bs) =
    let rest = registered (suc n) bs in if is_registered b.phase then n ∷ rest else rest

-- The critical section of `Emit`, for a flow that marshals.
unfoldable pub enter : (Flow → Option Text) → Flow → Live → Live
unfolding meta push_ring registered
enter marshal f l = elim (marshal (meta f)) [
  | none ↦ l
  | some item ↦ record l {
    ring = push_ring l.capacity l.ring f;
    sending = l.sending ++ (record { item = item; targets = registered 0 l.browsers }) ∷ [];
  }
]

unfoldable pub update_at : ℕ → (Browser → Browser) → List Browser → List Browser
update_at n g [] = []
update_at zero g (b ∷ bs) = g b ∷ bs
update_at (suc n) g (b ∷ bs) = b ∷ update_at n g bs

unfoldable pub offer_to : Text → Browser → Browser
unfolding offer
offer_to item b = record b { client = offer item b.client }

-- Takes one of the targets that are left: whichever Go's iteration over the map is at. A place past
-- the end is the last of them.
unfoldable pub pick : ℕ → List ℕ → Option (ℕ × List ℕ)
pick n [] = none
pick zero (t ∷ ts) = some (t, ts)
pick (suc n) (t ∷ ts) = elim (pick n ts) [ none ↦ some (t, ts) | some (u, us) ↦ some (u, t ∷ us) ]

-- One send of an `Emit`, to one of its targets, whether or not the client is still registered.
unfoldable pub send : ℕ → ℕ → List Sending → List Browser → List Sending × List Browser
unfolding pick update_at offer_to
send i j [] bs = ([], bs)
send zero j (s ∷ ss) bs = elim (pick j s.targets) [
  | none ↦ (s ∷ ss, bs)
  | some (t, ts) ↦ (record s { targets = ts } ∷ ss, update_at t (offer_to s.item) bs)
]
send (suc i) j (s ∷ ss) bs = let (ss', bs') = send i j ss bs in (s ∷ ss', bs')

-- `handleEvents` up to its loop; a response that cannot be flushed is refused with a 500.
unfoldable pub join : Bool → Live → Live
join is_flusher l =
    if not is_flusher
    then l
    else let b : Browser = record {
      client = record { key = length l.browsers; ch = []; dropped = 0 };
      phase = waiting;
      last_dropped = 0;
      written = [];
    } in
      record l { browsers = l.browsers ++ b ∷ [] }

-- The loop's select takes an event.
unfoldable pub take_event : Browser → Browser
take_event b = elim b.phase [
  | waiting ↦ elim b.client.ch [
    | [] ↦ b
    | item ∷ rest ↦ record b { client = record b.client { ch = rest }; phase = holding item }
  ]
  | _ ↦ b
]

-- The rest of the loop's round: the counter is loaded, and the event written.
unfoldable pub write_event : Bool → Browser → Browser
unfolding send_event
write_event is_written b = elim b.phase [
  | holding item ↦
      let (events, last) = send_event b.last_dropped b.client.dropped item in
      record b {
        phase = if is_written then waiting else leaving;
        last_dropped = last;
        written = b.written ++ events;
      }
  | _ ↦ b
]

-- The loop's select finds the request's context done.
unfoldable pub leave : Browser → Browser
leave b = elim b.phase [ waiting ↦ record b { phase = leaving } | _ ↦ b ]

-- The deferred `removeClient`.
unfoldable pub remove : Browser → Browser
remove b = elim b.phase [ leaving ↦ record b { phase = gone } | _ ↦ b ]

-- What may happen next; an act that is not possible does nothing.
pub data Act : Type 0 where
  enters : Flow → Act
  sends : ℕ → ℕ → Act
  joins : Bool → Act
  takes : ℕ → Act
  writes : Bool → ℕ → Act
  leaves removes : ℕ → Act

unfoldable pub act : (Flow → Option Text) → Act → Live → Live
unfolding enter send join take_event write_event leave remove update_at
act marshal (enters f) l = enter marshal f l
act marshal (sends i j) l =
    let (ss, bs) = send i j l.sending l.browsers in record l { sending = ss; browsers = bs }
act marshal (joins is_flusher) l = join is_flusher l
act marshal (takes n) l = record l { browsers = update_at n take_event l.browsers }
act marshal (writes is_written n) l = record l {
  browsers = update_at n (write_event is_written) l.browsers;
}
act marshal (leaves n) l = record l { browsers = update_at n leave l.browsers }
act marshal (removes n) l = record l { browsers = update_at n remove l.browsers }

unfoldable pub acts : (Flow → Option Text) → List Act → Live → Live
unfolding act
acts marshal [] l = l
acts marshal (a ∷ rest) l = acts marshal rest (act marshal a l)
