-- ===== src/Ui/Live/Atomic.antt =====
-- An `Emit` in steps and `Ui.emit`, which is one step.
use proxysim.Prelude.{ℕ, ◌≡◌, refl, true, false, List, [], ◌∷◌, Option, Text, if◌then◌else◌, arith}
use proxysim.Flow.{Flow}
use proxysim.Ui
use proxysim.Ui.{Client, Hub, Op, emits, new, meta, push_ring, offer, step, run}
use proxysim.Ui.Live.{
  Browser, Live, live, is_registered, enter, join, Act, enters, sends, joins, takes, writes, leaves,
  removes, act, acts,
}

-- the flows that reach the hub, as operations of one step
abbrev pub arrivals : List Act → List Op
arrivals [] = []
arrivals (enters f ∷ rest) = emits f ∷ arrivals rest
arrivals (_ ∷ rest) = arrivals rest

-- the clients of the hub's map
unfoldable pub clients_of : List Browser → List Client
clients_of [] = []
clients_of (b ∷ bs) =
    let rest = clients_of bs in if is_registered b.phase then b.client ∷ rest else rest

-- the hub's fields
abbrev pub hub_of : Live → Hub
hub_of l = record { ring = l.ring; capacity = l.capacity; clients = clients_of l.browsers }

ring-acts :
    (marshal : Flow → Option Text) (trace : List Act) (l : Live) (h : Hub)
    → l.ring ≡ h.ring
    → l.capacity ≡ h.capacity
    → (acts marshal trace l).ring ≡ (run marshal h (arrivals trace)).ring
unfolding acts act enter run step Ui.emit join
ring-acts marshal [] l h r c = r
ring-acts marshal (enters f ∷ rest) l h r c =
    ring-acts marshal rest (enter marshal f l) (Ui.emit marshal h f) (ground (arith, r, c))
      (ground (arith, c))
ring-acts marshal (sends i j ∷ rest) l h r c =
    ring-acts marshal rest (act marshal (sends i j) l) h r c
ring-acts marshal (joins false ∷ rest) l h r c =
    ring-acts marshal rest (act marshal (joins false) l) h r c
ring-acts marshal (joins true ∷ rest) l h r c =
    ring-acts marshal rest (act marshal (joins true) l) h r c
ring-acts marshal (takes n ∷ rest) l h r c = ring-acts marshal rest (act marshal (takes n) l) h r c
ring-acts marshal (writes w n ∷ rest) l h r c =
    ring-acts marshal rest (act marshal (writes w n) l) h r c
ring-acts marshal (leaves n ∷ rest) l h r c =
    ring-acts marshal rest (act marshal (leaves n) l) h r c
ring-acts marshal (removes n ∷ rest) l h r c =
    ring-acts marshal rest (act marshal (removes n) l) h r c

-- However sends and browsers interleave with them, the recorded flows are those of a hub whose
-- `Emit` is one step.
pub ring-atomic :
    (marshal : Flow → Option Text) (history : ℕ) (trace : List Act)
    → (acts marshal trace (live history)).ring ≡ (run marshal (new history) (arrivals trace)).ring
unfolding live
ring-atomic marshal history trace = ring-acts marshal trace (live history) (new history) refl refl
