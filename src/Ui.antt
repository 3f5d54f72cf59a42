-- ===== src/Ui.antt =====
-- internal/ui/hub.go: the hub that records completed flows in a bounded ring and fans them out to
-- the connected browsers. `Emit` is one step here; Ui/Live.antt has its critical section and its
-- sends as steps of their own. JSON encoding is the argument `marshal`.
pub mod Ring
pub mod Clients
pub mod Detail
pub mod Control
pub mod Enumerate
pub mod Shown
pub mod Live
use mathlib.Core.List.{reverse}
use proxysim.Prelude.{
  ℕ, ◌+◌, ◌%◌, ◌^◌, ◌-◌, Bool, List, [], ◌∷◌, ◌++◌, map, Option, none, some, Text, length, drop,
  ltb, ◌==◌, if◌then◌else◌,
}
use proxysim.Flow.{Flow}

abbrev pub client_buffer : ℕ
client_buffer = 256

-- A connected browser: `key` is the identity of the pointer, `ch` the channel's buffer, oldest
-- first, `dropped` a uint64 with its wrap-around.
pub record Client : Type 0 where
  pub key : ℕ
  pub ch : List Text
  pub dropped : ℕ

pub record Hub : Type 0 where
  pub ring : List Flow
  pub capacity : ℕ
  pub clients : List Client

unfoldable pub new : ℕ → Hub
new history = record { ring = []; capacity = if ltb history 1 then 1 else history; clients = [] }

-- A flow without its bodies.
unfoldable pub meta : Flow → Flow
meta f = record f { request_body = []; response_body = [] }

unfoldable pub push_ring : ℕ → List Flow → Flow → List Flow
push_ring capacity ring f =
    let ring' = ring ++ f ∷ [] in
    if ltb capacity (length ring') then drop (length ring' - capacity) ring' else ring'

-- The non-blocking send to one client.
unfoldable pub offer : Text → Client → Client
offer item c =
    if ltb (length c.ch) client_buffer
    then record c { ch = c.ch ++ item ∷ [] }
    else record c { dropped = (c.dropped + 1) % 2 ^ 64 }

module _ (marshal : Flow → Option Text) where
  unfoldable pub emit : Hub → Flow → Hub
  unfolding meta push_ring offer
  emit h f = elim (marshal (meta f)) [
    | none ↦ h
    | some item ↦ record h {
      ring = push_ring h.capacity h.ring f;
      clients = map (offer item) h.clients;
    }
  ]

unfoldable pub dropped : Hub → ℕ
dropped h = total h.clients
  where
    total : List Client → ℕ
    total [] = 0
    total (c ∷ cs) = (c.dropped + total cs) % 2 ^ 64

unfoldable pub add_client : Hub → ℕ → Hub
add_client h key = record h { clients = (record { key = key; ch = []; dropped = 0 }) ∷ h.clients }

without : ℕ → List Client → List Client
without key [] = []
without key (c ∷ cs) = let rest = without key cs in if c.key == key then rest else c ∷ rest

unfoldable pub remove_client : Hub → ℕ → Hub
unfolding without
remove_client h key = record h { clients = without key h.clients }

-- what a receive leaves of a buffer
receive_from : ℕ → Client → Client
receive_from key c = if c.key == key then record c { ch = drop 1 c.ch } else c

-- The client's loop takes one event from its channel.
unfoldable pub receive : Hub → ℕ → Hub
unfolding receive_from
receive h key = record h { clients = map (receive_from key) h.clients }

find : ℕ → List Flow → Option Flow
find id [] = none
find id (f ∷ fs) = if f.id == id then some f else find id fs

unfoldable pub lookup : Hub → ℕ → Option Flow
unfolding find
lookup h id = find id h.ring

-- `handleFlows`: the history, newest first
unfoldable pub handle_flows : Hub → List Flow
unfolding meta
handle_flows h = map meta (reverse h.ring)

-- What is written to a browser.
pub data Event : Type 0 where
  dropped_count : ℕ → Event
  payload : Text → Event

-- One round of the loop of `handleEvents`: `last_dropped` is its variable, `count` the client's
-- counter, and the result what is written and the variable's new value.
unfoldable pub send_event : ℕ → ℕ → Text → List Event × ℕ
send_event last_dropped count item =
    if count == last_dropped
    then (payload item ∷ [], last_dropped)
    else (dropped_count count ∷ payload item ∷ [], count)

-- What may happen to the hub.
pub data Op : Type 0 where
  emits : Flow → Op
  connects disconnects receives : ℕ → Op

unfoldable pub step : (Flow → Option Text) → Hub → Op → Hub
unfolding emit add_client remove_client receive
step marshal h (emits f) = emit marshal h f
step marshal h (connects key) = add_client h key
step marshal h (disconnects key) = remove_client h key
step marshal h (receives key) = receive h key

unfoldable pub run : (Flow → Option Text) → Hub → List Op → Hub
unfolding step
run marshal h [] = h
run marshal h (op ∷ ops) = run marshal (step marshal h op) ops
