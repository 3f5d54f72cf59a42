-- ===== src/Flow/Async.antt =====
-- internal/flow/async.go: the sink behind a buffered channel. What the two goroutines and the
-- closing caller do is a step relation; the wrapped sink is a parameter, the action of its `Emit`.
pub mod Delivery
pub mod Closing
use proxysim.Prelude.{
  ℕ, ◌+◌, ◌%◌, ◌^◌, ◌≡◌, Bool, true, false, List, [], ◌∷◌, ◌++◌, Option, none, some, length, ltb,
  not, ◌&&◌, is_nil, if◌then◌else◌,
}
use proxysim.Flow.{Flow}

-- `ch` is the channel's buffer, oldest first, with `buffer` places. `held` is the flow that the
-- drainer has received and not yet emitted, `done` whether the drainer has returned. `dropped` is a
-- uint64.
pub record AsyncSink (S : Type 0) : Type 0 where
  pub ch : List Flow
  pub buffer : ℕ
  pub closed : Bool
  pub held : Option Flow
  pub wrapped : S
  pub dropped : ℕ
  pub done : Bool

-- `NewAsyncSink`
unfoldable pub new : {S : Type 0} → S → ℕ → AsyncSink S
new wrapped buffer = record {
  ch = [];
  buffer = buffer;
  closed = false;
  held = none;
  wrapped = wrapped;
  dropped = 0;
  done = false;
}

-- A drainer that holds nothing and runs waits at the channel.
unfoldable pub waits : {S : Type 0} → AsyncSink S → Bool
waits a = elim a.held [ none ↦ not a.done | some f ↦ false ]

unfoldable pub add_dropped : {S : Type 0} → AsyncSink S → AsyncSink S
add_dropped a = record a { dropped = (a.dropped + 1) % 2 ^ 64 }

-- `Emit` on an open channel: a drainer that waits at the empty channel takes the flow at once where
-- `ready` says that the scheduler has brought it there; else the buffer takes it, or nobody.
unfoldable pub emit : {S : Type 0} → Bool → Flow → AsyncSink S → AsyncSink S
unfolding waits add_dropped
emit ready f a =
    if ready && waits a && is_nil a.ch
    then record a { held = some f }
    else if ltb (length a.ch) a.buffer
    then record a { ch = a.ch ++ f ∷ [] }
    else add_dropped a

module _ {S : Type 0} (wrapped_emit : Flow → S → S) where
  -- What the drainer does next; `none` where it waits for the channel, or has returned.
  unfoldable pub drain : AsyncSink S → Option (AsyncSink S)
  drain a = elim a.held [
    | some f ↦ some (record a { held = none; wrapped = wrapped_emit f a.wrapped })
    | none ↦ elim a.ch [
      | f ∷ rest ↦ some (record a { ch = rest; held = some f })
      | [] ↦ if a.closed && not a.done then some (record a { done = true }) else none
    ]
  ]

  -- `Close` up to its wait for the drainer.
  unfoldable pub close : AsyncSink S → AsyncSink S
  close a = record a { closed = true }

  -- One atomic step. Emit on a closed channel would panic; the source forbids it.
  pub data Step : AsyncSink S → List Flow → AsyncSink S → Type 0 where
    emits :
        (a : AsyncSink S) (ready : Bool) (f : Flow)
        → a.closed ≡ false
        → Step a (f ∷ []) (emit ready f a)
    drains : (a b : AsyncSink S) → drain a ≡ some b → Step a [] b
    closes : (a : AsyncSink S) → a.closed ≡ false → Step a [] (close a)

  -- The states that a new sink reaches, with the flows that were offered to it.
  pub data Reaches (start : AsyncSink S) : List Flow → AsyncSink S → Type 0 where
    here : Reaches start [] start
    next :
        {offered fs : List Flow} {a b : AsyncSink S}
        → Reaches start offered a
        → Step a fs b
        → Reaches start (offered ++ fs) b
