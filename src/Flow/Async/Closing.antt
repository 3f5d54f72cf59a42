-- ===== src/Flow/Async/Closing.antt =====
-- `Close` waits for the drainer: what the drainer does until it returns.
use proxysim.Prelude.{
  ℕ, zero, suc, ◌+◌, ◌*◌, ◌≤◌, ◌≡◌, refl, true, false, List, [], ◌∷◌, none, some, length, arith,
  Option-cases, inl, inr,
}
use proxysim.Flow.{Flow}
use proxysim.Flow.Async.{
  AsyncSink, new, emit, drain, close, Step, emits, drains, closes, Reaches, here, next, add_dropped,
}
use proxysim.Flow.Async.Delivery.{
  Accounts, Accounts-drain, Accounts-close, pending, reached-Accounts, drain-held, drain-ch,
  drain-empty,
}

module _ {S : Type 0} (wrapped_emit : Flow → S → S) where
  -- the drainer, left alone for some of its steps
  unfoldable pub run_drainer : ℕ → AsyncSink S → AsyncSink S
  run_drainer zero a = a
  run_drainer (suc n) a = elim (drain wrapped_emit a) [ none ↦ a | some b ↦ run_drainer n b ]

  run_drainer-step :
      (n : ℕ) (a b : AsyncSink S)
      → drain wrapped_emit a ≡ some b
      → run_drainer (suc n) a ≡ run_drainer n b
  unfolding run_drainer
  run_drainer-step n a b e = rw (e, run_drainer) refl

  run_drainer_done : (n : ℕ) (a : AsyncSink S) → drain wrapped_emit a ≡ none → run_drainer n a ≡ a
  unfolding run_drainer
  run_drainer_done zero a e = refl
  run_drainer_done (suc n) a e = rw (e, run_drainer) refl

  abbrev Finished : AsyncSink S → Type 0
  Finished b = (b.done ≡ true) × (pending b ≡ [])

  drained_free :
      (n : ℕ) (a : AsyncSink S) (l : List Flow)
      → a.held ≡ none
      → a.ch ≡ l
      → a.closed ≡ true
      → a.done ≡ false
      → 2 * length l + 1 ≤ n
      → Finished (run_drainer n a)
  drained_free zero a l h c k d fuel = absurd (omega arith)
  drained_free (suc n) a [] h c k d fuel =
      let b : AsyncSink S = record a { done = true } in
      rw
        (
          run_drainer-step n a b (ground (arith, k, d, drain-empty wrapped_emit a h c)),
          run_drainer_done n b (ground (arith, drain-empty wrapped_emit b h c)),
          h,
          c,
        )
        (refl, refl)
  drained_free (suc zero) a (f ∷ l) h c k d fuel = absurd (omega arith)
  drained_free (suc (suc n)) a (f ∷ l) h c k d fuel =
      let b : AsyncSink S = record a { ch = l; held = some f } in
      let b' : AsyncSink S = record b { held = none; wrapped = wrapped_emit f a.wrapped } in
      let rest = drained_free n b' l refl refl k d (omega arith) in
      rw
        (
          run_drainer-step (suc n) a b (drain-ch wrapped_emit a f l h c),
          run_drainer-step n b b' (drain-held wrapped_emit b f refl),
        )
        rest

  drained_held :
      (n : ℕ) (a : AsyncSink S) (f : Flow)
      → a.held ≡ some f
      → a.closed ≡ true
      → a.done ≡ false
      → 2 * length a.ch + 2 ≤ n
      → Finished (run_drainer n a)
  drained_held zero a f s k d fuel = absurd (omega arith)
  drained_held (suc n) a f s k d fuel =
      let b : AsyncSink S = record a { held = none; wrapped = wrapped_emit f a.wrapped } in
      rw (run_drainer-step n a b (drain-held wrapped_emit a f s))
        (drained_free n b a.ch refl refl k d (omega arith))

  -- A closed drainer needs two steps for a flow in the buffer, one for a flow that it holds, and one
  -- to return.
  drained :
      (n : ℕ) (a : AsyncSink S)
      → a.closed ≡ true
      → a.done ≡ false
      → 2 * length a.ch + 2 ≤ n
      → Finished (run_drainer n a)
  drained n a k d fuel = elim (Option-cases a.held) [
    | inl h ↦ drained_free n a a.ch h refl k d (omega arith)
    | inr (f, s) ↦ drained_held n a f s k d fuel
  ]

  -- a drainer returns only from a closed channel
  Sane : AsyncSink S → Type 0
  Sane a = a.done ≡ true → a.closed ≡ true

  drain-Sane : (a b : AsyncSink S) → Sane a → drain wrapped_emit a ≡ some b → Sane b
  unfolding drain Sane
  drain-Sane a b h e t = elim (Option-cases a.held) [
    | inr (f, s) ↦ ground (arith, h, t, s, e)
    | inl n ↦ from_ch a.ch refl n
  ]
    where
      from_ch : (l : List Flow) → a.ch ≡ l → a.held ≡ none → b.closed ≡ true
      from_ch (f ∷ rest) l n = ground (arith, h, t, n, l, e)
      from_ch [] l n = ground (arith, h, t, n, l, e)

  step-Sane : {fs : List Flow} {a b : AsyncSink S} → Sane a → Step wrapped_emit a fs b → Sane b
  unfolding Sane emit close add_dropped
  step-Sane h (emits a ready f e) = ground (arith, h, e)
  step-Sane h (drains a b e) = drain-Sane a b h e
  step-Sane h (closes a e) = λ _. refl

  reached-Sane :
      (start : S) (buffer : ℕ) {offered : List Flow} {a : AsyncSink S}
      → Reaches wrapped_emit (new start buffer) offered a
      → Sane a
  unfolding Sane new
  reached-Sane start buffer here = λ e. ground arith
  reached-Sane start buffer (next r s) = step-Sane (reached-Sane start buffer r) s

  run_drainer-Accounts :
      {start : S} {buffer : ℕ} {offered : List Flow} (n : ℕ) (a : AsyncSink S)
      → Accounts wrapped_emit start buffer offered a
      → Accounts wrapped_emit start buffer offered (run_drainer n a)
  unfolding run_drainer
  run_drainer-Accounts zero a h = h
  run_drainer-Accounts (suc n) a h = elim (Option-cases (drain wrapped_emit a)) [
    | inl e ↦ rw (run_drainer_done (suc n) a e) h
    | inr (b, e) ↦
        rw (run_drainer-step n a b e)
          (run_drainer-Accounts n b (Accounts-drain wrapped_emit a b h e))
  ]

  -- Once `Close` is called on an open sink that was reached, the drainer returns after at most two
  -- steps for each flow in the buffer and two more; nothing is pending then, so that the wrapped sink
  -- has got every accepted flow in order, and the counter accounts for all others.
  pub close_drains :
      (start : S) (buffer : ℕ) {offered : List Flow} {a : AsyncSink S} (n : ℕ)
      → Reaches wrapped_emit (new start buffer) offered a
      → a.closed ≡ false
      → 2 * length a.ch + 2 ≤ n
      → let b = run_drainer n (close wrapped_emit a) in
        (b.done ≡ true) × (pending b ≡ []) × Accounts wrapped_emit start buffer offered b
  unfolding Sane close
  close_drains start buffer {offered} {a} n r e fuel =
      let sane = reached-Sane start buffer r in
      let t = drained n (close wrapped_emit a) refl (ground (arith, sane, e)) fuel in
      let closed = Accounts-close wrapped_emit a (reached-Accounts wrapped_emit r) in
      (t.0, t.1, run_drainer-Accounts n (close wrapped_emit a) closed)
