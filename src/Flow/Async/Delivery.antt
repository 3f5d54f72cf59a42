-- ===== src/Flow/Async/Delivery.antt =====
-- What a sink behind a buffer hands on of what it is offered.
use mathlib.Core.Option.{some-injective}
use proxysim.Prelude.{
  ℕ, suc, ◌+◌, ◌%◌, ◌^◌, ◌≤◌, ◌≡◌, ◌⊎◌, inl, inr, refl, sym, ap, ◌∙◌, Bool, true, not, ◌&&◌, is_nil,
  List, [], ◌∷◌, ◌++◌, append_assoc, append-nil, Option, none, some, length, length-append, ltb,
  subst, if◌then◌else◌, arith, Bool-cases, Option-cases,
}
use proxysim.Flow.{Flow}
use proxysim.Flow.Async.{
  AsyncSink, new, waits, add_dropped, emit, drain, close, Step, emits, drains, closes, Reaches,
  here, next,
}

-- `Subseq kept all`: the first list is the second with some elements left out.
pub data Subseq : List Flow → List Flow → Type 0 where
  none_yet : Subseq [] []
  keep : {xs ys : List Flow} (f : Flow) → Subseq xs ys → Subseq (xs ++ f ∷ []) (ys ++ f ∷ [])
  omit : {xs ys : List Flow} (f : Flow) → Subseq xs ys → Subseq xs (ys ++ f ∷ [])

abbrev pub held_list : Option Flow → List Flow
held_list none = []
held_list (some f) = f ∷ []

-- accepted and not yet handed on
abbrev pub pending : {S : Type 0} → AsyncSink S → List Flow
pending a = held_list a.held ++ a.ch

module _ {S : Type 0} (wrapped_emit : Flow → S → S) where
  -- the wrapped sink after some flows in order
  abbrev pub feed : List Flow → S → S
  feed [] s = s
  feed (f ∷ fs) s = feed fs (wrapped_emit f s)

  feed-append : (fs gs : List Flow) (s : S) → feed (fs ++ gs) s ≡ feed gs (feed fs s)
  feed-append [] gs s = refl
  feed-append (f ∷ fs) gs s = feed-append fs gs (wrapped_emit f s)

  -- What became of the flows that were offered: the accepted ones are the delivered ones, in order,
  -- and the pending ones; the others are counted, and are lost only once as many flows as the buffer
  -- has places were accepted.
  pub record Accounts (start : S) (buffer : ℕ) (offered : List Flow) (a : AsyncSink S)
      : Type 0 where
    pub accepted : List Flow
    pub delivered : List Flow
    pub lost : ℕ
    pub order : Subseq accepted offered
    pub split : delivered ++ pending a ≡ accepted
    pub applied : a.wrapped ≡ feed delivered start
    pub count : length accepted + lost ≡ length offered
    pub counter : a.dropped ≡ lost % 2 ^ 64
    pub late : (lost ≡ 0) ⊎ (buffer ≤ length accepted)
    pub places : a.buffer ≡ buffer
    pub bounded : length a.ch ≤ buffer

  next_count : (n : ℕ) → (n % 2 ^ 64 + 1) % 2 ^ 64 ≡ (n + 1) % 2 ^ 64
  next_count n = omega arith

  Accounts-new : (start : S) (buffer : ℕ) → Accounts start buffer [] (new start buffer)
  unfolding new
  Accounts-new start buffer = record {
    accepted = [];
    delivered = [];
    lost = 0;
    order = none_yet;
    split = refl;
    applied = refl;
    count = refl;
    counter = refl;
    late = inl refl;
    places = refl;
    bounded = omega arith;
  }

  -- a flow goes to the end of the pending ones
  Accounts-accept :
      {start : S} {buffer : ℕ} {offered : List Flow} (a b : AsyncSink S) (f : Flow)
      → Accounts start buffer offered a
      → b.wrapped ≡ a.wrapped
      → b.dropped ≡ a.dropped
      → b.buffer ≡ a.buffer
      → pending b ≡ pending a ++ f ∷ []
      → length b.ch ≤ a.buffer
      → Accounts start buffer (offered ++ f ∷ []) b
  Accounts-accept {offered = offered} a b f h w d n p l = record {
    accepted = h.accepted ++ f ∷ [];
    delivered = h.delivered;
    lost = h.lost;
    order = keep f h.order;
    split =
        ap (λ l. h.delivered ++ l) p
        ∙ sym (append_assoc h.delivered (pending a) (f ∷ []))
        ∙ ap (λ l. l ++ f ∷ []) h.split;
    applied = w ∙ h.applied;
    count =
        omega (arith, h.count, length-append h.accepted (f ∷ []), length-append offered (f ∷ []));
    counter = d ∙ h.counter;
    late = ground (arith, h.late, length-append h.accepted (f ∷ []));
    places = n ∙ h.places;
    bounded = omega (arith, l, h.places);
  }

  -- a flow finds the buffer full
  Accounts-drop :
      {start : S} {buffer : ℕ} {offered : List Flow} (a : AsyncSink S) (f : Flow)
      → Accounts start buffer offered a
      → a.buffer ≤ length a.ch
      → Accounts start buffer (offered ++ f ∷ []) (add_dropped a)
  unfolding add_dropped
  Accounts-drop {offered = offered} a f h full = record {
    accepted = h.accepted;
    delivered = h.delivered;
    lost = suc h.lost;
    order = omit f h.order;
    split = h.split;
    applied = h.applied;
    count = omega (arith, h.count, length-append offered (f ∷ []));
    counter = omega (arith, h.counter);
    late = inr (
        omega (
          arith,
          full,
          h.places,
          ap length h.split,
          length-append h.delivered (pending a),
          length-append (held_list a.held) a.ch,
        ));
    places = h.places;
    bounded = h.bounded;
  }

  -- a drainer that waits at an empty channel has nothing pending
  held-waits : (a : AsyncSink S) → waits a ≡ true → a.held ≡ none
  unfolding waits
  held-waits a e = elim (Option-cases a.held) [ inl n ↦ n | inr (f, s) ↦ ground (arith, s) ]

  is_nil_lem : (fs : List Flow) → is_nil fs ≡ true → fs ≡ []
  is_nil_lem [] e = refl
  is_nil_lem (f ∷ fs) e = ground arith

  Accounts-emit :
      {start : S} {buffer : ℕ} {offered : List Flow} (a : AsyncSink S) (ready : Bool) (f : Flow)
      → Accounts start buffer offered a
      → Accounts start buffer (offered ++ f ∷ []) (emit ready f a)
  unfolding emit
  Accounts-emit a ready f h = elim (Bool-cases (ready && waits a && is_nil a.ch)) [
    | inl e ↦
        let free : a.held ≡ none = held-waits a (ground arith) in
        let clear : a.ch ≡ [] = is_nil_lem a.ch (ground arith) in
        rw e (
          Accounts-accept a (record a { held = some f }) f h refl refl refl (rw (free, clear) refl)
            (omega (arith, h.bounded, h.places)))
    | inr e ↦ rw e (elim (Bool-cases (ltb (length a.ch) a.buffer)) [
      | inl room ↦ rw room (
          Accounts-accept a (record a { ch = a.ch ++ f ∷ [] }) f h refl refl refl
            (sym (append_assoc (held_list a.held) a.ch (f ∷ [])))
            (ground (arith, length-append a.ch (f ∷ []))))
      | inr full ↦ rw full (Accounts-drop a f h (ground (arith, full)))
    ])
  ]

  -- the drainer hands on what it holds
  Accounts-deliver :
      {start : S} {buffer : ℕ} {offered : List Flow} (a : AsyncSink S) (f : Flow)
      → Accounts start buffer offered a
      → a.held ≡ some f
      → Accounts start buffer offered (record a { held = none; wrapped = wrapped_emit f a.wrapped })
  Accounts-deliver {start = start} a f h e = record {
    accepted = h.accepted;
    delivered = h.delivered ++ f ∷ [];
    lost = h.lost;
    order = h.order;
    split =
        append_assoc h.delivered (f ∷ []) a.ch
        ∙ ap (λ o. h.delivered ++ (held_list o ++ a.ch)) (sym e)
        ∙ h.split;
    applied = ap (wrapped_emit f) h.applied ∙ sym (feed-append h.delivered (f ∷ []) start);
    count = h.count;
    counter = h.counter;
    late = h.late;
    places = h.places;
    bounded = h.bounded;
  }

  -- the drainer takes the oldest flow of the buffer
  Accounts-receive :
      {start : S} {buffer : ℕ} {offered : List Flow} (a : AsyncSink S) (f : Flow) (rest : List Flow)
      → Accounts start buffer offered a
      → a.held ≡ none
      → a.ch ≡ f ∷ rest
      → Accounts start buffer offered (record a { ch = rest; held = some f })
  Accounts-receive a f rest h e c = record {
    accepted = h.accepted;
    delivered = h.delivered;
    lost = h.lost;
    order = h.order;
    split = rw (← h.split, e, c) refl;
    applied = h.applied;
    count = h.count;
    counter = h.counter;
    late = h.late;
    places = h.places;
    bounded = omega (arith, h.bounded, ap length c);
  }

  pub drain-held :
      (a : AsyncSink S) (f : Flow)
      → a.held ≡ some f
      → drain wrapped_emit a ≡ some (record a { held = none; wrapped = wrapped_emit f a.wrapped })
  unfolding drain
  drain-held a f e = rw e refl

  pub drain-ch :
      (a : AsyncSink S) (f : Flow) (rest : List Flow)
      → a.held ≡ none
      → a.ch ≡ f ∷ rest
      → drain wrapped_emit a ≡ some (record a { ch = rest; held = some f })
  unfolding drain
  drain-ch a f rest e c = rw (e, c) refl

  pub drain-empty :
      (a : AsyncSink S)
      → a.held ≡ none
      → a.ch ≡ []
      → drain wrapped_emit a
        ≡ (if a.closed && not a.done then some (record a { done = true }) else none)
  unfolding drain
  drain-empty a e c = ground (arith, e, c)

  -- the drainer returns
  Accounts-return :
      {start : S} {buffer : ℕ} {offered : List Flow} (a : AsyncSink S)
      → Accounts start buffer offered a
      → Accounts start buffer offered (record a { done = true })
  Accounts-return a h = record {
    accepted = h.accepted;
    delivered = h.delivered;
    lost = h.lost;
    order = h.order;
    split = h.split;
    applied = h.applied;
    count = h.count;
    counter = h.counter;
    late = h.late;
    places = h.places;
    bounded = h.bounded;
  }

  -- the channel is closed
  pub Accounts-close :
      {start : S} {buffer : ℕ} {offered : List Flow} (a : AsyncSink S)
      → Accounts start buffer offered a
      → Accounts start buffer offered (close wrapped_emit a)
  unfolding close
  Accounts-close a h = record {
    accepted = h.accepted;
    delivered = h.delivered;
    lost = h.lost;
    order = h.order;
    split = h.split;
    applied = h.applied;
    count = h.count;
    counter = h.counter;
    late = h.late;
    places = h.places;
    bounded = h.bounded;
  }

  pub Accounts-drain :
      {start : S} {buffer : ℕ} {offered : List Flow} (a b : AsyncSink S)
      → Accounts start buffer offered a
      → drain wrapped_emit a ≡ some b
      → Accounts start buffer offered b
  Accounts-drain {start} {buffer} {offered} a b h e = elim (Option-cases a.held) [
    | inr (f, s) ↦ move (drain-held a f s) (Accounts-deliver a f h s)
    | inl n ↦ from_ch n a.ch refl
  ]
    where
      move :
          {c : AsyncSink S}
          → drain wrapped_emit a ≡ some c
          → Accounts start buffer offered c
          → Accounts start buffer offered b
      move {c} d k = subst (Accounts start buffer offered) (some-injective c b (sym d ∙ e)) k

      from_ch : a.held ≡ none → (l : List Flow) → a.ch ≡ l → Accounts start buffer offered b
      from_ch n (f ∷ rest) l = move (drain-ch a f rest n l) (Accounts-receive a f rest h n l)
      from_ch n [] l = elim (Bool-cases (a.closed && not a.done)) [
        | inl t ↦ move (drain-empty a n l ∙ rw t refl) (Accounts-return a h)
        | inr t ↦ absurd (ground (arith, t, e, drain-empty a n l))
      ]

  Accounts-step :
      {start : S} {buffer : ℕ} {offered fs : List Flow} {a b : AsyncSink S}
      → Accounts start buffer offered a
      → Step wrapped_emit a fs b
      → Accounts start buffer (offered ++ fs) b
  Accounts-step h (emits a ready f e) = Accounts-emit a ready f h
  Accounts-step {start} {buffer} {offered} h (drains a b e) =
      subst (λ l. Accounts start buffer l b) (sym (append-nil offered)) (Accounts-drain a b h e)
  Accounts-step {start} {buffer} {offered} h (closes a e) =
      subst (λ l. Accounts start buffer l (close wrapped_emit a)) (sym (append-nil offered))
        (Accounts-close a h)

  -- However the goroutines interleave: the wrapped sink has got the accepted flows in the order of
  -- their emission but for the pending ones, which follow, and the counter holds the number of the
  -- others modulo 2^64, none before as many as the buffer has places were accepted; the buffer never
  -- holds more.
  pub reached-Accounts :
      {start : S} {buffer : ℕ} {offered : List Flow} {a : AsyncSink S}
      → Reaches wrapped_emit (new start buffer) offered a
      → Accounts start buffer offered a
  reached-Accounts here = Accounts-new _ _
  reached-Accounts (next r s) = Accounts-step (reached-Accounts r) s
