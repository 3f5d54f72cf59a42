-- ===== src/Ui/Live/Ending.antt =====
-- The sends that are left to an `Emit` of internal/ui/hub.go.
use proxysim.Prelude.{
  ℕ, zero, suc, ◌+◌, ◌-◌, ◌<◌, ◌≤◌, ◌≡◌, refl, true, false, List, [], ◌∷◌, ◌++◌, Option, none, some,
  Text, length, length-append, if◌then◌else◌, ◌==◌, arith, Option-cases, inl, inr,
}
use proxysim.Flow.{Flow}
use proxysim.Ui.{meta}
use proxysim.Ui.Live.{
  Browser, Sending, Live, registered, enter, pick, send, join, Act, enters, sends, joins, takes,
  writes, leaves, removes, act, acts,
}

-- the sends that are left to an emission
unfoldable pub left : ℕ → List Sending → ℕ
left i [] = 0
left zero (s ∷ ss) = length s.targets
left (suc i) (s ∷ ss) = left i ss

-- How often an emission has its turn, with whichever of its targets.
abbrev pub turns : ℕ → List Act → ℕ
turns i [] = 0
turns i (sends k j ∷ rest) = (if k == i then 1 else 0) + turns i rest
turns i (_ ∷ rest) = turns i rest

length-pick :
    (j : ℕ) (ts us : List ℕ) (t : ℕ) → pick j ts ≡ some (t, us) → length us + 1 ≡ length ts
unfolding pick
length-pick j [] us t e = ground (arith, e)
length-pick zero (x ∷ ts) us t e = ground (arith, e)
length-pick (suc j) (x ∷ ts) us t e = elim (Option-cases (pick j ts)) [
  | inl n ↦ ground (arith, e, n)
  | inr ((u, vs), f) ↦ ground (arith, e, f, length-pick j ts vs u f)
]

none_left : (j : ℕ) (ts : List ℕ) → pick j ts ≡ none → length ts ≡ 0
unfolding pick
none_left j [] e = refl
none_left zero (t ∷ ts) e = ground (arith, e)
none_left (suc j) (t ∷ ts) e = elim (Option-cases (pick j ts)) [
  | inl n ↦ ground (arith, e, n)
  | inr ((u, vs), f) ↦ ground (arith, e, f)
]

-- a send takes one from its own emission only
send-left :
    (i j k : ℕ) (ss : List Sending) (bs : List Browser)
    → let ss' = (send k j ss bs).0 in
      (length ss' ≡ length ss) × (left i ss' ≤ left i ss - (if k == i then 1 else 0))
unfolding send left pick
send-left i j k [] bs = (refl, omega arith)
send-left zero j zero (s ∷ ss) bs = elim (Option-cases (pick j s.targets)) [
  | inl e ↦ rw (e, send) (refl, ground (arith, none_left j s.targets e))
  | inr ((t, ts), e) ↦ rw (e, send) (refl, ground (arith, length-pick j s.targets ts t e))
]
send-left (suc i) j zero (s ∷ ss) bs = elim (Option-cases (pick j s.targets)) [
  | inl e ↦ rw (e, send) (refl, ground arith)
  | inr ((t, ts), e) ↦ rw (e, send) (refl, ground arith)
]
send-left zero j (suc k) (s ∷ ss) bs =
    let (same, less) = send-left zero j k ss bs in (omega (arith, same), ground arith)
send-left (suc i) j (suc k) (s ∷ ss) bs =
    let (same, less) = send-left i j k ss bs in (omega (arith, same), ground (arith, less))

left-append :
    (i : ℕ) (ss : List Sending) (s : Sending) → i < length ss → left i (ss ++ s ∷ []) ≡ left i ss
unfolding left
left-append i [] s h = absurd (omega arith)
left-append zero (x ∷ ss) s h = refl
left-append (suc i) (x ∷ ss) s h = left-append i ss s (omega arith)

-- no act gives an emission more to do, and its turn takes one
abbrev Progress : ℕ → Act → List Sending → List Sending → Type 0
Progress i a ss ss' = (length ss ≤ length ss') × (left i ss' ≤ left i ss - turns i (a ∷ []))

act-Progress :
    (marshal : Flow → Option Text) (i : ℕ) (a : Act) (l : Live)
    → i < length l.sending
    → Progress i a l.sending (act marshal a l).sending
unfolding act enter join
act-Progress marshal i (enters f) l h = elim (Option-cases (marshal (meta f))) [
  | inl e ↦ rw (e, enter) (omega arith, omega arith)
  | inr (t, e) ↦
      let s : Sending = record { item = t; targets = registered 0 l.browsers } in
      rw (e, enter)
        (
          omega (arith, length-append l.sending (s ∷ [])),
          omega (arith, left-append i l.sending s h),
        )
]
act-Progress marshal i (sends k j) l h =
    let (same, less) = send-left i j k l.sending l.browsers in
    (omega (arith, same), omega (arith, less))
act-Progress marshal i (joins false) l h = (omega arith, omega arith)
act-Progress marshal i (joins true) l h = (omega arith, omega arith)
act-Progress marshal i (takes n) l h = (omega arith, omega arith)
act-Progress marshal i (writes w n) l h = (omega arith, omega arith)
act-Progress marshal i (leaves n) l h = (omega arith, omega arith)
act-Progress marshal i (removes n) l h = (omega arith, omega arith)

turns-head :
    (i : ℕ) (a : Act) (rest : List Act) → turns i (a ∷ rest) ≡ turns i (a ∷ []) + turns i rest
turns-head i (sends k j) rest = omega arith
turns-head i (enters f) rest = omega arith
turns-head i (joins b) rest = omega arith
turns-head i (takes n) rest = omega arith
turns-head i (writes w n) rest = omega arith
turns-head i (leaves n) rest = omega arith
turns-head i (removes n) rest = omega arith

left-acts :
    (marshal : Flow → Option Text) (i : ℕ) (trace : List Act) (l : Live)
    → i < length l.sending
    → left i (acts marshal trace l).sending ≤ left i l.sending - turns i trace
unfolding acts
left-acts marshal i [] l h = omega arith
left-acts marshal i (a ∷ rest) l h =
    let (longer, less) = act-Progress marshal i a l h in
    omega (
      arith,
      less,
      turns-head i a rest,
      left-acts marshal i rest (act marshal a l) (omega (arith, h, longer)),
    )

-- An `Emit` that is under way never waits: once it had as many turns as it has targets, it has sent to
-- all of them, whatever browsers and other emitters did between its turns, and however full or slow
-- the browsers are.
pub emit_ends :
    (marshal : Flow → Option Text) (i : ℕ) (trace : List Act) (l : Live)
    → i < length l.sending
    → left i l.sending ≤ turns i trace
    → left i (acts marshal trace l).sending ≡ 0
emit_ends marshal i trace l h enough = omega (arith, enough, left-acts marshal i trace l h)
