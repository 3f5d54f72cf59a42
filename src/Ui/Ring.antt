-- ===== src/Ui/Ring.antt =====
-- The ring holds the last flows, and a look-up finds what the ring holds.
use proxysim.Prelude.{
  ℕ, zero, suc, ◌+◌, ◌-◌, ◌≤◌, ◌≡◌, ◌≢◌, ◌⊎◌, refl, sym, ◌∙◌, ap, List, [], ◌∷◌, ◌++◌, append_assoc,
  append-nil, Option, none, some, Text, length, length-append, length-drop, drop, ltb, ◌==◌,
  if◌then◌else◌, arith, ==_iff, Option-cases, Bool-cases, inl, inr,
}
use proxysim.Flow.{Flow}
use proxysim.Ui.{Hub, Op, emits, new, meta, push_ring, step, run, find, lookup}

-- the last `n` of a list
abbrev pub last_of {ℓ} : {A : Type ℓ} → ℕ → List A → List A
last_of n xs = drop (length xs - n) xs

drop-append {ℓ} :
    {A : Type ℓ} (k : ℕ) (xs ys : List A) → k ≤ length xs → drop k (xs ++ ys) ≡ drop k xs ++ ys
drop-append zero xs ys h = refl
drop-append (suc k) [] ys h = absurd (omega arith)
drop-append (suc k) (x ∷ xs) ys h = drop-append k xs ys (omega arith)

drop_nil {ℓ} : {A : Type ℓ} (k : ℕ) → ◌≡◌ {A = List A} (drop k []) []
drop_nil zero = refl
drop_nil (suc k) = refl

drop-drop {ℓ} : {A : Type ℓ} (j k : ℕ) (xs : List A) → drop j (drop k xs) ≡ drop (k + j) xs
drop-drop j zero xs = ap (λ n. drop n xs) (omega arith)
drop-drop j (suc k) [] = drop_nil j ∙ sym (drop_nil (suc k + j))
drop-drop j (suc k) (x ∷ xs) =
    drop-drop j k xs ∙ ap (λ n. drop n (x ∷ xs)) {x = suc (k + j)} {y = suc k + j} (omega arith)

push_ring_lem :
    (n : ℕ) (ring : List Flow) (f : Flow) → push_ring n ring f ≡ last_of n (ring ++ f ∷ [])
unfolding push_ring
push_ring_lem n ring f = elim (Bool-cases (ltb n (length (ring ++ f ∷ [])))) [
  | inl e ↦ rw e
  | inr e ↦ rw e (
      ap (λ k. drop k (ring ++ f ∷ [])) {x = 0} {y = length (ring ++ f ∷ []) - n}
        (ground (arith, e)))
]

-- the flows that operations record: those that the encoder accepts
abbrev pub records : (Flow → Option Text) → Op → List Flow
records marshal (emits f) = elim (marshal (meta f)) [ none ↦ [] | some t ↦ f ∷ [] ]
records marshal _ = []

abbrev pub recorded : (Flow → Option Text) → List Op → List Flow
recorded marshal [] = []
recorded marshal (op ∷ ops) = records marshal op ++ recorded marshal ops

-- more flows behind the last of a history
last_of-push :
    (n : ℕ) (seen : List Flow) (f : Flow)
    → last_of n (last_of n seen ++ f ∷ []) ≡ last_of n (seen ++ f ∷ [])
last_of-push n seen f =
    let a = length seen - n in
    let r : List Flow = drop a seen ++ f ∷ [] in
    ap (λ l. drop (length r - n) l) (sym (drop-append a seen (f ∷ []) (omega arith)))
    ∙ drop-drop (length r - n) a (seen ++ f ∷ [])
    ∙ ap (λ k. drop k (seen ++ f ∷ []))
        (omega (
          arith,
          length-append (drop a seen) (f ∷ []),
          length-append seen (f ∷ []),
          length-drop a seen,
        ))

capacity-step :
    (marshal : Flow → Option Text) (h : Hub) (op : Op) → (step marshal h op).capacity ≡ h.capacity
unfolding step
capacity-step marshal h (emits f) = ground arith
capacity-step marshal h _ = refl

ring-step :
    (marshal : Flow → Option Text) (op : Op) (h : Hub) (seen : List Flow)
    → h.ring ≡ last_of h.capacity seen
    → (step marshal h op).ring ≡ last_of h.capacity (seen ++ records marshal op)
unfolding step
ring-step marshal (emits f) h seen e = elim (Option-cases (marshal (meta f))) [
  | inl g ↦ ground (arith, g, e, append-nil seen)
  | inr (t, g) ↦
      ground (arith, g, e, push_ring_lem h.capacity h.ring f, last_of-push h.capacity seen f)
]
ring-step marshal _ h seen e = ground (arith, e, append-nil seen)

-- the ring holds the last of what was seen
ring-run :
    (marshal : Flow → Option Text) (ops : List Op) (h : Hub) (seen : List Flow)
    → h.ring ≡ last_of h.capacity seen
    → (run marshal h ops).ring ≡ last_of h.capacity (seen ++ recorded marshal ops)
unfolding run
ring-run marshal [] h seen e = e ∙ ap (last_of h.capacity) (sym (append-nil seen))
ring-run marshal (op ∷ ops) h seen e =
    let h' : Hub = step marshal h op in
    let seen' : List Flow = seen ++ records marshal op in
    let same : h'.capacity ≡ h.capacity = capacity-step marshal h op in
    ring-run marshal ops h' seen'
      (ring-step marshal op h seen e ∙ ap (λ n. last_of n seen') (sym same))
    ∙ ap (λ n. last_of n (seen' ++ recorded marshal ops)) same
    ∙ ap (last_of h.capacity) (append_assoc seen (records marshal op) (recorded marshal ops))

-- Whatever browsers do, the hub's ring is exactly the last `history` recorded flows, oldest first; a
-- history of 0 counts as 1.
pub ring-eq-last :
    (marshal : Flow → Option Text) (history : ℕ) (ops : List Op)
    → (run marshal (new history) ops).ring
      ≡ last_of (if ltb history 1 then 1 else history) (recorded marshal ops)
unfolding new
ring-eq-last marshal history ops = ring-run marshal ops (new history) [] (sym (drop_nil _))

-- some flow has the id
abbrev pub HasId : ℕ → List Flow → Type 0
HasId id [] = ⊥
HasId id (f ∷ fs) = (f.id ≡ id) ⊎ HasId id fs

-- a search's result, judged by the list that was searched
abbrev pub FoundIn : ℕ → List Flow → Option Flow → Type 0
FoundIn id ring none = ¬ HasId id ring
FoundIn id ring (some f) = (f.id ≡ id) × (before after : List Flow) × (ring ≡ before ++ f ∷ after)

find_lem : (id : ℕ) (fs : List Flow) → FoundIn id fs (find id fs)
unfolding find
find_lem id [] = λ h. h
find_lem id (f ∷ fs) = elim (Bool-cases (f.id == id)) [
  | inl e ↦ rw (e, find) ((==_iff f.id id).0 e, [], fs, refl)
  | inr e ↦ rw (e, find) (behind (find id fs) (find_lem id fs) (ground (arith, e)))
]
  where
    behind : (o : Option Flow) → FoundIn id fs o → f.id ≢ id → FoundIn id (f ∷ fs) o
    behind none h ne = elim [ inl e ↦ ne e | inr m ↦ h m ]
    behind (some g) (e, before, after, split) ne = (e, f ∷ before, after, cc)

-- A look-up by id misses exactly when no flow of the ring has the id, and otherwise returns a flow
-- of the ring with that id.
pub lookup_lem : (h : Hub) (id : ℕ) → FoundIn id h.ring (lookup h id)
unfolding lookup
lookup_lem h id = find_lem id h.ring
