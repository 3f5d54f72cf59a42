-- ===== src/Proxy/Programs/Distinct.antt =====
-- The ids of internal/flow/flow.go, under interleaved handlers of internal/proxy.
use proxysim.Prelude.{
  ℕ, zero, suc, ◌+◌, ◌^◌, ◌<◌, ◌≤◌, ◌≡◌, ◌⊎◌, refl, List, [], ◌∷◌, ◌++◌, All, length, Option, none,
  some, Text, if◌then◌else◌, ◌==◌, arith, inl, inr,
}
use proxysim.Flow.{Flow}
use proxysim.Flow
use proxysim.Proxy.Server.{Server, World, take_id, emit}
use proxysim.Proxy.Programs.{
  Program, done, read_filter, read_learned, learn_host, next_id, emit_flow, write_filter, Incoming,
  proxied, controlled, Process, advance, schedule, interleave, begin,
}
use proxysim.Proxy.Programs.Holding.{Linear, serve_program-Free, control_program-Free}

-- how many of the flows have the id
unfoldable pub count : ℕ → List Flow → ℕ
count id [] = 0
count id (f ∷ fs) = (if f.id == id then 1 else 0) + count id fs

holds : ℕ → Option ℕ → ℕ
holds id none = 0
holds id (some j) = if j == id then 1 else 0

-- how many handlers hold the id
held_by : ℕ → List Process → ℕ
unfolding holds
held_by id [] = 0
held_by id (p ∷ ps) = holds id p.held + held_by id ps

pub count-append : (id : ℕ) (fs gs : List Flow) → count id (fs ++ gs) ≡ count id fs + count id gs
unfolding count
count-append id [] gs = omega arith
count-append id (f ∷ fs) gs = omega (arith, count-append id fs gs)

next_id_small : (n : ℕ) → n + 1 < 2 ^ 64 → Flow.next_id n ≡ n + 1
unfolding Flow.next_id
next_id_small n h = omega arith

-- No more than the ids of before are in use, but for one that was taken: the next one.
abbrev Effect : ℕ → (ℕ → ℕ) → ℕ → (ℕ → ℕ) → Type 0
Effect last before last' after =
    ((last' ≡ last) × ((id : ℕ) → after id ≤ before id))
    ⊎ ((last' ≡ last + 1) × ((id : ℕ) → after id ≤ before id + (if last + 1 == id then 1 else 0)))

-- the uses of an id, in the sink and in one handler
abbrev used : World → Process → ℕ → ℕ
used w p id = count id w.emitted + holds id p.held

abbrev Good : Process → Type 0
Good p = Linear p.held p.program

abbrev Advances : Process → World → World × Process → Type 0
Advances p w r = Good r.1 × Effect w.last_id (used w p) r.0.last_id (used r.0 r.1)

advance-Advances :
    (q : Program) (held : Option ℕ) (w : World)
    → w.last_id + 1 < 2 ^ 64
    → Linear held q
    → let p : Process = record { program = q; held = held } in Advances p w (advance p w)
unfolding advance Linear count holds take_id emit
advance-Advances done held w b h = (h, inl (refl, λ id. omega arith))
advance-Advances (read_filter k) held w b h = (h w.controller, inl (refl, λ id. omega arith))
advance-Advances (read_learned k) held w b h = (h w.learned, inl (refl, λ id. omega arith))
advance-Advances (learn_host host_port k) held w b h = (h, inl (refl, λ id. omega arith))
advance-Advances (next_id k) held w b h =
    let e : Flow.next_id w.last_id ≡ w.last_id + 1 = next_id_small w.last_id b in
    (h (Flow.next_id w.last_id), inr (e, λ id. ground (arith, e)))
advance-Advances (write_filter f k) held w b h = (h, inl (refl, λ id. omega arith))
advance-Advances (emit_flow f k) held w b h =
    (h.1, inl (refl, λ id. ground (arith, h.0, count-append id w.emitted (f ∷ []))))

-- the uses of an id, in the sink and in all handlers
abbrev all_used : World → List Process → ℕ → ℕ
all_used w ps id = count id w.emitted + held_by id ps

abbrev Scheduled : List Process → World → World × List Process → Type 0
Scheduled ps w r = All Good r.1 × Effect w.last_id (all_used w ps) r.0.last_id (all_used r.0 r.1)

schedule-Scheduled :
    (n : ℕ) (ps : List Process) (w : World)
    → w.last_id + 1 < 2 ^ 64
    → All Good ps
    → Scheduled ps w (schedule n ps w)
unfolding schedule held_by
schedule-Scheduled n [] w b h = (tt, inl (refl, λ id. omega arith))
schedule-Scheduled zero (p ∷ ps) w b h =
    let (g, e) = advance-Advances p.program p.held w b h.0 in
    (
      (g, h.1),
      elim e [
        | inl (l, u) ↦ inl (l, λ id. omega (arith, u id))
        | inr (l, u) ↦ inr (l, λ id. omega (arith, u id))
      ],
    )
schedule-Scheduled (suc n) (p ∷ ps) w b h =
    let (g, e) = schedule-Scheduled n ps w b h.1 in
    (
      (h.0, g),
      elim e [
        | inl (l, u) ↦ inl (l, λ id. omega (arith, u id))
        | inr (l, u) ↦ inr (l, λ id. omega (arith, u id))
      ],
    )

-- Each id is in use once at most, and only if it was taken.
abbrev Fresh : World → List Process → Type 0
Fresh w ps = ((id : ℕ) → all_used w ps id ≤ 1) × ((id : ℕ) → w.last_id < id → all_used w ps id ≡ 0)

schedule-Fresh :
    (n : ℕ) (ps : List Process) (w : World)
    → w.last_id + 1 < 2 ^ 64
    → All Good ps
    → Fresh w ps
    → let (w', ps') = schedule n ps w in All Good ps' × Fresh w' ps' × (w'.last_id ≤ w.last_id + 1)
schedule-Fresh n ps w b g (once, above) =
    let (g', e) = schedule-Scheduled n ps w b g in
    let (w', ps') = schedule n ps w in
    elim e [
      | inl (l, u) ↦ (
        g',
        (
          (λ id. omega (arith, u id, once id)),
          λ id lt. omega (arith, u id, above id (omega (arith, l, lt))),
        ),
        omega (arith, l),
      )
      | inr (l, u) ↦ (
        g',
        (
          (λ id. ground (arith, u id, once id, above id)),
          λ id lt. ground (arith, u id, l, lt, above id),
        ),
        omega (arith, l),
      )
    ]

interleave-Fresh :
    (ns : List ℕ) (ps : List Process) (w : World)
    → w.last_id + length ns < 2 ^ 64
    → All Good ps
    → Fresh w ps
    → let (w', ps') = interleave ns ps w in
      All Good ps' × Fresh w' ps' × (w'.last_id ≤ w.last_id + length ns)
unfolding interleave
interleave-Fresh [] ps w b g f = (g, f, omega arith)
interleave-Fresh (n ∷ ns) ps w b g f =
    let (w', ps') = schedule n ps w in
    let (g', f', l) = schedule-Fresh n ps w (omega (arith, b)) g f in
    let (g'', f'', m) = interleave-Fresh ns ps' w' (omega (arith, l, b)) g' f' in
    (g'', f'', omega (arith, l, m))

-- No two flows of the sink have one id, and each id of a flow was taken.
pub record IsNumbered (w : World) : Type 0 where
  pub once : (id : ℕ) → count id w.emitted ≤ 1
  pub above : (id : ℕ) → w.last_id < id → count id w.emitted ≡ 0

begin-Good :
    (resolve_tcp : Text → Option Text) (s : Server) (xs : List Incoming)
    → All Good (begin resolve_tcp s xs)
unfolding begin
begin-Good resolve_tcp s [] = tt
begin-Good resolve_tcp s (controlled enabled body ∷ xs) =
    (control_program-Free enabled body none, begin-Good resolve_tcp s xs)
begin-Good resolve_tcp s (proxied x ∷ xs) =
    (serve_program-Free resolve_tcp s x.peer x.env x.request none, begin-Good resolve_tcp s xs)

held_by-begin :
    (resolve_tcp : Text → Option Text) (s : Server) (xs : List Incoming) (id : ℕ)
    → held_by id (begin resolve_tcp s xs) ≡ 0
unfolding begin held_by
held_by-begin resolve_tcp s [] id = refl
held_by-begin resolve_tcp s (controlled enabled body ∷ xs) id =
    omega (arith, held_by-begin resolve_tcp s xs id)
held_by-begin resolve_tcp s (proxied x ∷ xs) id = omega (arith, held_by-begin resolve_tcp s xs id)

module _ (resolve_tcp : Text → Option Text) (s : Server) (xs : List Incoming) (ns : List ℕ)
    (w : World) where
  begin-Fresh : IsNumbered w → Fresh w (begin resolve_tcp s xs)
  begin-Fresh numbered =
      let none_held = held_by-begin resolve_tcp s xs in
      (
        (λ id. omega (arith, none_held id, numbered.once id)),
        λ id lt. omega (arith, none_held id, numbered.above id lt),
      )

  -- However the accesses of any exchanges and choices of filters interleave, finished or not, no two flows of the sink
  -- have one id, and each id was taken from the counter, if that held before and the counter does
  -- not run over.
  pub interleave-IsNumbered :
      IsNumbered w
      → w.last_id + length ns < 2 ^ 64
      → IsNumbered (interleave ns (begin resolve_tcp s xs) w).0
  interleave-IsNumbered numbered b =
      let (_, (once, above), _) =
        interleave-Fresh ns (begin resolve_tcp s xs) w b (begin-Good resolve_tcp s xs)
          (begin-Fresh numbered) in
      record { once = λ id. omega (arith, once id); above = λ id lt. omega (arith, above id lt) }

  -- A step takes one id at most.
  pub last_id-interleave :
      IsNumbered w
      → w.last_id + length ns < 2 ^ 64
      → (interleave ns (begin resolve_tcp s xs) w).0.last_id ≤ w.last_id + length ns
  last_id-interleave numbered b =
      let (_, _, m) =
        interleave-Fresh ns (begin resolve_tcp s xs) w b (begin-Good resolve_tcp s xs)
          (begin-Fresh numbered) in
      m
