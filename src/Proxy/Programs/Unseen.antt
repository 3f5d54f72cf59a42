-- ===== src/Proxy/Programs/Unseen.antt =====
-- The origin filter of internal/proxy/server.go, under interleaved handlers, while the UI chooses among
-- filters.
use proxysim.Prelude.{
  ℕ, zero, suc, ◌≡◌, refl, ◌∙◌, Bool, true, false, not, List, [], ◌∷◌, Option, none, some, Text,
  text_eq, is_nil, All, arith, Bool-cases, inl, inr, ◌||◌,
}
use proxysim.Origin.{Filter, Controller, current, set, build_filter}
use proxysim.Ui.Control.{FilterJson}
use proxysim.Proxy.Server.{Server, World, Request, Env, origin_allows, take_id}
use proxysim.Proxy.Connect.{Peer, connect_method}
use proxysim.Proxy.Programs.{
  Program, done, read_filter, read_learned, learn_host, next_id, emit_flow, write_filter, Process,
  advance, schedule, interleave, forward_program, tunnel_program, connect_program, serve_program,
  control_program, seeing_filter, Incoming, proxied, controlled, begin,
}

module _ (Kind : Filter → Type 0) where
  -- A program that shows nothing, as long as it reads filters of the kind, and writes only such.
  unfoldable pub Quiet : Program → Type 0
  Quiet done = Unit
  Quiet (read_filter k) = (c : Controller) → Kind (current c) → Quiet (k c)
  Quiet (read_learned k) = (hosts : List Text) → Quiet (k hosts)
  Quiet (learn_host host_port k) = ⊥
  Quiet (next_id k) = (id : ℕ) → Quiet (k id)
  Quiet (emit_flow f k) = ⊥
  Quiet (write_filter f k) = Kind f × Quiet k

  module _ (resolve_tcp : Text → Option Text) (s : Server) where
    -- An exchange that no filter of the kind lets through, or a choice of a filter of the kind.
    abbrev pub Hidden : Incoming → Type 0
    Hidden (proxied x) =
        (c : Controller)
        → Kind (current c)
        → origin_allows resolve_tcp s x.request (seeing_filter c) ≡ false
    Hidden (controlled enabled none) = Unit
    Hidden (controlled enabled (some b)) = Kind (build_filter b.only_sim b.apps)

    quiet_tunnel : (peer : Peer) (host : Text) → tunnel_program peer host [] false ≡ done
    unfolding tunnel_program
    quiet_tunnel peer host = ground arith

    serve_program-Quiet :
        (peer : Peer) (env : Env) (r : Request)
        → ((c : Controller)
            → Kind (current c)
            → origin_allows resolve_tcp s r (seeing_filter c) ≡ false)
        → Quiet (serve_program resolve_tcp s peer env r)
    unfolding serve_program connect_program Quiet
    serve_program-Quiet peer env r h = elim (Bool-cases (text_eq r.method connect_method)) [
      | inl e ↦ rw e (λ c kind. rw (h c kind, quiet_tunnel peer r.host) tt)
      | inr e ↦ rw e (elim (Bool-cases (not r.is_abs || is_nil r.url_host)) [
        | inl n ↦ rw n tt
        | inr n ↦ rw n (λ c kind. rw (h c kind, forward_program) (λ id. tt))
      ])
    ]

    control_program-Quiet :
        (enabled : Bool) (body : Option FilterJson)
        → Hidden (controlled enabled body)
        → Quiet (control_program enabled body)
    unfolding control_program Quiet
    control_program-Quiet false body h = tt
    control_program-Quiet true none h = tt
    control_program-Quiet true (some b) h = (h, tt)

    abbrev AllQuiet : List Process → Type 0
    AllQuiet ps = All (λ p. Quiet p.program) ps

    begin-AllQuiet : (xs : List Incoming) → All Hidden xs → AllQuiet (begin resolve_tcp s xs)
    unfolding begin
    begin-AllQuiet [] h = tt
    begin-AllQuiet (proxied x ∷ xs) h =
        (serve_program-Quiet x.peer x.env x.request h.0, begin-AllQuiet xs h.1)
    begin-AllQuiet (controlled enabled body ∷ xs) h =
        (control_program-Quiet enabled body h.0, begin-AllQuiet xs h.1)

    -- nothing is shown, and the filter is of the kind
    abbrev Same : World → World → Type 0
    Same w w' = (w'.emitted ≡ w.emitted) × (w'.learned ≡ w.learned) × Kind (current w'.controller)

    advance-Quiet :
        (q : Program) (held : Option ℕ) (w : World)
        → Kind (current w.controller)
        → Quiet q
        → let (w', p') = advance (record { program = q; held = held }) w in
          Quiet p'.program × Same w w'
    unfolding advance Quiet take_id current set
    advance-Quiet done held w kind h = (h, (refl, refl, kind))
    advance-Quiet (read_filter k) held w kind h = (h w.controller kind, (refl, refl, kind))
    advance-Quiet (read_learned k) held w kind h = (h w.learned, (refl, refl, kind))
    advance-Quiet (learn_host host_port k) held w kind h = absurd h
    advance-Quiet (next_id k) held w kind h = (h _, (refl, refl, kind))
    advance-Quiet (emit_flow f k) held w kind h = absurd h
    advance-Quiet (write_filter f k) held w kind h = (h.1, (refl, refl, h.0))

    schedule-Quiet :
        (n : ℕ) (ps : List Process) (w : World)
        → Kind (current w.controller)
        → AllQuiet ps
        → let (w', ps') = schedule n ps w in AllQuiet ps' × Same w w'
    unfolding schedule
    schedule-Quiet n [] w kind h = (tt, (refl, refl, kind))
    schedule-Quiet zero (p ∷ ps) w kind h =
        let (q, same) = advance-Quiet p.program p.held w kind h.0 in ((q, h.1), same)
    schedule-Quiet (suc n) (p ∷ ps) w kind h =
        let (qs, same) = schedule-Quiet n ps w kind h.1 in ((h.0, qs), same)

    interleave-Quiet :
        (ns : List ℕ) (ps : List Process) (w : World)
        → Kind (current w.controller)
        → AllQuiet ps
        → Same w (interleave ns ps w).0
    unfolding interleave
    interleave-Quiet [] ps w kind h = (refl, refl, kind)
    interleave-Quiet (n ∷ ns) ps w kind h =
        let (w', ps') = schedule n ps w in
        let (qs, (emitted, learned, kind')) = schedule-Quiet n ps w kind h in
        let (emitted', learned', kind'') = interleave-Quiet ns ps' w' kind' qs in
        (emitted' ∙ emitted, learned' ∙ learned, kind'')

    -- However the accesses of exchanges interleave with each other and with choices of filters in the
    -- UI: where no filter of a kind lets any of the exchanges through, and the filter at first and all
    -- that are chosen are of the kind, no flow is emitted, no host is learned, and the filter stays of
    -- the kind.
    pub stays_unseen :
        (xs : List Incoming) (ns : List ℕ) (w : World)
        → Kind (current w.controller)
        → All Hidden xs
        → let w' = (interleave ns (begin resolve_tcp s xs) w).0 in
          (w'.emitted ≡ w.emitted) × (w'.learned ≡ w.learned) × Kind (current w'.controller)
    stays_unseen xs ns w kind h =
        interleave-Quiet ns (begin resolve_tcp s xs) w kind (begin-AllQuiet xs h)
