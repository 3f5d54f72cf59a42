-- ===== src/Proxy/Programs.antt =====
-- The handlers of internal/proxy as programs of the accesses that they make to what they share: the
-- filter's pointer (which the UI writes), the learned hosts under their lock, the counter of flow ids, and the sink. Each
-- access is one atomic step, so that handlers can be interleaved; what a handler does to its own
-- connection is in Proxy/Connect.antt.
pub mod Sequential
pub mod Holding
pub mod Distinct
pub mod Learned
pub mod Unseen
use proxysim.Prelude.{
  ℕ, zero, suc, ◌+◌, ◌-◌, Bool, true, false, not, ◌||◌, List, [], ◌∷◌, ◌++◌, Option, none, some,
  Text, codes, text_eq, is_nil, if◌then◌else◌,
}
use proxysim.Http.{Header}
use proxysim.Flow.{Flow}
use proxysim.Origin.{Filter, Controller, set, build_filter}
use proxysim.Ui.Control.{FilterJson}
use proxysim.Proxy.Headers.{remove_hop_by_hop}
use proxysim.Proxy.Server.{
  Server, World, Request, Env, RoundTrip, failed, answered, new_flow, outgoing, record_request,
  answer_flow, origin_allows, emit, take_id,
}
use proxysim.Proxy.Connect.Learning.{Exchange}
use proxysim.Proxy.Connect.{Peer, connect_method, should_tunnel, learn, tunnel_flow, decrypted}

-- What is left of a handler to do, by its next access.
pub data Program : Type 0 where
  done : Program
  read_filter : (Controller → Program) → Program
  read_learned : (List Text → Program) → Program
  learn_host : Text → Program → Program
  next_id : (ℕ → Program) → Program
  emit_flow : Flow → Program → Program
  write_filter : Filter → Program → Program

-- A handler that runs, with the id that it has taken and not yet emitted.
pub record Process : Type 0 where
  pub program : Program
  pub held : Option ℕ

unfoldable pub advance : Process → World → World × Process
unfolding learn take_id emit set
advance p w = elim p.program [
  | done ↦ (w, p)
  | read_filter k ↦ (w, record p { program = k w.controller })
  | read_learned k ↦ (w, record p { program = k w.learned })
  | learn_host host_port k ↦ (learn w host_port, record p { program = k })
  | next_id k ↦
      let w' = take_id w in (w', record { program = k w'.last_id; held = some w'.last_id })
  | emit_flow f k ↦ (emit w f, record { program = k; held = none })
  | write_filter f k ↦ (record w { controller = set w.controller f }, record p { program = k })
]

-- the whole of a program, with nothing between its accesses
unfoldable pub run_alone : Program → World → World
unfolding learn take_id emit set
run_alone done w = w
run_alone (read_filter k) w = run_alone (k w.controller) w
run_alone (read_learned k) w = run_alone (k w.learned) w
run_alone (learn_host host_port k) w = run_alone k (learn w host_port)
run_alone (next_id k) w = let w' = take_id w in run_alone (k w'.last_id) w'
run_alone (emit_flow f k) w = run_alone k (emit w f)
run_alone (write_filter f k) w = run_alone k (record w { controller = set w.controller f })

-- worlds in which only what is read is of interest
abbrev pub seeing_filter : Controller → World
seeing_filter c = record { emitted = []; last_id = 0; learned = []; controller = c }

abbrev seeing_learned : List Text → World
seeing_learned hosts = record {
  emitted = [];
  last_id = 0;
  learned = hosts;
  controller = record { p = none };
}

-- the flow of `forward`, once its id is taken
unfoldable pub forward_flow : Server → Env → Request → Text → ℕ → Flow
unfolding new_flow outgoing record_request answer_flow
forward_flow s env r scheme id =
    let headers = remove_hop_by_hop r.headers in
    let f = new_flow id env r scheme headers in
    let failing : Flow → Text → Flow =
      λ g e. record g { error = e; duration = env.finished - env.started } in
    elim env.build_error [
      | some e ↦ failing f (codes "building upstream request: " ++ e)
      | none ↦ elim (env.round_trip (outgoing r scheme headers)) [
        | failed n e ↦ failing (record_request s.body_cap r.body n f) e
        | answered n resp ↦ answer_flow s.body_cap env (record_request s.body_cap r.body n f) resp
      ]
    ]

unfoldable pub forward_program : Server → Env → Request → Text → Bool → Program → Program
unfolding forward_flow
forward_program s env r scheme capture k =
    next_id λ id. if capture then emit_flow (forward_flow s env r scheme id) k else k

unfoldable pub emit_tunnel_program : Peer → Text → Text → Program → Program
emit_tunnel_program peer host_port note k =
    next_id λ id. emit_flow (tunnel_flow id peer host_port note) k

unfoldable pub tunnel_program : Peer → Text → Text → Bool → Program
unfolding emit_tunnel_program
tunnel_program peer host_port note emits = elim peer.hijack_error [
  | some e ↦ done
  | none ↦ elim (peer.dial_error host_port) [
    | some e ↦ if emits then emit_tunnel_program peer host_port e done else done
    | none ↦
        if not peer.established_written
        then done
        else if emits
        then emit_tunnel_program peer host_port note done
        else done
  ]
]

unfoldable pub decrypted_program : Server → Text → List (Request × Env) → Program
unfolding forward_program
decrypted_program s connect_host [] = done
decrypted_program s connect_host ((r, env) ∷ rest) =
    forward_program s env (decrypted connect_host r) (codes "https") true
      (decrypted_program s connect_host rest)

unfoldable pub intercept_program : Server → Peer → Text → Program
unfolding decrypted_program emit_tunnel_program
intercept_program s peer host_port = elim peer.hijack_error [
  | some e ↦ done
  | none ↦ if not peer.established_written then done else elim peer.handshake_error [
    | some e ↦
        learn_host host_port
          (emit_tunnel_program peer host_port (codes "interception refused by client: " ++ e) done)
    | none ↦ decrypted_program s host_port peer.requests
  ]
]

module _ (resolve_tcp : Text → Option Text) (s : Server) (peer : Peer) (env : Env)
    (r : Request) where
  unfoldable pub connect_program : Program
  unfolding tunnel_program intercept_program
  connect_program = read_filter λ c.
      if not (origin_allows resolve_tcp s r (seeing_filter c))
      then tunnel_program peer r.host [] false
      else read_learned λ hosts.
        if should_tunnel s (seeing_learned hosts) r.host
        then tunnel_program peer r.host [] true
        else intercept_program s peer r.host

  -- `ServeHTTP`
  unfoldable pub serve_program : Program
  unfolding connect_program forward_program
  serve_program =
      if text_eq r.method connect_method
      then connect_program
      else if not r.is_abs || is_nil r.url_host
      then done
      else read_filter λ c.
        forward_program s env r (codes "http") (origin_allows resolve_tcp s r (seeing_filter c))
          done

-- A handler that begins.
abbrev pub start : Program → Process
start p = record { program = p; held = none }

-- the next access of the handler with an index
unfoldable pub schedule : ℕ → List Process → World → World × List Process
unfolding advance
schedule n [] w = (w, [])
schedule zero (p ∷ ps) w = let (w', p') = advance p w in (w', p' ∷ ps)
schedule (suc n) (p ∷ ps) w = let (w', ps') = schedule n ps w in (w', p ∷ ps')

unfoldable pub interleave : List ℕ → List Process → World → World × List Process
unfolding schedule
interleave [] ps w = (w, ps)
interleave (n ∷ ns) ps w = let (w', ps') = schedule n ps w in interleave ns ps' w'

-- `handleSetFilter` of the UI, with whether its control is enabled
unfoldable pub control_program : Bool → Option FilterJson → Program
control_program enabled body =
    if not enabled
    then done
    else elim body [ none ↦ done | some b ↦ write_filter (build_filter b.only_sim b.apps) done ]

-- What comes in: an exchange for the proxy, or a filter for the UI.
pub data Incoming : Type 0 where
  proxied : Exchange → Incoming
  controlled : Bool → Option FilterJson → Incoming

-- the handlers that begin
unfoldable pub begin : (Text → Option Text) → Server → List Incoming → List Process
unfolding serve_program control_program
begin resolve_tcp s [] = []
begin resolve_tcp s (proxied x ∷ xs) =
    start (serve_program resolve_tcp s x.peer x.env x.request) ∷ begin resolve_tcp s xs
begin resolve_tcp s (controlled enabled body ∷ xs) =
    start (control_program enabled body) ∷ begin resolve_tcp s xs
