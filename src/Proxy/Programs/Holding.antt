-- ===== src/Proxy/Programs/Holding.antt =====
-- What a handler of internal/proxy does with the ids that it takes.
use proxysim.Prelude.{
  ℕ, ◌≡◌, refl, sym, ap, Bool, true, false, not, ◌||◌, List, [], ◌∷◌, ◌++◌, Option, none, some,
  Text, codes, text_eq, is_nil, if◌then◌else◌, arith, Bool-cases, Option-cases, inl, inr,
}
use proxysim.Flow.{Flow}
use proxysim.Origin.{Controller}
use proxysim.Ui.Control.{FilterJson}
use proxysim.Proxy.Server.{
  Server, Request, Env, record_request, answer_flow, new_flow, origin_allows,
}
use proxysim.Proxy.Connect.{Peer, connect_method, should_tunnel, tunnel_flow, decrypted}
use proxysim.Proxy.Programs.{
  Program, done, read_filter, read_learned, learn_host, emit_flow, write_filter, control_program,
  forward_flow, forward_program, emit_tunnel_program, tunnel_program, decrypted_program,
  intercept_program, connect_program, serve_program, seeing_filter, seeing_learned,
}

-- A program emits only a flow with the id that it holds, and once.
unfoldable pub Linear : Option ℕ → Program → Type 0
Linear held done = Unit
Linear held (read_filter k) = (c : Controller) → Linear held (k c)
Linear held (read_learned k) = (hosts : List Text) → Linear held (k hosts)
Linear held (learn_host host_port k) = Linear held k
Linear held (Program.next_id k) = (id : ℕ) → Linear (some id) (k id)
Linear held (emit_flow f k) = (held ≡ some f.id) × Linear none k
Linear held (write_filter f k) = Linear held k

-- whatever it holds at first
abbrev pub Free : Program → Type 0
Free p = (held : Option ℕ) → Linear held p

id-record_request :
    (body_cap n : ℕ) (body : Option (List Text)) (f : Flow)
    → (record_request body_cap body n f).id ≡ f.id
unfolding record_request
id-record_request body_cap n body f = ground arith

id-forward_flow :
    (s : Server) (env : Env) (r : Request) (scheme : Text) (id : ℕ)
    → (forward_flow s env r scheme id).id ≡ id
unfolding forward_flow answer_flow new_flow record_request
id-forward_flow s env r scheme id = ground arith

forward_program-Free :
    (s : Server) (env : Env) (r : Request) (scheme : Text) (capture : Bool) (k : Program)
    → Free k
    → Free (forward_program s env r scheme capture k)
unfolding forward_program Linear
forward_program-Free s env r scheme true k h held id =
    (ap some (sym (id-forward_flow s env r scheme id)), h none)
forward_program-Free s env r scheme false k h held id = h (some id)

emit_tunnel_program-Free :
    (peer : Peer) (host_port note : Text) → Free (emit_tunnel_program peer host_port note done)
unfolding emit_tunnel_program Linear tunnel_flow
emit_tunnel_program-Free peer host_port note held id = (refl, tt)

done-Free : Free done
unfolding Linear
done-Free held = tt

tunnel_program-Free :
    (peer : Peer) (host_port note : Text) (emits : Bool)
    → Free (tunnel_program peer host_port note emits)
unfolding tunnel_program tunnel_flow
tunnel_program-Free peer host_port note emits held = elim (Option-cases peer.hijack_error) [
  | inr (m, e) ↦ rw (e, tunnel_program) (done-Free held)
  | inl e ↦ elim (Option-cases (peer.dial_error host_port)) [
    | inr (m, d) ↦ rw (e, d, tunnel_program) (shown m emits)
    | inl d ↦ elim (Bool-cases peer.established_written) [
      | inl w ↦ rw (e, d, w, tunnel_program) (shown note emits)
      | inr w ↦ rw (e, d, w, tunnel_program) (done-Free held)
    ]
  ]
]
  where
    shown :
        (m : Text) (b : Bool)
        → Linear held (if b then emit_tunnel_program peer host_port m done else done)
    shown m true = emit_tunnel_program-Free peer host_port m held
    shown m false = done-Free held

decrypted_program-Free :
    (s : Server) (connect_host : Text) (requests : List (Request × Env))
    → Free (decrypted_program s connect_host requests)
unfolding decrypted_program
decrypted_program-Free s connect_host [] = done-Free
decrypted_program-Free s connect_host ((r, env) ∷ rest) =
    forward_program-Free s env (decrypted connect_host r) (codes "https") true
      (decrypted_program s connect_host rest) (decrypted_program-Free s connect_host rest)

intercept_program-Free :
    (s : Server) (peer : Peer) (host_port : Text) → Free (intercept_program s peer host_port)
unfolding intercept_program Linear
intercept_program-Free s peer host_port held = elim (Option-cases peer.hijack_error) [
  | inr (m, e) ↦ rw (e, intercept_program) tt
  | inl e ↦ elim (Bool-cases peer.established_written) [
    | inr w ↦ rw (e, w, intercept_program) tt
    | inl w ↦ elim (Option-cases peer.handshake_error) [
      | inl h ↦
          rw (e, w, h, intercept_program) (decrypted_program-Free s host_port peer.requests held)
      | inr (m, h) ↦
          rw (e, w, h, intercept_program)
            (emit_tunnel_program-Free peer host_port (codes "interception refused by client: " ++ m)
              held)
    ]
  ]
]

module _ (resolve_tcp : Text → Option Text) (s : Server) (peer : Peer) (env : Env)
    (r : Request) where
  connect_program-Free : Free (connect_program resolve_tcp s peer env r)
  unfolding connect_program Linear
  connect_program-Free held c =
      elim (Bool-cases (origin_allows resolve_tcp s r (seeing_filter c))) [
        | inr e ↦ rw e (tunnel_program-Free peer r.host [] false held)
        | inl e ↦ rw e (λ hosts. elim (Bool-cases (should_tunnel s (seeing_learned hosts) r.host)) [
          | inl t ↦ rw t (tunnel_program-Free peer r.host [] true held)
          | inr t ↦ rw t (intercept_program-Free s peer r.host held)
        ])
      ]

  pub serve_program-Free : Free (serve_program resolve_tcp s peer env r)
  unfolding serve_program Linear
  serve_program-Free held = elim (Bool-cases (text_eq r.method connect_method)) [
    | inl e ↦ rw (e, serve_program) (connect_program-Free held)
    | inr e ↦ elim (Bool-cases (not r.is_abs || is_nil r.url_host)) [
      | inl n ↦ rw (e, n, serve_program) (done-Free held)
      | inr n ↦ rw (e, n, serve_program) (reads held)
    ]
  ]
    where
      reads : Free (
          read_filter λ c.
            forward_program s env r
              (codes "http")
              (origin_allows resolve_tcp s r (seeing_filter c))
              done)
      reads h c =
          forward_program-Free s env r (codes "http")
            (origin_allows resolve_tcp s r (seeing_filter c)) done done-Free h

pub control_program-Free :
    (enabled : Bool) (body : Option FilterJson) → Free (control_program enabled body)
unfolding control_program Linear
control_program-Free false body held = tt
control_program-Free true none held = tt
control_program-Free true (some b) held = tt
