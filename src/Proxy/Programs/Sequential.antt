-- ===== src/Proxy/Programs/Sequential.antt =====
-- The programs of internal/proxy run without an interruption.
use proxysim.Prelude.{◌≡◌, refl, ◌∙◌, Bool, true, false, List, [], ◌∷◌, Option, Text, codes, arith}
use proxysim.Proxy.Server.{Server, World, Request, Env, origin_allows, forward}
use proxysim.Proxy.Connect.{
  Peer, should_tunnel, tunnel, emit_tunnel, decrypted, serve_decrypted, intercept, handle_connect,
  serve_http,
}
use proxysim.Proxy.Programs.{
  Program, done, run_alone, seeing_filter, seeing_learned, forward_program, emit_tunnel_program,
  tunnel_program, decrypted_program, intercept_program, connect_program, serve_program,
}

alone-forward_program :
    (s : Server) (env : Env) (r : Request) (scheme : Text) (capture : Bool) (k : Program)
    (w : World)
    → run_alone (forward_program s env r scheme capture k) w
      ≡ run_alone k (forward s env r scheme capture w).0
unfolding run_alone forward_program forward
alone-forward_program s env r scheme capture k w = ground arith

alone-emit_tunnel_program :
    (peer : Peer) (host_port note : Text) (k : Program) (w : World)
    → run_alone (emit_tunnel_program peer host_port note k) w
      ≡ run_alone k (emit_tunnel w peer host_port note)
unfolding run_alone emit_tunnel_program emit_tunnel
alone-emit_tunnel_program peer host_port note k w = refl

alone-tunnel_program :
    (peer : Peer) (host_port note : Text) (emits : Bool) (w : World)
    → run_alone (tunnel_program peer host_port note emits) w
      ≡ (tunnel peer host_port note emits w).0
unfolding run_alone tunnel_program tunnel
alone-tunnel_program peer host_port note emits w = ground arith

alone-decrypted_program :
    (s : Server) (connect_host : Text) (requests : List (Request × Env)) (w : World)
    → run_alone (decrypted_program s connect_host requests) w
      ≡ (serve_decrypted s connect_host requests w).0
unfolding decrypted_program serve_decrypted run_alone
alone-decrypted_program s connect_host [] w = refl
alone-decrypted_program s connect_host ((r, env) ∷ rest) w =
    alone-forward_program s env (decrypted connect_host r) (codes "https") true
      (decrypted_program s connect_host rest) w
    ∙ alone-decrypted_program s connect_host rest
        (forward s env (decrypted connect_host r) (codes "https") true w).0

alone-intercept_program :
    (s : Server) (peer : Peer) (host_port : Text) (w : World)
    → run_alone (intercept_program s peer host_port) w ≡ (intercept s peer host_port w).0
unfolding run_alone intercept_program intercept
alone-intercept_program s peer host_port w =
    ground (arith, alone-decrypted_program s host_port peer.requests w)

module _ (resolve_tcp : Text → Option Text) (s : Server) (peer : Peer) (env : Env)
    (r : Request) where
  sees_filter :
      (w : World)
      → origin_allows resolve_tcp s r (seeing_filter w.controller) ≡ origin_allows resolve_tcp s r w
  unfolding origin_allows
  sees_filter w = refl

  sees_learned :
      (w : World) → should_tunnel s (seeing_learned w.learned) r.host ≡ should_tunnel s w r.host
  unfolding should_tunnel
  sees_learned w = refl

  alone-connect_program :
      (w : World)
      → run_alone (connect_program resolve_tcp s peer env r) w
        ≡ (handle_connect resolve_tcp s peer r w).0
  unfolding run_alone connect_program handle_connect
  alone-connect_program w = ground (
    arith,
    sees_filter w,
    sees_learned w,
    alone-tunnel_program peer r.host [] false w,
    alone-tunnel_program peer r.host [] true w,
    alone-intercept_program s peer r.host w,
  )

  -- A handler's program, with nothing between its accesses, changes the world exactly as the handler
  -- of Proxy/Connect.antt does in one step, on every branch.
  alone-serve_program :
      (w : World)
      → run_alone (serve_program resolve_tcp s peer env r) w
        ≡ (serve_http resolve_tcp s peer env r w).0
  unfolding run_alone serve_program serve_http
  alone-serve_program w = ground (
    arith,
    sees_filter w,
    alone-connect_program w,
    alone-forward_program s env r (codes "http") (origin_allows resolve_tcp s r w) done w,
  )
