-- ===== src/Proxy/Connect/Learning.antt =====
-- A host whose interception a client refused is tunnelled from then on.
use proxysim.Prelude.{
  ◌≡◌, refl, ◌∙◌, Bool, true, false, ◌||◌, List, [], ◌∷◌, Option, none, some, Text, codes, text_eq,
  text_eq_refl, text_eq_iff, member, arith,
}
use proxysim.Proxy.Server.{Server, World, Request, Env, origin_allows, forward}
use proxysim.Proxy.Connect.{
  Peer, hostname, should_tunnel, learn, tunnel, decrypted, serve_decrypted, intercept,
  handle_connect, serve_http,
}

-- Learning a host tunnels every target with that host, whatever its port, and no other.
pub should_tunnel-learn :
    (s : Server) (w : World) (a b : Text)
    → should_tunnel s (learn w a) b ≡ (text_eq (hostname a) (hostname b) || should_tunnel s w b)
unfolding should_tunnel learn member
should_tunnel-learn s w a b = ground (arith, text_eq_iff (hostname a) (hostname b))

pub learned-forward :
    (s : Server) (env : Env) (r : Request) (scheme : Text) (capture : Bool) (w : World)
    → (forward s env r scheme capture w).0.learned ≡ w.learned
unfolding forward
learned-forward s env r scheme capture w = ground arith

learned-serve_decrypted :
    (s : Server) (connect_host : Text) (requests : List (Request × Env)) (w : World)
    → (serve_decrypted s connect_host requests w).0.learned ≡ w.learned
unfolding serve_decrypted
learned-serve_decrypted s connect_host [] w = refl
learned-serve_decrypted s connect_host ((r, env) ∷ rest) w =
    learned-serve_decrypted s connect_host rest _
    ∙ learned-forward s env (decrypted connect_host r) _ true w

pub learned-tunnel :
    (peer : Peer) (host_port note : Text) (emits : Bool) (w : World)
    → (tunnel peer host_port note emits w).0.learned ≡ w.learned
unfolding tunnel
learned-tunnel peer host_port note emits w = ground arith

module _ (host : Text) where
  abbrev Knows : World → Type 0
  Knows w = member host w.learned ≡ true

  intercept-Knows :
      (s : Server) (peer : Peer) (host_port : Text) (w : World)
      → Knows w
      → Knows (intercept s peer host_port w).0
  unfolding intercept member
  intercept-Knows s peer host_port w h =
      ground (arith, h, learned-serve_decrypted s host_port peer.requests w)

  handle_connect-Knows :
      (resolve_tcp : Text → Option Text) (s : Server) (peer : Peer) (r : Request) (w : World)
      → Knows w
      → Knows (handle_connect resolve_tcp s peer r w).0
  unfolding handle_connect
  handle_connect-Knows resolve_tcp s peer r w h = ground (
    arith,
    h,
    intercept-Knows s peer r.host w h,
    learned-tunnel peer r.host [] true w,
    learned-tunnel peer r.host [] false w,
  )

  -- No exchange forgets a host.
  serve_http-Knows :
      (resolve_tcp : Text → Option Text) (s : Server) (peer : Peer) (env : Env) (r : Request)
      (w : World)
      → Knows w
      → Knows (serve_http resolve_tcp s peer env r w).0
  unfolding serve_http
  serve_http-Knows resolve_tcp s peer env r w h = ground (
    arith,
    h,
    handle_connect-Knows resolve_tcp s peer r w h,
    learned-forward s env r (codes "http") (origin_allows resolve_tcp s r w) w,
  )

-- One exchange with the proxy.
pub record Exchange : Type 0 where
  pub peer : Peer
  pub env : Env
  pub request : Request

-- The exchanges of a session, one after the other.
unfoldable pub serve_all : (Text → Option Text) → Server → List Exchange → World → World
serve_all resolve_tcp s [] w = w
serve_all resolve_tcp s (x ∷ xs) w =
    serve_all resolve_tcp s xs (serve_http resolve_tcp s x.peer x.env x.request w).0

serve_all-Knows :
    (host : Text) (resolve_tcp : Text → Option Text) (s : Server) (xs : List Exchange) (w : World)
    → Knows host w
    → Knows host (serve_all resolve_tcp s xs w)
unfolding serve_all
serve_all-Knows host resolve_tcp s [] w h = h
serve_all-Knows host resolve_tcp s (x ∷ xs) w h =
    serve_all-Knows host resolve_tcp s xs _
      (serve_http-Knows host resolve_tcp s x.peer x.env x.request w h)

refused-Knows :
    (s : Server) (peer : Peer) (host_port e : Text) (w : World)
    → peer.hijack_error ≡ none
    → peer.established_written ≡ true
    → peer.handshake_error ≡ some e
    → Knows (hostname host_port) (intercept s peer host_port w).0
unfolding intercept member
refused-Knows s peer host_port e w hijacked written refused =
    ground (arith, hijacked, written, refused, text_eq_refl (hostname host_port))

Knows-should_tunnel :
    (s : Server) (w : World) (host_port : Text)
    → Knows (hostname host_port) w
    → should_tunnel s w host_port ≡ true
unfolding should_tunnel
Knows-should_tunnel s w host_port h = ground arith

-- Once a client refused our certificate for a target, then whatever exchanges follow, every
-- CONNECT to the same host, on any port, is tunnelled and not intercepted: shown as a tunnel if the
-- origin filter lets it through, and silently otherwise.
pub refused_then_tunnelled :
    (resolve_tcp : Text → Option Text) (s : Server) (peer : Peer) (host_port e : Text) (w : World)
    (later : List Exchange) (peer' : Peer) (r : Request)
    → peer.hijack_error ≡ none
    → peer.established_written ≡ true
    → peer.handshake_error ≡ some e
    → hostname r.host ≡ hostname host_port
    → handle_connect resolve_tcp s peer' r
        (serve_all resolve_tcp s later (intercept s peer host_port w).0)
      ≡ tunnel peer' r.host []
          (origin_allows resolve_tcp s r
            (serve_all resolve_tcp s later (intercept s peer host_port w).0))
          (serve_all resolve_tcp s later (intercept s peer host_port w).0)
unfolding handle_connect
refused_then_tunnelled resolve_tcp s peer host_port e w later peer' r hijacked written refused
      same =
    let w' = serve_all resolve_tcp s later (intercept s peer host_port w).0 in
    let known : Knows (hostname host_port) w' =
      serve_all-Knows (hostname host_port) resolve_tcp s later _
        (refused-Knows s peer host_port e w hijacked written refused) in
    ground (arith, Knows-should_tunnel s w' r.host (rw same known))
