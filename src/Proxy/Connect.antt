-- ===== src/Proxy/Connect.antt =====
-- internal/proxy/connect.go: a CONNECT is tunnelled or intercepted. What the handler does to the
-- connection is a list of actions; what the client and the upstream do is the argument `Peer`.
pub mod Adapters
pub mod Hosts
pub mod Learning
pub mod Filtered
use proxysim.Prelude.{
  ℕ, ◌-◌, Bool, true, false, not, ◌||◌, List, [], ◌∷◌, ◌++◌, Option, none, some, Text, codes,
  is_nil, member, text_eq, if◌then◌else◌,
}
use proxysim.Strings.{has_suffix}
use proxysim.Strings.HostPort.{without_port}
use proxysim.Flow.{Flow}
use proxysim.Proxy.Server.{
  Server, World, Request, Env, Reply, http_error, emit, take_id, origin_allows, forward,
}

pub data Action : Type 0 where
  write dial : Text → Action
  -- copies both ways until one direction ends
  splice : Action
  handshake : Action
  -- the replies to the decrypted requests, in order
  serve : List Reply → Action
  refuse : Reply → Action
  close_client close_upstream : Action

-- The world outside during one CONNECT. `requests` are the decrypted requests of the connection.
pub record Peer : Type 0 where
  pub hijack_error : Option Text
  pub established_written : Bool
  pub dial_error : Text → Option Text
  pub handshake_error : Option Text
  pub requests : List (Request × Env)
  pub started : ℕ
  pub finished : ℕ

abbrev pub connect_established : Text
connect_established = codes "HTTP/1.1 200 Connection Established\r\n\r\n"

abbrev pub connect_method : Text
connect_method = codes "CONNECT"

-- `hostname` strips the port of a CONNECT target.
unfoldable pub hostname : Text → Text
hostname host_port = without_port host_port

unfoldable pub is_excluded : List Text → Text → Bool
is_excluded [] host = false
is_excluded (suffix ∷ rest) host =
    if text_eq host suffix || has_suffix host (b'.' ∷ suffix) then true else is_excluded rest host

unfoldable pub should_tunnel : Server → World → Text → Bool
should_tunnel s w host_port =
    if not s.has_authority
    then true
    else (let host = hostname host_port in
        if is_excluded s.excluded host then true else member host w.learned)

unfoldable pub learn : World → Text → World
learn w host_port =
    let host = hostname host_port in
    record w { learned = if member host w.learned then w.learned else host ∷ w.learned }

unfoldable pub tunnel_flow : ℕ → Peer → Text → Text → Flow
tunnel_flow id peer host_port note = record {
  id = id;
  started = peer.started;
  duration = peer.finished - peer.started;
  scheme = codes "https";
  method = connect_method;
  host = host_port;
  path = [];
  request_headers = [];
  request_body = [];
  request_truncated = false;
  status_code = 0;
  response_headers = [];
  response_body = [];
  response_truncated = false;
  intercepted = false;
  error = note;
}

unfoldable pub emit_tunnel : World → Peer → Text → Text → World
unfolding take_id emit
emit_tunnel w peer host_port note =
    let w' = take_id w in emit w' (tunnel_flow w'.last_id peer host_port note)

unfoldable pub hijack_failed : Text → Action
hijack_failed e = refuse (http_error 500 (codes "proxysim: " ++ e))

-- `emits` is the handler's `emit`
unfoldable pub tunnel : Peer → Text → Text → Bool → World → World × List Action
unfolding emit_tunnel hijack_failed
tunnel peer host_port note emits w = elim peer.hijack_error [
  | some e ↦ (w, hijack_failed e ∷ [])
  | none ↦ elim (peer.dial_error host_port) [
    | some e ↦ (
      if emits then emit_tunnel w peer host_port e else w,
      dial host_port ∷ write (codes "HTTP/1.1 502 Bad Gateway\r\n\r\n") ∷ close_client ∷ [],
    )
    | none ↦
        if not peer.established_written
        then (w, dial host_port ∷ write connect_established ∷ close_upstream ∷ close_client ∷ [])
        else (
          if emits then emit_tunnel w peer host_port note else w,
          dial host_port ∷ write connect_established ∷ splice ∷ close_upstream ∷ close_client ∷ [],
        )
  ]
]

-- The absolute URL that the forwarding core expects.
unfoldable pub decrypted : Text → Request → Request
decrypted connect_host r = record r {
  is_abs = true;
  url_host = if is_nil r.host then connect_host else r.host;
}

unfoldable pub serve_decrypted : Server → Text → List (Request × Env) → World → World × List Reply
unfolding decrypted
serve_decrypted s connect_host [] w = (w, [])
serve_decrypted s connect_host ((r, env) ∷ rest) w =
    let (w', reply) = forward s env (decrypted connect_host r) (codes "https") true w in
    let (w'', replies) = serve_decrypted s connect_host rest w' in (w'', reply ∷ replies)

unfoldable pub intercept : Server → Peer → Text → World → World × List Action
unfolding learn emit_tunnel hijack_failed
intercept s peer host_port w = elim peer.hijack_error [
  | some e ↦ (w, hijack_failed e ∷ [])
  | none ↦
      if not peer.established_written
      then (w, write connect_established ∷ close_client ∷ [])
      else elim peer.handshake_error [
        | some e ↦ (
          emit_tunnel (learn w host_port) peer host_port
              (codes "interception refused by client: " ++ e),
          write connect_established ∷ handshake ∷ close_client ∷ [],
        )
        | none ↦
            let (w', replies) = serve_decrypted s host_port peer.requests w in
            (w', write connect_established ∷ handshake ∷ serve replies ∷ [])
      ]
]

unfoldable pub handle_connect :
    (Text → Option Text) → Server → Peer → Request → World → World × List Action
unfolding should_tunnel
handle_connect resolve_tcp s peer r w =
    if not (origin_allows resolve_tcp s r w)
    then tunnel peer r.host [] false w
    else if should_tunnel s w r.host
    then tunnel peer r.host [] true w
    else intercept s peer r.host w

pub data Outcome : Type 0 where
  replied : Reply → Outcome
  connected : List Action → Outcome

abbrev lift_reply : World × Reply → World × Outcome
lift_reply (w, reply) = (w, replied reply)

abbrev lift_actions : World × List Action → World × Outcome
lift_actions (w, actions) = (w, connected actions)

unfoldable pub serve_http :
    (Text → Option Text) → Server → Peer → Env → Request → World → World × Outcome
serve_http resolve_tcp s peer env r w =
    if text_eq r.method connect_method
    then lift_actions (handle_connect resolve_tcp s peer r w)
    else if not r.is_abs || is_nil r.url_host
    then (w, replied (http_error 400 (codes "proxy requires an absolute-form request target")))
    else lift_reply (forward s env r (codes "http") (origin_allows resolve_tcp s r w) w)
