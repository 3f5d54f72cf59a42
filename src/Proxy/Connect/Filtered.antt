-- ===== src/Proxy/Connect/Filtered.antt =====
-- What the origin filter keeps from being captured.
use proxysim.Prelude.{
  ℕ, ◌+◌, ◌≡◌, is_some, ◌&&◌, Bool-cases, true, false, not, List, [], ◌∷◌, ◌++◌, Option, none, some,
  Text, codes, length, length-append, if◌then◌else◌, arith, Option-cases, inl, inr,
}
use proxysim.Flow.{Flow}
use proxysim.Origin.{Process, active, matches}
use proxysim.Origin.Laws.{active-matches}
use proxysim.Proxy.Server.{Server, World, Request, Env, origin_allows, forward}
use proxysim.Proxy.Connect.Learning.{learned-tunnel, learned-forward}
use proxysim.Proxy.Server.Forward.{forward_uncaptured_reply}
use proxysim.Proxy.Connect.{
  Peer, should_tunnel, emit_tunnel, tunnel, decrypted, serve_decrypted, intercept, handle_connect,
  serve_http,
}

-- The process that a connection is attributed to, where both addresses and the process resolve.
abbrev pub attributed : (Text → Option Text) → Server → Request → Option Process
attributed resolve_tcp s r = elim s.resolve_origin [
  | none ↦ none
  | some resolve ↦ elim (resolve_tcp r.remote_addr) [
    | none ↦ none
    | some remote ↦ resolve r.local_addr remote
  ]
]

-- A connection whose process is known is captured exactly when the filter in force accepts the
-- process, and an unattributed one exactly when the filter is inactive or there is none: not
-- resolving the origin under an inactive filter changes no verdict.
pub origin_allows_verdict :
    (resolve_tcp : Text → Option Text) (s : Server) (r : Request) (w : World)
    → origin_allows resolve_tcp s r w ≡ elim (attributed resolve_tcp s r) [
      | some p ↦ matches (s.filter w.controller) p
      | none ↦ not (is_some s.resolve_origin && active (s.filter w.controller))
    ]
unfolding origin_allows
origin_allows_verdict resolve_tcp s r w = elim (Option-cases s.resolve_origin) [
  | inl e ↦ ground (arith, e)
  | inr (resolve, e) ↦ elim (Option-cases (resolve_tcp r.remote_addr)) [
    | inl f ↦ ground (arith, e, f)
    | inr (remote, f) ↦ elim (Option-cases (resolve r.local_addr remote)) [
      | inl g ↦ ground (arith, e, f, g)
      | inr (p, g) ↦ elim (Bool-cases (active (s.filter w.controller))) [
        | inl a ↦ ground (arith, e, f, g, a)
        | inr a ↦ ground (arith, e, f, g, a, (active-matches (s.filter w.controller)).0 a p)
      ]
    ]
  ]
]

emitted-tunnel :
    (peer : Peer) (host_port : Text) (w : World)
    → (tunnel peer host_port [] false w).0.emitted ≡ w.emitted
unfolding tunnel
emitted-tunnel peer host_port w = ground arith

-- An exchange of a process that the filter does not let through shows nothing and teaches nothing:
-- no flow is emitted and no host is learned, and a CONNECT is passed through as a tunnel, without a
-- handshake of ours.
pub filtered_invisible :
    (resolve_tcp : Text → Option Text) (s : Server) (peer : Peer) (env : Env) (r : Request)
    (w : World)
    → origin_allows resolve_tcp s r w ≡ false
    → ((serve_http resolve_tcp s peer env r w).0.emitted ≡ w.emitted)
      × ((serve_http resolve_tcp s peer env r w).0.learned ≡ w.learned)
      × (handle_connect resolve_tcp s peer r w ≡ tunnel peer r.host [] false w)
unfolding serve_http handle_connect
filtered_invisible resolve_tcp s peer env r w h = (
  ground (
    arith,
    h,
    emitted-tunnel peer r.host w,
    (forward_uncaptured_reply s env r (codes "http") w).1,
  ),
  ground (
    arith,
    h,
    learned-tunnel peer r.host [] false w,
    learned-forward s env r (codes "http") false w,
  ),
  ground (arith, h),
)

-- Turning the capture off changes nothing that the client or the upstream sees of a tunnel.
tunnel_actions :
    (peer : Peer) (host_port note : Text) (w : World)
    → (tunnel peer host_port note false w).1 ≡ (tunnel peer host_port note true w).1
unfolding tunnel
tunnel_actions peer host_port note w = ground arith

-- The flows that a CONNECT shows: none of a filtered process; one of a tunnel that was set up or
-- whose dial failed; one of an interception that the client refused; and one for each decrypted
-- request of an interception that it accepted.
abbrev pub tunnel_flows : Peer → Text → ℕ
tunnel_flows peer host_port = elim peer.hijack_error [
  | some e ↦ 0
  | none ↦ elim (peer.dial_error host_port) [
    | some e ↦ 1
    | none ↦ if peer.established_written then 1 else 0
  ]
]

abbrev pub intercept_flows : Peer → ℕ
intercept_flows peer = elim peer.hijack_error [
  | some e ↦ 0
  | none ↦
      if peer.established_written
      then elim peer.handshake_error [ some e ↦ 1 | none ↦ length peer.requests ]
      else 0
]

length_snoc : (xs : List Flow) (f : Flow) → length (xs ++ f ∷ []) ≡ length xs + 1
length_snoc xs f = omega (arith, length-append xs (f ∷ []))

shown-forward :
    (s : Server) (env : Env) (r : Request) (scheme : Text) (w : World)
    → length (forward s env r scheme true w).0.emitted ≡ length w.emitted + 1
unfolding forward
shown-forward s env r scheme w = grind (arith, length_snoc)

shown-serve_decrypted :
    (s : Server) (connect_host : Text) (requests : List (Request × Env)) (w : World)
    → length (serve_decrypted s connect_host requests w).0.emitted
      ≡ length w.emitted + length requests
unfolding serve_decrypted
shown-serve_decrypted s connect_host [] w = omega arith
shown-serve_decrypted s connect_host ((r, env) ∷ rest) w =
    let w' : World = (forward s env (decrypted connect_host r) (codes "https") true w).0 in
    omega (
      arith,
      shown-serve_decrypted s connect_host rest w',
      shown-forward s env (decrypted connect_host r) (codes "https") w,
    )

shown-emit_tunnel :
    (w : World) (peer : Peer) (host_port note : Text)
    → length (emit_tunnel w peer host_port note).emitted ≡ length w.emitted + 1
unfolding emit_tunnel
shown-emit_tunnel w peer host_port note = length_snoc w.emitted _

shown-tunnel :
    (peer : Peer) (host_port : Text) (w : World)
    → length (tunnel peer host_port [] true w).0.emitted
      ≡ length w.emitted + tunnel_flows peer host_port
unfolding tunnel
shown-tunnel peer host_port w = grind (arith, length_snoc)

shown-intercept :
    (s : Server) (peer : Peer) (host_port : Text) (w : World)
    → length (intercept s peer host_port w).0.emitted ≡ length w.emitted + intercept_flows peer
unfolding intercept
shown-intercept s peer host_port w =
    grind (arith, length_snoc, shown-serve_decrypted s host_port peer.requests w)

-- A CONNECT shows exactly the flows that its case calls for.
pub shown-handle_connect :
    (resolve_tcp : Text → Option Text) (s : Server) (peer : Peer) (r : Request) (w : World)
    → length (handle_connect resolve_tcp s peer r w).0.emitted
      ≡ length w.emitted
        + (if not (origin_allows resolve_tcp s r w)
            then 0
            else if should_tunnel s w r.host
            then tunnel_flows peer r.host
            else intercept_flows peer)
unfolding handle_connect
shown-handle_connect resolve_tcp s peer r w = ground (
  arith,
  shown-tunnel peer r.host w,
  shown-intercept s peer r.host w,
  emitted-tunnel peer r.host w,
)
