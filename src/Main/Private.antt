-- ===== src/Main/Private.antt =====
-- Under -system-proxy the traffic of the Mac itself is not looked at.
use mathlib.Core.List.{foldl}
use proxysim.Prelude.{
  ◌≡◌, refl, ap, ◌∙◌, Bool, true, false, List, [], ◌∷◌, Option, none, some, Text, arith,
  Option-cases, inl, inr,
}
use proxysim.Origin.{
  Process, Filter, add_app, build_filter, active, matches, new_controller, current,
}
use proxysim.Proxy.Server.{Server, World, Request, Env, Resolver, origin_allows, new, apply_option}
use proxysim.Proxy.Connect.{Peer, serve_http, handle_connect, tunnel}
use proxysim.Proxy.Connect.Filtered.{filtered_invisible}
use proxysim.Main.{Config, only_sim_of, seed, controller, options, server}

-- Whether a request's connection comes from a simulator, as far as can be told.
abbrev pub from_simulator : (Text → Option Text) → Resolver → Request → Bool
from_simulator resolve_tcp resolve r = elim (resolve_tcp r.remote_addr) [
  | none ↦ false
  | some remote ↦ elim (resolve r.local_addr remote) [ none ↦ false | some p ↦ p.simulator ]
]

add_app_only_sim :
    (f : Filter) (apps : List Text) → f.only_sim ≡ true → (foldl add_app f apps).only_sim ≡ true
unfolding add_app
add_app_only_sim f [] h = h
add_app_only_sim f (a ∷ apps) h = add_app_only_sim (add_app f a) apps (ground (arith, h))

seed_only_sim : (cfg : Config) → cfg.system_proxy ≡ true → (seed cfg).only_sim ≡ true
unfolding seed build_filter
seed_only_sim cfg h =
    add_app_only_sim (record { only_sim = only_sim_of cfg; apps = [] }) cfg.apps (ground (arith, h))

server_resolver :
    (resolve : Resolver) (cfg : Config)
    → active (seed cfg) ≡ true
    → (server resolve cfg).resolve_origin ≡ some resolve
unfolding server options new apply_option
server_resolver resolve cfg h = ground (arith, h)

server_filter :
    (resolve : Resolver) (cfg : Config)
    → active (seed cfg) ≡ true
    → (server resolve cfg).filter (controller cfg) ≡ seed cfg
unfolding server options new apply_option controller current new_controller
server_filter resolve cfg h = ground (arith, h)

only_sim_active : (f : Filter) → f.only_sim ≡ true → active f ≡ true
unfolding active
only_sim_active f h = ground (arith, h)

only_sim_matches :
    (f : Filter) (p : Process) → f.only_sim ≡ true → p.simulator ≡ false → matches f p ≡ false
unfolding matches
only_sim_matches f p h k = ground (arith, h, k)

denied :
    (resolve_tcp : Text → Option Text) (resolve : Resolver) (s : Server) (f : Filter) (r : Request)
    (w : World)
    → s.resolve_origin ≡ some resolve
    → s.filter w.controller ≡ f
    → f.only_sim ≡ true
    → from_simulator resolve_tcp resolve r ≡ false
    → origin_allows resolve_tcp s r w ≡ false
unfolding origin_allows
denied resolve_tcp resolve s f r w e g h k =
    rw (e, origin_allows, g, only_sim_active f h)
      (elim (Option-cases (resolve_tcp r.remote_addr)) [
        | inl n ↦ rw n refl
        | inr (remote, n) ↦ elim (Option-cases (resolve r.local_addr remote)) [
          | inl q ↦ rw (n, q) refl
          | inr (p, q) ↦
              rw (n, q) (ap (λ x. matches x p) g ∙ only_sim_matches f p h (ground (arith, n, q, k)))
        ]
      ])

-- With -system-proxy, whatever the other flags are and while the control bar has not changed the
-- filter: an exchange that does not come from a simulator, or whose process is not found, is no flow
-- and teaches no host, and a CONNECT of it is passed through as a tunnel, without a handshake.
pub system_proxy_private :
    (resolve_tcp : Text → Option Text) (resolve : Resolver) (cfg : Config) (peer : Peer) (env : Env)
    (r : Request) (w : World)
    → cfg.system_proxy ≡ true
    → w.controller ≡ controller cfg
    → from_simulator resolve_tcp resolve r ≡ false
    → let s = server resolve cfg in
      ((serve_http resolve_tcp s peer env r w).0.emitted ≡ w.emitted)
      × ((serve_http resolve_tcp s peer env r w).0.learned ≡ w.learned)
      × (handle_connect resolve_tcp s peer r w ≡ tunnel peer r.host [] false w)
system_proxy_private resolve_tcp resolve cfg peer env r w h c k =
    let only = seed_only_sim cfg h in
    let on = only_sim_active (seed cfg) only in
    let s = server resolve cfg in
    filtered_invisible resolve_tcp s peer env r w (
      denied resolve_tcp resolve s (seed cfg) r w (server_resolver resolve cfg on)
        (ap s.filter c ∙ server_filter resolve cfg on) only k)
