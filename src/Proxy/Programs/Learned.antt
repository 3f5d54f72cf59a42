-- ===== src/Proxy/Programs/Learned.antt =====
-- The learned hosts of internal/proxy/connect.go, under interleaved handlers.
use proxysim.Prelude.{ℕ, zero, suc, ◌≡◌, true, List, [], ◌∷◌, Text, arith}
use proxysim.Proxy.Server.{Server, World, take_id, emit}
use proxysim.Proxy.Connect.{should_tunnel}
use proxysim.Proxy.Connect.Learning.{should_tunnel-learn}
use proxysim.Proxy.Programs.{
  Program, done, read_filter, read_learned, learn_host, next_id, emit_flow, write_filter, Process,
  advance, schedule, interleave,
}

module _ (s : Server) (host : Text) where
  abbrev Tunnels : World → Type 0
  Tunnels w = should_tunnel s w host ≡ true

  advance-Tunnels :
      (q : Program) (p : Process) (w : World)
      → Tunnels w
      → Tunnels (advance (record p { program = q }) w).0
  unfolding advance take_id emit should_tunnel
  advance-Tunnels done p w h = h
  advance-Tunnels (read_filter k) p w h = h
  advance-Tunnels (read_learned k) p w h = h
  advance-Tunnels (learn_host host_port k) p w h =
      ground (arith, h, should_tunnel-learn s w host_port host)
  advance-Tunnels (next_id k) p w h = h
  advance-Tunnels (emit_flow f k) p w h = h
  advance-Tunnels (write_filter f k) p w h = h

  schedule-Tunnels :
      (n : ℕ) (ps : List Process) (w : World) → Tunnels w → Tunnels (schedule n ps w).0
  unfolding schedule
  schedule-Tunnels n [] w h = h
  schedule-Tunnels zero (p ∷ ps) w h = advance-Tunnels p.program p w h
  schedule-Tunnels (suc n) (p ∷ ps) w h = schedule-Tunnels n ps w h

  -- A target that is tunnelled, as its host was learned or for another reason, is tunnelled in every
  -- later state, however the accesses of any handlers interleave: none unlearns a host.
  pub interleave-Tunnels :
      (ns : List ℕ) (ps : List Process) (w : World)
      → should_tunnel s w host ≡ true
      → should_tunnel s (interleave ns ps w).0 host ≡ true
  unfolding interleave
  interleave-Tunnels [] ps w h = h
  interleave-Tunnels (n ∷ ns) ps w h =
      let (w', ps') = schedule n ps w in interleave-Tunnels ns ps' w' (schedule-Tunnels n ps w h)
