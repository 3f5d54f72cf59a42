-- ===== src/Examples/Interleavings.antt =====
-- internal/proxy with two exchanges whose accesses interleave, up to the detail view of the hub.
use mathlib.Core.List.{Permᴰ}
use proxysim.Prelude.{
  false, true, subst, ℕ, ◌≡◌, refl, sym, List, [], ◌∷◌, Option, some, Text, codes, text_eq, arith,
}
use proxysim.Flow.{Flow}
use proxysim.Flow
use proxysim.Origin.{Filter, Controller, current, build_filter, active, matches}
use proxysim.Proxy.Programs.Unseen.{stays_unseen}
use proxysim.Proxy.Server.{Request, origin_allows, take_id, emit}
use proxysim.Proxy.Programs.{
  seeing_filter, Incoming, proxied, controlled, control_program, serve_program, begin, interleave,
  schedule, advance, forward_program, forward_flow,
}
use proxysim.Proxy.Programs.Distinct.{count, IsNumbered, interleave-IsNumbered}
use proxysim.Ui.Detail.{document, build_detail, handle_detail}
use proxysim.Ui.{meta, push_ring}
use proxysim.Ui.Live.{Act, joins, enters, sends, takes, live, acts, act, enter}
use proxysim.Ui.Live.Atomic.{hub_of}
use proxysim.Ui.Shown.{shown}
use proxysim.Strings.Decimal.{decimal}
use proxysim.Examples.Data.{
  letter_codecs, same_addr, open_server, closed_server, plain_request, connect_request, pinned_peer,
  answering, failing, empty_world,
}

abbrev exchanges : List Incoming
exchanges =
    proxied (record { peer = pinned_peer; env = answering; request = plain_request })
    ∷ proxied (record { peer = pinned_peer; env = failing; request = plain_request })
    ∷ controlled true (some (record { only_sim = true; apps = [] }))
    ∷ []

-- the second handler overtakes the first between its two accesses
abbrev turns : List ℕ
turns = 0 ∷ 0 ∷ 2 ∷ 1 ∷ 1 ∷ 1 ∷ 0 ∷ []

empty-IsNumbered : IsNumbered empty_world
unfolding count
empty-IsNumbered = record { once = λ id. omega arith; above = λ id lt. refl }

interleave-IsNumbered_example :
    IsNumbered (interleave turns (begin same_addr open_server exchanges) empty_world).0
interleave-IsNumbered_example =
    interleave-IsNumbered same_addr open_server exchanges turns empty_world empty-IsNumbered
      (omega arith)

abbrev answered_flow : Flow
answered_flow = forward_flow open_server answering plain_request (codes "http") 1

abbrev failed_flow : Flow
failed_flow = forward_flow open_server failing plain_request (codes "http") 2

emitted_flows :
    (interleave turns (begin same_addr open_server exchanges) empty_world).0.emitted
    ≡ failed_flow ∷ answered_flow ∷ []
unfolding interleave begin control_program serve_program forward_program schedule advance
    origin_allows take_id emit Flow.next_id text_eq
emitted_flows = refl

-- The hub is given the flows in the other order, and the first is sent to the browser behind the recording of the second; the history is 2.
abbrev trace : List Act
trace =
    joins true ∷ enters answered_flow ∷ enters failed_flow ∷ sends 1 0 ∷ takes 0 ∷ sends 0 0 ∷ []

abbrev id_text : Flow → Option Text
id_text f = some (f.id ∷ [])

both_recorded : (acts id_text trace (live 2)).ring ≡ answered_flow ∷ failed_flow ∷ []
unfolding acts act live enter meta push_ring
both_recorded = refl

same_flows :
    Permᴰ
      (answered_flow ∷ failed_flow ∷ [])
      (interleave turns (begin same_addr open_server exchanges) empty_world).0.emitted
same_flows =
    subst (Permᴰ (answered_flow ∷ failed_flow ∷ [])) (sym emitted_flows) (Permᴰ.swap refl refl)

shown_example :
    handle_detail letter_codecs (hub_of (acts id_text trace (live 2))) (decimal failed_flow.id)
    ≡ document (build_detail letter_codecs failed_flow)
shown_example =
    shown same_addr open_server exchanges turns empty_world letter_codecs id_text 2 trace
      failed_flow (answered_flow ∷ []) [] empty-IsNumbered (omega arith) same_flows both_recorded

-- filters under which only the simulator's traffic is captured
abbrev Narrow : Filter → Type 0
Narrow f = f.only_sim ≡ true

kept_out :
    (r : Request) (c : Controller)
    → Narrow (current c)
    → origin_allows same_addr closed_server r (seeing_filter c) ≡ false
unfolding origin_allows active matches
kept_out r c h = ground (arith, h)

abbrev host_traffic : List Incoming
host_traffic =
    proxied (record { peer = pinned_peer; env = answering; request = connect_request })
    ∷ controlled true (some (record { only_sim = true; apps = [] }))
    ∷ proxied (record { peer = pinned_peer; env = answering; request = plain_request })
    ∷ []

stays_unseen_example :
    ((interleave turns (begin same_addr closed_server host_traffic) empty_world).0.emitted ≡ [])
    × ((interleave turns (begin same_addr closed_server host_traffic) empty_world).0.learned ≡ [])
    × Narrow (
        current
          (interleave turns (begin same_addr closed_server host_traffic) empty_world).0.controller)
unfolding current build_filter
stays_unseen_example =
    stays_unseen Narrow same_addr closed_server host_traffic turns empty_world refl
      (kept_out connect_request, (refl, (kept_out plain_request, tt)))
