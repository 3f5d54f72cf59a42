-- ===== src/Examples/Hubs.antt =====
-- internal/ui at a hub of two places and one browser.
use proxysim.Prelude.{
  ℕ, ◌≡◌, refl, true, false, not, ◌&&◌, ◌||◌, List, [], ◌∷◌, Option, some, Text, codes, is_nil, ltb,
  if◌then◌else◌, member,
}
use proxysim.Http.{Header}
use proxysim.Strings.{nonblank}
use proxysim.Flow.{Flow}
use proxysim.Proxy.Server.{origin_allows}
use proxysim.Ui.{Op, emits, connects, receives, new, run}
use proxysim.Ui.Ring.{last_of, recorded, ring-eq-last}
use proxysim.Ui.Control.{FilterJson, handle_set_filter, set_filter-origin_allows}
use proxysim.Examples.Data.{
  flow_numbered, simulated, plain_request, filtered_server, empty_world, known_resolver, same_addr,
}

abbrev id_text : Flow → Option Text
id_text f = some (f.id ∷ [])

abbrev session : List Op
session =
    connects 1
    ∷ emits (flow_numbered 1)
    ∷ emits (flow_numbered 2)
    ∷ receives 1
    ∷ emits (flow_numbered 3)
    ∷ []

ring-eq-last_example :
    (run id_text (new 2) session).ring
    ≡ last_of (if ltb 2 1 then 1 else 2) (recorded id_text session)
ring-eq-last_example = ring-eq-last id_text 2 session

abbrev three_flows : List Flow
three_flows = flow_numbered 1 ∷ flow_numbered 2 ∷ flow_numbered 3 ∷ []

abbrev rounds : List (ℕ × Text)
rounds = (0, codes "a") ∷ (2, codes "b") ∷ (2, codes "c") ∷ []

abbrev gzip_header : Header
gzip_header = (codes "Content-Encoding", codes "gzip" ∷ []) ∷ []

abbrev chosen : FilterJson
chosen = record { only_sim = false; apps = codes "com.example.a" ∷ [] }

set_filter-origin_allows_example :
    origin_allows same_addr filtered_server plain_request (record empty_world {
      controller = (handle_set_filter true (some chosen) empty_world.controller).0;
    })
    ≡ (if is_nil (nonblank chosen.apps)
        then simulated.simulator || not chosen.only_sim
        else simulated.simulator && member simulated.bundle_id (nonblank chosen.apps))
set_filter-origin_allows_example =
    set_filter-origin_allows same_addr filtered_server known_resolver plain_request empty_world
      chosen (codes "127.0.0.1:50000") simulated refl refl refl refl
