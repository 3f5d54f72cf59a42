-- ===== src/Ui/Control.antt =====
-- `handleGetFilter` and `handleSetFilter` of internal/ui/hub.go. The controller is the one that the
-- proxy reads for every connection.
use proxysim.Prelude.{
  ◌≡◌, refl, ap, Bool, true, false, not, ◌&&◌, ◌||◌, List, Option, none, some, Text, codes, member,
  is_nil, if◌then◌else◌, arith, sort,
}
use proxysim.Strings.{nonblank}
use proxysim.Strings.Order.{text_le}
use proxysim.Origin.{Process, Filter, Controller, build_filter, current, set}
use proxysim.Origin.Laws.{build_filter_decision}
use proxysim.Proxy.Server.{Server, World, Request, Resolver, origin_allows}
use proxysim.Proxy.Connect.Filtered.{origin_allows_verdict}
use proxysim.Ui.Detail.{Answer, http_error, document}

pub record FilterJson : Type 0 where
  pub only_sim : Bool
  pub apps : List Text

unfoldable pub to_filter_json : Filter → FilterJson
to_filter_json f = record { only_sim = f.only_sim; apps = sort text_le f.apps }

abbrev pub disabled {ℓ} : {A : Type ℓ} → Answer A
disabled = http_error 501 (codes "origin control not enabled")

-- `enabled` says whether SetControl was called; the request's body is `none` where it does not parse.
unfoldable pub handle_get_filter : Bool → Controller → Answer FilterJson
handle_get_filter enabled c =
    if not enabled then disabled else document (to_filter_json (current c))

unfoldable pub handle_set_filter :
    Bool → Option FilterJson → Controller → Controller × Answer FilterJson
handle_set_filter enabled body c = elim enabled [
  | false ↦ (c, disabled)
  | true ↦ elim body [
    | none ↦ (c, http_error 400 (codes "invalid filter body"))
    | some b ↦ let f = build_filter b.only_sim b.apps in (set c f, document (to_filter_json f))
  ]
]

-- A tab that loads after a selection is told just what the selecting tab was told.
pub get-set_filter :
    (b : FilterJson) (c : Controller)
    → handle_get_filter true (handle_set_filter true (some b) c).0
      ≡ (handle_set_filter true (some b) c).1
unfolding handle_get_filter handle_set_filter current set
get-set_filter b c = refl

-- A selection takes effect on the next connection: under a server that reads the filter from the
-- controller, a connection attributed to a process is captured exactly as the flags of the selection
-- would decide.
pub set_filter-origin_allows :
    (resolve_tcp : Text → Option Text) (s : Server) (resolve : Resolver) (r : Request) (w : World)
    (b : FilterJson) (remote : Text) (p : Process)
    → s.resolve_origin ≡ some resolve
    → s.filter ≡ current
    → resolve_tcp r.remote_addr ≡ some remote
    → resolve r.local_addr remote ≡ some p
    → origin_allows resolve_tcp s r
        (record w { controller = (handle_set_filter true (some b) w.controller).0 })
      ≡ (if is_nil (nonblank b.apps)
          then p.simulator || not b.only_sim
          else p.simulator && member p.bundle_id (nonblank b.apps))
unfolding handle_set_filter set current
set_filter-origin_allows resolve_tcp s resolve r w b remote p e f g k =
    let chosen : Filter = build_filter b.only_sim b.apps in
    let c : Controller = set w.controller chosen in
    ground (
      arith,
      e,
      g,
      k,
      origin_allows_verdict resolve_tcp s r (record w { controller = c }),
      ap (λ (read : Controller → Filter). read c) f,
      build_filter_decision b.only_sim b.apps p,
    )
