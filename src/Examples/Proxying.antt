-- ===== src/Examples/Proxying.antt =====
-- internal/proxy at concrete exchanges.
use mathlib.Core.List.{flatten}
use proxysim.Prelude.{
  ◌≡◌, ◌↔◌, ◌⊎◌, refl, true, false, List, [], ◌∷◌, ◌++◌, none, Text, codes, length, take, ltb,
  member, lookup, if◌then◌else◌,
}
use proxysim.Flow.{Flow}
use proxysim.Origin.{active, matches}
use proxysim.Proxy.Headers.{
  hop_by_hop, connection_names, remove_hop_by_hop, lookup-remove_hop_by_hop,
}
use proxysim.Proxy.Capture.{capture, capture_prefix}
use proxysim.Proxy.Server.{forward, origin_allows, http_error}
use proxysim.Proxy.Server.Forward.{RecordsRequest, RecordsFailure, forward_failed}
use proxysim.Proxy.Connect.{hostname, should_tunnel, tunnel, intercept, handle_connect, serve_http}
use proxysim.Proxy.Connect.Hosts.{Excluded, should_tunnel_iff}
use proxysim.Proxy.Connect.Learning.{Exchange, serve_all, refused_then_tunnelled}
use proxysim.Proxy.Connect.Filtered.{filtered_invisible}
use proxysim.Examples.Data.{
  same_addr, open_server, closed_server, empty_world, plain_request, connect_request, ok_response,
  answering, failing, pinned_peer,
}

lookup-remove_hop_by_hop_example :
    lookup (codes "X-Hop") (remove_hop_by_hop plain_request.headers) ≡ (
      if member (codes "X-Hop") (connection_names plain_request.headers ++ hop_by_hop)
      then none
      else lookup (codes "X-Hop") plain_request.headers)
lookup-remove_hop_by_hop_example = lookup-remove_hop_by_hop plain_request.headers (codes "X-Hop")

capture_prefix_example :
    ((capture 4 ok_response.chunks).0 ≡ take 4 (flatten ok_response.chunks))
    × ((capture 4 ok_response.chunks).1 ≡ ltb 4 (length (flatten ok_response.chunks)))
capture_prefix_example = capture_prefix 4 ok_response.chunks

forward_failed_example :
    (f : Flow) × ((forward open_server failing plain_request
        (codes "http")
        true
        empty_world).0.emitted
      ≡ empty_world.emitted ++ f ∷ [])
    × RecordsRequest open_server failing plain_request (codes "http") empty_world 1 f
    × RecordsFailure (codes "connection refused") f
    × ((forward open_server failing plain_request (codes "http") true empty_world).1
        ≡ http_error 502 (codes "proxysim: upstream request failed"))
forward_failed_example =
    forward_failed open_server failing plain_request (codes "http") empty_world 1
      (codes "connection refused") refl

abbrev api_host : Text
api_host = codes "api.bank.example:443"

should_tunnel_iff_example : (should_tunnel open_server empty_world api_host ≡ true) ↔ (
    (open_server.has_authority ≡ false)
    ⊎ Excluded open_server.excluded (hostname api_host)
    ⊎ (member (hostname api_host) empty_world.learned ≡ true))
should_tunnel_iff_example = should_tunnel_iff open_server empty_world api_host

pinned_host : Text
pinned_host = codes "pinned.example:443"

same_hostname : hostname connect_request.host ≡ hostname pinned_host
unfolding hostname pinned_host proxysim.Strings.HostPort.without_port
same_hostname = refl

abbrev one_plain : List Exchange
one_plain = (record { peer = pinned_peer; env = answering; request = plain_request }) ∷ []

refused_then_tunnelled_example :
    handle_connect same_addr open_server pinned_peer connect_request (
      serve_all same_addr open_server one_plain
        (intercept open_server pinned_peer pinned_host empty_world).0)
    ≡ tunnel pinned_peer connect_request.host []
        (origin_allows same_addr open_server connect_request (
          serve_all same_addr open_server one_plain
            (intercept open_server pinned_peer pinned_host empty_world).0))
        (serve_all same_addr open_server one_plain
          (intercept open_server pinned_peer pinned_host empty_world).0)
refused_then_tunnelled_example =
    refused_then_tunnelled same_addr open_server pinned_peer pinned_host (codes "bad certificate")
      empty_world one_plain pinned_peer connect_request refl refl refl same_hostname

closed_to_hosts : origin_allows same_addr closed_server connect_request empty_world ≡ false
unfolding origin_allows active proxysim.Origin.current
closed_to_hosts = refl

filtered_invisible_example :
    ((serve_http same_addr closed_server pinned_peer answering connect_request
        empty_world).0.emitted
      ≡ empty_world.emitted)
    × ((serve_http same_addr closed_server pinned_peer answering connect_request
          empty_world).0.learned
        ≡ empty_world.learned)
    × (handle_connect same_addr closed_server pinned_peer connect_request empty_world
        ≡ tunnel pinned_peer connect_request.host [] false empty_world)
filtered_invisible_example =
    filtered_invisible same_addr closed_server pinned_peer answering connect_request empty_world
      closed_to_hosts
