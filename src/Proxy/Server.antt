-- ===== src/Proxy/Server.antt =====
-- internal/proxy/server.go: the server, its options, the origin filter's verdict and the forwarding
-- of one request. The transport, the clock and the resolver of a connection are arguments.
pub mod Forward
use mathlib.Core.List.{foldl}
use proxysim.Prelude.{
  ℕ, ◌-◌, Bool, true, false, not, ◌&&◌, ◌||◌, List, [], ◌∷◌, ◌++◌, Option, none, some, Text, codes,
  take, is_nil, text_eq, if◌then◌else◌,
}
use proxysim.Strings.Signed.{ℤ}
use proxysim.Http.{Header, copy_headers}
use proxysim.Flow.{Flow, next_id, default_body_cap}
use proxysim.Origin.{Process, Filter, Controller, active, matches, current}
use proxysim.Proxy.Headers.{remove_hop_by_hop}
use proxysim.Proxy.Capture.{capture}

-- The address that the proxy accepted on, where the context holds one, and the client's address.
abbrev pub Resolver : Type 0
Resolver = Option Text → Text → Option Process

-- What New and the options fix. `filter` is read for every connection: it may look at the
-- controller that the control bar drives.
pub record Server : Type 0 where
  pub body_cap : ℕ
  pub has_authority : Bool
  pub excluded : List Text
  pub resolve_origin : Option Resolver
  pub filter : Controller → Filter

-- What connections change: the sink's flows in order of arrival, the flow counter, the hosts that
-- refused our leaf, and the controller.
pub record World : Type 0 where
  pub emitted : List Flow
  pub last_id : ℕ
  pub learned : List Text
  pub controller : Controller

pub data ServerOption : Type 0 where
  with_body_cap : ℕ → ServerOption
  with_excluded_hosts : List Text → ServerOption
  with_origin_filter : Option Resolver → Filter → ServerOption
  with_origin_filter_func : Option Resolver → Option (Controller → Filter) → ServerOption

unfoldable pub apply_option : Server → ServerOption → Server
apply_option s (with_body_cap n) = record s { body_cap = n }
apply_option s (with_excluded_hosts suffixes) = record s { excluded = s.excluded ++ suffixes }
apply_option s (with_origin_filter none f) = s
apply_option s (with_origin_filter (some r) f) =
    if active f then record s { resolve_origin = some r; filter = λ _. f } else s
apply_option s (with_origin_filter_func none g) = s
apply_option s (with_origin_filter_func (some r) none) = s
apply_option s (with_origin_filter_func (some r) (some g)) = record s {
  resolve_origin = some r;
  filter = g;
}

unfoldable pub new : Bool → List ServerOption → Server
unfolding apply_option
new has_authority opts = foldl apply_option start opts
  where
    start : Server
    start = record {
      body_cap = default_body_cap;
      has_authority = has_authority;
      excluded = [];
      resolve_origin = none;
      filter = current;
    }

-- A request as the HTTP server hands it over. `body` is what reading it yields, chunk by chunk.
pub record Request : Type 0 where
  pub method : Text
  pub is_abs : Bool
  pub url_host : Text
  pub url_path : Text
  pub raw_query : Text
  pub host : Text
  pub headers : Header
  pub body : Option (List Text)
  pub content_length : ℤ
  pub remote_addr : Text
  pub local_addr : Option Text

-- What is sent upstream.
pub record OutRequest : Type 0 where
  pub method : Text
  pub scheme : Text
  pub host : Text
  pub path : Text
  pub raw_query : Text
  pub headers : Header
  pub body : Option (List Text)
  pub content_length : ℤ

-- An upstream response: `chunks` are what copying it to the client reads until the copy ends, and
-- `relay_error` the error that ended the copy, if one did.
pub record Response : Type 0 where
  pub status_code : ℕ
  pub headers : Header
  pub chunks : List Text
  pub relay_error : Option Text

-- A round trip has read some chunks of the request's body when it returns.
pub data RoundTrip : Type 0 where
  failed : ℕ → Text → RoundTrip
  answered : ℕ → Response → RoundTrip

-- The world outside during one request.
pub record Env : Type 0 where
  pub build_error : Option Text
  pub round_trip : OutRequest → RoundTrip
  pub started : ℕ
  pub finished : ℕ

pub data Reply : Type 0 where
  http_error : ℕ → Text → Reply
  relayed : ℕ → Header → List Text → Reply

unfoldable pub request_path : Request → Text
request_path r =
    let p = if is_nil r.url_path then codes "/" else r.url_path in
    if is_nil r.raw_query then p else p ++ (b'?' ∷ r.raw_query)

unfoldable pub emit : World → Flow → World
emit w f = record w { emitted = w.emitted ++ f ∷ [] }

-- `flow.NextID()`
unfoldable pub take_id : World → World
take_id w = record w { last_id = next_id w.last_id }

-- `net.ResolveTCPAddr` is the first argument; `none` is its error.
unfoldable pub origin_allows : (Text → Option Text) → Server → Request → World → Bool
origin_allows resolve_tcp s r w = elim s.resolve_origin [
  | none ↦ true
  | some resolve ↦
      let f = s.filter w.controller in
      if not (active f) then true else elim (resolve_tcp r.remote_addr) [
        | none ↦ false
        | some remote ↦ elim (resolve r.local_addr remote) [ none ↦ false | some p ↦ matches f p ]
      ]
]

-- the flow as it stands before the upstream is asked
unfoldable pub new_flow : ℕ → Env → Request → Text → Header → Flow
unfolding request_path
new_flow id env r scheme headers = record {
  id = id;
  started = env.started;
  duration = 0;
  scheme = scheme;
  method = r.method;
  host = r.url_host;
  path = request_path r;
  request_headers = headers;
  request_body = [];
  request_truncated = false;
  status_code = 0;
  response_headers = [];
  response_body = [];
  response_truncated = false;
  intercepted = true;
  error = [];
}

unfoldable pub outgoing : Request → Text → Header → OutRequest
outgoing r scheme headers = record {
  method = r.method;
  scheme = scheme;
  host = r.url_host;
  path = r.url_path;
  raw_query = r.raw_query;
  headers = headers;
  body = r.body;
  content_length = r.content_length;
}

-- `f.RequestBody, f.RequestTruncated = reqCapture.result()`, after `n` chunks were read
unfoldable pub record_request : ℕ → Option (List Text) → ℕ → Flow → Flow
record_request body_cap none n f = f
record_request body_cap (some chunks) n f =
    let (body, truncated) = capture body_cap (take n chunks) in
    record f { request_body = body; request_truncated = truncated }

unfoldable pub emit_if : Bool → World → Flow → World
unfolding emit
emit_if capture w f = if capture then emit w f else w

unfoldable pub fail : World → Env → Flow → Text → Bool → World × Reply
unfolding emit_if
fail w env f msg capture = (
  emit_if capture w (record f { error = msg; duration = env.finished - env.started }),
  http_error 502 (codes "proxysim: upstream request failed"),
)

-- the flow of an answered request
unfoldable pub answer_flow : ℕ → Env → Flow → Response → Flow
answer_flow body_cap env f resp =
    let (body, truncated) = capture body_cap resp.chunks in
    record f {
      status_code = resp.status_code;
      response_headers = remove_hop_by_hop resp.headers;
      response_body = body;
      response_truncated = truncated;
      error = elim resp.relay_error [
        | none ↦ f.error
        | some e ↦ codes "relaying response body: " ++ e
      ];
      duration = env.finished - env.started;
    }

unfoldable pub forward : Server → Env → Request → Text → Bool → World → World × Reply
unfolding new_flow outgoing record_request fail answer_flow take_id emit_if
forward s env r scheme capture w =
    let headers = remove_hop_by_hop r.headers in
    let w' = take_id w in
    let f = new_flow w'.last_id env r scheme headers in
    elim env.build_error [
      | some e ↦ fail w' env f (codes "building upstream request: " ++ e) capture
      | none ↦ elim (env.round_trip (outgoing r scheme headers)) [
        | failed n e ↦ fail w' env (record_request s.body_cap r.body n f) e capture
        | answered n resp ↦ (
          emit_if capture w'
              (answer_flow s.body_cap env (record_request s.body_cap r.body n f) resp),
          relayed resp.status_code (copy_headers [] (remove_hop_by_hop resp.headers)) resp.chunks,
        )
      ]
    ]
