-- ===== src/Proxy/Server/Forward.antt =====
-- What `forward` sends, relays and records, on every branch.
use mathlib.Core.List.{flatten}
use proxysim.Prelude.{
  ℕ, ◌-◌, ◌≡◌, refl, true, false, List, [], ◌∷◌, ◌++◌, Option, none, some, Text, codes, take,
  length, ltb, arith, Option-cases, inl, inr,
}
use proxysim.Flow.{Flow, next_id}
use proxysim.Http.{copy_headers}
use proxysim.Proxy.Capture.{capture_prefix, take_nil}
use proxysim.Proxy.Headers.{remove_hop_by_hop}
use proxysim.Proxy.Server.{
  Server, World, Request, Env, Reply, http_error, relayed, Response, RoundTrip, failed, answered,
  OutRequest, emit, take_id, new_flow, outgoing, request_path, record_request, fail, answer_flow,
  forward,
}

-- The reply to the client does not depend on whether the exchange is captured.
pub forward_uncaptured_reply :
    (s : Server) (env : Env) (r : Request) (scheme : Text) (w : World)
    → ((forward s env r scheme false w).1 ≡ (forward s env r scheme true w).1)
      × ((forward s env r scheme false w).0.emitted ≡ w.emitted)
unfolding forward
forward_uncaptured_reply s env r scheme w = ground arith

-- What became of the request: a request that cannot be built fails before any of its body is read.
abbrev pub outcome : Env → OutRequest → RoundTrip
outcome env out = elim env.build_error [
  | some e ↦ failed 0 (codes "building upstream request: " ++ e)
  | none ↦ env.round_trip out
]

-- the bytes of a request's body in the first `n` chunks
abbrev pub sent_bytes : Option (List Text) → ℕ → Text
sent_bytes none n = []
sent_bytes (some chunks) n = flatten (take n chunks)

-- The request that goes upstream: the client's, without the hop-by-hop headers.
abbrev pub sent : Request → Text → OutRequest
sent r scheme = record {
  method = r.method;
  scheme = scheme;
  host = r.url_host;
  path = r.url_path;
  raw_query = r.raw_query;
  headers = remove_hop_by_hop r.headers;
  body = r.body;
  content_length = r.content_length;
}

-- the path, `/` for none, with the query behind a question mark
abbrev pub shown_path : Text → Text → Text
shown_path [] [] = codes "/"
shown_path [] (q ∷ query) = codes "/?" ++ (q ∷ query)
shown_path (p ∷ path) [] = p ∷ path
shown_path (p ∷ path) (q ∷ query) = (p ∷ path) ++ (b'?' ∷ q ∷ query)

request_path_lem : (r : Request) → request_path r ≡ shown_path r.url_path r.raw_query
unfolding request_path
request_path_lem r = at_parts r.url_path r.raw_query
  where
    at_parts :
        (p q : Text) → request_path (record r { url_path = p; raw_query = q }) ≡ shown_path p q
    at_parts [] [] = refl
    at_parts [] (q ∷ query) = refl
    at_parts (p ∷ path) [] = refl
    at_parts (p ∷ path) (q ∷ query) = refl

-- The request's part of a flow: a fresh id, the method, the scheme, the host, the path with its query,
-- the headers as they were sent, and the first `body_cap` bytes of what was sent of the body, with
-- honest truncation.
pub record RecordsRequest (s : Server) (env : Env) (r : Request) (sent_scheme : Text) (w : World)
    (n : ℕ) (f : Flow) : Type 0 where
  pub fresh : f.id ≡ next_id w.last_id
  pub method : f.method ≡ r.method
  pub scheme : f.scheme ≡ sent_scheme
  pub host : f.host ≡ r.url_host
  pub path : f.path ≡ shown_path r.url_path r.raw_query
  pub headers : f.request_headers ≡ remove_hop_by_hop r.headers
  pub body : f.request_body ≡ take s.body_cap (sent_bytes r.body n)
  pub truncated : f.request_truncated ≡ ltb s.body_cap (length (sent_bytes r.body n))
  pub intercepted : f.intercepted ≡ true
  pub started : f.started ≡ env.started
  pub duration : f.duration ≡ env.finished - env.started

-- A relayed response: the flow has the end-to-end headers and the first `body_cap` bytes, and an
-- error only where the relay broke off.
pub record RecordsAnswer (s : Server) (resp : Response) (f : Flow) : Type 0 where
  pub status : f.status_code ≡ resp.status_code
  pub headers : f.response_headers ≡ remove_hop_by_hop resp.headers
  pub body : f.response_body ≡ take s.body_cap (flatten resp.chunks)
  pub truncated : f.response_truncated ≡ ltb s.body_cap (length (flatten resp.chunks))
  pub error :
      f.error ≡ elim resp.relay_error [ none ↦ [] | some e ↦ codes "relaying response body: " ++ e ]

-- A flow with no response.
pub record RecordsFailure (message : Text) (f : Flow) : Type 0 where
  pub status : f.status_code ≡ 0
  pub headers : f.response_headers ≡ []
  pub body : f.response_body ≡ []
  pub truncated : f.response_truncated ≡ false
  pub error : f.error ≡ message

-- recording the request of a fresh flow
record_request_lem :
    (body_cap : ℕ) (body : Option (List Text)) (n : ℕ) (f : Flow)
    → f.request_body ≡ []
    → f.request_truncated ≡ false
    → ((record_request body_cap body n f).request_body ≡ take body_cap (sent_bytes body n))
      × ((record_request body_cap body n f).request_truncated
          ≡ ltb body_cap (length (sent_bytes body n)))
unfolding record_request
record_request_lem body_cap none n f e t = ground (arith, e, t, take_nil body_cap)
record_request_lem body_cap (some chunks) n f e t =
    ground (arith, capture_prefix body_cap (take n chunks))

record_request_none :
    (body_cap : ℕ) (body : Option (List Text)) (f : Flow)
    → f.request_body ≡ []
    → f.request_truncated ≡ false
    → record_request body_cap body 0 f ≡ f
unfolding record_request flatten
record_request_none body_cap none f e t = refl
record_request_none body_cap (some chunks) f e t =
    ground (arith, e, t, capture_prefix body_cap [], take_nil body_cap)

-- recording the request's body changes nothing else
record KeepsRest (g f : Flow) : Type 0 where
  id : g.id ≡ f.id
  method : g.method ≡ f.method
  scheme : g.scheme ≡ f.scheme
  host : g.host ≡ f.host
  path : g.path ≡ f.path
  started : g.started ≡ f.started
  headers : g.request_headers ≡ f.request_headers
  status : g.status_code ≡ f.status_code
  response_headers : g.response_headers ≡ f.response_headers
  response_body : g.response_body ≡ f.response_body
  response_truncated : g.response_truncated ≡ f.response_truncated
  intercepted : g.intercepted ≡ f.intercepted
  error : g.error ≡ f.error

record_request-KeepsRest :
    (body_cap : ℕ) (body : Option (List Text)) (n : ℕ) (f : Flow)
    → KeepsRest (record_request body_cap body n f) f
unfolding record_request
record_request-KeepsRest body_cap body n f = ground arith

module _ (s : Server) (env : Env) (r : Request) (scheme : Text) (w : World) where
  requested : ℕ → Flow
  requested n =
      record_request s.body_cap r.body n
        (new_flow (next_id w.last_id) env r scheme (remove_hop_by_hop r.headers))

  module _ (n : ℕ) where
    requested-KeepsRest :
        KeepsRest
          (requested n)
          (new_flow (next_id w.last_id) env r scheme (remove_hop_by_hop r.headers))
    unfolding requested
    requested-KeepsRest = record_request-KeepsRest s.body_cap r.body n _

    requested_body :
        ((requested n).request_body ≡ take s.body_cap (sent_bytes r.body n))
        × ((requested n).request_truncated ≡ ltb s.body_cap (length (sent_bytes r.body n)))
    unfolding requested new_flow
    requested_body = record_request_lem s.body_cap r.body n _ refl refl

  -- `forward` by what became of the request
  settle : RoundTrip → World × Reply
  settle (failed n e) = fail (take_id w) env (requested n) e true
  settle (answered n resp) = (
    emit (take_id w) (answer_flow s.body_cap env (requested n) resp),
    relayed resp.status_code (copy_headers [] (remove_hop_by_hop resp.headers)) resp.chunks,
  )

  forward-settle : forward s env r scheme true w ≡ settle (outcome env (sent r scheme))
  unfolding forward settle requested outgoing
  forward-settle = elim (Option-cases env.build_error) [
    | inl e ↦ ground (arith, e)
    | inr (m, e) ↦ ground (
      arith,
      e,
      record_request_none s.body_cap r.body
          (new_flow (next_id w.last_id) env r scheme (remove_hop_by_hop r.headers)) refl refl,
    )
  ]

  -- A captured exchange that fails, in building the request or upstream, emits exactly one flow, with
  -- the error and no response; the client gets a 502.
  pub forward_failed :
      (n : ℕ) (message : Text)
      → outcome env (sent r scheme) ≡ failed n message
      → (f : Flow) × ((forward s env r scheme true w).0.emitted ≡ w.emitted ++ f ∷ [])
        × RecordsRequest s env r scheme w n f
        × RecordsFailure message f
        × ((forward s env r scheme true w).1
            ≡ http_error 502 (codes "proxysim: upstream request failed"))
  unfolding settle emit take_id fail new_flow
  forward_failed n message h =
      rw (forward-settle, h)
        (
          record (requested n) { error = message; duration = env.finished - env.started },
          refl,
          ground (arith, requested-KeepsRest n, requested_body n, request_path_lem r),
          ground (arith, requested-KeepsRest n),
          refl,
        )
