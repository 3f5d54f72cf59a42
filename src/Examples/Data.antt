-- ===== src/Examples/Data.antt =====
-- The data of the examples.
use proxysim.Prelude.{ℕ, false, true, [], ◌∷◌, Option, none, some, Text, codes}
use proxysim.Strings.Signed.{pos}
use proxysim.Flow.{Flow}
use proxysim.Flow.Decode.{Codecs, Stream, eof, opened}
use proxysim.Origin.{Process, Filter, current}
use proxysim.Proxy.Server.{Server, World, Request, Resolver, Response, Env, answered, failed}
use proxysim.Proxy.Connect.{Peer}

abbrev pub flow_numbered : ℕ → Flow
flow_numbered n = record {
  id = n;
  started = 0;
  duration = 0;
  scheme = codes "https";
  method = codes "GET";
  host = codes "example.com";
  path = codes "/";
  request_headers = [];
  request_body = codes "secret";
  request_truncated = false;
  status_code = 200;
  response_headers = [];
  response_body = [];
  response_truncated = false;
  intercepted = true;
  error = [];
}

-- every coding puts its own first letter in front
abbrev pub rest_of : Text → Stream
rest_of [] = record { bytes = []; ending = eof }
rest_of (c ∷ s) = record { bytes = s; ending = eof }

abbrev pub letter_codecs : Codecs
letter_codecs = record {
  gzip = λ y. opened (rest_of y);
  zlib = λ y. some (rest_of y);
  flate = rest_of;
  brotli = rest_of;
}

abbrev pub simulated : Process
simulated = record {
  pid = 7;
  path = codes "/x.simruntime/MobileSafari";
  simulator = true;
  device_udid = [];
  bundle_id = codes "com.example.a";
}

-- the filter under which only the simulator's traffic is captured
abbrev pub sim_only : Filter
sim_only = record { only_sim = true; apps = [] }

abbrev pub known_resolver : Resolver
known_resolver local remote = some simulated

abbrev pub host_resolver : Resolver
host_resolver local remote = none

abbrev pub same_addr : Text → Option Text
same_addr t = some t

abbrev pub filtered_server : Server
filtered_server = record {
  body_cap = 4;
  has_authority = true;
  excluded = codes "bank.example" ∷ [];
  resolve_origin = some known_resolver;
  filter = current;
}

abbrev pub open_server : Server
open_server = record {
  body_cap = 4;
  has_authority = true;
  excluded = codes "bank.example" ∷ [];
  resolve_origin = none;
  filter = current;
}

abbrev pub closed_server : Server
closed_server = record {
  body_cap = 4;
  has_authority = true;
  excluded = [];
  resolve_origin = some host_resolver;
  filter = current;
}

abbrev pub empty_world : World
empty_world = record {
  emitted = [];
  last_id = 0;
  learned = [];
  controller = record { p = some sim_only };
}

abbrev pub plain_request : Request
plain_request = record {
  method = codes "POST";
  is_abs = true;
  url_host = codes "example.com";
  url_path = [];
  raw_query = codes "a=1";
  host = codes "example.com";
  headers = (codes "Connection", codes "X-Hop" ∷ []) ∷ (codes "X-Hop", codes "1" ∷ []) ∷ [];
  body = some (codes "hel" ∷ codes "lo" ∷ []);
  content_length = pos 5;
  remote_addr = codes "127.0.0.1:50000";
  local_addr = some (codes "127.0.0.1:8888");
}

abbrev pub connect_request : Request
connect_request = record plain_request {
  method = codes "CONNECT";
  host = codes "pinned.example:8443";
  body = none;
}

abbrev pub ok_response : Response
ok_response = record {
  status_code = 200;
  headers = (codes "Content-Type", codes "text/plain" ∷ []) ∷ [];
  chunks = codes "good" ∷ codes "bye" ∷ [];
  relay_error = none;
}

abbrev pub answering : Env
answering = record {
  build_error = none;
  round_trip = λ out. answered 2 ok_response;
  started = 10;
  finished = 15;
}

abbrev pub failing : Env
failing = record {
  build_error = none;
  round_trip = λ out. failed 1 (codes "connection refused");
  started = 10;
  finished = 15;
}

-- a client that pins its certificate
abbrev pub pinned_peer : Peer
pinned_peer = record {
  hijack_error = none;
  established_written = true;
  dial_error = λ host. none;
  handshake_error = some (codes "bad certificate");
  requests = [];
  started = 0;
  finished = 1;
}
