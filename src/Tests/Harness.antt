-- ===== src/Tests/Harness.antt =====
-- A proxy with a service, a server with an expectation, and the theorems on them.
use grcache.Prelude.{
  ℕ, ◌≡◌, ◌↔◌, refl, Bool, true, false, Option, none, some, List, [], ◌∷◌, ◌++◌, Text, text_eq,
  arith, contains, eq_refl, ◌==◌, if◌then◌else◌,
}
use grcache.Prelude.Ascii.{is_utf8}
use grcache.Prelude.Str.{rsplit_once}
use grcache.Service.{Result, ServiceSpec, parse, build_passthrough}
use grcache.Proxy.{Pingora, Session, parse_grpc_path}
use grcache.Dns.{Backend, backend_eq}
use grcache.Tests.{headers, protobuf, pingora, name_a, dotted, other_dotted}
use grcache.Tests.Sources.{sources}
use grcache.TestUtil.{
  ProxyTest, BackendsTest, new, add_entry, add_service_passthrough, set_backends, passthrough, done,
  next,
}
use grcache.TestUtil.Client.{frame, grpc_request, uri_of}
use grcache.TestUtil.Frame.{read_message, read_message-frame, parse_grpc_path-grpc_request}
use grcache.Proxy.Peers.{balanced, requested, Selects}
use grcache.TestUtil.Routes.{services_of}
use grcache.TestUtil.Passing.{add_service_passthrough-requested, refused, passed}
use grcache.TestUtil.MockServer.{
  H2, HandleFn, State, Incoming, new_state, finish, handle_requests, expect_all, empty_message,
}
use grcache.TestUtil.Expectations.{Fulfils, finish-Fulfils}

read_message-frame_example :
    read_message (frame (5 ∷ 6 ∷ []) ++ (7 ∷ [])) ≡ some (5 ∷ 6 ∷ [], 7 ∷ [])
read_message-frame_example = read_message-frame (5 ∷ 6 ∷ []) (7 ∷ []) (omega arith)

abbrev pub proxy : Pingora headers.HeaderMap Unit
proxy = record {
  ReadError = pingora.ReadError;
  Buffer = pingora.Buffer;
  CacheKey = pingora.CacheKey;
  Backend = ℕ;
  SocketAddr = ℕ;
  as_inet = some;
  empty_buffer = pingora.empty_buffer;
  push = pingora.push;
  truncated = pingora.truncated;
  contents = pingora.contents;
  default_key = pingora.default_key;
  select = λ l. none;
}

abbrev pub pick_first : List Backend → Option Backend
pick_first [] = none
pick_first (b ∷ l) = some b

pub pick_first-Selects : Selects pick_first
pick_first-Selects = (refl, λ x l. (x, refl, ground (arith, eq_refl x)))

-- A proxy with the service `p.b`, to which `p.a` is added.
abbrev passthrough_spec : Text → ServiceSpec protobuf
passthrough_spec name = record {
  name = record { package_name = 112 ∷ []; name = name };
  passthrough = true;
  methods = [];
}

abbrev with_b : ProxyTest protobuf sources × BackendsTest
with_b = add_entry protobuf sources other_dotted (passthrough_spec (98 ∷ [])) (new protobuf sources)

abbrev with_both : ProxyTest protobuf sources × BackendsTest
with_both = add_entry protobuf sources dotted (passthrough_spec name_a) with_b.0

added_b : add_service_passthrough protobuf sources other_dotted (new protobuf sources) ≡ some with_b
unfolding add_service_passthrough parse rsplit_once build_passthrough
added_b = refl

added_a : add_service_passthrough protobuf sources dotted with_b.0 ≡ some with_both
unfolding add_service_passthrough parse rsplit_once build_passthrough
added_a = refl

abbrev pub session_of : Text → Session headers protobuf (balanced proxy pick_first)
session_of name = record {
  raw_path = (grpc_request name name_a []).uri;
  req_header = [];
  incoming = Result.ok (grpc_request name name_a []).body ∷ [];
  retry_buffer = none;
  cache_enabled = false;
}

pub path_a : parse_grpc_path (grpc_request dotted name_a []).uri ≡ Result.ok (dotted, name_a)
unfolding is_utf8
path_a = parse_grpc_path-grpc_request dotted name_a [] refl (ground arith) (ground arith)

path_b :
    parse_grpc_path (grpc_request other_dotted name_a []).uri ≡ Result.ok (other_dotted, name_a)
unfolding is_utf8
path_b = parse_grpc_path-grpc_request other_dotted name_a [] refl (ground arith) (ground arith)

abbrev a_backend : Backend
a_backend = record { addr = 1; port = 50051; weight = 1 }

abbrev balanced_a : ProxyTest protobuf sources
balanced_a = set_backends protobuf sources with_both.1 (a_backend ∷ []) with_both.0

add_service_passthrough-requested_example :
    (requested headers protobuf proxy pick_first
        (services_of protobuf sources with_both.0)
        (session_of dotted)
      ≡ refused headers protobuf sources proxy pick_first (session_of dotted))
    × ((b : Backend) × (contains b (a_backend ∷ []) ≡ true)
        × (requested headers protobuf proxy pick_first
              (services_of protobuf sources balanced_a)
              (session_of dotted)
            ≡ passed headers protobuf sources proxy pick_first b (session_of dotted)))
    × (requested headers protobuf proxy pick_first
          (services_of protobuf sources balanced_a)
          (session_of other_dotted)
        ≡ requested headers protobuf proxy pick_first
            (services_of protobuf sources with_b.0)
            (session_of other_dotted))
add_service_passthrough-requested_example =
    add_service_passthrough-requested headers protobuf sources proxy pick_first pick_first-Selects
      with_b.0 dotted with_both
      (next _ _ _ (done _) (passthrough other_dotted (new protobuf sources) with_b added_b)) added_a
      (session_of dotted) name_a path_a other_dotted (session_of other_dotted) name_a (ground arith)
      path_b a_backend []

-- A stream that keeps what is sent.
abbrev h2 : H2
h2 = record {
  Parts = Text;
  HeaderMap = List (Text × Text);
  ReadError = ℕ;
  SendResponse = Bool;
  SendStream = Text;
  path = λ parts. parts;
  new_headers = [];
  send_reset = λ s. false;
  send_response = λ fresh. if fresh then some (false, []) else none;
  send_data = λ body s. some (s ++ body);
  send_trailers = λ trailers s. some s;
}

-- It takes the message, and returns an empty one.
abbrev takes : Text → HandleFn h2
takes message parts body = if body == message then some (empty_message, []) else none

abbrev expectation : Text × Text × HandleFn h2
expectation = (dotted, name_a, takes (frame []))

abbrev a_request : Incoming h2
a_request = record {
  parts = uri_of dotted name_a;
  body = Result.ok (frame []) ∷ [];
  respond = true;
}

finish-Fulfils_example :
    (state : State h2) × (expect_all h2 (expectation ∷ []) (new_state h2) ≡ some state)
    × ((finish h2 (handle_requests h2 (a_request ∷ []) state) ≡ true)
        ↔ Fulfils h2 (a_request ∷ []) (expectation ∷ []))
finish-Fulfils_example = finish-Fulfils h2 (expectation ∷ []) (a_request ∷ [])
