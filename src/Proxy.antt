-- ===== src/Proxy.antt =====
-- grcache-proxy/src/proxy/mod.rs: the callbacks of `GrpcProxy`. The session's retry buffer, the cache
-- key and the selection of a backend are pingora's, and the parameter `Pingora`. `none` is a panic of
-- an `unwrap`. Spans and log lines are left out.
pub mod Path
pub mod Filter
pub mod Request
pub mod Cache
pub mod Callbacks
pub mod Fresh
pub mod Outcomes
pub mod Peers
pub mod Removal
use grcache.Prelude.{
  ℕ, ◌/◌, Bool, true, false, Option, none, some, List, [], ◌∷◌, Text, text_eq, ◌==◌, if◌then◌else◌,
  is_some,
}
use grcache.Prelude.Map.{Map, lookup}
use grcache.Prelude.Int.{pos, ltb_ℤ, as_i64}
use grcache.Prelude.Ascii.{is_utf8}
use grcache.Prelude.Str.{split}
use grcache.Service.{Result, Protobuf, MethodSpec, ServiceSpec, CacheSpec}
use grcache.Store.{ServiceData, ◌>>=◌}
use grcache.Grpc.{
  Headers, Hasher, ToStrError, make_vary_headers_set, find_strip_headers, hash_vary, hash_body,
  parse_status, is_ok,
}

-- The errors of `parse_grpc_path`.
pub data PathError : Type 0 where
  invalid_utf8 : PathError
  no_leading_slash : PathError
  not_two_elements : PathError

-- `/`
abbrev pub slash : ℕ
slash = 47

-- What follows the empty first part.
unfoldable pub two_elements : List Text → Result (Text × Text) PathError
two_elements [] = Result.err not_two_elements
two_elements (service ∷ []) = Result.err not_two_elements
two_elements (service ∷ method ∷ []) = Result.ok (service, method)
two_elements (service ∷ method ∷ more ∷ parts) = Result.err not_two_elements

unfoldable pub path_parts : List Text → Result (Text × Text) PathError
path_parts [] = Result.err no_leading_slash
path_parts (first ∷ parts) = if first == [] then two_elements parts else Result.err no_leading_slash

unfoldable pub parse_grpc_path : Text → Result (Text × Text) PathError
parse_grpc_path path =
    if is_utf8 path then path_parts (split slash path) else Result.err invalid_utf8

-- What the proxy uses of pingora.
pub record Pingora (HeaderMap LoadBalancer : Type 0) : Type 1 where
  pub ReadError : Type 0
  pub Buffer : Type 0
  pub CacheKey : Type 0
  pub Backend : Type 0
  pub SocketAddr : Type 0
  -- `backend.addr.as_inet()`: other addresses are not of the internet
  pub as_inet : Backend → Option SocketAddr
  -- `enable_retry_buffering`, and the bytes that each read appends
  pub empty_buffer : Buffer
  pub push : Text → Buffer → Buffer
  pub truncated : Buffer → Bool
  -- `get_retry_buffer`
  pub contents : Buffer → Option Text
  -- `CacheKey::default`, of a path and headers
  pub default_key : Text → HeaderMap → CacheKey
  -- `load_balancer_round_robin.select(b"", 256)`
  pub select : LoadBalancer → Option Backend

-- `Duration::as_secs`, of nanoseconds
abbrev pub as_secs : ℕ → ℕ
as_secs duration = duration / 1000000000

module _ (hs : Headers) (p : Protobuf) {LoadBalancer : Type 0}
    (g : Pingora hs.HeaderMap LoadBalancer) where
  open hs use {HeaderMap, remove_header}
  open g use {
    ReadError, Buffer, CacheKey, SocketAddr, as_inet, empty_buffer, push, truncated, contents,
    default_key, select,
  }

  abbrev pub Services : Type 0
  Services = Map Text (ServiceData (ServiceSpec p) LoadBalancer)

  pub record GrpcMeta : Type 0 where
    pub service_data : ServiceData (ServiceSpec p) LoadBalancer
    pub method_name : Text
    pub vary_set : List Text

  pub record RequestCtx : Type 0 where
    pub do_cache : Bool
    pub grpc_meta : Option GrpcMeta

  -- What the callbacks read and write of a `Session`: `incoming` is what the reads of the request body
  -- return, up to its end.
  pub record Session : Type 0 where
    pub raw_path : Text
    pub req_header : HeaderMap
    pub incoming : List (Result Text ReadError)
    pub retry_buffer : Option Buffer
    pub cache_enabled : Bool

  pub data ProxyError : Type 0 where
    http_status : ℕ → ProxyError
    vary_error : ToStrError → ProxyError
    read_error : ReadError → ProxyError

  -- `GrpcProxy::new_ctx`
  abbrev pub new_ctx : RequestCtx
  new_ctx = record { do_cache = false; grpc_meta = none }

  -- `GrpcMeta::method_spec`
  unfoldable pub method_spec : GrpcMeta → Option (MethodSpec p)
  method_spec meta = do spec ← meta.service_data.service_spec; lookup meta.method_name spec.methods

  -- The condition of the `if let`: a cache spec with a TTL above 0.
  unfoldable pub caching : GrpcMeta → Option CacheSpec
  caching meta = do
    m ← method_spec meta
    c ← m.cache_spec
    if ltb_ℤ (pos 0) c.descriptor.cache_ttl then some c else none

  -- The `while let` over `read_request_body`: the error that ends it, what is buffered, and the reads
  -- that are left.
  unfoldable pub read_request_body :
      List (Result Text ReadError)
      → Buffer
      → Option ReadError × Buffer × List (Result Text ReadError)
  read_request_body [] b = (none, b, [])
  read_request_body (Result.ok bytes ∷ l) b = read_request_body l (push bytes b)
  read_request_body (Result.err e ∷ l) b = (some e, b, l)

  -- The loop over `strip_headers`.
  unfoldable pub remove_headers : List Text → HeaderMap → HeaderMap
  remove_headers [] h = h
  remove_headers (header ∷ l) h = remove_headers l (remove_header header h)

  abbrev pub strip : List Text → HeaderMap → HeaderMap
  strip vary_set h = remove_headers (find_strip_headers hs h vary_set []) h

  abbrev pub Outcome : Type 0
  Outcome = Result Bool ProxyError × Session × RequestCtx

  abbrev pub caching_ctx : RequestCtx → RequestCtx
  caching_ctx ctx = record ctx { do_cache = true }

  abbrev pub buffered : Buffer → List (Result Text ReadError) → Session → Session
  buffered b rest s = record s { incoming = rest; retry_buffer = some b }

  abbrev pub stripped : GrpcMeta → Session → Session
  stripped meta s = record s { req_header = strip meta.vary_set s.req_header }

  -- The body of the `if let`, after the request body is read.
  unfoldable pub check_buffer :
      GrpcMeta → Option ReadError → Buffer → Session → RequestCtx → Outcome
  check_buffer meta (some e) b s ctx = (Result.err (read_error e), s, caching_ctx ctx)
  check_buffer meta none b s ctx =
      if truncated b
      then (Result.err (http_status 413), s, caching_ctx ctx)
      else (Result.ok false, stripped meta s, caching_ctx ctx)

  -- The body of the `if let`.
  unfoldable pub prepare_cache : GrpcMeta → Session → RequestCtx → Outcome
  prepare_cache meta s ctx =
      let (error, b, rest) = read_request_body s.incoming empty_buffer in
      check_buffer meta error b (buffered b rest s) ctx

  unfoldable pub with_meta : GrpcMeta → Session → RequestCtx → Outcome
  with_meta meta s ctx = elim (caching meta) [
    | some c ↦ prepare_cache meta s (record ctx { grpc_meta = some meta })
    | none ↦ (Result.ok false, s, record ctx { grpc_meta = some meta })
  ]

  -- `get` and `filter`: a service is only present with a load balancer.
  unfoldable pub present : Text → Services → Option (ServiceData (ServiceSpec p) LoadBalancer)
  present service_name services = do
    service ← lookup service_name services
    if is_some service.load_balancer then some service else none

  unfoldable pub request_filter : Services → Session → RequestCtx → Outcome
  request_filter services s ctx = elim (parse_grpc_path s.raw_path) [
    | Result.err cause ↦ (Result.err (http_status 400), s, ctx)
    | Result.ok (service_name, method) ↦ elim (present service_name services) [
      | none ↦ (Result.err (http_status 404), s, ctx)
      | some service ↦ elim (make_vary_headers_set hs s.req_header) [
        | Result.err e ↦ (Result.err (vary_error e), s, ctx)
        | Result.ok vary_set ↦
            with_meta (record { service_data = service; method_name = method; vary_set = vary_set })
              s ctx
      ]
    ]
  ]

  unfoldable pub request_cache_filter : Session → RequestCtx → Session
  request_cache_filter s ctx = if ctx.do_cache then record s { cache_enabled = true } else s

  -- The key that is hashed is dropped, and pingora's default returned.
  unfoldable pub cache_key_callback : Hasher → Session → RequestCtx → Option CacheKey
  cache_key_callback d s ctx = do
    meta ← ctx.grpc_meta
    buffer ← s.retry_buffer
    request_body ← contents buffer
    let key_hash =
        d.finalize
          (hash_body d s.raw_path request_body (hash_vary d hs meta.vary_set s.req_header d.new))
    some (default_key s.raw_path s.req_header)

  -- `age` is that of the entry that is found, in nanoseconds.
  unfoldable pub cache_hit_filter : ℕ → RequestCtx → Option Bool
  cache_hit_filter age ctx = do
    meta ← ctx.grpc_meta
    m ← method_spec meta
    c ← m.cache_spec
    some (ltb_ℤ (as_i64 (as_secs age)) c.descriptor.cache_ttl)

  unfoldable pub upstream_response_body_filter : Bool → Session → Session
  upstream_response_body_filter end_of_stream s =
      if end_of_stream then record s { cache_enabled = false } else s

  unfoldable pub upstream_response_trailer_filter : HeaderMap → Session → Session
  upstream_response_trailer_filter trailers s = elim (parse_status hs trailers) [
    | Result.err error ↦ record s { cache_enabled = false }
    | Result.ok status ↦ if is_ok status then s else record s { cache_enabled = false }
  ]

  -- The address of the peer.
  unfoldable pub upstream_peer : RequestCtx → Option (Result SocketAddr ProxyError)
  upstream_peer ctx = do
    meta ← ctx.grpc_meta
    load_balancer ← meta.service_data.load_balancer
    elim (select load_balancer) [
      | some backend ↦ do inet ← as_inet backend; some (Result.ok inet)
      | none ↦ some (Result.err (http_status 502))
    ]
