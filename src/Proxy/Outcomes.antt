-- ===== src/Proxy/Outcomes.antt =====
-- The outcomes of `request_filter` of grcache-proxy/src/proxy/mod.rs, by what the request and the
-- services hold.
use grcache.Prelude.{
  ℕ, suc, ◌≡◌, true, false, ◌&&◌, Option, none, some, List, [], ◌∷◌, ◌++◌, map, Text, text_eq, ◌⊎◌,
  contains,
}
use grcache.Prelude.Map.{lookup}
use grcache.Prelude.Int.{pos}
use grcache.Prelude.Ascii.{is_utf8}
use grcache.Service.{Result, Protobuf, CacheSpec, MethodSpec, ServiceSpec}
use grcache.Store.{ServiceData}
use grcache.Grpc.{Headers, keep_header, make_vary_headers_set}
use grcache.Proxy.{
  Pingora, Services, GrpcMeta, RequestCtx, Session, http_status, vary_error, read_error, new_ctx,
  Outcome,
}
use grcache.Proxy.Path.{IsGrpcPath}

module _ (hs : Headers) (p : Protobuf) {LoadBalancer : Type 0}
    (g : Pingora hs.HeaderMap LoadBalancer) where
  -- The path is UTF-8, and a service and a method behind slashes.
  abbrev pub Names : Session hs p g → Text → Text → Type 0
  Names s service method = (is_utf8 s.raw_path ≡ true) × IsGrpcPath s.raw_path service method

  -- A service that is absent or has no load balancer.
  abbrev pub IsAbsent : Services hs p g → Text → Type 0
  IsAbsent services service =
      (e : ServiceData (ServiceSpec p) LoadBalancer)
      → lookup service services ≡ some e
      → e.load_balancer ≡ none

  -- The service has a spec with the method, whose cache spec has a TTL above 0.
  abbrev pub HasTtl : GrpcMeta hs p g → CacheSpec → Type 0
  HasTtl meta c =
      (spec : ServiceSpec p) × (m : MethodSpec p) × (n : ℕ) × (meta.service_data.service_spec
        ≡ some spec)
      × (lookup meta.method_name spec.methods ≡ some m)
      × (m.cache_spec ≡ some c)
      × (c.descriptor.cache_ttl ≡ pos (suc n))

  -- The buffer, with the chunks of a body appended.
  abbrev pub pushed : List Text → g.Buffer → g.Buffer
  pushed [] b = b
  pushed (bytes ∷ l) b = pushed l (g.push bytes b)

  abbrev pub reads : List Text → List (Result Text g.ReadError)
  reads chunks = map Result.ok chunks

  -- The entry that the meta has is that of the service of the path, and has a load balancer.
  abbrev pub Finds : Services hs p g → Session hs p g → GrpcMeta hs p g → Type 0
  Finds services s meta =
      (service : Text) × (load_balancer : LoadBalancer) × Names s service meta.method_name
      × (lookup service services ≡ some meta.service_data)
      × (meta.service_data.load_balancer ≡ some load_balancer)
      × (make_vary_headers_set hs s.req_header ≡ Result.ok meta.vary_set)

  -- The request goes upstream as it is.
  abbrev pub GoesOn : GrpcMeta hs p g → Session hs p g → Session hs p g → RequestCtx hs p g → Type 0
  GoesOn meta s s' ctx' = ((c : CacheSpec) → HasTtl meta c → ⊥) × (ctx'.do_cache ≡ false) × (s' ≡ s)

  -- The whole body is buffered, and only the core headers and those of the vary set are left.
  abbrev pub IsPrepared :
      GrpcMeta hs p g → Session hs p g → Session hs p g → RequestCtx hs p g → Type 0
  IsPrepared meta s s' ctx' =
      (c : CacheSpec) × (chunks : List Text) × HasTtl meta c
      × (s.incoming ≡ reads chunks)
      × (g.truncated (pushed chunks g.empty_buffer) ≡ false)
      × (s'.retry_buffer ≡ some (pushed chunks g.empty_buffer))
      × (ctx'.do_cache ≡ true)
      × ((k : Text)
          → contains k (hs.keys s'.req_header)
            ≡ (contains k (hs.keys s.req_header) && keep_header hs meta.vary_set [] k))

  -- What the filter returns of a request whose service is there.
  abbrev pub Handles : GrpcMeta hs p g → Session hs p g → Outcome hs p g → Type 0
  Handles meta s (Result.ok b, s', ctx') =
      (b ≡ false)
      × (ctx'.grpc_meta ≡ some meta)
      × (GoesOn meta s s' ctx' ⊎ IsPrepared meta s s' ctx')
  Handles meta s (Result.err (http_status n), s', ctx') =
      (n ≡ 413)
      × (c : CacheSpec) × (chunks : List Text) × HasTtl meta c
      × (s.incoming ≡ reads chunks)
      × (g.truncated (pushed chunks g.empty_buffer) ≡ true)
  Handles meta s (Result.err (vary_error e), s', ctx') = ⊥
  Handles meta s (Result.err (read_error e), s', ctx') =
      (c : CacheSpec) × (chunks : List Text) × (rest : List (Result Text g.ReadError)) × HasTtl meta
        c
      × (s.incoming ≡ reads chunks ++ Result.err e ∷ rest)

  abbrev pub IsHandled : Services hs p g → Session hs p g → Outcome hs p g → Type 0
  IsHandled services s o =
      (((service method : Text) → Names s service method → ⊥)
        × (o ≡ (Result.err (http_status 400), s, new_ctx hs p g)))
      ⊎ (((service : Text) × (method : Text) × Names s service method
            × IsAbsent services service
            × (o ≡ (Result.err (http_status 404), s, new_ctx hs p g)))
          ⊎ ((meta : GrpcMeta hs p g) × Finds services s meta × Handles meta s o))

  -- What the loop over the body returns says what it has read.
  abbrev Read :
      List (Result Text g.ReadError)
      → g.Buffer
      → Option g.ReadError × g.Buffer × List (Result Text g.ReadError)
      → Type 0
  Read incoming b (none, b', rest) =
      (chunks : List Text) × (incoming ≡ reads chunks) × (b' ≡ pushed chunks b)
  Read incoming b (some e, b', rest) =
      (chunks : List Text) × (incoming ≡ reads chunks ++ Result.err e ∷ rest)
