-- ===== src/Proxy/Request.antt =====
-- The outcomes of `request_filter` of grcache-proxy/src/proxy/mod.rs.
use mathlib.Core.Path.{subst}
use grcache.Prelude.{
  ◌≡◌, refl, ap, sym, ◌∙◌, Bool, true, false, ◌&&◌, Option, none, some, List, [], Text, text_eq,
  arith, Option-cases, Bool-cases, inl, inr, ◌⊎◌, contains, is_some,
}
use grcache.Prelude.Map.{lookup}
use grcache.Service.{Result, Result-cases, Protobuf, CacheSpec, ServiceSpec}
use grcache.Grpc.Strip.{make_vary_headers_set-names}
use mathlib.Core.Option.{some-injective}
use grcache.Store.{ServiceData, ◌>>=◌}
use grcache.Grpc.{Headers, keep_header, make_vary_headers_set}
use grcache.Proxy.{
  PathError, parse_grpc_path, Pingora, Services, GrpcMeta, RequestCtx, Session, http_status,
  vary_error, read_error, new_ctx, caching, read_request_body, strip, Outcome, check_buffer,
  prepare_cache, with_meta, present, request_filter,
}
use grcache.Proxy.Filter.{keys-strip, get_all-strip}

module _ (hs : Headers) (p : Protobuf) {LoadBalancer : Type 0}
    (g : Pingora hs.HeaderMap LoadBalancer) where
  -- The path names a service that is present, with a load balancer, and the meta is that of the
  -- request.
  abbrev pub Accepts : Services hs p g → Session hs p g → GrpcMeta hs p g → Type 0
  Accepts services s meta =
      (service_name : Text) × (parse_grpc_path s.raw_path
        ≡ Result.ok (service_name, meta.method_name))
      × (lookup service_name services ≡ some meta.service_data)
      × (is_some meta.service_data.load_balancer ≡ true)
      × (make_vary_headers_set hs s.req_header ≡ Result.ok meta.vary_set)

  -- The path names a service that is missing, or has no load balancer.
  abbrev pub IsUnknown : Services hs p g → Session hs p g → Type 0
  IsUnknown services s =
      (service_name : Text) × (method : Text) × (parse_grpc_path s.raw_path
        ≡ Result.ok (service_name, method))
      × (present hs p g service_name services ≡ none)

  -- The whole request body, as it is buffered.
  abbrev pub body_read :
      Session hs p g → Option g.ReadError × g.Buffer × List (Result Text g.ReadError)
  body_read s = read_request_body hs p g s.incoming g.empty_buffer

  -- The request goes upstream as it is, without the cache.
  abbrev pub IsPassed :
      GrpcMeta hs p g → Session hs p g → Session hs p g → RequestCtx hs p g → Type 0
  IsPassed meta s s' ctx' = (caching hs p g meta ≡ none) × (ctx'.do_cache ≡ false) × (s' ≡ s)

  -- The request is stripped, and its body buffered.
  abbrev pub IsCached :
      GrpcMeta hs p g → Session hs p g → Session hs p g → RequestCtx hs p g → Type 0
  IsCached meta s s' ctx' =
      (c : CacheSpec) × (b : g.Buffer) × (rest : List (Result Text g.ReadError)) × (caching hs p g
          meta
        ≡ some c)
      × (body_read s ≡ (none, b, rest))
      × (g.truncated b ≡ false)
      × (ctx'.do_cache ≡ true)
      × (s'.retry_buffer ≡ some b)
      × (s'.req_header ≡ strip hs p g meta.vary_set s.req_header)

  -- The method is cached, and its body is read up to an error or to a buffer that is truncated.
  abbrev pub IsRefused : GrpcMeta hs p g → Session hs p g → Option g.ReadError → Bool → Type 0
  IsRefused meta s error truncated =
      (c : CacheSpec) × (b : g.Buffer) × (rest : List (Result Text g.ReadError)) × (caching hs p g
          meta
        ≡ some c)
      × (body_read s ≡ (error, b, rest))
      × (g.truncated b ≡ truncated)

  -- Why `with_meta` returns what it returns.
  abbrev pub Explains : GrpcMeta hs p g → Session hs p g → Outcome hs p g → Type 0
  Explains meta s (Result.ok b, s', ctx') =
      (b ≡ false)
      × (ctx'.grpc_meta ≡ some meta)
      × (IsPassed meta s s' ctx' ⊎ IsCached meta s s' ctx')
  Explains meta s (Result.err (http_status n), s', ctx') = (n ≡ 413) × IsRefused meta s none true
  Explains meta s (Result.err (vary_error e), s', ctx') = ⊥
  Explains meta s (Result.err (read_error e), s', ctx') =
      (c : CacheSpec) × (b : g.Buffer) × (rest : List (Result Text g.ReadError)) × (caching hs p g
          meta
        ≡ some c)
      × (body_read s ≡ (some e, b, rest))

  check_buffer-Explains :
      (meta : GrpcMeta hs p g) (s : Session hs p g) (c : CacheSpec) (error : Option g.ReadError)
      (b : g.Buffer) (rest : List (Result Text g.ReadError))
      → caching hs p g meta ≡ some c
      → body_read s ≡ (error, b, rest)
      → Explains meta s (
          check_buffer hs p g meta error b
            (record s { incoming = rest; retry_buffer = some b })
            (record { do_cache = false; grpc_meta = some meta }))
  unfolding check_buffer
  check_buffer-Explains meta s c (some e) b rest cached read = (c, b, rest, cached, read)
  check_buffer-Explains meta s c none b rest cached read = elim (Bool-cases (g.truncated b)) [
    | inl t ↦ rw t (refl, (c, b, rest, cached, read, t))
    | inr t ↦ rw t (refl, refl, inr (c, b, rest, cached, read, t, refl, refl, refl))
  ]

  with_meta-Explains :
      (meta : GrpcMeta hs p g) (s : Session hs p g)
      → Explains meta s (with_meta hs p g meta s (new_ctx hs p g))
  unfolding with_meta prepare_cache
  with_meta-Explains meta s = elim (Option-cases (caching hs p g meta)) [
    | inl e ↦
        let out : with_meta hs p g meta s (new_ctx hs p g)
            ≡ (Result.ok false, s, record { do_cache = false; grpc_meta = some meta }) =
          rw (e, with_meta) refl in
        subst (Explains meta s) (sym out) (refl, refl, inl (e, refl, refl))
    | inr (c, e) ↦
        let (error, b, rest) = body_read s in
        let out : with_meta hs p g meta s (new_ctx hs p g)
            ≡ check_buffer hs p g meta error b (record s { incoming = rest; retry_buffer = some b })
                (record { do_cache = false; grpc_meta = some meta }) =
          rw (e, with_meta) refl in
        subst (Explains meta s) (sym out) (check_buffer-Explains meta s c error b rest e refl)
  ]

  -- The outcomes of a request.
  abbrev pub IsOutcome : Services hs p g → Session hs p g → Outcome hs p g → Type 0
  IsOutcome services s o =
      ((c : PathError) × (parse_grpc_path s.raw_path ≡ Result.err c)
        × (o ≡ (Result.err (http_status 400), s, new_ctx hs p g)))
      ⊎ ((IsUnknown services s × (o ≡ (Result.err (http_status 404), s, new_ctx hs p g)))
          ⊎ ((meta : GrpcMeta hs p g) × Accepts services s meta × Explains meta s o))

  present-eq-some :
      (name : Text) (services : Services hs p g) (entry : ServiceData (ServiceSpec p) LoadBalancer)
      → present hs p g name services ≡ some entry
      → (lookup name services ≡ some entry) × (is_some entry.load_balancer ≡ true)
  unfolding present
  present-eq-some name services entry h = elim (Option-cases (lookup name services)) [
    | inl e ↦ absurd (ground arith)
    | inr (v, e) ↦ elim (Bool-cases (is_some v.load_balancer)) [
      | inl t ↦
          let same : v ≡ entry = some-injective _ _ (rw (e, ◌>>=◌, t) at h) in
          (e ∙ ap some same, subst (λ x. is_some x.load_balancer ≡ true) same t)
      | inr t ↦ absurd (ground arith)
    ]
  ]

  -- The outcomes of `request_filter` with a fresh context, by the steps that lead to them.
  pub request_filter-IsOutcome :
      (services : Services hs p g) (s : Session hs p g)
      → IsOutcome services s (request_filter hs p g services s (new_ctx hs p g))
  unfolding request_filter
  request_filter-IsOutcome services s = elim (Result-cases (parse_grpc_path s.raw_path)) [
    | inr (c, e) ↦ inl (c, e, rw (e, request_filter) refl)
    | inl ((service_name, method), e) ↦ elim (Option-cases (present hs p g service_name services)) [
      | inl f ↦ inr (inl ((service_name, method, e, f), rw (e, f, request_filter) refl))
      | inr (entry, f) ↦
          let (vary_set, v, _) = make_vary_headers_set-names hs s.req_header in
          let (found, balanced) = present-eq-some service_name services entry f in
          let meta : GrpcMeta hs p g = record {
            service_data = entry;
            method_name = method;
            vary_set = vary_set;
          } in
          let out : request_filter hs p g services s (new_ctx hs p g)
              ≡ with_meta hs p g meta s (new_ctx hs p g) =
            rw (e, f, v, request_filter) refl in
          inr (
            inr (
              meta,
              (service_name, e, found, balanced, v),
              subst (Explains meta s) (sym out) (with_meta-Explains meta s),
            ))
    ]
  ]

  pub outcome_ok :
      (services : Services hs p g) (s s' : Session hs p g) (b : Bool) (ctx' : RequestCtx hs p g)
      → request_filter hs p g services s (new_ctx hs p g) ≡ (Result.ok b, s', ctx')
      → (meta : GrpcMeta hs p g) × Accepts services s meta × Explains meta s (Result.ok b, s', ctx')
  outcome_ok services s s' b ctx' h =
      elim (subst (IsOutcome services s) h (request_filter-IsOutcome services s)) [
        | inl (c, e, out) ↦ absurd (ground arith)
        | inr (inl (u, out)) ↦ absurd (ground arith)
        | inr (inr found) ↦ found
      ]

  -- A request whose response may be cached goes upstream with its core headers and those of its vary
  -- set, and no others: where `request_filter` passes a request on with a fresh context and asks for
  -- the cache, a canonical header name is left in the request exactly when it was there and is a
  -- core header or in the vary set of the request, and then its values are unchanged.
  pub request_filter-strips :
      (services : Services hs p g) (s s' : Session hs p g) (b : Bool) (ctx' : RequestCtx hs p g)
      (k : Text)
      → request_filter hs p g services s (new_ctx hs p g) ≡ (Result.ok b, s', ctx')
      → ctx'.do_cache ≡ true
      → hs.IsCanonical k
      → (vary_set : List Text) × (make_vary_headers_set hs s.req_header ≡ Result.ok vary_set)
        × (contains k (hs.keys s'.req_header)
            ≡ (contains k (hs.keys s.req_header) && keep_header hs vary_set [] k))
        × ((keep_header hs vary_set [] k ≡ false)
            ⊎ (hs.get_all s'.req_header k ≡ hs.get_all s.req_header k))
  request_filter-strips services s s' b ctx' k h cached canonical =
      let (meta, (_, _, _, _, v), (_, _, how)) = outcome_ok services s s' b ctx' h in
      elim how [
        | inl (_, off, _) ↦ absurd (ground arith)
        | inr (c, buffer, rest, _, _, _, _, _, header) ↦ (
          meta.vary_set,
          v,
          ap (λ x. contains k (hs.keys x)) header ∙ keys-strip hs p g meta.vary_set s.req_header k,
          elim (Bool-cases (keep_header hs meta.vary_set [] k)) [
            | inl keep ↦ inr (
                ap (λ x. hs.get_all x k) header
                ∙ get_all-strip hs p g meta.vary_set s.req_header k canonical keep)
            | inr drop ↦ inl drop
          ],
        )
      ]
