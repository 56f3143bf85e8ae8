-- ===== src/Proxy/Peers.antt =====
-- Where requests go: `request_filter` and `upstream_peer` of grcache-proxy/src/proxy/mod.rs in a row,
-- over services whose load balancers are known by the backends that they choose from.
use grcache.Prelude.{
  ℕ, ◌≡◌, refl, sym, ap, ◌∙◌, true, false, Option, none, some, List, [], ◌∷◌, Text, text_eq,
  contains, arith, Option-cases, inl, inr, ◌⊎◌, eq_cases,
}
use mathlib.Core.Option.{some-injective}
use grcache.Prelude.Map.{Map, lookup}
use grcache.Service.{Protobuf, Result, ServiceSpec}
use grcache.Store.{ServiceData, ◌>>=◌}
use grcache.Grpc.{Headers}
use grcache.Dns.{Backend, backend_eq}
use grcache.Proxy.{
  PathError, Pingora, Services, Session, ProxyError, http_status, vary_error, read_error, new_ctx,
  RequestCtx, GrpcMeta, Outcome, request_filter, upstream_peer, parse_grpc_path, present,
}
use grcache.Proxy.Request.{Explains, request_filter-IsOutcome}

-- Pingora, where a load balancer is known by the backends that it chooses from, each of which is an
-- internet address, as those are that the discovery creates.
abbrev pub balanced :
    {HeaderMap : Type 0}
    → Pingora HeaderMap Unit
    → (List Backend → Option Backend)
    → Pingora HeaderMap (List Backend)
balanced g pick = record {
  ReadError = g.ReadError;
  Buffer = g.Buffer;
  CacheKey = g.CacheKey;
  Backend = Backend;
  SocketAddr = Backend;
  as_inet = some;
  empty_buffer = g.empty_buffer;
  push = g.push;
  truncated = g.truncated;
  contents = g.contents;
  default_key = g.default_key;
  select = pick;
}

-- A selection finds a backend of the balancer, where it has one: none is unhealthy.
abbrev pub Selects : (List Backend → Option Backend) → Type 0
Selects pick =
    (pick [] ≡ none)
    × ((x : Backend) (l : List Backend)
        → (b : Backend) × (pick (x ∷ l) ≡ some b) × (contains b (x ∷ l) ≡ true))

ok_or_err : {A E : Type 0} (a : A) (e : E) → Result.ok a ≡ Result.err e → ⊥
ok_or_err a e h = absurd (ground arith)

same_service :
    (a b c d : Text)
    → ◌≡◌ {A = Result (Text × Text) PathError} (Result.ok (a, b)) (Result.ok (c, d))
    → a ≡ c
same_service a b c d h = ground arith

-- The backends of the balancer with a number, where there is one.
module _ (balancer : ℕ → Option (List Backend)) {Spec : Type 0} where
  abbrev pub entry_at : ServiceData Spec ℕ → ServiceData Spec (List Backend)
  entry_at e = record {
    generation = e.generation;
    service_spec = e.service_spec;
    load_balancer = e.load_balancer >>= balancer;
  }

  -- The services as the proxy finds them.
  abbrev pub services_at :
      Map Text (ServiceData Spec ℕ) → Map Text (ServiceData Spec (List Backend))
  services_at [] = []
  services_at ((name, e) ∷ m) = (name, entry_at e) ∷ services_at m

  pub lookup-services_at :
      (name : Text) (m : Map Text (ServiceData Spec ℕ))
      → lookup name (services_at m)
        ≡ (elim (lookup name m) [ some e ↦ some (entry_at e) | none ↦ none ])
  unfolding lookup
  lookup-services_at name [] = refl
  lookup-services_at name ((j, e) ∷ m) = elim (eq_cases j name) [
    | inl (t, _) ↦ rw t refl
    | inr (t, _) ↦ rw t (lookup-services_at name m)
  ]

  pub entry_found :
      (name : Text) (m : Map Text (ServiceData Spec ℕ)) (e : ServiceData Spec ℕ)
      (lb : Option (List Backend))
      → lookup name m ≡ some e
      → e.load_balancer >>= balancer ≡ lb
      → lookup name (services_at m)
        ≡ some (record {
          generation = e.generation;
          service_spec = e.service_spec;
          load_balancer = lb;
        })
  entry_found name m e lb found held =
      rw (lookup-services_at, found)
        (ap
          (λ x. some (record {
            generation = e.generation;
            service_spec = e.service_spec;
            load_balancer = x;
          }))
          held)

module _ (hs : Headers) (p : Protobuf) (g : Pingora hs.HeaderMap Unit)
    (pick : List Backend → Option Backend) where
  abbrev pub Peer : Type 0
  Peer = Option (Result Backend (ProxyError hs p (balanced g pick)))

  -- What becomes of a request that the cache does not answer: the error of the filter or of the choice of
  -- the peer, or the backend that it is passed to, with the session that is left. `none` is a panic, or
  -- an answer of the filter.
  abbrev pub peer_of : Outcome hs p (balanced g pick) → Peer × Session hs p (balanced g pick)
  peer_of (Result.err e, s, ctx) = (some (Result.err e), s)
  peer_of (Result.ok true, s, ctx) = (none, s)
  peer_of (Result.ok false, s, ctx) = (upstream_peer hs p (balanced g pick) ctx, s)

  abbrev pub requested :
      Services hs p (balanced g pick)
      → Session hs p (balanced g pick)
      → Peer × Session hs p (balanced g pick)
  requested services s =
      peer_of (request_filter hs p (balanced g pick) services s (new_ctx hs p (balanced g pick)))

  abbrev pub answer : Option Backend → Peer
  answer (some b) = some (Result.ok b)
  answer none = some (Result.err (http_status 502))

  -- The request is passed to one of the backends; or there is none, and it is refused with 502; or its
  -- body is refused with 413, or a read of it fails.
  abbrev pub IsRouted : List Backend → Peer → Type 0
  IsRouted l o =
      ((b : Backend) × (contains b l ≡ true) × (o ≡ some (Result.ok b)))
      ⊎ (((l ≡ []) × (o ≡ some (Result.err (http_status 502))))
          ⊎ ((o ≡ some (Result.err (http_status 413)))
              ⊎ ((e : g.ReadError) × (o ≡ some (Result.err (read_error e))))))

  answer-IsRouted : (l : List Backend) → Selects pick → IsRouted l (answer (pick l))
  answer-IsRouted [] (nothing, picks) = rw nothing (inr (inl (refl, refl)))
  answer-IsRouted (x ∷ l) (nothing, picks) =
      let (b, chosen, there) = picks x l in rw chosen (inl (b, there, refl))

  upstream_peer-answer :
      (ctx : RequestCtx hs p (balanced g pick)) (meta : GrpcMeta hs p (balanced g pick))
      (l : List Backend)
      → ctx.grpc_meta ≡ some meta
      → meta.service_data.load_balancer ≡ some l
      → upstream_peer hs p (balanced g pick) ctx ≡ answer (pick l)
  unfolding upstream_peer
  upstream_peer-answer ctx meta l found held = elim (Option-cases (pick l)) [
    | inl n ↦ rw (found, ◌>>=◌, held, n) refl
    | inr (b, n) ↦ rw (found, ◌>>=◌, held, n) refl
  ]

  Explains-IsRouted :
      (s : Session hs p (balanced g pick)) (meta : GrpcMeta hs p (balanced g pick))
      (l : List Backend) (o : Outcome hs p (balanced g pick))
      → Selects pick
      → meta.service_data.load_balancer ≡ some l
      → Explains hs p (balanced g pick) meta s o
      → IsRouted l (peer_of o).0
  Explains-IsRouted s meta l (Result.ok false, s', ctx') selects held (_, found, _) =
      rw (upstream_peer-answer ctx' meta l found held) (answer-IsRouted l selects)
  Explains-IsRouted s meta l (Result.ok true, s', ctx') selects held (e, _, _) =
      absurd (ground arith)
  Explains-IsRouted s meta l (Result.err (http_status n), s', ctx') selects held (e, _) =
      inr (inr (inl (ap (λ x. some (Result.err (http_status x))) e)))
  Explains-IsRouted s meta l (Result.err (vary_error e), s', ctx') selects held why = absurd why
  Explains-IsRouted s meta l (Result.err (read_error e), s', ctx') selects held why =
      inr (inr (inr (e, refl)))

  -- A request of a service with a load balancer.
  pub requested-IsRouted :
      (services : Services hs p (balanced g pick)) (s : Session hs p (balanced g pick))
      (service method : Text) (e : ServiceData (ServiceSpec p) (List Backend)) (l : List Backend)
      → Selects pick
      → parse_grpc_path s.raw_path ≡ Result.ok (service, method)
      → lookup service services ≡ some e
      → e.load_balancer ≡ some l
      → IsRouted l (requested services s).0
  unfolding present
  requested-IsRouted services s service method e l selects path found held =
      elim (request_filter-IsOutcome hs p (balanced g pick) services s) [
        | inl (_, bad, _) ↦ absurd (ok_or_err _ _ (sym path ∙ bad))
        | inr (inl ((name, m, path', missing), _)) ↦
            let same : service ≡ name = same_service _ _ _ _ (sym path ∙ path') in
            let here : lookup name services ≡ some e =
              ap (λ x. lookup x services) (sym same) ∙ found in
            let there : present hs p (balanced g pick) name services ≡ some e =
              rw (here, present, held) refl in
            absurd (cc)
        | inr (inr (meta, (name, path', found', _, _), why)) ↦
            let same : service ≡ name = same_service _ _ _ _ (sym path ∙ path') in
            let it : e ≡ meta.service_data =
              some-injective _ _ (sym found ∙ ap (λ x. lookup x services) same ∙ found') in
            Explains-IsRouted s meta l _ selects (ap (λ x. x.load_balancer) (sym it) ∙ held) why
      ]
