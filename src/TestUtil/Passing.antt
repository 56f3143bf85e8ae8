-- ===== src/TestUtil/Passing.antt =====
-- The requests of grcache-proxy/tests/proxy.rs: where the proxy passes those of a service that
-- `add_service_passthrough` of grcache-proxy/src/test_util/mod.rs has added.
use mathlib.Core.Path.{subst}
use grcache.Prelude.{
  ◌≡◌, ◌≢◌, refl, ap, ◌∙◌, true, Option, some, List, [], ◌∷◌, Text, text_eq, nat_eq, contains,
  Option-cases, inl, inr,
}
use grcache.Prelude.Map.{lookup}
use grcache.TestUtil.Handles.{Sound-Steps, add_service_passthrough-added}
use grcache.Service.{QualifiedService, Protobuf, Result, build_passthrough}
use grcache.Grpc.{Headers}
use grcache.Proxy.{
  Pingora, Services, Session, http_status, new_ctx, request_filter, upstream_peer, parse_grpc_path,
  present, with_meta, caching, method_spec,
}
use grcache.Grpc.Strip.{make_vary_headers_set-names}
use grcache.Dns.{Backend, backend_eq}
use grcache.DescriptorSet.{Sources}
use grcache.TestUtil.{BackendsTest, ProxyTest, new, add_service_passthrough, set_backends, Steps}
use grcache.Proxy.Peers.{balanced, Selects, peer_of, requested, answer, Peer}
use grcache.TestUtil.Routes.{services_of, entry-own, entry-added, entry-with_backends}

module _ (hs : Headers) (p : Protobuf) (c : Sources) (g : Pingora hs.HeaderMap Unit)
    (pick : List Backend → Option Backend) where
  -- A request of a service without a descriptor goes to what its balancer picks, as it is.
  request_filter-passthrough :
      (sv : Services hs p (balanced g pick)) (s : Session hs p (balanced g pick))
      (service method : Text) (q : QualifiedService) (l : List Backend)
      → parse_grpc_path s.raw_path ≡ Result.ok (service, method)
      → lookup service sv
        ≡ some (record {
          generation = 10;
          service_spec = some (build_passthrough p q);
          load_balancer = some l;
        })
      → peer_of hs p g pick
          (request_filter hs p (balanced g pick) sv s (new_ctx hs p (balanced g pick)))
        ≡ (answer hs p g pick (pick l), s)
  unfolding request_filter present with_meta caching method_spec build_passthrough upstream_peer
      lookup
  request_filter-passthrough sv s service method q l path found =
      let (vary_set, v, _) = make_vary_headers_set-names hs s.req_header in
      elim (Option-cases (pick l)) [
        | inl n ↦ rw (path, request_filter, found, present, v, n) refl
        | inr (b, n) ↦ rw (path, request_filter, found, present, v, n) refl
      ]

  -- A request depends on the entry of its service alone.
  request_filter-lookup :
      (sv sv' : Services hs p (balanced g pick)) (s : Session hs p (balanced g pick))
      (service method : Text)
      → parse_grpc_path s.raw_path ≡ Result.ok (service, method)
      → lookup service sv ≡ lookup service sv'
      → request_filter hs p (balanced g pick) sv s (new_ctx hs p (balanced g pick))
        ≡ request_filter hs p (balanced g pick) sv' s (new_ctx hs p (balanced g pick))
  unfolding request_filter present
  request_filter-lookup sv sv' s service method path same =
      rw (path, request_filter, same, present) refl

  abbrev pub refused :
      Session hs p (balanced g pick) → Peer hs p g pick × Session hs p (balanced g pick)
  refused s = (some (Result.err (http_status 502)), s)

  abbrev pub passed :
      Backend → Session hs p (balanced g pick) → Peer hs p g pick × Session hs p (balanced g pick)
  passed b s = (some (Result.ok b), s)

  abbrev Outcomes :
      ProxyTest p c
      → Session hs p (balanced g pick)
      → Session hs p (balanced g pick)
      → Backend
      → List Backend
      → ProxyTest p c × BackendsTest
      → Type 0
  Outcomes t s s' x l r =
      (requested hs p g pick (services_of p c r.0) s ≡ refused s)
      × ((b : Backend) × (contains b (x ∷ l) ≡ true)
          × (requested hs p g pick (services_of p c (set_backends p c r.1 (x ∷ l) r.0)) s
              ≡ passed b s))
      × (requested hs p g pick (services_of p c (set_backends p c r.1 (x ∷ l) r.0)) s'
          ≡ requested hs p g pick (services_of p c t) s')

  -- In any proxy that a test has come to, a service that is added without a descriptor is refused with
  -- 502 until its backends are set; from then on a request of any of its methods is passed to one of
  -- these backends, as it came. What becomes of the requests of any other service stays the same. It is
  -- assumed that a selection finds a backend of the balancer exactly when it has one, and that the paths
  -- of both requests are gRPC paths.
  pub add_service_passthrough-requested :
      Selects pick
      → (t : ProxyTest p c) (name : Text) (r : ProxyTest p c × BackendsTest) → Steps p c (new p c) t
      → add_service_passthrough p c name t ≡ some r
      → (s : Session hs p (balanced g pick)) (method : Text)
      → parse_grpc_path s.raw_path ≡ Result.ok (name, method)
      → (other : Text) (s' : Session hs p (balanced g pick)) (method' : Text) → name ≢ other
      → parse_grpc_path s'.raw_path ≡ Result.ok (other, method')
      → (x : Backend) (l : List Backend)
      → (requested hs p g pick (services_of p c r.0) s ≡ refused s)
        × ((b : Backend) × (contains b (x ∷ l) ≡ true)
            × (requested hs p g pick (services_of p c (set_backends p c r.1 (x ∷ l) r.0)) s
                ≡ passed b s))
        × (requested hs p g pick (services_of p c (set_backends p c r.1 (x ∷ l) r.0)) s'
            ≡ requested hs p g pick (services_of p c t) s')
  add_service_passthrough-requested (nothing, picks) t name r steps added s method path other s'
        method' apart path' x l =
      let (q, parsed, same) = add_service_passthrough-added p c name t r added in
      let spec = build_passthrough p q in
      let (b, chosen, there) = picks x l in
      subst (Outcomes t s s' x l) same (
        request_filter-passthrough _ s name method q [] path (entry-added p c name spec t)
            ∙ ap (λ y. (answer hs p g pick y, s)) nothing,
        (
          b,
          there,
          request_filter-passthrough _ s name method q (x ∷ l) path
                (entry-own p c name spec (x ∷ l) t)
              ∙ ap (λ y. (answer hs p g pick y, s)) chosen,
        ),
        ap (peer_of hs p g pick) (
            request_filter-lookup _ _ s' other method' path'
              (entry-with_backends p c name other spec (x ∷ l) t (Sound-Steps p c t steps) apart)),
      )
