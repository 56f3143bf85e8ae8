-- ===== src/Start/Requests.antt =====
-- The requests that the process of grcache-proxy/src/main.rs gets: the callbacks of the proxy over the
-- services that the loader has published, with the backends that the discovery has found.
use grcache.Prelude.{ℕ, ◌≡◌, refl, ap, ◌∙◌, Bool, Option, some, List, Text, text_eq, nat_eq}
use grcache.Prelude.Map.{Map, lookup}
use grcache.Crd.{ObjectRef, GrcacheService}
use grcache.Service.{QualifiedService, Protobuf, Result, ServiceSpec}
use grcache.Config.{ConfigFile}
use grcache.Store.{ServiceData, ◌>>=◌}
use grcache.Grpc.{Headers}
use grcache.Dns.{Backend, backend_eq, Handle}
use grcache.Dns.Invariant.{Balanced}
use grcache.Proxy.{Pingora, Session, parse_grpc_path}
use grcache.Proxy.Peers.{
  balanced, Selects, services_at, entry_found, requested, IsRouted, requested-IsRouted,
}
use grcache.Start.{System, Args, main, Steps}
use grcache.Start.Owned.{published-Fed}

-- The round robin balancer of a handle, by what its last update has discovered.
abbrev pub balancer : Map ℕ Handle → ℕ → Option (List Backend)
balancer handles id = do h ← lookup id handles; some h.load_balancer_round_robin

module _ (hs : Headers) (p : Protobuf) (g : Pingora hs.HeaderMap Unit)
    (pick : List Backend → Option Backend) {Metadata : Type 0} where
  -- The services as the proxy finds them.
  abbrev pub services_of :
      System (ServiceSpec p) Metadata → Map Text (ServiceData (ServiceSpec p) (List Backend))
  services_of s = services_at (balancer s.loader.dns_service.handles) s.loader.services

  module _ (E : Type 0) (build_passthrough : QualifiedService → ServiceSpec p)
      (from_obj : GrcacheService Metadata → ObjectRef) where
    -- If `main` starts the process, for which it must be run in the context of a tokio runtime, then in
    -- every state that its services reach, take a fresh request whose path names a published service with
    -- a load balancer. `request_filter` and `upstream_peer`, called in a row, do not refuse it with 404,
    -- and neither panics: the request is passed to one of the backends that the handle of the service has
    -- discovered, or refused with 502 if there are none, or its body is refused with 413 or fails to be
    -- read. These backends are those that the discovery sent last, or its loop is on its way to update
    -- them. It is assumed that a selection finds a backend of the balancer exactly when it has one.
    pub published-IsRouted :
        Selects pick
        → (load_config : Text → Option ConfigFile) (daemon in_runtime : Bool) (args : Args)
        → {s t : System (ServiceSpec p) Metadata} (name method : Text)
        → (entry : ServiceData (ServiceSpec p) ℕ) (id : ℕ)
          (session : Session hs p (balanced g pick))
        → main E build_passthrough from_obj load_config daemon in_runtime args ≡ some s
        → Steps E build_passthrough from_obj s t
        → parse_grpc_path session.raw_path ≡ Result.ok (name, method)
        → lookup name t.loader.services ≡ some entry
        → entry.load_balancer ≡ some id
        → (h : Handle) × (lookup id t.loader.dns_service.handles ≡ some h)
          × IsRouted hs p g pick h.load_balancer_round_robin
              (requested hs p g pick (services_of t) session).0
          × Balanced id h t.loader.dns_service
    published-IsRouted selects load_config daemon in_runtime args {t = t} name method entry id
          session e run path found held =
        let (h, stored, _, _, current) =
          published-Fed E build_passthrough from_obj load_config daemon in_runtime args name entry
            id e run found held in
        let at : entry.load_balancer >>= balancer t.loader.dns_service.handles
            ≡ some h.load_balancer_round_robin =
          ap (λ lb. lb >>= balancer t.loader.dns_service.handles) held
          ∙ rw (stored, balancer) refl in
        (
          h,
          stored,
          requested-IsRouted hs p g pick (services_of t) session name method _ _ selects path
              (entry_found (balancer t.loader.dns_service.handles) name t.loader.services entry _
                found at)
              refl,
          current,
        )
