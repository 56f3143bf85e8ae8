-- ===== src/Proxy/Removal.antt =====
-- What the loader of grcache-proxy/src/service_store.rs and `request_filter` of
-- grcache-proxy/src/proxy/mod.rs do together with a service whose only object is removed.
use grcache.Prelude.{◌<◌, ◌≡◌, refl, true, none, some, List, Text, text_eq, All}
use grcache.Prelude.Map.{lookup}
use grcache.Crd.{ObjectRef, object_ref_eq, GrcacheService}
use grcache.Service.{QualifiedService, Protobuf, Result, ServiceSpec}
use grcache.Store.{Discovery, State, ServiceData, remove_object, finish_tasks, unloaded_data}
use grcache.Store.Generation.{Ended}
use grcache.Store.Index.{owns}
use grcache.Store.Update.{IsWellIndexed}
use grcache.Store.Publish.{remove_object-unloads}
use grcache.Grpc.{Headers}
use grcache.Proxy.{
  Pingora, Services, Session, http_status, new_ctx, request_filter, parse_grpc_path, present,
}

module _ (hs : Headers) (p : Protobuf) (d : Discovery) (g : Pingora hs.HeaderMap d.Handle)
    {Metadata : Type 0} (build_passthrough : QualifiedService → ServiceSpec p)
    (from_obj : GrcacheService Metadata → ObjectRef) where
  unbalanced-refused :
      (services : Services hs p g) (s : Session hs p g) (service method : Text)
      (e : ServiceData (ServiceSpec p) d.Handle)
      → parse_grpc_path s.raw_path ≡ Result.ok (service, method)
      → lookup service services ≡ some e
      → e.load_balancer ≡ none
      → request_filter hs p g services s (new_ctx hs p g)
        ≡ (Result.err (http_status 404), s, new_ctx hs p g)
  unfolding request_filter present
  unbalanced-refused services s service method e path found gone =
      rw (path, request_filter, found, present, gone) refl

  -- Removing the only object of a service from a well indexed state of the loader does not panic, and
  -- from then on a fresh request of the service is refused with 404, whichever of the tasks with
  -- generations below the counter have ended in between, and whatever they have built.
  pub remove_object-refused :
      (ref : ObjectRef) (object : GrcacheService Metadata) (s : State d (ServiceSpec p) Metadata)
      (done : List (Ended (ServiceSpec p) d.Handle)) (session : Session hs p g) (method : Text)
      → IsWellIndexed d build_passthrough from_obj s
      → lookup ref s.raw_services ≡ some object
      → ((o : ObjectRef) → owns s.raw_services object.service_name o ≡ true → o ≡ ref)
      → All (λ e. e.0.generation < s.spec_generation) done
      → parse_grpc_path session.raw_path ≡ Result.ok (object.service_name, method)
      → (s' : State d (ServiceSpec p) Metadata) × (remove_object d build_passthrough from_obj ref s
          ≡ some s')
        × (request_filter hs p g (finish_tasks done s'.services) session (new_ctx hs p g)
            ≡ (Result.err (http_status 404), session, new_ctx hs p g))
  remove_object-refused ref object s done session method well stored only older path =
      let (s', removed, unloaded) =
        remove_object-unloads d build_passthrough from_obj ref object s done well stored only
          older in
      (
        s',
        removed,
        unbalanced-refused (finish_tasks done s'.services) session object.service_name method
            (unloaded_data d build_passthrough from_obj s.spec_generation) path unloaded refl,
      )
