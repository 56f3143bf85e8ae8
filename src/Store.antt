-- ===== src/Store.antt =====
-- grcache-proxy/src/service_store.rs: the state of the service loader, and the map of services that
-- the proxy reads. `none` is a panic of an `unwrap` or of an index.
pub mod Order
pub mod Generation
pub mod Index
pub mod Update
pub mod Safety
pub mod Watch
pub mod Pipeline
pub mod Publish
use grcache.Prelude.{
  ℕ, ◌+◌, ◌%◌, ◌^◌, Option, none, some, List, [], ◌∷◌, ◌++◌, Text, text_eq, ◌==◌, if◌then◌else◌,
  ltb, Bool, true, false,
}
use grcache.Prelude.Map.{Map, lookup, insert, remove, set_insert, set_remove}
use grcache.Crd.{Upstream, dns, DescriptorSetSource, ObjectRef, object_ref_eq, GrcacheService}
use grcache.Service.{QualifiedService, Result, parse}
use grcache.ResourceChange.{ResourceChange, Item}
use Order.{min_by_key}

-- What the loader uses of service discovery and of `ServiceSpec`.
pub record Discovery : Type 1 where
  pub Dns : Type 0
  pub Handle : Type 0
  pub backends_for_hostname : Text → ℕ → Dns → Dns × Handle

pub record ServiceData (Spec Handle : Type 0) : Type 0 where
  pub generation : ℕ
  pub service_spec : Option Spec
  pub load_balancer : Option Handle

infixl 5 ◌>>=◌
abbrev pub ◌>>=◌ {ℓ κ} : {A : Type ℓ} {B : Type κ} → Option A → (A → Option B) → Option B
none >>= k = none
some a >>= k = k a

-- `+= 1` on a `usize`
abbrev pub usize_succ : ℕ → ℕ
usize_succ n = (n + 1) % 2 ^ 64

-- `update_service_if_newer`: the compute on the service's entry. Its callers pass a spec.
unfoldable pub update_service_if_newer :
    {Spec Handle : Type 0}
    → Text
    → ServiceData Spec Handle
    → Map Text (ServiceData Spec Handle)
    → Map Text (ServiceData Spec Handle)
update_service_if_newer service_name new services = elim (lookup service_name services) [
  | some value ↦
      if ltb value.generation new.generation then insert service_name new services else services
  | none ↦ insert service_name new services
]

-- `QualifiedService::parse(..).unwrap()`
unfoldable pub parsed : Text → Option QualifiedService
parsed service_name = elim (parse service_name) [ Result.ok q ↦ some q | Result.err e ↦ none ]

-- A spawned closure that loads a descriptor set, with what it captures.
pub record Task (Handle : Type 0) : Type 0 where
  pub source : DescriptorSetSource
  pub service_name : Text
  pub service : QualifiedService
  pub generation : ℕ
  pub load_balancer : Handle

-- `entry(name).or_default().insert(object_ref)`
unfoldable pub add_ref : Text → ObjectRef → Map Text (List ObjectRef) → Map Text (List ObjectRef)
add_ref name object_ref refs = elim (lookup name refs) [
  | some objects ↦ insert name (set_insert object_ref objects) refs
  | none ↦ insert name (object_ref ∷ []) refs
]

-- The entry that a task publishes for the spec that it has built.
abbrev pub loaded_data : {Spec Handle : Type 0} → Task Handle → Spec → ServiceData Spec Handle
loaded_data t spec = record {
  generation = t.generation;
  service_spec = some spec;
  load_balancer = some t.load_balancer;
}

-- A spawned task that ends: with the spec that it has built, or by a panic of one of its `unwrap`s.
unfoldable pub finish_task :
    {Spec Handle : Type 0}
    → Task Handle × Option Spec
    → Map Text (ServiceData Spec Handle)
    → Map Text (ServiceData Spec Handle)
finish_task (t, none) services = services
finish_task (t, some spec) services =
    update_service_if_newer t.service_name (loaded_data t spec) services

-- Tasks that end one after the other.
unfoldable pub finish_tasks :
    {Spec Handle : Type 0}
    → List (Task Handle × Option Spec)
    → Map Text (ServiceData Spec Handle)
    → Map Text (ServiceData Spec Handle)
finish_tasks [] services = services
finish_tasks (e ∷ es) services = finish_tasks es (finish_task e services)

-- `ServiceConfigState`, with the map `config.services` and the tasks that are running.
pub record State (d : Discovery) (Spec Metadata : Type 0) : Type 0 where
  pub spec_generation : ℕ
  pub services : Map Text (ServiceData Spec d.Handle)
  pub raw_services : Map ObjectRef (GrcacheService Metadata)
  pub ref_by_grpc_service : Map Text (List ObjectRef)
  pub dns_service : d.Dns
  pub tasks : List (Task d.Handle)

-- `build_passthrough` is that of `ServiceSpec`, `from_obj` that of `ObjectRef`.
module _ (d : Discovery) {Spec Metadata : Type 0} (build_passthrough : QualifiedService → Spec)
    (from_obj : GrcacheService Metadata → ObjectRef) where
  open d use {Dns, Handle, backends_for_hostname}

  abbrev pub Loader : Type 0
  Loader = State d Spec Metadata

  -- The state at the start of the loop.
  abbrev pub initial : Dns → Loader
  initial dns_service_handle = record {
    spec_generation = 0;
    services = [];
    raw_services = [];
    ref_by_grpc_service = [];
    dns_service = dns_service_handle;
    tasks = [];
  }

  abbrev pub passthrough_data : ℕ → QualifiedService → Handle → ServiceData Spec Handle
  passthrough_data generation service load_balancer = record {
    generation = generation;
    service_spec = some (build_passthrough service);
    load_balancer = some load_balancer;
  }

  abbrev pub unloaded_data : ℕ → ServiceData Spec Handle
  unloaded_data generation = record {
    generation = generation;
    service_spec = none;
    load_balancer = none;
  }

  -- The end of `update_service`: spawn a task if there is a descriptor source, else publish.
  unfoldable pub publish :
      Option DescriptorSetSource → Text → QualifiedService → ℕ → Handle → Loader → Loader
  publish (some source) service_name service generation load_balancer s = record s {
    tasks =
        s.tasks
        ++ record {
          source = source;
          service_name = service_name;
          service = service;
          generation = generation;
          load_balancer = load_balancer;
        }
          ∷ [];
  }
  publish none service_name service generation load_balancer s = record s {
    services =
        update_service_if_newer service_name (passthrough_data generation service load_balancer)
          s.services;
  }

  -- `match &object.spec.upstream`
  unfoldable pub discover : Upstream → Dns → Dns × Handle
  discover (Upstream.dns url port) = backends_for_hostname url port

  -- The part of `update_service` for the object that is selected.
  unfoldable pub load_object : GrcacheService Metadata → Loader → Option Loader
  load_object object s = do
    let generation = s.spec_generation
    service ← parsed object.service_name
    let (dns_service, load_balancer) = discover object.upstream s.dns_service
    some (
        publish object.descriptor_set_source object.service_name service generation load_balancer
          (record s { spec_generation = usize_succ generation; dns_service = dns_service }))

  -- `update_service`
  unfoldable pub update_service : Text → Loader → Option Loader
  update_service grpc_service s = do
    objects ← lookup grpc_service s.ref_by_grpc_service
    elim objects [
      | [] ↦ some (record s {
        spec_generation = usize_succ s.spec_generation;
        services = insert grpc_service (unloaded_data s.spec_generation) s.services;
      })
      | o ∷ os ↦ do object ← lookup (min_by_key o os) s.raw_services; load_object object s
    ]

  -- `remove_noupdate`: the previous object, and the state.
  unfoldable pub remove_noupdate :
      ObjectRef → Loader → Option (Option (GrcacheService Metadata) × Loader)
  remove_noupdate object_ref s = elim (lookup object_ref s.raw_services) [
    | none ↦ some (none, record s { raw_services = remove object_ref s.raw_services })
    | some previous ↦ do
      refs ← lookup previous.service_name s.ref_by_grpc_service
      some (
        some previous,
        record s {
          raw_services = remove object_ref s.raw_services;
          ref_by_grpc_service =
              insert previous.service_name (set_remove object_ref refs) s.ref_by_grpc_service;
        },
      )
  ]

  -- `ServiceConfigState::remove`
  unfoldable pub remove_object : ObjectRef → Loader → Option Loader
  remove_object object_ref s = do
    (previous, s') ← remove_noupdate object_ref s
    elim previous [ none ↦ some s' | some object ↦ update_service object.service_name s' ]

  -- `ServiceConfigState::apply`
  unfoldable pub apply_object : GrcacheService Metadata → Loader → Option Loader
  apply_object object s = do
    let object_ref = from_obj object
    (_, s') ← remove_noupdate object_ref s
    update_service object.service_name (record s' {
      raw_services = insert object_ref object s'.raw_services;
      ref_by_grpc_service = add_ref object.service_name object_ref s'.ref_by_grpc_service;
    })

  -- One round of the `select!` in `start`: the state, and what is known to be ready.
  unfoldable pub handle_change :
      {E : Type 0}
      → Item (ResourceChange (GrcacheService Metadata) ObjectRef) E
      → Loader × Bool
      → Option (Loader × Bool)
  handle_change (Item.ok ResourceChange.ready) (s, is_ready) = some (s, true)
  handle_change (Item.ok (ResourceChange.apply object)) (s, is_ready) = do
    s' ← apply_object object s
    some (s', is_ready)
  handle_change (Item.ok (ResourceChange.delete object_ref)) (s, is_ready) = do
    s' ← remove_object object_ref s
    some (s', is_ready)
  handle_change (Item.err error) (s, is_ready) = some (s, is_ready)

  unfoldable pub handle_changes :
      {E : Type 0}
      → List (Item (ResourceChange (GrcacheService Metadata) ObjectRef) E)
      → Loader × Bool
      → Option (Loader × Bool)
  handle_changes [] s = some s
  handle_changes (change ∷ changes) s = do s' ← handle_change change s; handle_changes changes s'
