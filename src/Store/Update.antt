-- ===== src/Store/Update.antt =====
-- What `update_service` of grcache-proxy/src/service_store.rs leaves alone.
use mathlib.Core.Path.{subst}
use grcache.Prelude.{
  ℕ, ◌+◌, ◌^◌, ◌<◌, ◌≢◌, All, All-append, ◌≡◌, refl, Option, none, some, List, [], ◌∷◌, Text, arith,
  text_eq, eq_iff,
}
use grcache.Prelude.Map.{lookup, lookup-insert}
use grcache.Crd.{ObjectRef, object_ref_eq, GrcacheService, DescriptorSetSource}
use grcache.Service.{QualifiedService}
use grcache.Store.Order.{min_by_key}
use grcache.Store.Generation.{
  lookup-update_service_if_newer, lt-usize_succ, Below-insert, Below-update_service_if_newer,
}
use grcache.Store.Index.{IsParseable, IsIndexed, selected}
use grcache.Store.{
  Discovery, State, ◌>>=◌, publish, load_object, update_service, parsed, ServiceData, Task,
  usize_succ, passthrough_data, unloaded_data,
}

module _ (d : Discovery) {Spec Metadata : Type 0} (build_passthrough : QualifiedService → Spec)
    (from_obj : GrcacheService Metadata → ObjectRef) where
  abbrev pub LoaderState : Type 0
  LoaderState = State d Spec Metadata

  abbrev pub IsWellIndexed : LoaderState → Type 0
  IsWellIndexed s = IsIndexed s.raw_services s.ref_by_grpc_service

  -- Every published entry and every running task has a generation that was given out.
  pub record IsFresh (s : LoaderState) : Type 0 where
    pub entries :
        (n : Text) (entry : ServiceData Spec d.Handle)
        → lookup n s.services ≡ some entry
        → entry.generation < s.spec_generation
    pub running : All (λ t. t.generation < s.spec_generation) s.tasks

  -- What an update of a service leaves alone: the objects, the index and the other services; and that
  -- it stays fresh, unless the counter wraps.
  pub record Effect (name : Text) (s s' : LoaderState) : Type 0 where
    pub raw : s'.raw_services ≡ s.raw_services
    pub refs : s'.ref_by_grpc_service ≡ s.ref_by_grpc_service
    pub elsewhere : (n : Text) → n ≢ name → lookup n s'.services ≡ lookup n s.services
    pub fresh : IsFresh s → s.spec_generation + 1 < 2 ^ 64 → IsFresh s'

  pub Effect-IsWellIndexed :
      (name : Text) (s s' : LoaderState) → Effect name s s' → IsWellIndexed s → IsWellIndexed s'
  Effect-IsWellIndexed name s s' e w = rw (e.raw, e.refs) w

  All-usize_succ :
      (ts : List (Task d.Handle)) (g : ℕ)
      → All (λ t. t.generation < g) ts
      → g + 1 < 2 ^ 64
      → All (λ t. t.generation < usize_succ g) ts
  All-usize_succ [] g h k = tt
  All-usize_succ (t ∷ ts) g h k =
      (lt-usize_succ t.generation g (omega (arith, h.0)) k, All-usize_succ ts g h.1 k)

  publish-Effect :
      (source : Option DescriptorSetSource) (name : Text) (q : QualifiedService) (h : d.Handle)
      (dns : d.Dns) (s : LoaderState)
      → Effect name s (
          publish d build_passthrough from_obj source name q s.spec_generation h
            (record s { spec_generation = usize_succ s.spec_generation; dns_service = dns }))
  unfolding publish
  publish-Effect none name q h dns s = record {
    raw = refl;
    refs = refl;
    elsewhere = λ n other. ground (
      arith,
      lookup-update_service_if_newer name n
          (passthrough_data d build_passthrough from_obj s.spec_generation q h) s.services,
      eq_iff name n,
    );
    fresh = λ f small. record {
      entries =
          Below-update_service_if_newer s.spec_generation name
            (passthrough_data d build_passthrough from_obj s.spec_generation q h) s.services
            f.entries refl small;
      running = All-usize_succ s.tasks s.spec_generation f.running small;
    };
  }
  publish-Effect (some source) name q h dns s = record {
    raw = refl;
    refs = refl;
    elsewhere = λ n other. refl;
    fresh = λ f small. record {
      entries = λ n entry e.
          lt-usize_succ entry.generation s.spec_generation (omega (arith, f.entries n entry e))
            small;
      running =
          All-append (λ t. t.generation < usize_succ s.spec_generation) s.tasks _
            (All-usize_succ s.tasks s.spec_generation f.running small)
            (lt-usize_succ s.spec_generation s.spec_generation (omega arith) small, tt);
    };
  }

  -- A step that ends with such an effect.
  abbrev pub Updates : Text → LoaderState → Option LoaderState → Type 0
  Updates name s r = (s' : LoaderState) × (r ≡ some s') × Effect name s s'

  load_object-Updates :
      (object : GrcacheService Metadata) (s : LoaderState)
      → IsParseable object.service_name
      → Updates object.service_name s (load_object d build_passthrough from_obj object s)
  unfolding load_object
  load_object-Updates object s (q, e) =
      let known : parsed object.service_name ≡ some q = unfold parsed in (rw (e, parsed)) in
      rw (known, load_object, ◌>>=◌) (_, refl, publish-Effect _ _ _ _ _ _)

  pub update_service-Updates :
      (name : Text) (s : LoaderState) (l : List ObjectRef)
      → IsWellIndexed s
      → lookup name s.ref_by_grpc_service ≡ some l
      → Updates name s (update_service d build_passthrough from_obj name s)
  unfolding update_service
  update_service-Updates name s [] w h =
      rw (h, update_service)
        (
          _,
          refl,
          record {
            raw = refl;
            refs = refl;
            elsewhere = λ n other. ground (
              arith,
              lookup-insert name n (unloaded_data d build_passthrough from_obj s.spec_generation)
                  s.services,
              eq_iff name n,
            );
            fresh = λ f small. record {
              entries =
                  Below-insert s.spec_generation name
                    (unloaded_data d build_passthrough from_obj s.spec_generation) s.services
                    f.entries refl small;
              running = All-usize_succ s.tasks s.spec_generation f.running small;
            };
          },
        )
  update_service-Updates name s (o ∷ os) w h =
      let (object, stored, names) = selected w name o os h in
      rw (h, update_service, stored)
        (subst (λ (n : Text). Updates n s (load_object d build_passthrough from_obj object s)) names
          (load_object-Updates object s (w.parseable (min_by_key o os) object stored)))
