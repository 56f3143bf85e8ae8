-- ===== src/Store/Safety.antt =====
-- No step of the loader in grcache-proxy/src/service_store.rs panics on a state that is well
-- indexed, and every step keeps it so.
use mathlib.Core.Path.{subst}
use mathlib.Core.Option.{some-injective}
use grcache.Prelude.{
  ◌≡◌, refl, sym, Option, none, some, List, Text, arith, text_eq, Option-cases, inl, inr, eq_refl,
}
use grcache.Prelude.Map.{Map, lookup, insert, remove, set_remove, lookup-insert, lookup-remove}
use grcache.Crd.{ObjectRef, object_ref_eq, GrcacheService}
use grcache.Service.{QualifiedService}
use grcache.Store.Index.{
  IsParseable, indexed_entry, IsIndexed-remove, IsIndexed-absent, IsIndexed-insert, lookup-add_ref,
}
use grcache.Store.{
  Discovery, State, ◌>>=◌, update_service, remove_noupdate, remove_object, apply_object,
}
use grcache.Store.Update.{IsWellIndexed, Effect-IsWellIndexed, update_service-Updates}

module _ (d : Discovery) {Spec Metadata : Type 0} (build_passthrough : QualifiedService → Spec)
    (from_obj : GrcacheService Metadata → ObjectRef) where
  abbrev Loader : Type 0
  Loader = State d Spec Metadata

  abbrev WellIndexed : Loader → Type 0
  WellIndexed = IsWellIndexed d build_passthrough from_obj

  -- A step that ends in a well indexed state with these objects.
  abbrev pub Steps : Map ObjectRef (GrcacheService Metadata) → Option Loader → Type 0
  Steps raw r = (s' : Loader) × (r ≡ some s') × WellIndexed s' × (s'.raw_services ≡ raw)

  update_service-Steps :
      (name : Text) (s : Loader) (l : List ObjectRef)
      → WellIndexed s
      → lookup name s.ref_by_grpc_service ≡ some l
      → Steps s.raw_services (update_service d build_passthrough from_obj name s)
  update_service-Steps name s l w h =
      let (s', e, same) = update_service-Updates d build_passthrough from_obj name s l w h in
      (s', e, Effect-IsWellIndexed d build_passthrough from_obj name s s' same w, same.raw)

  -- What `remove_noupdate` leaves.
  pub record Removed (ref : ObjectRef) (s : Loader) (prev : Option (GrcacheService Metadata))
      (s' : Loader) : Type 0 where
    pub previous : prev ≡ lookup ref s.raw_services
    pub raw : s'.raw_services ≡ remove ref s.raw_services
    pub well : WellIndexed s'
    pub services : s'.services ≡ s.services
    pub generation : s'.spec_generation ≡ s.spec_generation
    pub tasks : s'.tasks ≡ s.tasks
    pub entry :
        (object : GrcacheService Metadata)
        → prev ≡ some object
        → (l : List ObjectRef) × (lookup object.service_name s'.ref_by_grpc_service ≡ some l)

  abbrev pub HasEntry : Loader → Text → List ObjectRef → GrcacheService Metadata → Type 0
  HasEntry s name refs found =
      (l : List ObjectRef) × (lookup found.service_name (insert name refs s.ref_by_grpc_service)
        ≡ some l)

  pub remove_noupdate-Removed :
      (ref : ObjectRef) (s : Loader)
      → WellIndexed s
      → (prev : Option (GrcacheService Metadata)) × (s' : Loader) × (remove_noupdate d
            build_passthrough from_obj ref s
          ≡ some (prev, s'))
        × Removed ref s prev s'
  unfolding remove_noupdate
  remove_noupdate-Removed ref s w = elim (Option-cases (lookup ref s.raw_services)) [
    | inl absent ↦
        rw (absent, remove_noupdate)
          (
            none,
            _,
            refl,
            record {
              previous = sym absent;
              raw = refl;
              well = IsIndexed-absent w ref absent;
              services = refl;
              generation = refl;
              tasks = refl;
              entry = λ object e. absurd (ground arith);
            },
          )
    | inr (object, stored) ↦
        let (l, listed) = indexed_entry w ref object stored in
        rw (stored, remove_noupdate, listed)
          (
            some object,
            _,
            refl,
            record {
              previous = sym stored;
              raw = refl;
              well = IsIndexed-remove w ref object l stored listed;
              services = refl;
              generation = refl;
              tasks = refl;
              entry = λ found e.
                  subst (HasEntry s object.service_name (set_remove ref l)) (some-injective _ _ e)
                    (set_remove ref l, rw (lookup-insert, eq_refl));
            },
          )
  ]

  abbrev after_removal : Option (GrcacheService Metadata) → Loader → Option Loader
  after_removal prev s = elim prev [
    | none ↦ some s
    | some object ↦ update_service d build_passthrough from_obj object.service_name s
  ]

  after_removal-Steps :
      (ref : ObjectRef) (s : Loader) (prev : Option (GrcacheService Metadata)) (s' : Loader)
      → Removed ref s prev s'
      → Steps (remove ref s.raw_services) (after_removal prev s')
  after_removal-Steps ref s none s' removed = (s', refl, removed.well, removed.raw)
  after_removal-Steps ref s (some object) s' removed =
      let (l, h) = removed.entry object refl in
      rw (← removed.raw) (update_service-Steps object.service_name s' l removed.well h)

  -- Removing an object, known or not, from a well indexed state does not panic, and leaves a well
  -- indexed state that holds the other objects.
  pub remove_object-Steps :
      (ref : ObjectRef) (s : Loader)
      → WellIndexed s
      → Steps (remove ref s.raw_services) (remove_object d build_passthrough from_obj ref s)
  unfolding remove_object
  remove_object-Steps ref s w =
      let (prev, s', e, removed) = remove_noupdate-Removed ref s w in
      rw (e, remove_object, ◌>>=◌) (after_removal-Steps ref s prev s' removed)

  -- Applying an object whose service name parses to a well indexed state does not panic, and leaves a
  -- well indexed state that holds the object under its reference.
  pub apply_object-Steps :
      (object : GrcacheService Metadata) (s : Loader)
      → IsParseable object.service_name
      → WellIndexed s
      → Steps
          (insert (from_obj object) object (remove (from_obj object) s.raw_services))
          (apply_object d build_passthrough from_obj object s)
  unfolding apply_object
  apply_object-Steps object s p w =
      let ref = from_obj object in
      let (prev, s', e, removed) = remove_noupdate-Removed ref s w in
      let gone : lookup ref s'.raw_services ≡ none =
        rw removed.raw (rw (lookup-remove, eq_refl ref)) in
      let (l, h) = lookup-add_ref object.service_name ref s'.ref_by_grpc_service in
      rw (e, apply_object, ◌>>=◌, ← removed.raw)
        (update_service-Steps object.service_name _ l
          (IsIndexed-insert removed.well ref object gone p) h)
