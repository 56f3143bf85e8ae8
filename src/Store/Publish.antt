-- ===== src/Store/Publish.antt =====
-- What the steps of grcache-proxy/src/service_store.rs publish to the proxy.
use mathlib.Core.Path.{subst}
use grcache.Prelude.{
  ℕ, ◌+◌, ◌^◌, ◌<◌, ◌≢◌, ◌≡◌, refl, ap, ◌∙◌, true, false, Option, none, some, List, [], ◌∷◌, Text,
  arith, All, text_eq, contains, eq_iff, eq_refl,
}
use grcache.Prelude.Map.{lookup, insert, remove, lookup-insert, lookup-remove}
use grcache.Crd.{ObjectRef, object_ref_eq, object_ref_beq_iff, GrcacheService}
use grcache.Service.{QualifiedService}
use grcache.Store.Generation.{Ended, finish_tasks_older}
use grcache.Store.Index.{IsParseable, owns, refs_of, IsIndexed-insert, lookup-add_ref}
use grcache.Store.Update.{IsWellIndexed, IsFresh, update_service-Updates}
use grcache.Store.Safety.{Removed, remove_noupdate-Removed}
use grcache.Store.{
  Discovery, State, ◌>>=◌, update_service, remove_noupdate, remove_object, add_ref, apply_object,
  finish_tasks, unloaded_data,
}

module _ (d : Discovery) {Spec Metadata : Type 0} (build_passthrough : QualifiedService → Spec)
    (from_obj : GrcacheService Metadata → ObjectRef) where
  abbrev LoaderState : Type 0
  LoaderState = State d Spec Metadata

  abbrev WellIndexed : LoaderState → Type 0
  WellIndexed = IsWellIndexed d build_passthrough from_obj

  abbrev Fresh : LoaderState → Type 0
  Fresh = IsFresh d build_passthrough from_obj

  Removed-Fresh :
      (ref : ObjectRef) (s : LoaderState) (prev : Option (GrcacheService Metadata))
      (s' : LoaderState)
      → Removed d build_passthrough from_obj ref s prev s'
      → Fresh s
      → Fresh s'
  Removed-Fresh ref s prev s' r f = record {
    entries = λ n entry e. rw r.generation (f.entries n entry (rw (← r.services) e));
    running = rw (r.generation, r.tasks) f.running;
  }

  apply_object_lem :
      (object : GrcacheService Metadata) (s : LoaderState)
      → IsParseable object.service_name
      → WellIndexed s
      → (s' : LoaderState) × (apply_object d build_passthrough from_obj object s ≡ some s')
        × ((n : Text) → n ≢ object.service_name → lookup n s'.services ≡ lookup n s.services)
        × (lookup (from_obj object) s'.raw_services ≡ some object)
        × (Fresh s → s.spec_generation + 1 < 2 ^ 64 → Fresh s')
  unfolding apply_object
  apply_object_lem object s p w =
      let ref = from_obj object in
      let (prev, s1, e, removed) = remove_noupdate-Removed d build_passthrough from_obj ref s w in
      let gone : lookup ref s1.raw_services ≡ none =
        rw removed.raw (rw (lookup-remove, eq_refl ref)) in
      let (l, h) = lookup-add_ref object.service_name ref s1.ref_by_grpc_service in
      let s2 : LoaderState = record s1 {
        raw_services = insert ref object s1.raw_services;
        ref_by_grpc_service = add_ref object.service_name ref s1.ref_by_grpc_service;
      } in
      let (s', run, effect) =
        update_service-Updates d build_passthrough from_obj object.service_name s2 l
          (IsIndexed-insert removed.well ref object gone p) h in
      (
        s',
        rw (e, apply_object, ◌>>=◌) run,
        λ n other. effect.elsewhere n other ∙ ap (lookup n) removed.services,
        rw effect.raw (rw (lookup-insert, eq_refl ref)),
        λ f small.
            let f1 = Removed-Fresh ref s prev s1 removed f in
            effect.fresh (record { entries = f1.entries; running = f1.running })
              (rw removed.generation small),
      )

  -- Applying an object whose service name parses, to a well indexed state, publishes under that name
  -- alone: the object is stored, and the entry of any other service stays as it is.
  pub apply_object-elsewhere :
      (object : GrcacheService Metadata) (s : LoaderState) (n : Text)
      → IsParseable object.service_name
      → WellIndexed s
      → n ≢ object.service_name
      → (s' : LoaderState) × (apply_object d build_passthrough from_obj object s ≡ some s')
        × (lookup n s'.services ≡ lookup n s.services)
        × (lookup (from_obj object) s'.raw_services ≡ some object)
  apply_object-elsewhere object s n p w other =
      let (s', run, elsewhere, here, _) = apply_object_lem object s p w in
      (s', run, elsewhere n other, here)

  -- An object that is stored under one service name and, in a well indexed state, applied again
  -- under another that parses: the object no longer names the old service, but the published entry
  -- of the old service stays as it was, so the proxy goes on serving it.
  pub apply_object-renamed :
      (object old : GrcacheService Metadata) (s : LoaderState)
      → IsParseable object.service_name
      → WellIndexed s
      → lookup (from_obj object) s.raw_services ≡ some old
      → old.service_name ≢ object.service_name
      → (s' : LoaderState) × (apply_object d build_passthrough from_obj object s ≡ some s')
        × (owns s'.raw_services old.service_name (from_obj object) ≡ false)
        × (lookup old.service_name s'.services ≡ lookup old.service_name s.services)
  apply_object-renamed object old s p w stored other =
      let (s', run, elsewhere, here, _) = apply_object_lem object s p w in
      (
        s',
        run,
        ground (arith, eq_iff object.service_name old.service_name),
        elsewhere old.service_name other,
      )

  -- A list in which nothing is contained.
  nil_of_contains : (l : List ObjectRef) → ((o : ObjectRef) → contains o l ≡ false) → l ≡ []
  nil_of_contains [] h = refl
  nil_of_contains (x ∷ l) h = absurd (ground (arith, h x, object_ref_beq_iff x x))

  -- Without the only object of a service, its entry in the index lists nothing.
  unlisted :
      (ref : ObjectRef) (object : GrcacheService Metadata) (s s1 : LoaderState)
      (prev : Option (GrcacheService Metadata)) (l : List ObjectRef) (o : ObjectRef)
      → Removed d build_passthrough from_obj ref s prev s1
      → ((o : ObjectRef) → owns s.raw_services object.service_name o ≡ true → o ≡ ref)
      → lookup object.service_name s1.ref_by_grpc_service ≡ some l
      → contains o l ≡ false
  unlisted ref object s s1 prev l o removed only listed =
      let index : contains o (refs_of s1.ref_by_grpc_service object.service_name)
          ≡ owns (remove ref s.raw_services) object.service_name o =
        rw (← removed.raw) (removed.well.index object.service_name o) in
      ground (arith, index, only o, lookup-remove ref o s.raw_services, object_ref_beq_iff ref o)

  -- Removing the only object of a service from a well indexed state does not panic, and unpublishes
  -- the service for good: its entry has neither a spec nor backends, and it stays so whichever tasks
  -- with generations below the counter still end, in whatever way and order.
  pub remove_object-unloads :
      (ref : ObjectRef) (object : GrcacheService Metadata) (s : LoaderState)
      (done : List (Ended Spec d.Handle))
      → WellIndexed s
      → lookup ref s.raw_services ≡ some object
      → ((o : ObjectRef) → owns s.raw_services object.service_name o ≡ true → o ≡ ref)
      → All (λ e. e.0.generation < s.spec_generation) done
      → (s' : LoaderState) × (remove_object d build_passthrough from_obj ref s ≡ some s')
        × (lookup object.service_name (finish_tasks done s'.services)
            ≡ some (unloaded_data d build_passthrough from_obj s.spec_generation))
  unfolding remove_object update_service
  remove_object-unloads ref object s done w stored only older =
      let (prev, s1, e, removed) = remove_noupdate-Removed d build_passthrough from_obj ref s w in
      let known : prev ≡ some object = removed.previous ∙ stored in
      let (l, listed) = removed.entry object known in
      let empty : l ≡ [] =
        nil_of_contains l (λ o. unlisted ref object s s1 prev l o removed only listed) in
      let run : remove_noupdate d build_passthrough from_obj ref s ≡ some (some object, s1) =
        e ∙ ap (λ (q : Option (GrcacheService Metadata)). some (q, s1)) known in
      let none_left : lookup object.service_name s1.ref_by_grpc_service ≡ some [] =
        listed ∙ ap some empty in
      rw (run, remove_object, ◌>>=◌, none_left, update_service)
        (
          _,
          refl,
          subst
              (λ (g : ℕ).
                lookup object.service_name (
                  finish_tasks done (
                    insert object.service_name
                      (unloaded_data d build_passthrough from_obj s1.spec_generation) s1.services))
                ≡ some (unloaded_data d build_passthrough from_obj g))
              removed.generation
              (finish_tasks_older object.service_name done _
                (unloaded_data d build_passthrough from_obj s1.spec_generation)
                (rw (lookup-insert, eq_refl object.service_name)) (rw removed.generation older)),
        )
