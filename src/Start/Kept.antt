-- ===== src/Start/Kept.antt =====
-- What every round of the loader of grcache-proxy/src/service_store.rs keeps, if its updates of single
-- services do: the discovery, the published entries and the tasks change in these alone.
use mathlib.Core.Option.{some-injective}
use mathlib.Core.Path.{subst}
use grcache.Prelude.{
  ℕ, ◌≡◌, refl, sym, ap, Bool, true, Option, none, some, [], ◌∷◌, Text, text_eq, Option-cases, inl,
  inr, List,
}
use grcache.Prelude.Map.{Map, lookup, insert}
use grcache.Crd.{Upstream, DescriptorSetSource, ObjectRef, object_ref_eq, GrcacheService}
use grcache.Service.{QualifiedService}
use grcache.ResourceChange.{ResourceChange, Item}
use grcache.Dns
use grcache.Dns.{dns_discovery}
use grcache.Store
use grcache.Store.{
  ◌>>=◌, publish, load_object, update_service, remove_noupdate, remove_object, apply_object,
  add_ref, parsed, handle_change, discover, usize_succ, unloaded_data, ServiceData, Task,
}
use grcache.Store.Order.{min_by_key}

-- The discovery that the loader uses, the published entries and the tasks.
abbrev pub View : Type 0 → Type 0
View Spec = Dns.State × Map Text (ServiceData Spec ℕ) × List (Task ℕ)

abbrev pub view : {Spec Metadata : Type 0} → Store.State dns_discovery Spec Metadata → View Spec
view s = (s.dns_service, s.services, s.tasks)

module _ {Spec Metadata : Type 0} (build_passthrough : QualifiedService → Spec)
    (from_obj : GrcacheService Metadata → ObjectRef) (R : View Spec → View Spec → Type 0)
    (kept : (v : View Spec) → R v v)
    (unloads : (name : Text) (s : Store.State dns_discovery Spec Metadata)
      → R (view s) (
        s.dns_service,
        insert name
            (unloaded_data dns_discovery build_passthrough from_obj s.spec_generation)
            s.services,
        s.tasks,
      ))
    (publishes : (source : Option DescriptorSetSource) (name : Text) (service : QualifiedService)
        (upstream : Upstream) (s : Store.State dns_discovery Spec Metadata)
      → let found = discover dns_discovery build_passthrough from_obj upstream s.dns_service in
        R (view s) (
          view (
            publish dns_discovery build_passthrough from_obj source name service s.spec_generation
              found.1
              (record s {
                spec_generation = usize_succ s.spec_generation;
                dns_service = found.0;
              })))) where
  abbrev Loader : Type 0
  Loader = Store.State dns_discovery Spec Metadata

  -- The state that an operation leads to, if it does not panic.
  abbrev KeptBy : View Spec → Option Loader → Type 0
  KeptBy v none = Unit
  KeptBy v (some t) = R v (view t)

  load_object-KeptBy :
      (object : GrcacheService Metadata) (s : Loader)
      → KeptBy (view s) (load_object dns_discovery build_passthrough from_obj object s)
  unfolding load_object
  load_object-KeptBy object s = elim (Option-cases (parsed object.service_name)) [
    | inl n ↦ rw (n, load_object) tt
    | inr (service, e) ↦
        rw (e, load_object)
          (publishes object.descriptor_set_source object.service_name service object.upstream s)
  ]

  update_service-KeptBy :
      (name : Text) (s : Loader)
      → KeptBy (view s) (update_service dns_discovery build_passthrough from_obj name s)
  unfolding update_service
  update_service-KeptBy name s = elim (Option-cases (lookup name s.ref_by_grpc_service)) [
    | inl n ↦ rw (n, update_service) tt
    | inr ([], e) ↦ rw (e, update_service) (unloads name s)
    | inr (o ∷ os, e) ↦ elim (Option-cases (lookup (min_by_key o os) s.raw_services)) [
      | inl n ↦ rw (e, update_service, n) tt
      | inr (object, l) ↦ rw (e, update_service, l) (load_object-KeptBy object s)
    ]
  ]

  view-remove_noupdate :
      (object_ref : ObjectRef) (s : Loader) (r : Option (GrcacheService Metadata) × Loader)
      → remove_noupdate dns_discovery build_passthrough from_obj object_ref s ≡ some r
      → view r.1 ≡ view s
  unfolding remove_noupdate
  view-remove_noupdate object_ref s r e = elim (Option-cases (lookup object_ref s.raw_services)) [
    | inl n ↦ sym (
        ap (λ (x : Option (GrcacheService Metadata) × Loader). view x.1)
          (some-injective _ _ (rw (n, remove_noupdate) at e)))
    | inr (previous, l) ↦ elim (Option-cases (lookup previous.service_name s.ref_by_grpc_service)) [
      | inl n ↦ let stuck : none ≡ some r = rw (l, remove_noupdate, n) at e in absurd (cc)
      | inr (refs, k) ↦ sym (
          ap (λ (x : Option (GrcacheService Metadata) × Loader). view x.1)
            (some-injective _ _ (rw (l, remove_noupdate, k) at e)))
    ]
  ]

  remove_object-KeptBy :
      (object_ref : ObjectRef) (s : Loader)
      → KeptBy (view s) (remove_object dns_discovery build_passthrough from_obj object_ref s)
  unfolding remove_object
  remove_object-KeptBy object_ref s =
      elim (Option-cases (remove_noupdate dns_discovery build_passthrough from_obj object_ref s)) [
        | inl n ↦ rw (n, remove_object) tt
        | inr ((none, t), e) ↦
            rw (e, remove_object)
              (subst (R (view s)) (sym (view-remove_noupdate object_ref s (none, t) e))
                (kept (view s)))
        | inr ((some object, t), e) ↦
            rw (e, remove_object)
              (subst
                (λ (v : View Spec).
                  KeptBy v
                    (update_service dns_discovery build_passthrough from_obj object.service_name t))
                (view-remove_noupdate object_ref s (some object, t) e)
                (update_service-KeptBy object.service_name t))
      ]

  apply_object-KeptBy :
      (object : GrcacheService Metadata) (s : Loader)
      → KeptBy (view s) (apply_object dns_discovery build_passthrough from_obj object s)
  unfolding apply_object
  apply_object-KeptBy object s =
      elim (Option-cases
        (remove_noupdate dns_discovery build_passthrough from_obj (from_obj object) s)) [
          | inl n ↦ rw (n, apply_object) tt
          | inr ((previous, t), e) ↦
              let updated : Loader = record t {
                raw_services = insert (from_obj object) object t.raw_services;
                ref_by_grpc_service =
                    add_ref object.service_name (from_obj object) t.ref_by_grpc_service;
              } in
              rw (e, apply_object)
                (subst
                  (λ (v : View Spec). KeptBy v (
                    update_service dns_discovery build_passthrough from_obj object.service_name
                      updated))
                  (view-remove_noupdate (from_obj object) s (previous, t) e)
                  (update_service-KeptBy object.service_name updated))
        ]

  -- What a round of the loop leads to, if it does not panic; once it has caught up, it stays so.
  KeptByRound : View Spec → Bool → Option (Loader × Bool) → Type 0
  KeptByRound v is_ready none = Unit
  KeptByRound v is_ready (some (t, still)) = R v (view t) × (is_ready ≡ true → still ≡ true)

  rounded :
      (s : Loader) (is_ready : Bool) (r : Option Loader)
      → KeptBy (view s) r
      → KeptByRound (view s) is_ready (do t ← r; some (t, is_ready))
  unfolding KeptByRound
  rounded s is_ready none k = tt
  rounded s is_ready (some t) k = (k, λ e. e)

  handle_change-KeptByRound :
      {E : Type 0} (item : Item (ResourceChange (GrcacheService Metadata) ObjectRef) E) (s : Loader)
      (is_ready : Bool)
      → KeptByRound
          (view s)
          is_ready
          (handle_change dns_discovery build_passthrough from_obj item (s, is_ready))
  unfolding handle_change KeptByRound
  handle_change-KeptByRound (Item.ok ResourceChange.ready) s is_ready = (kept (view s), λ e. refl)
  handle_change-KeptByRound (Item.ok (ResourceChange.apply object)) s is_ready =
      rounded s is_ready (apply_object dns_discovery build_passthrough from_obj object s)
        (apply_object-KeptBy object s)
  handle_change-KeptByRound (Item.ok (ResourceChange.delete object_ref)) s is_ready =
      rounded s is_ready (remove_object dns_discovery build_passthrough from_obj object_ref s)
        (remove_object-KeptBy object_ref s)
  handle_change-KeptByRound (Item.err error) s is_ready = (kept (view s), λ e. e)

  pub handle_change-keeps :
      {E : Type 0} (item : Item (ResourceChange (GrcacheService Metadata) ObjectRef) E) (s : Loader)
      {t : Loader} (is_ready : Bool) {still : Bool}
      → handle_change dns_discovery build_passthrough from_obj item (s, is_ready) ≡ some (t, still)
      → R (view s) (view t) × (is_ready ≡ true → still ≡ true)
  unfolding KeptByRound
  handle_change-keeps item s is_ready e =
      subst (KeptByRound (view s) is_ready) e (handle_change-KeptByRound item s is_ready)
