-- ===== src/Store/Pipeline.antt =====
-- The watcher of grcache-shared/src/resource_change.rs and the loop of `K8SConfigService::start` in
-- grcache-proxy/src/service_store.rs, one after the other.
use mathlib.Core.Path.{subst}
use mathlib.Core.Option.{some-injective}
use grcache.Prelude.{
  ◌≡◌, refl, sym, ap, ◌∙◌, false, Option, some, List, [], Text, arith, All, text_eq, ◌||◌,
}
use grcache.Prelude.Map.{lookup}
use grcache.Crd.{ObjectRef, object_ref_eq, GrcacheService}
use grcache.Service.{QualifiedService}
use grcache.ResourceChange.{Event, ResourceChange, Item, start, resource_changes}
use grcache.ResourceChange.Mirror.{IsVersioned, version_of, replay, replay-resource_changes}
use grcache.Store.Update.{IsWellIndexed}
use grcache.Store.Watch.{HasParseable, has_ready, handle_changes-mirror}
use grcache.Store.{Discovery, State, initial, handle_changes}

module _ (d : Discovery) {Spec Metadata : Type 0} (E : Type 0)
    (build_passthrough : QualifiedService → Spec) (from_obj : GrcacheService Metadata → ObjectRef)
    (resource_version : GrcacheService Metadata → Option Text) where
  initial-IsWellIndexed :
      (dns : d.Dns)
      → IsWellIndexed d build_passthrough from_obj (initial d build_passthrough from_obj dns)
  unfolding lookup
  initial-IsWellIndexed dns = record {
    index = λ name ref. refl;
    parseable = λ ref object h. absurd (ground arith);
  }

  -- What the generator and the consumer hold.
  abbrev Tracked : Type 0
  Tracked =
      grcache.ResourceChange.State ObjectRef
      × List (Item (ResourceChange (GrcacheService Metadata) ObjectRef) E)

  abbrev Holds : Tracked → Type 0
  Holds out =
      (o : ObjectRef)
      → lookup o out.0.objects ≡ version_of resource_version (lookup o (replay from_obj [] out.1))

  -- From the watcher to the loader. Over any events whose applied objects carry a version, errors and
  -- relists included, and as long as the objects that are yielded name services that parse, the
  -- loader that starts empty handles all that is yielded without a panic, stays well indexed, and
  -- holds for every reference an object of the version that the watcher tracks, or none where it
  -- tracks none.
  pub handle_changes-resource_changes :
      (events : List (Item (Event (GrcacheService Metadata)) E)) (dns : d.Dns) (out : Tracked)
      → All (IsVersioned E from_obj resource_version) events
      → resource_changes from_obj resource_version start events ≡ some out
      → All HasParseable out.1
      → (s' : State d Spec Metadata) × (handle_changes d build_passthrough from_obj out.1
            (initial d build_passthrough from_obj dns, false)
          ≡ some (s', has_ready d E build_passthrough from_obj out.1 || false))
        × IsWellIndexed d build_passthrough from_obj s'
        × ((o : ObjectRef)
            → version_of resource_version (lookup o s'.raw_services) ≡ lookup o out.0.objects)
  handle_changes-resource_changes events dns out versioned run parse =
      let (found, e, agree) =
        replay-resource_changes E from_obj resource_version events versioned in
      let tracked : Holds out = subst Holds (some-injective _ _ (sym e ∙ run)) agree in
      let (s', handled, well, same) =
        handle_changes-mirror d E build_passthrough from_obj out.1
          (initial d build_passthrough from_obj dns) false (initial-IsWellIndexed dns) parse in
      (s', handled, well, λ o. ap (version_of resource_version) (same o) ∙ sym (tracked o))
