-- ===== src/Store/Watch.antt =====
-- The loop of `K8SConfigService::start` in grcache-proxy/src/service_store.rs over the changes that
-- grcache-shared/src/resource_change.rs yields.
use grcache.Prelude.{
  ◌≡◌, refl, ap, ◌∙◌, Bool, true, false, some, List, [], ◌∷◌, arith, All, text_eq, ◌||◌,
}
use grcache.Prelude.Map.{Map, lookup, insert, remove, lookup-insert, lookup-remove}
use grcache.Crd.{ObjectRef, object_ref_eq, GrcacheService}
use grcache.Service.{QualifiedService}
use grcache.ResourceChange.{ResourceChange, Item}
use grcache.ResourceChange.Mirror.{replay}
use grcache.Store.Index.{IsParseable}
use grcache.Store.Update.{IsWellIndexed}
use grcache.Store.Safety.{remove_object-Steps, apply_object-Steps}
use grcache.Store.{Discovery, State, handle_change, handle_changes}

or_true : (b : Bool) → (b || true) ≡ true
or_true true = refl
or_true false = refl

-- Applied objects name services that parse.
abbrev pub HasParseable :
    {Metadata E : Type 0} → Item (ResourceChange (GrcacheService Metadata) ObjectRef) E → Type 0
HasParseable (Item.ok (ResourceChange.apply object)) = IsParseable object.service_name
HasParseable _ = Unit

module _ (d : Discovery) {Spec Metadata : Type 0} (E : Type 0)
    (build_passthrough : QualifiedService → Spec)
    (from_obj : GrcacheService Metadata → ObjectRef) where
  abbrev Change : Type 0
  Change = Item (ResourceChange (GrcacheService Metadata) ObjectRef) E

  abbrev LoaderState : Type 0
  LoaderState = State d Spec Metadata

  -- Some `Ready` is among the changes.
  abbrev pub has_ready : List Change → Bool
  has_ready [] = false
  has_ready (Item.ok ResourceChange.ready ∷ l) = true
  has_ready (_ ∷ l) = has_ready l

  abbrev Mirrors : Map ObjectRef (GrcacheService Metadata) → LoaderState → Type 0
  Mirrors m s = (o : ObjectRef) → lookup o s.raw_services ≡ lookup o m

  replay-congr :
      (changes : List Change) (m m' : Map ObjectRef (GrcacheService Metadata))
      → ((o : ObjectRef) → lookup o m ≡ lookup o m')
      → (o : ObjectRef)
      → lookup o (replay from_obj m changes) ≡ lookup o (replay from_obj m' changes)
  unfolding replay
  replay-congr [] m m' h o = h o
  replay-congr (Item.ok ResourceChange.ready ∷ l) m m' h o = replay-congr l m m' h o
  replay-congr (Item.ok (ResourceChange.apply x) ∷ l) m m' h o =
      replay-congr l (insert (from_obj x) x m) (insert (from_obj x) x m')
        (λ q. rw (lookup-insert (from_obj x) q x m, lookup-insert (from_obj x) q x m', h q)) o
  replay-congr (Item.ok (ResourceChange.delete x) ∷ l) m m' h o =
      replay-congr l (remove x m) (remove x m')
        (λ q. rw (lookup-remove x q m, lookup-remove x q m', h q)) o
  replay-congr (Item.err error ∷ l) m m' h o = replay-congr l m m' h o

  -- From a well indexed state, over changes whose applied objects all name services that parse, the
  -- loop never panics; it ends well indexed, it holds exactly the objects that a replay of the
  -- changes over its first objects holds, and it is ready if it was, or if a `Ready` was among them.
  pub handle_changes-mirror :
      (changes : List Change) (s : LoaderState) (is_ready : Bool)
      → IsWellIndexed d build_passthrough from_obj s
      → All HasParseable changes
      → (s' : LoaderState) × (handle_changes d build_passthrough from_obj changes (s, is_ready)
          ≡ some (s', has_ready changes || is_ready))
        × IsWellIndexed d build_passthrough from_obj s'
        × ((o : ObjectRef)
            → lookup o s'.raw_services ≡ lookup o (replay from_obj s.raw_services changes))
  unfolding handle_changes handle_change replay
  handle_changes-mirror [] s is_ready w h = (s, refl, w, λ o. refl)
  handle_changes-mirror (Item.ok ResourceChange.ready ∷ l) s is_ready w h =
      let (s', run, w', same) = handle_changes-mirror l s true w h.1 in
      (s', run ∙ ap (λ (b : Bool). some (s', b)) (or_true (has_ready l)), w', same)
  handle_changes-mirror (Item.ok (ResourceChange.apply x) ∷ l) s is_ready w h =
      let (now, e, w1, raw) = apply_object-Steps d build_passthrough from_obj x s h.0 w in
      let (s', run, w', same) = handle_changes-mirror l now is_ready w1 h.1 in
      (
        s',
        rw e run,
        w',
        λ o.
            same o
            ∙ replay-congr l now.raw_services (insert (from_obj x) x s.raw_services)
                (λ q. rw raw (
                  ground (
                    arith,
                    lookup-insert (from_obj x) q x (remove (from_obj x) s.raw_services),
                    lookup-insert (from_obj x) q x s.raw_services,
                    lookup-remove (from_obj x) q s.raw_services,
                  )))
                o,
      )
  handle_changes-mirror (Item.ok (ResourceChange.delete x) ∷ l) s is_ready w h =
      let (now, e, w1, raw) = remove_object-Steps d build_passthrough from_obj x s w in
      let (s', run, w', same) = handle_changes-mirror l now is_ready w1 h.1 in
      (s', rw e run, w', λ o. same o ∙ replay-congr l _ _ (λ q. rw raw) o)
  handle_changes-mirror (Item.err error ∷ l) s is_ready w h =
      handle_changes-mirror l s is_ready w h.1
