-- ===== src/Tests/Pipeline.antt =====
-- The theorem on the watcher and the loader at a watch of one object.
use grcache.Prelude.{ℕ, ◌≡◌, refl, false, ◌||◌, Option, some, List, [], ◌∷◌, Text}
use grcache.Prelude.Map.{lookup, insert, retain, dropped, set_insert}
use grcache.Tests.{protobuf, discovery, name_a, dotted}
use grcache.Service.{ServiceSpec}
use grcache.Tests.Loader.{Object, ref_a, object_at, from_metadata, passthrough, parse_dotted}
use grcache.Crd.{ObjectRef, object_ref_eq}
use grcache.ResourceChange.{Event, ResourceChange, Item, start, resource_changes, step, upsert}
use grcache.ResourceChange.Mirror.{version_of}
use grcache.Store.{State, initial, handle_changes}
use grcache.Store.Update.{IsWellIndexed}
use grcache.Store.Watch.{has_ready}
use grcache.Store.Pipeline.{handle_changes-resource_changes}

abbrev object_a : Object
object_a = object_at ref_a dotted

abbrev version : Object → Option Text
version object = some name_a

abbrev events : List (Item (Event Object) ℕ)
events =
    Item.ok Event.init
    ∷ Item.ok (Event.init_apply object_a)
    ∷ Item.ok Event.init_done
    ∷ Item.err 1
    ∷ Item.ok (Event.apply object_a)
    ∷ []

abbrev items : List (Item (ResourceChange Object ObjectRef) ℕ)
items = Item.ok (ResourceChange.apply object_a) ∷ Item.ok ResourceChange.ready ∷ Item.err 1 ∷ []

abbrev out :
    grcache.ResourceChange.State ObjectRef × List (Item (ResourceChange Object ObjectRef) ℕ)
out = (record { objects = (ref_a, name_a) ∷ []; init_present = [] }, items)

yielded : resource_changes from_metadata version start events ≡ some out
unfolding resource_changes step upsert lookup insert retain dropped set_insert
yielded = refl

handle_changes-resource_changes_example :
    (s' : State discovery (ServiceSpec protobuf) ObjectRef) × (handle_changes discovery passthrough
        from_metadata items
        (initial discovery passthrough from_metadata 0, false)
      ≡ some (s', has_ready discovery ℕ passthrough from_metadata items || false))
    × IsWellIndexed discovery passthrough from_metadata s'
    × ((o : ObjectRef) → version_of version (lookup o s'.raw_services) ≡ lookup o out.0.objects)
handle_changes-resource_changes_example =
    handle_changes-resource_changes discovery ℕ passthrough from_metadata version events 0 out
      (tt, ((name_a, refl), (tt, (tt, ((name_a, refl), tt))))) yielded
      (parse_dotted, (tt, (tt, tt)))
