-- ===== src/Tests/Watcher.antt =====
-- The theorems on the resource watcher at a watch of two objects.
use grcache.Prelude.{ℕ, ◌≡◌, refl, Option, some, List, [], ◌∷◌, ◌++◌, Text, text_eq}
use grcache.Prelude.Map.{lookup}
use grcache.Tests.{name_a, dotted, other_dotted}
use grcache.ResourceChange.{Event, ResourceChange, Item, State, start, resource_changes}
use grcache.ResourceChange.Mirror.{replay, version_of, replay-resource_changes}
use grcache.ResourceChange.Relist.{relist, latest, lookup-relist}

-- A resource is its key and its version.
abbrev Resource : Type 0
Resource = Text × Text

abbrev key : Resource → Text
key r = r.0

abbrev version : Resource → Option Text
version r = some r.1

-- A relist of two objects, an error, and a deletion.
abbrev events : List (Item (Event Resource) ℕ)
events =
    Item.ok Event.init
    ∷ Item.ok (Event.init_apply (dotted, name_a))
    ∷ Item.ok (Event.init_apply (other_dotted, name_a))
    ∷ Item.ok Event.init_done
    ∷ Item.err 1
    ∷ Item.ok (Event.delete (dotted, name_a))
    ∷ []

replay-resource_changes_example :
    (out : State Text × List (Item (ResourceChange Resource Text) ℕ)) × (resource_changes key
        version start events
      ≡ some out)
    × ((o : Text) → lookup o out.0.objects ≡ version_of version (lookup o (replay key [] out.1)))
replay-resource_changes_example =
    replay-resource_changes ℕ key version events
      (tt, ((name_a, refl), ((name_a, refl), (tt, (tt, (tt, tt))))))

-- What is tracked before a relist that lists another object.
abbrev tracked : State Text
tracked = record { objects = (dotted, name_a) ∷ []; init_present = dotted ∷ [] }

lookup-relist_example :
    (s' : State Text) × (items : List (Item (ResourceChange Resource Text) ℕ)) × (resource_changes
        key version tracked
        (relist ℕ key version ((other_dotted, name_a) ∷ []))
      ≡ some (s', items ++ Item.ok ResourceChange.ready ∷ []))
    × ((o : Text) → lookup o s'.objects ≡ latest key version o ((other_dotted, name_a) ∷ []))
    × (s'.init_present ≡ [])
lookup-relist_example =
    lookup-relist ℕ key version tracked ((other_dotted, name_a) ∷ []) ((name_a, refl), tt)
