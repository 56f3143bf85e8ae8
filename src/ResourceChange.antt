-- ===== src/ResourceChange.antt =====
-- grcache-shared/src/resource_change.rs: watcher events turned into changes, with relists diffed
-- against what has been seen. The resource type, its key and its version are the kube crate's.
pub mod Mirror
pub mod Relist
use mathlib.Core.Option
use grcache.Prelude.{
  Option, none, some, List, [], ◌∷◌, ◌++◌, map, ◌==◌, Eq, if◌then◌else◌, contains, Text, text_eq,
}
use grcache.Prelude.Map.{Map, lookup, insert, remove, retain, dropped, set_insert}

-- `watcher::Event`
pub data Event (R : Type 0) : Type 0 where
  init : Event R
  init_apply : R → Event R
  init_done : Event R
  apply : R → Event R
  delete : R → Event R

pub data ResourceChange (R O : Type 0) : Type 0 where
  ready : ResourceChange R O
  apply : R → ResourceChange R O
  delete : O → ResourceChange R O

-- An item of a stream: `Result<_, watcher::Error>`.
pub data Item (A E : Type 0) : Type 0 where
  ok : A → Item A E
  err : E → Item A E

-- The local variables of the generator.
pub record State (O : Type 0) : Type 0 where
  pub objects : Map O Text
  pub init_present : List O

abbrev pub start : {O : Type 0} → State O
start = record { objects = []; init_present = [] }

-- `yield`s of the deletions that a relist has found.
abbrev pub deletions : {R O E : Type 0} → List O → List (Item (ResourceChange R O) E)
deletions [] = []
deletions (o ∷ os) = Item.ok (ResourceChange.delete o) ∷ deletions os

-- The `match objects.entry(key)` of both kinds of apply; `make_key` is `to_object_ref`.
unfoldable pub upsert :
    {R O E : Type 0} ⦃e : Eq O⦄ (make_key : R → O)
    → Map O Text
    → R
    → Text
    → Map O Text × List (Item (ResourceChange R O) E)
upsert make_key objects r ver = elim (lookup (make_key r) objects) [
  | some occupied ↦
      if occupied == ver
      then (objects, [])
      else (insert (make_key r) ver objects, Item.ok (ResourceChange.apply r) ∷ [])
  | none ↦ (insert (make_key r) ver objects, Item.ok (ResourceChange.apply r) ∷ [])
]

-- `resource_version` is that of the trait `Resource`; `none` is a panic of the
-- `unwrap` on a resource without a version.
module _ {R O E : Type 0} ⦃e : Eq O⦄ (make_key : R → O) (resource_version : R → Option Text) where
  -- One round of the `while let`: the new state and what is yielded.
  unfoldable pub step :
      State O → Item (Event R) E → Option (State O × List (Item (ResourceChange R O) E))
  step s (Item.ok Event.init) = some (record s { init_present = [] }, [])
  step s (Item.ok (Event.init_apply r)) =
      Option.map
        (λ ver.
          let (objects, items) = upsert make_key s.objects r ver in
          (
            record { objects = objects; init_present = set_insert (make_key r) s.init_present },
            items,
          ))
        (resource_version r)
  step s (Item.ok Event.init_done) =
      let present = λ (k : O). contains k s.init_present in
      some (
        record { objects = retain present s.objects; init_present = [] },
        deletions (dropped present s.objects) ++ Item.ok ResourceChange.ready ∷ [],
      )
  step s (Item.ok (Event.apply r)) =
      Option.map
        (λ ver.
          let (objects, items) = upsert make_key s.objects r ver in
          (record s { objects = objects }, items))
        (resource_version r)
  step s (Item.ok (Event.delete r)) = some (
    record s { objects = remove (make_key r) s.objects },
    Item.ok (ResourceChange.delete (make_key r)) ∷ [],
  )
  step s (Item.err error) = some (s, Item.err error ∷ [])

  -- The whole stream over the events so far.
  unfoldable pub resource_changes :
      State O → List (Item (Event R) E) → Option (State O × List (Item (ResourceChange R O) E))
  resource_changes s [] = some (s, [])
  resource_changes s (event ∷ events) = elim (step s event) [
    | none ↦ none
    | some (s', now) ↦
        Option.map (λ (r : State O × List (Item (ResourceChange R O) E)). (r.0, now ++ r.1))
          (resource_changes s' events)
  ]
