-- ===== src/ResourceChange/Mirror.antt =====
-- A consumer that replays the changes of grcache-shared/src/resource_change.rs holds the objects
-- that the generator tracks.
use mathlib.Core.Option
use mathlib.Core.Option.{some-injective}
use mathlib.Core.Path.{subst}
use grcache.Prelude.{
  refl, ◌≡◌, Option, none, some, List, [], ◌∷◌, ◌++◌, arith, ◌==◌, Eq, if◌then◌else◌, contains, All,
  Text, text_eq, Option-cases, Bool-cases, inl, inr,
}
use grcache.Prelude.Map.{
  Map, lookup, insert, remove, retain, dropped, lookup-insert, lookup-remove, lookup-retain,
  contains-dropped,
}
use grcache.ResourceChange.{
  Event, ResourceChange, Item, State, upsert, deletions, step, resource_changes, start,
}

abbrev pub version_of : {R : Type 0} → (R → Option Text) → Option R → Option Text
version_of resource_version none = none
version_of resource_version (some r) = resource_version r

module _ {R O : Type 0} ⦃e : Eq O⦄ (make_key : R → O) (resource_version : R → Option Text) where
  -- The generator and the consumer hold the same objects at the same versions.
  abbrev pub Agree : Map O Text → Map O R → Type 0
  Agree objects m = (o : O) → lookup o objects ≡ version_of resource_version (lookup o m)

  Agree-insert :
      (objects : Map O Text) (m : Map O R) (r : R) (ver : Text)
      → resource_version r ≡ some ver
      → Agree objects m
      → Agree (insert (make_key r) ver objects) (insert (make_key r) r m)
  Agree-insert objects m r ver h a o =
      ground
        (arith, lookup-insert (make_key r) o ver objects, lookup-insert (make_key r) o r m, a o)

module _ {R O E : Type 0} ⦃e : Eq O⦄ (make_key : R → O) where
  -- A consumer that stores applied resources under their keys, and drops deleted ones.
  unfoldable pub replay : Map O R → List (Item (ResourceChange R O) E) → Map O R
  replay m [] = m
  replay m (Item.ok ResourceChange.ready ∷ l) = replay m l
  replay m (Item.ok (ResourceChange.apply r) ∷ l) = replay (insert (make_key r) r m) l
  replay m (Item.ok (ResourceChange.delete o) ∷ l) = replay (remove o m) l
  replay m (Item.err error ∷ l) = replay m l

  pub replay-append :
      (m : Map O R) (xs ys : List (Item (ResourceChange R O) E))
      → replay m (xs ++ ys) ≡ replay (replay m xs) ys
  unfolding replay
  replay-append m [] ys = refl
  replay-append m (Item.ok ResourceChange.ready ∷ xs) ys = replay-append m xs ys
  replay-append m (Item.ok (ResourceChange.apply r) ∷ xs) ys =
      replay-append (insert (make_key r) r m) xs ys
  replay-append m (Item.ok (ResourceChange.delete o) ∷ xs) ys = replay-append (remove o m) xs ys
  replay-append m (Item.err error ∷ xs) ys = replay-append m xs ys

module _ {R O : Type 0} (E : Type 0) ⦃e : Eq O⦄ (make_key : R → O) where
  lookup-replay-deletions :
      (os : List O) (o : O) (m : Map O R)
      → lookup o (replay make_key m (deletions {E = E} os))
        ≡ (if contains o os then none else lookup o m)
  unfolding replay
  lookup-replay-deletions [] o m = refl
  lookup-replay-deletions (x ∷ os) o m =
      ground (arith, lookup-replay-deletions os o (remove x m), lookup-remove x o m)

module _ {R O : Type 0} (E : Type 0) ⦃e : Eq O⦄ (make_key : R → O)
    (resource_version : R → Option Text) where
  Agree-upsert :
      (objects : Map O Text) (m : Map O R) (r : R) (ver : Text)
      → resource_version r ≡ some ver
      → Agree make_key resource_version objects m
      → Agree make_key resource_version
          (upsert {E = E} make_key objects r ver).0
          (replay make_key m (upsert {E = E} make_key objects r ver).1)
  unfolding upsert replay
  Agree-upsert objects m r ver h a = elim (Option-cases (lookup (make_key r) objects)) [
    | inl vacant ↦ rw (vacant, upsert) (Agree-insert make_key resource_version objects m r ver h a)
    | inr (cur, occupied) ↦ elim (Bool-cases (cur == ver)) [
      | inl same ↦ rw (occupied, upsert, same) a
      | inr changed ↦
          rw (occupied, upsert, changed)
            (Agree-insert make_key resource_version objects m r ver h a)
    ]
  ]

  -- What holds of the state and the items that an event leaves.
  abbrev AgreeAfter : Map O R → State O × List (Item (ResourceChange R O) E) → Type 0
  AgreeAfter m out = Agree make_key resource_version out.0.objects (replay make_key m out.1)

  Agree-relisted :
      (s : State O) (m : Map O R)
      → Agree make_key resource_version s.objects m
      → AgreeAfter m (
        record s { objects = retain (λ k. contains k s.init_present) s.objects },
        deletions (dropped (λ k. contains k s.init_present) s.objects)
            ++ Item.ok ResourceChange.ready ∷ [],
      )
  Agree-relisted s m a o =
      let present = λ (k : O). contains k s.init_present in
      let gone = dropped present s.objects in
      rw (replay-append {E = E} make_key m (deletions gone) (Item.ok ResourceChange.ready ∷ [])) (
        unfold replay in
        (ground (
          arith,
          lookup-replay-deletions E make_key gone o m,
          contains-dropped present o s.objects,
          lookup-retain present o s.objects,
          a o,
        )))

  -- One event keeps the generator and the consumer in agreement.
  Agree-step :
      (s : State O) (event : Item (Event R) E) (out : State O × List (Item (ResourceChange R O) E))
      (m : Map O R)
      → step make_key resource_version s event ≡ some out
      → Agree make_key resource_version s.objects m
      → AgreeAfter m out
  unfolding step replay
  Agree-step s (Item.ok Event.init) out m h a = subst (AgreeAfter m) (some-injective _ _ h) a
  Agree-step s (Item.ok (Event.init_apply r)) out m h a =
      let (ver, hv, same) = (Option.map-eq-some_iff _ _).0 h in
      subst (AgreeAfter m) same (Agree-upsert s.objects m r ver hv a)
  Agree-step s (Item.ok Event.init_done) out m h a =
      subst (AgreeAfter m) (some-injective _ _ h) (Agree-relisted s m a)
  Agree-step s (Item.ok (Event.apply r)) out m h a =
      let (ver, hv, same) = (Option.map-eq-some_iff _ _).0 h in
      subst (AgreeAfter m) same (Agree-upsert s.objects m r ver hv a)
  Agree-step s (Item.ok (Event.delete r)) out m h a =
      subst (AgreeAfter m) (some-injective _ _ h) (λ o.
        ground (arith, lookup-remove (make_key r) o s.objects, lookup-remove (make_key r) o m, a o))
  Agree-step s (Item.err error) out m h a = subst (AgreeAfter m) (some-injective _ _ h) a

  Agree-resource_changes :
      (s : State O) (events : List (Item (Event R) E))
      (out : State O × List (Item (ResourceChange R O) E)) (m : Map O R)
      → resource_changes make_key resource_version s events ≡ some out
      → Agree make_key resource_version s.objects m
      → AgreeAfter m out
  unfolding resource_changes
  Agree-resource_changes s [] out m h a =
      subst (AgreeAfter m) (some-injective _ _ h) (unfold replay in a)
  Agree-resource_changes s (event ∷ events) out m h a =
      elim (Option-cases (step make_key resource_version s event)) [
        | inl panic ↦ absurd (ground arith)
        | inr (now, e1) ↦
            let (rest, e2, same) =
              (Option.map-eq-some_iff _ _).0 (rw (e1, resource_changes) at h) in
            subst (AgreeAfter m) same (λ o. rw (replay-append make_key m now.1 rest.1) (
              Agree-resource_changes now.0 events rest (replay make_key m now.1) e2
                (Agree-step s event now m e1 a) o))
      ]

  -- The `unwrap` of the resource version of an applied object does not panic.
  abbrev pub IsVersioned : Item (Event R) E → Type 0
  IsVersioned (Item.ok (Event.init_apply r)) = (ver : Text) × (resource_version r ≡ some ver)
  IsVersioned (Item.ok (Event.apply r)) = (ver : Text) × (resource_version r ≡ some ver)
  IsVersioned _ = Unit

  pub step_total :
      (s : State O) (event : Item (Event R) E)
      → IsVersioned event
      → (out : State O × List (Item (ResourceChange R O) E)) × (step make_key resource_version s
            event
          ≡ some out)
  unfolding step
  step_total s (Item.ok Event.init) v = (_, refl)
  step_total s (Item.ok (Event.init_apply r)) (ver, h) =
      elim (Option-cases
        (step {E = E} make_key resource_version s (Item.ok (Event.init_apply r)))) [
          | inl panic ↦ absurd (ground arith)
          | inr found ↦ found
        ]
  step_total s (Item.ok Event.init_done) v = (_, refl)
  step_total s (Item.ok (Event.apply r)) (ver, h) =
      elim (Option-cases (step {E = E} make_key resource_version s (Item.ok (Event.apply r)))) [
        | inl panic ↦ absurd (ground arith)
        | inr found ↦ found
      ]
  step_total s (Item.ok (Event.delete r)) v = (_, refl)
  step_total s (Item.err error) v = (_, refl)

  pub resource_changes-cons :
      (s : State O) (x : Item (Event R) E) (xs : List (Item (Event R) E))
      (now rest : State O × List (Item (ResourceChange R O) E))
      → step make_key resource_version s x ≡ some now
      → resource_changes make_key resource_version now.0 xs ≡ some rest
      → resource_changes make_key resource_version s (x ∷ xs) ≡ some (rest.0, now.1 ++ rest.1)
  unfolding resource_changes
  resource_changes-cons s x xs now rest h k = rw (h, resource_changes, k)

  pub resource_changes_total :
      (s : State O) (events : List (Item (Event R) E))
      → All IsVersioned events
      → (out : State O × List (Item (ResourceChange R O) E)) × (resource_changes make_key
            resource_version s events
          ≡ some out)
  unfolding resource_changes
  resource_changes_total s [] v = (_, refl)
  resource_changes_total s (event ∷ events) v =
      let (now, e1) = step_total s event v.0 in
      let (rest, e2) = resource_changes_total now.0 events v.1 in
      ((rest.0, now.1 ++ rest.1), resource_changes-cons s event events now rest e1 e2)

  -- Whatever the watcher sends, errors and relists included, if every applied object carries a
  -- version then the generator does not panic, and a consumer that starts empty and replays what
  -- was yielded holds exactly the tracked objects, each at its tracked version.
  pub replay-resource_changes :
      (events : List (Item (Event R) E))
      → All IsVersioned events
      → (out : State O × List (Item (ResourceChange R O) E)) × (resource_changes make_key
            resource_version start events
          ≡ some out)
        × ((o : O)
            → lookup o out.0.objects
              ≡ version_of resource_version (lookup o (replay make_key [] out.1)))
  unfolding lookup
  replay-resource_changes events v =
      let (out, run) = resource_changes_total start events v in
      (out, run, Agree-resource_changes start events out [] run (λ o. refl))
