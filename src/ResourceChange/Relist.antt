-- ===== src/ResourceChange/Relist.antt =====
-- A relist, `Init`, `InitApply`s and `InitDone`, in grcache-shared/src/resource_change.rs.
use grcache.Prelude.{
  eq_iff, ◌≡◌, refl, Option, none, some, List, [], ◌∷◌, ◌++◌, arith, ◌==◌, Eq, if◌then◌else◌,
  contains, Text, text_eq, Option-cases, inl, inr, ◌||◌, is_some, All, append_assoc, append-nil,
}
use grcache.Prelude.Map.{
  Map, lookup, retain, dropped, lookup-insert, lookup-retain, set_insert, contains-set_insert,
}
use grcache.ResourceChange.{
  Event, ResourceChange, Item, State, upsert, step, resource_changes, deletions,
}
use grcache.ResourceChange.Mirror.{resource_changes-cons}

abbrev or_else {ℓ} : {A : Type ℓ} → Option A → Option A → Option A
or_else (some a) b = some a
or_else none b = b

module _ {R O : Type 0} ⦃e : Eq O⦄ (make_key : R → O) (resource_version : R → Option Text) where
  -- The version of the last listed object with the key.
  pub latest : O → List R → Option Text
  latest o [] = none
  latest o (r ∷ rs) = or_else (latest o rs) (if make_key r == o then resource_version r else none)

abbrev pub HasVersion : {R : Type 0} → (R → Option Text) → R → Type 0
HasVersion resource_version r = (ver : Text) × (resource_version r ≡ some ver)

module _ {R O : Type 0} (E : Type 0) ⦃e : Eq O⦄ (make_key : R → O)
    (resource_version : R → Option Text) where
  abbrev listed : List R → List (Item (Event R) E)
  listed [] = []
  listed (r ∷ rs) = Item.ok (Event.init_apply r) ∷ listed rs

  -- The events of a relist that finds `rs`.
  abbrev pub relist : List R → List (Item (Event R) E)
  relist rs = Item.ok Event.init ∷ listed rs ++ Item.ok Event.init_done ∷ []

  abbrev Output : Type 0
  Output = State O × List (Item (ResourceChange R O) E)

  lookup-upsert :
      (objects : Map O Text) (r : R) (ver : Text) (o : O)
      → lookup o (upsert {E = E} make_key objects r ver).0
        ≡ (if make_key r == o then some ver else lookup o objects)
  unfolding upsert
  lookup-upsert objects r ver o =
      let written = lookup-insert (make_key r) o ver objects in
      elim (Option-cases (lookup (make_key r) objects)) [
        | inl vacant ↦ ground (arith, written)
        | inr (cur, occupied) ↦ ground (arith, written, e.beq_iff (make_key r) o, eq_iff cur ver)
      ]

  -- What the listed objects leave behind, from any state.
  record Seen (s s' : State O) (rs : List R) : Type 0 where
    objects :
        (o : O)
        → lookup o s'.objects ≡ or_else (latest make_key resource_version o rs) (lookup o s.objects)
    present :
        (o : O)
        → contains o s'.init_present
          ≡ (is_some (latest make_key resource_version o rs) || contains o s.init_present)

  -- The state after one listed object.
  abbrev relisted : State O → R → Text → State O
  relisted s r ver = record {
    objects = (upsert {E = E} make_key s.objects r ver).0;
    init_present = set_insert (make_key r) s.init_present;
  }

  step-init_apply :
      (s : State O) (r : R) (ver : Text)
      → resource_version r ≡ some ver
      → step {E = E} make_key resource_version s (Item.ok (Event.init_apply r))
        ≡ some (relisted s r ver, (upsert make_key s.objects r ver).1)
  unfolding step
  step-init_apply s r ver h = rw h

  Seen-cons :
      (s s' : State O) (r : R) (rs : List R) (ver : Text)
      → resource_version r ≡ some ver
      → Seen (relisted s r ver) s' rs
      → Seen s s' (r ∷ rs)
  unfolding latest
  Seen-cons s s' r rs ver h seen = record {
    objects = λ o. ground (arith, seen.objects o, lookup-upsert s.objects r ver o);
    present =
        λ o. ground (arith, seen.present o, contains-set_insert (make_key r) o s.init_present);
  }

  -- The listed objects, with the events that follow.
  resource_changes-listed :
      (s : State O) (rs : List R) (ys : List (Item (Event R) E))
      → All (HasVersion resource_version) rs
      → (s' : State O) × Seen s s' rs
        × ((b : Output)
            → resource_changes make_key resource_version s' ys ≡ some b
            → (items : List (Item (ResourceChange R O) E)) × (resource_changes make_key
                  resource_version s
                  (listed rs ++ ys)
                ≡ some (b.0, items ++ b.1)))
  resource_changes-listed s [] ys v =
      (s, unfold latest in record { objects = λ o. refl; present = λ o. refl }, λ b h. ([], h))
  resource_changes-listed s (r ∷ rs) ys ((ver, h), v) =
      let put = upsert {E = E} make_key s.objects r ver in
      let (s', seen, next) = resource_changes-listed (relisted s r ver) rs ys v in
      (
        s',
        Seen-cons s s' r rs ver h seen,
        λ b q.
            let (items, run) = next b q in
            (
              put.1 ++ items,
              rw append_assoc (
                  resource_changes-cons E make_key resource_version s (Item.ok (Event.init_apply r))
                    (listed rs ++ ys) (relisted s r ver, put.1) (b.0, items ++ b.1)
                    (step-init_apply s r ver h) run),
            ),
      )

  -- The state and the items of the final event.
  abbrev swept : State O → Output
  swept s =
      let present = λ (k : O). contains k s.init_present in
      (
        record { objects = retain present s.objects; init_present = [] },
        deletions (dropped present s.objects) ++ Item.ok ResourceChange.ready ∷ [],
      )

  resource_changes-init_done :
      (s : State O)
      → resource_changes make_key resource_version s (Item.ok Event.init_done ∷ []) ≡ some (swept s)
  unfolding resource_changes step
  resource_changes-init_done s = rw append-nil

  -- After a relist, whatever was tracked before, exactly the listed objects are tracked, each at
  -- the version that was listed last for its key; the last thing yielded is that the watch is ready,
  -- and the set of listed keys is empty again.
  pub lookup-relist :
      (s : State O) (rs : List R)
      → All (HasVersion resource_version) rs
      → (s' : State O) × (items : List (Item (ResourceChange R O) E)) × (resource_changes make_key
            resource_version s
            (relist rs)
          ≡ some (s', items ++ Item.ok ResourceChange.ready ∷ []))
        × ((o : O) → lookup o s'.objects ≡ latest make_key resource_version o rs)
        × (s'.init_present ≡ [])
  lookup-relist s rs v =
      let s0 : State O = record s { init_present = [] } in
      let (s1, seen, next) = resource_changes-listed s0 rs (Item.ok Event.init_done ∷ []) v in
      let (items, run) = next (swept s1) (resource_changes-init_done s1) in
      let gone = dropped (λ k. contains k s1.init_present) s1.objects in
      (
        (swept s1).0,
        items ++ deletions gone,
        rw append_assoc (
            resource_changes-cons E make_key resource_version s (Item.ok Event.init)
              (listed rs ++ Item.ok Event.init_done ∷ []) (s0, [])
              ((swept s1).0, items ++ (swept s1).1) (unfold step in refl) run),
        λ o. ground (
          arith,
          lookup-retain (λ k. contains k s1.init_present) o s1.objects,
          seen.objects o,
          seen.present o,
        ),
        refl,
      )
