-- ===== src/Store/Index.antt =====
-- The index by gRPC service of grcache-proxy/src/service_store.rs: it lists exactly the stored
-- objects that name the service, and with that no step panics.
use mathlib.Core.Path.{subst}
use grcache.Prelude.{
  ◌||◌, ◌≡◌, Bool, false, none, some, List, [], ◌∷◌, Text, arith, text_eq, ◌==◌, if◌then◌else◌,
  contains, Option-cases, inl, inr, eq_cases, eq_iff, eq_refl,
}
use grcache.Prelude.Map.{
  Map, lookup, insert, remove, set_insert, set_remove, lookup-insert, lookup-remove,
  contains-set_insert, contains-set_remove,
}
use grcache.Crd.{ObjectRef, object_ref_eq, object_ref_beq_iff, GrcacheService}
use grcache.Service.{QualifiedService, Result, parse}
use grcache.Store.Order.{min_by_key, contains-min_by_key}
use grcache.Store.{add_ref}

-- `QualifiedService::parse` succeeds on the name.
abbrev pub IsParseable : Text → Type 0
IsParseable name = (q : QualifiedService) × (parse name ≡ Result.ok q)

module _ {Metadata : Type 0} where
  -- The stored object of the reference names the service.
  abbrev pub owns : Map ObjectRef (GrcacheService Metadata) → Text → ObjectRef → Bool
  owns raw name ref = elim (lookup ref raw) [
    | some object ↦ object.service_name == name
    | none ↦ false
  ]

abbrev pub refs_of : Map Text (List ObjectRef) → Text → List ObjectRef
refs_of refs name = elim (lookup name refs) [ some l ↦ l | none ↦ [] ]

refs_of-insert :
    (n name : Text) (l : List ObjectRef) (refs : Map Text (List ObjectRef))
    → refs_of (insert n l refs) name ≡ (if n == name then l else refs_of refs name)
refs_of-insert n name l refs = ground (arith, lookup-insert n name l refs)

contains-add_ref :
    (n name : Text) (ref o : ObjectRef) (refs : Map Text (List ObjectRef))
    → contains o (refs_of (add_ref n ref refs) name) ≡ (
        if n == name
        then ref == o || contains o (refs_of refs name)
        else contains o (refs_of refs name))
unfolding add_ref
contains-add_ref n name ref o refs = elim (Option-cases (lookup n refs)) [
  | inl e ↦ rw (e, add_ref, refs_of-insert n name (ref ∷ []) refs) (ground (arith, eq_iff n name))
  | inr (l, e) ↦
      rw (e, add_ref, refs_of-insert n name (set_insert ref l) refs)
        (ground (arith, eq_iff n name, contains-set_insert ref o l))
]

pub lookup-add_ref :
    (n : Text) (ref : ObjectRef) (refs : Map Text (List ObjectRef))
    → (l : List ObjectRef) × (lookup n (add_ref n ref refs) ≡ some l)
unfolding add_ref
lookup-add_ref n ref refs = elim (Option-cases (lookup n refs)) [
  | inl e ↦ (ref ∷ [], rw (e, add_ref, lookup-insert, eq_refl))
  | inr (l, e) ↦ (set_insert ref l, rw (e, add_ref, lookup-insert, eq_refl))
]

module _ {Metadata : Type 0} where
  pub record IsIndexed (raw : Map ObjectRef (GrcacheService Metadata))
      (refs : Map Text (List ObjectRef)) : Type 0 where
    pub index :
        (name : Text) (ref : ObjectRef) → contains ref (refs_of refs name) ≡ owns raw name ref
    pub parseable :
        (ref : ObjectRef) (object : GrcacheService Metadata)
        → lookup ref raw ≡ some object
        → IsParseable object.service_name

  module _ {raw : Map ObjectRef (GrcacheService Metadata)} {refs : Map Text (List ObjectRef)}
      (w : IsIndexed raw refs) where
    -- The entry of a stored object's service is present.
    pub indexed_entry :
        (ref : ObjectRef) (object : GrcacheService Metadata)
        → lookup ref raw ≡ some object
        → (l : List ObjectRef) × (lookup object.service_name refs ≡ some l)
    indexed_entry ref object h = elim (Option-cases (lookup object.service_name refs)) [
      | inl e ↦ absurd (
          ground (
            arith,
            w.index object.service_name ref,
            eq_iff object.service_name object.service_name,
          ))
      | inr found ↦ found
    ]

    pub IsIndexed-remove :
        (ref : ObjectRef) (object : GrcacheService Metadata) (l : List ObjectRef)
        → lookup ref raw ≡ some object
        → lookup object.service_name refs ≡ some l
        → IsIndexed (remove ref raw) (insert object.service_name (set_remove ref l) refs)
    IsIndexed-remove ref object l h k = record {
      index = λ name o. ground (
        arith,
        lookup-insert object.service_name name (set_remove ref l) refs,
        lookup-remove ref o raw,
        contains-set_remove ref o l,
        w.index name o,
        eq_iff object.service_name name,
        object_ref_beq_iff ref o,
      );
      parseable = λ o found e. w.parseable o found (ground (arith, lookup-remove ref o raw));
    }

    pub IsIndexed-absent :
        (ref : ObjectRef) → lookup ref raw ≡ none → IsIndexed (remove ref raw) refs
    IsIndexed-absent ref h = record {
      index = λ name o.
          ground (arith, lookup-remove ref o raw, w.index name o, object_ref_beq_iff ref o);
      parseable = λ o found e. w.parseable o found (ground (arith, lookup-remove ref o raw));
    }

    pub IsIndexed-insert :
        (ref : ObjectRef) (object : GrcacheService Metadata)
        → lookup ref raw ≡ none
        → IsParseable object.service_name
        → IsIndexed (insert ref object raw) (add_ref object.service_name ref refs)
    IsIndexed-insert ref object h p = record {
      index = λ name o. ground (
        arith,
        contains-add_ref object.service_name name ref o refs,
        lookup-insert ref o object raw,
        w.index name o,
        eq_iff object.service_name name,
        object_ref_beq_iff ref o,
      );
      parseable = λ o found e. elim (eq_cases ref o) [
        | inl (t, same) ↦
            let e' : object ≡ found = ground (arith, lookup-insert ref o object raw) in
            subst (λ (x : GrcacheService Metadata). IsParseable x.service_name) e' p
        | inr (t, other) ↦ w.parseable o found (ground (arith, lookup-insert ref o object raw))
      ];
    }

    -- What a service's entry lists first is stored, names the service, and has a name that parses.
    pub selected :
        (name : Text) (o : ObjectRef) (os : List ObjectRef)
        → lookup name refs ≡ some (o ∷ os)
        → (object : GrcacheService Metadata) × (lookup (min_by_key o os) raw ≡ some object)
          × (object.service_name ≡ name)
    selected name o os h = elim (Option-cases (lookup (min_by_key o os) raw)) [
      | inl e ↦ absurd (ground (arith, w.index name (min_by_key o os), contains-min_by_key o os))
      | inr (object, e) ↦ (
        object,
        e,
        ground (
          arith,
          w.index name (min_by_key o os),
          contains-min_by_key o os,
          eq_iff object.service_name name,
        ),
      )
    ]
