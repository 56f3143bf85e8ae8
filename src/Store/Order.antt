-- ===== src/Store/Order.antt =====
-- `min_by_key(|v| (&v.namespace, &v.name))` of grcache-proxy/src/service_store.rs: the order of the
-- references, and that the choice does not depend on the order in which a set is iterated.
use grcache.Prelude.{
  ◌≡◌, refl, sym, ◌∙◌, Bool, true, false, Option, none, some, List, [], ◌∷◌, Text, arith,
  if◌then◌else◌, Bool-cases, inl, inr, contains, text_eq, option_eq,
}
use grcache.Prelude.Order.{text_lt, text_lt_antisymm, text_lt_trans, text_lt_asymm}
use grcache.Crd.{ObjectRef, object_ref_eq, object_ref_beq_iff}

unfoldable pub option_lt : Option Text → Option Text → Bool
unfolding text_lt
option_lt none none = false
option_lt none (some b) = true
option_lt (some a) none = false
option_lt (some a) (some b) = text_lt a b

-- `<` of the keys of two references
unfoldable pub ref_lt : ObjectRef → ObjectRef → Bool
ref_lt a b =
    if option_lt a.namespace b.namespace
    then true
    else if option_lt b.namespace a.namespace
    then false
    else text_lt a.name b.name

-- `min_by_key` of a non-empty iteration: the first of the least.
unfoldable pub min_by_key : ObjectRef → List ObjectRef → ObjectRef
min_by_key least [] = least
min_by_key least (v ∷ vs) = min_by_key (if ref_lt v least then v else least) vs

option_lt_antisymm : (a b : Option Text) → option_lt a b ≡ false → option_lt b a ≡ false → a ≡ b
unfolding option_lt
option_lt_antisymm none none h k = refl
option_lt_antisymm none (some b) h k = absurd (ground arith)
option_lt_antisymm (some a) none h k = absurd (ground arith)
option_lt_antisymm (some a) (some b) h k = ground (arith, text_lt_antisymm a b)

option_lt_trans :
    (a b c : Option Text) → option_lt b a ≡ false → option_lt c b ≡ false → option_lt c a ≡ false
unfolding option_lt
option_lt_trans none none c h k = k
option_lt_trans none (some b) none h k = refl
option_lt_trans none (some b) (some c) h k = refl
option_lt_trans (some a) none c h k = absurd (ground arith)
option_lt_trans (some a) (some b) none h k = absurd (ground arith)
option_lt_trans (some a) (some b) (some c) h k = text_lt_trans a b c h k

ref_lt_antisymm : (a b : ObjectRef) → ref_lt a b ≡ false → ref_lt b a ≡ false → a ≡ b
unfolding ref_lt
ref_lt_antisymm a b h k =
    ground (arith, option_lt_antisymm a.namespace b.namespace, text_lt_antisymm a.name b.name)

ref_lt_trans : (a b c : ObjectRef) → ref_lt b a ≡ false → ref_lt c b ≡ false → ref_lt c a ≡ false
unfolding ref_lt
ref_lt_trans a b c h k = ground (
  arith,
  option_lt_trans a.namespace b.namespace c.namespace,
  option_lt_antisymm a.namespace c.namespace,
  text_lt_trans a.name b.name c.name,
)

option_lt_asymm : (a b : Option Text) → option_lt a b ≡ true → option_lt b a ≡ false
unfolding option_lt
option_lt_asymm none none h = refl
option_lt_asymm none (some b) h = refl
option_lt_asymm (some a) none h = absurd (ground arith)
option_lt_asymm (some a) (some b) h = text_lt_asymm a b h

ref_lt_asymm : (a b : ObjectRef) → ref_lt a b ≡ true → ref_lt b a ≡ false
unfolding ref_lt
ref_lt_asymm a b h =
    ground (arith, option_lt_asymm a.namespace b.namespace, text_lt_asymm a.name b.name)

-- What is chosen is in the set.
pub contains-min_by_key :
    (x : ObjectRef) (xs : List ObjectRef) → contains (min_by_key x xs) (x ∷ xs) ≡ true
unfolding min_by_key
contains-min_by_key x [] = ground (arith, object_ref_beq_iff x x)
contains-min_by_key x (y ∷ ys) = ground (arith, contains-min_by_key x ys, contains-min_by_key y ys)

-- Nothing in the set is below what is chosen.
pub min_by_key-le :
    (x : ObjectRef) (xs : List ObjectRef) (o : ObjectRef)
    → contains o (x ∷ xs) ≡ true
    → ref_lt o (min_by_key x xs) ≡ false
unfolding min_by_key
min_by_key-le x [] o h = ground (arith, object_ref_beq_iff x o, ref_lt_asymm x x)
min_by_key-le x (y ∷ ys) o h = elim (Bool-cases (ref_lt y x)) [
  | inl lower ↦ rw lower (
      ground (
        arith,
        min_by_key-le y ys o,
        min_by_key-le y ys y,
        ref_lt_trans (min_by_key y ys) y x,
        ref_lt_asymm y x,
        object_ref_beq_iff x o,
        object_ref_beq_iff y y,
      ))
  | inr upper ↦ rw upper (
      ground (
        arith,
        min_by_key-le x ys o,
        min_by_key-le x ys x,
        ref_lt_trans (min_by_key x ys) x y,
        object_ref_beq_iff y o,
        object_ref_beq_iff x x,
      ))
]

-- Two iterations over references with the same members, in any order and with any repetition, choose
-- the same reference.
pub min_by_key_unique :
    (x : ObjectRef) (xs : List ObjectRef) (y : ObjectRef) (ys : List ObjectRef)
    → ((o : ObjectRef) → contains o (x ∷ xs) ≡ contains o (y ∷ ys))
    → min_by_key x xs ≡ min_by_key y ys
min_by_key_unique x xs y ys same =
    ref_lt_antisymm (min_by_key x xs) (min_by_key y ys)
      (min_by_key-le y ys (min_by_key x xs) (sym (same _) ∙ contains-min_by_key x xs))
      (min_by_key-le x xs (min_by_key y ys) (same _ ∙ contains-min_by_key y ys))
