-- ===== src/Prelude/Str.antt =====
-- The functions of Rust's `str` that the code calls, over lists of bytes: `split` and `rsplit_once`
-- by one ASCII character, with their laws.
use Prim.Native.Nat.{ℕ}
use mathlib.Core.Path.{◌≡◌, refl, ap, subst}
use mathlib.Core.Logic.{◌≢◌, inl, inr}
use mathlib.Core.Option.{Option, none, some, some-injective}
use mathlib.Core.List.{List, [], ◌∷◌, ◌++◌}
use native.Mathlib.Omega.{arith}
use grcache.Prelude.Tests.{nat_beq, nat_beq_iff, if◌then◌else◌, Option-cases, Bool-cases}
use grcache.Prelude.Lists.{All}
use grcache.Prelude.Equality.{Text}

-- No byte of the text is `c`.
abbrev pub Lacks : ℕ → Text → Type 0
Lacks c = All (λ x. x ≢ c)

abbrev pub push_head : ℕ → List Text → List Text
push_head x [] = (x ∷ []) ∷ []
push_head x (p ∷ ps) = (x ∷ p) ∷ ps

-- `s.split(c)`
unfoldable pub split : ℕ → Text → List Text
split c [] = [] ∷ []
split c (x ∷ xs) = let rest = split c xs in if nat_beq x c then [] ∷ rest else push_head x rest

unfoldable pub join : ℕ → List Text → Text
join c [] = []
join c (p ∷ []) = p
join c (p ∷ q ∷ ps) = p ++ c ∷ join c (q ∷ ps)

-- `s.rsplit_once(c)`
unfoldable pub rsplit_once : ℕ → Text → Option (Text × Text)
rsplit_once c [] = none
rsplit_once c (x ∷ xs) = elim (rsplit_once c xs) [
  | some (a, b) ↦ some (x ∷ a, b)
  | none ↦ if nat_beq x c then some ([], xs) else none
]

split_shape : (c : ℕ) (s : Text) → (p : Text) × (ps : List Text) × (split c s ≡ p ∷ ps)
unfolding split
split_shape c [] = ([], [], refl)
split_shape c (x ∷ xs) = elim (Bool-cases (nat_beq x c)) [
  | inl here ↦ ([], split c xs, rw here)
  | inr there ↦ let (p, ps, e) = split_shape c xs in (x ∷ p, ps, rw (there, e))
]

join-push_head :
    (c x : ℕ) (p : Text) (ps : List Text) → join c (push_head x (p ∷ ps)) ≡ x ∷ join c (p ∷ ps)
unfolding join
join-push_head c x p [] = refl
join-push_head c x p (q ∷ ps) = refl

pub join-split : (c : ℕ) (s : Text) → join c (split c s) ≡ s
unfolding split join
join-split c [] = refl
join-split c (x ∷ xs) =
    let (p, ps, e) = split_shape c xs in
    let ih : join c (p ∷ ps) ≡ xs = rw (← e) (join-split c xs) in
    rw e (ground (arith, ih, join-push_head c x p ps))

pub split-Lacks : (c : ℕ) (s : Text) → All (Lacks c) (split c s)
unfolding split
split-Lacks c [] = (tt, tt)
split-Lacks c (x ∷ xs) =
    let (p, ps, e) = split_shape c xs in
    let ih : All (Lacks c) (p ∷ ps) = rw e at (split-Lacks c xs) in rw e (ground (arith, ih))

pub split_of_Lacks : (c : ℕ) (p : Text) → Lacks c p → split c p ≡ p ∷ []
unfolding split
split_of_Lacks c [] h = refl
split_of_Lacks c (x ∷ xs) (h, hs) = ground (arith, split_of_Lacks c xs hs)

pub split-append : (c : ℕ) (p s : Text) → Lacks c p → split c (p ++ c ∷ s) ≡ p ∷ split c s
unfolding split
split-append c [] s h = ground arith
split-append c (x ∷ xs) s (h, hs) = ground (arith, split-append c xs s hs)

pub rsplit_once_of_Lacks : (c : ℕ) (s : Text) → Lacks c s → rsplit_once c s ≡ none
unfolding rsplit_once
rsplit_once_of_Lacks c [] h = refl
rsplit_once_of_Lacks c (x ∷ xs) (h, hs) = ground (arith, rsplit_once_of_Lacks c xs hs)

pub rsplit_once-append : (c : ℕ) (a b : Text) → Lacks c b → rsplit_once c (a ++ c ∷ b) ≡ some (a, b)
unfolding rsplit_once
rsplit_once-append c [] b h = ground (arith, rsplit_once_of_Lacks c b h)
rsplit_once-append c (x ∷ a) b h = ground (arith, rsplit_once-append c a b h)

pub rsplit_once-eq-none : (c : ℕ) (s : Text) → rsplit_once c s ≡ none → Lacks c s
unfolding rsplit_once
rsplit_once-eq-none c [] h = tt
rsplit_once-eq-none c (x ∷ xs) h = elim (Option-cases (rsplit_once c xs)) [
  | inl e ↦ (ground arith, rsplit_once-eq-none c xs e)
  | inr (q, e) ↦ absurd (ground arith)
]

-- The parts of a split at the last `c`.
abbrev pub IsLastSplit : ℕ → Text → Text × Text → Type 0
IsLastSplit c s r = (s ≡ r.0 ++ c ∷ r.1) × Lacks c r.1

pub rsplit_once-eq-some :
    (c : ℕ) (s : Text) (r : Text × Text) → rsplit_once c s ≡ some r → IsLastSplit c s r
unfolding rsplit_once
rsplit_once-eq-some c [] r h = absurd (ground arith)
rsplit_once-eq-some c (x ∷ xs) r h = elim (Option-cases (rsplit_once c xs)) [
  | inl e ↦ elim (Bool-cases (nat_beq x c)) [
    | inl here ↦
        subst (IsLastSplit c (x ∷ xs)) (some-injective _ _ (rw (e, rsplit_once, here) at h))
          (ap (λ y. y ∷ xs) ((nat_beq_iff x c).0 here), rsplit_once-eq-none c xs e)
    | inr there ↦ absurd (ground arith)
  ]
  | inr (q, e) ↦
      let (whole, lacks) = rsplit_once-eq-some c xs q e in
      subst (IsLastSplit c (x ∷ xs)) (some-injective _ _ (rw (e, rsplit_once) at h))
        (ap (◌∷◌ x) whole, lacks)
]
