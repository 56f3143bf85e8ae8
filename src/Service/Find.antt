-- ===== src/Service/Find.antt =====
-- `find_service` of grcache-shared/src/service/mod.rs, and the steps of `ServiceSpec::build`.
use mathlib.Core.Option.{some-injective}
use mathlib.Core.Path.{subst}
use grcache.Prelude.{
  ◌≡◌, refl, ap, none, some, List, [], ◌∷◌, ◌++◌, arith, Text, true, false, All, Option-cases,
  Bool-cases, inl, inr,
}
use grcache.Service.{
  Protobuf, QualifiedService, Result, ◌>>=◌, matches, find, all_services, find_service, Error,
  service_not_found, ServiceSpec, ValidationError, build, build_files, collect_methods,
}

pub >>=-eq-ok {ℓ κ μ} :
    {A : Type ℓ} {B : Type κ} {E : Type μ} (m : Result A E) (f : A → Result B E) (b : B)
    → (m >>= f) ≡ Result.ok b
    → (a : A) × (m ≡ Result.ok a) × (f a ≡ Result.ok b)
>>=-eq-ok (Result.ok a) f b h = (a, refl, h)
>>=-eq-ok (Result.err e) f b h = cc

module _ (p : Protobuf) (service : QualifiedService) where
  -- The first entry of the list that matches: all entries before it do not.
  abbrev pub IsFirst : List (Text × p.ServiceDescriptor) → Text × p.ServiceDescriptor → Type 0
  IsFirst es e =
      (before after : List (Text × p.ServiceDescriptor)) × (es ≡ before ++ e ∷ after)
      × All (λ x. matches p service x ≡ false) before
      × (matches p service e ≡ true)

  IsFirst-find :
      (es : List (Text × p.ServiceDescriptor)) (e : Text × p.ServiceDescriptor)
      → find p service es ≡ some e
      → IsFirst es e
  unfolding find
  IsFirst-find [] e h = absurd (ground arith)
  IsFirst-find (x ∷ es) e h = elim (Bool-cases (matches p service x)) [
    | inl hit ↦ subst (IsFirst (x ∷ es)) (some-injective _ _ (rw hit at h)) ([], es, refl, tt, hit)
    | inr miss ↦
        let (before, after, whole, missed, hit) = IsFirst-find es e (rw miss at h) in
        (x ∷ before, after, ap (◌∷◌ x) whole, (miss, missed), hit)
  ]

  find-eq-none :
      (es : List (Text × p.ServiceDescriptor))
      → find p service es ≡ none
      → All (λ x. matches p service x ≡ false) es
  unfolding find
  find-eq-none [] h = tt
  find-eq-none (x ∷ es) h = elim (Bool-cases (matches p service x)) [
    | inl hit ↦ absurd (ground arith)
    | inr miss ↦ (miss, find-eq-none es (rw miss at h))
  ]

  abbrev pub Found :
      List (Text × p.ServiceDescriptor) → Result p.ServiceDescriptor (Error p) → Type 0
  Found es (Result.ok s) = (name : Text) × IsFirst es (name, s)
  Found es (Result.err e) =
      (e ≡ service_not_found service) × All (λ x. matches p service x ≡ false) es

  -- `find_service` returns the first service of the files, in order, whose package and name are the
  -- requested ones, and reports the requested name as not found exactly where no service has them.
  pub find_service-Found :
      (fs : List p.FileDescriptor) → Found (all_services p fs) (find_service p fs service)
  unfolding find_service
  find_service-Found fs = elim (Option-cases (find p service (all_services p fs))) [
    | inl e ↦ rw (e, find_service) (refl, find-eq-none _ e)
    | inr (found, e) ↦ rw (e, find_service) (found.0, IsFirst-find _ found e)
  ]

  -- A successful build is the methods of the service that is found in the files.
  pub build-eq-ok :
      (set : p.FileDescriptorSet) (out : ServiceSpec p × List ValidationError)
      → build p set service ≡ Result.ok out
      → (fs : List p.FileDescriptor) × (s : p.ServiceDescriptor) × (build_files p (p.file set) []
          ≡ Result.ok fs)
        × (find_service p fs service ≡ Result.ok s)
        × (out.0.methods ≡ (collect_methods p (p.methods s) ([], [])).0)
        × (out.1 ≡ (collect_methods p (p.methods s) ([], [])).1)
        × (out.0.passthrough ≡ false)
  unfolding build
  build-eq-ok set out h =
      let (fs, built, h1) = >>=-eq-ok _ _ out h in
      let (s, found, h2) = >>=-eq-ok _ _ out h1 in
      (fs, s, built, found, ground arith, ground arith, ground arith)
