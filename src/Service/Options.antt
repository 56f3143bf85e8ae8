-- ===== src/Service/Options.antt =====
-- The caching options that `ServiceSpec::build` and `MethodSpec::build` of
-- grcache-shared/src/service/mod.rs keep and reject.
use mathlib.Core.Path.{subst}
use grcache.Prelude.{
  ◌≡◌, refl, ap, sym, ◌∙◌, Option, none, some, List, [], ◌∷◌, ◌++◌, arith, ◌==◌, Text, text_eq,
  append_assoc, append-nil, if◌then◌else◌,
}
use grcache.Prelude.Int.{pos, negsuc}
use grcache.Prelude.Map.{Map, lookup, insert, lookup-insert}
use grcache.Service.{
  Protobuf, QualifiedService, Result, GrcacheMethodOptions, CacheSpec, ValidationError,
  cache_spec_of, MethodSpec, build_method, collect_methods, ServiceSpec, build, build_files,
  all_services,
}
use grcache.Service.Find.{IsFirst, Found, find_service-Found, build-eq-ok}

-- Options are usable where the TTL is zero or positive.
abbrev pub usable : Option GrcacheMethodOptions → Option GrcacheMethodOptions
usable none = none
usable (some opt) = elim opt.cache_ttl [ pos n ↦ some opt | negsuc n ↦ none ]

abbrev pub complaint : Option GrcacheMethodOptions → List ValidationError
complaint none = []
complaint (some opt) = elim opt.cache_ttl [
  | pos n ↦ []
  | negsuc n ↦ ValidationError.invalid_cache_ttl opt.cache_ttl ∷ []
]

abbrev pub plain_spec : Option GrcacheMethodOptions → Option CacheSpec
plain_spec none = none
plain_spec (some opt) = some (record { hash_on = []; descriptor = opt })

module _ (p : Protobuf) where
  cache_spec_of-usable :
      (o : Option GrcacheMethodOptions)
      → ((cache_spec_of p o).0 ≡ plain_spec (usable o)) × ((cache_spec_of p o).1 ≡ complaint o)
  unfolding cache_spec_of
  cache_spec_of-usable none = (refl, refl)
  cache_spec_of-usable (some opt) = ground arith

  -- The last method of the list with the name.
  pub last_named : Text → List p.MethodDescriptor → Option p.MethodDescriptor
  last_named n [] = none
  last_named n (m ∷ ms) = elim (last_named n ms) [
    | some later ↦ some later
    | none ↦ if p.method_name m == n then some m else none
  ]

  pub complaints : List p.MethodDescriptor → List ValidationError
  complaints [] = []
  complaints (m ∷ ms) = complaint (p.grcache_options m) ++ complaints ms

  abbrev pub spec_of : Option p.MethodDescriptor → Option (MethodSpec p)
  spec_of none = none
  spec_of (some m) = some (record {
    name = p.method_name m;
    descriptor = m;
    cache_spec = plain_spec (usable (p.grcache_options m));
  })

  abbrev or_else : Option (MethodSpec p) → Option (MethodSpec p) → Option (MethodSpec p)
  or_else (some a) b = some a
  or_else none b = b

  or_else-none : (a : Option (MethodSpec p)) → or_else a none ≡ a
  or_else-none none = refl
  or_else-none (some a) = refl

  build_method-spec_of :
      (m : p.MethodDescriptor)
      → (some (build_method p m).0 ≡ spec_of (some m))
        × ((build_method p m).1 ≡ complaint (p.grcache_options m))
  unfolding build_method
  build_method-spec_of m = ground (arith, cache_spec_of-usable (p.grcache_options m))

  lookup-collect_methods :
      (ms : List p.MethodDescriptor) (specs : Map Text (MethodSpec p))
      (errors : List ValidationError) (n : Text)
      → lookup n (collect_methods p ms (specs, errors)).0
        ≡ or_else (spec_of (last_named n ms)) (lookup n specs)
  unfolding collect_methods last_named
  lookup-collect_methods [] specs errors n = refl
  lookup-collect_methods (m ∷ ms) specs errors n =
      let (spec, more) = build_method p m in
      lookup-collect_methods ms (insert spec.name spec specs) (errors ++ more) n
      ∙ ground (arith, lookup-insert spec.name n spec specs, build_method-spec_of m)

  errors-collect_methods :
      (ms : List p.MethodDescriptor) (specs : Map Text (MethodSpec p))
      (errors : List ValidationError)
      → (collect_methods p ms (specs, errors)).1 ≡ errors ++ complaints ms
  unfolding collect_methods complaints
  errors-collect_methods [] specs errors = sym (append-nil errors)
  errors-collect_methods (m ∷ ms) specs errors =
      let (spec, more) = build_method p m in
      errors-collect_methods ms (insert spec.name spec specs) (errors ++ more)
      ∙ rw (append_assoc, (build_method-spec_of m).1)

  -- A built service is that of the first service descriptor, in the files that are built, with the
  -- requested package and name, and holds under each name the last of its methods with that name. A method keeps its caching options
  -- exactly where it declares some with a TTL that is zero or positive, and the validation errors
  -- are, in order, those TTLs that are negative.
  pub build-options :
      (service : QualifiedService) (set : p.FileDescriptorSet)
      (out : ServiceSpec p × List ValidationError)
      → build p set service ≡ Result.ok out
      → (fs : List p.FileDescriptor) × (s : p.ServiceDescriptor) × (name : Text) × (build_files p
            (p.file set)
            []
          ≡ Result.ok fs)
        × IsFirst p service (all_services p fs) (name, s)
        × ((n : Text) → lookup n out.0.methods ≡ spec_of (last_named n (p.methods s)))
        × (out.1 ≡ complaints (p.methods s))
  unfolding lookup
  build-options service set out h =
      let (fs, s, built, found, specs, errors, _) = build-eq-ok p service set out h in
      let (name, first) : Found p service (all_services p fs) (Result.ok s) =
        subst (Found p service (all_services p fs)) found (find_service-Found p service fs) in
      (
        fs,
        s,
        name,
        built,
        first,
        λ n.
            ap (lookup n) specs
            ∙ lookup-collect_methods (p.methods s) [] [] n
            ∙ or_else-none (spec_of (last_named n (p.methods s))),
        errors ∙ errors-collect_methods (p.methods s) [] [],
      )
