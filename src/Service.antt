-- ===== src/Service.antt =====
-- grcache-shared/src/service: qualified service names, and the caching options of the methods of a
-- service, read from protobuf descriptors. The protobuf crate is the parameter `Protobuf`.
pub mod Name
pub mod Options
pub mod Find
use grcache.Prelude.{
  ◌≡◌, refl, ◌⊎◌, inl, inr, ℕ, Option, none, some, List, [], ◌∷◌, ◌++◌, ◌==◌, if◌then◌else◌, Text,
  text_eq, Bool, true, false, ◌&&◌, map,
}
use grcache.Prelude.Map.{Map, insert}
use grcache.Prelude.Int.{ℤ, pos, ltb_ℤ}
use grcache.Prelude.Str.{split, rsplit_once}

pub data Result {ℓ κ} (A : Type ℓ) (E : Type κ) : Type (ℓ ⊔ κ) where
  ok : A → Result A E
  err : E → Result A E

pub Result-cases :
    {A E : Type 0} (r : Result A E) → ((a : A) × (r ≡ Result.ok a)) ⊎ ((e : E) × (r ≡ Result.err e))
Result-cases (Result.ok a) = inl (a, refl)
Result-cases (Result.err e) = inr (e, refl)

infixl 5 ◌>>=◌
abbrev pub ◌>>=◌ {ℓ κ μ} :
    {A : Type ℓ} {B : Type κ} {E : Type μ} → Result A E → (A → Result B E) → Result B E
ok a >>= f = f a
err e >>= f = err e

-- qualified_service.rs
pub record QualifiedService : Type 0 where
  pub package_name : Text
  pub name : Text

-- `Error::FailedParseQualifiedService`
pub record FailedParse : Type 0 where
  pub name : Text

-- `.`
abbrev pub dot : ℕ
dot = 46

-- `Display`
unfoldable pub fmt : QualifiedService → Text
fmt q = q.package_name ++ dot ∷ q.name

unfoldable pub parse : Text → Result QualifiedService FailedParse
parse qualified_service = elim (rsplit_once dot qualified_service) [
  | some (prefix, service_name) ↦ Result.ok (record { package_name = prefix; name = service_name })
  | none ↦ Result.err (record { name = qualified_service })
]

-- field_ref.rs
pub data PathComponent : Type 0 where
  field : Text → PathComponent

pub record FieldRef : Type 0 where
  pub components : List PathComponent

-- `FieldRef::parse`, whose error type has no value.
unfoldable pub parse_field_ref : Text → FieldRef
parse_field_ref string = record { components = map PathComponent.field (split dot string) }

-- `GrcacheMethodOptions` of proto/grcache/options.proto: an int32.
pub record GrcacheMethodOptions : Type 0 where
  pub cache_ttl : ℤ

-- What the code uses of the protobuf crate.
pub record Protobuf : Type 1 where
  pub FileDescriptorSet : Type 0
  pub FileDescriptorProto : Type 0
  pub FileDescriptor : Type 0
  pub ServiceDescriptor : Type 0
  pub MethodDescriptor : Type 0
  pub ProtoError : Type 0
  pub parse_from_bytes : Text → Result FileDescriptorSet ProtoError
  pub file : FileDescriptorSet → List FileDescriptorProto
  pub new_dynamic : FileDescriptorProto → List FileDescriptor → Result FileDescriptor ProtoError
  pub package_of : FileDescriptor → Text
  pub services : FileDescriptor → List ServiceDescriptor
  pub service_name : ServiceDescriptor → Text
  pub methods : ServiceDescriptor → List MethodDescriptor
  pub method_name : MethodDescriptor → Text
  -- `exts::grcache.get(&method.proto().options)`
  pub grcache_options : MethodDescriptor → Option GrcacheMethodOptions

pub record CacheSpec : Type 0 where
  pub hash_on : List FieldRef
  pub descriptor : GrcacheMethodOptions

pub data ValidationError : Type 0 where
  invalid_cache_ttl : ℤ → ValidationError
  hash_on_invalid_field_ref : Text → ValidationError
  hash_on_field_not_found : Text → ValidationError

module _ (p : Protobuf) where
  open p use {
    FileDescriptorSet, FileDescriptorProto, FileDescriptor, ServiceDescriptor, MethodDescriptor,
    ProtoError, file, new_dynamic, package_of, services, service_name, methods, method_name,
    grcache_options,
  }

  pub data Error : Type 0 where
    descriptor_error : ProtoError → Error
    service_not_found : QualifiedService → Error

  pub record MethodSpec : Type 0 where
    pub name : Text
    pub descriptor : MethodDescriptor
    pub cache_spec : Option CacheSpec

  -- The closure of `MethodSpec::build`: the spec, and what it hands to `validation_error`.
  unfoldable pub cache_spec_of :
      Option GrcacheMethodOptions → Option CacheSpec × List ValidationError
  cache_spec_of none = (none, [])
  cache_spec_of (some opt) =
      if ltb_ℤ opt.cache_ttl (pos 0)
      then (none, ValidationError.invalid_cache_ttl opt.cache_ttl ∷ [])
      else (some (record { hash_on = []; descriptor = opt }), [])

  -- `MethodSpec::build`
  unfoldable pub build_method : MethodDescriptor → MethodSpec × List ValidationError
  build_method method =
      let (cache_spec, errors) = cache_spec_of (grcache_options method) in
      (record { name = method_name method; descriptor = method; cache_spec = cache_spec }, errors)

  pub record ServiceSpec : Type 0 where
    pub name : QualifiedService
    pub passthrough : Bool
    pub methods : Map Text MethodSpec

  unfoldable pub build_passthrough : QualifiedService → ServiceSpec
  build_passthrough service = record { name = service; passthrough = true; methods = [] }

  -- The loop over `descriptor_set.file`: each file is built over those before it.
  unfoldable pub build_files :
      List FileDescriptorProto → List FileDescriptor → Result (List FileDescriptor) Error
  build_files [] dyns = Result.ok dyns
  build_files (descr ∷ descrs) dyns = elim (new_dynamic descr dyns) [
    | ok dyn ↦ build_files descrs (dyns ++ dyn ∷ [])
    | err e ↦ Result.err (descriptor_error e)
  ]

  -- `f.services().map(|s| (f.package(), s))`, flattened over the files
  unfoldable pub packaged : Text → List ServiceDescriptor → List (Text × ServiceDescriptor)
  packaged name [] = []
  packaged name (s ∷ ss) = (name, s) ∷ packaged name ss

  unfoldable pub all_services : List FileDescriptor → List (Text × ServiceDescriptor)
  all_services [] = []
  all_services (f ∷ fs) = packaged (package_of f) (services f) ++ all_services fs

  abbrev pub matches : QualifiedService → Text × ServiceDescriptor → Bool
  matches service e = e.0 == service.package_name && service_name e.1 == service.name

  -- `Iterator::find`
  unfoldable pub find :
      QualifiedService → List (Text × ServiceDescriptor) → Option (Text × ServiceDescriptor)
  find service [] = none
  find service (e ∷ es) = if matches service e then some e else find service es

  unfoldable pub find_service :
      List FileDescriptor → QualifiedService → Result ServiceDescriptor Error
  find_service descriptor_set service = elim (find service (all_services descriptor_set)) [
    | some e ↦ Result.ok e.1
    | none ↦ Result.err (service_not_found service)
  ]

  -- The `map` and `collect` of `ServiceSpec::build`: a later method of a name replaces an earlier.
  unfoldable pub collect_methods :
      List MethodDescriptor
      → Map Text MethodSpec × List ValidationError
      → Map Text MethodSpec × List ValidationError
  collect_methods [] acc = acc
  collect_methods (m ∷ ms) (specs, errors) =
      let (spec, more) = build_method m in
      collect_methods ms (insert spec.name spec specs, errors ++ more)

  -- `ServiceSpec::build`
  unfoldable pub build :
      FileDescriptorSet → QualifiedService → Result (ServiceSpec × List ValidationError) Error
  build descriptor_set service = do
    dyns ← build_files (file descriptor_set) []
    service_descriptor ← find_service dyns service
    let (specs, validation_errors) = collect_methods (methods service_descriptor) ([], [])
    Result.ok (record { name = service; passthrough = false; methods = specs }, validation_errors)
