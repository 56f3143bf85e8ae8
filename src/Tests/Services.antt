-- ===== src/Tests/Services.antt =====
-- The theorems on names and service descriptors at a file with one service.
use grcache.Prelude.{◌≡◌, refl, none, some, List, [], ◌∷◌, Text, text_eq, false}
use grcache.Prelude.Int.{pos, negsuc}
use grcache.Prelude.Map.{lookup, insert}
use grcache.Tests.{protobuf, File, Method, name_a}
use grcache.Service.{
  QualifiedService, Result, ServiceSpec, ValidationError, build, build_files, find_service,
  all_services, find, packaged, collect_methods, build_method, cache_spec_of,
}
use grcache.Service.Find.{IsFirst}
use grcache.Service.Options.{spec_of, last_named, complaints, build-options}

-- `p.a`
abbrev qualified : QualifiedService
qualified = record { package_name = 112 ∷ []; name = name_a }

-- Two methods, one with a TTL of 5 and one with a TTL of -1.
abbrev methods : List Method
methods =
    (name_a, some (record { cache_ttl = pos 5 }))
    ∷ (98 ∷ [], some (record { cache_ttl = negsuc 0 }))
    ∷ []

-- The package `p`, with the service `a`.
abbrev files : List File
files = (112 ∷ [], (name_a, methods) ∷ []) ∷ []

-- What is built.
abbrev built : ServiceSpec protobuf × List ValidationError
built = (
  record {
    name = qualified;
    passthrough = false;
    methods =
        (
          name_a,
          record {
            name = name_a;
            descriptor = (name_a, some (record { cache_ttl = pos 5 }));
            cache_spec = some (record { hash_on = []; descriptor = record { cache_ttl = pos 5 } });
          },
        )
        ∷ (
          98 ∷ [],
          record {
            name = 98 ∷ [];
            descriptor = (98 ∷ [], some (record { cache_ttl = negsuc 0 }));
            cache_spec = none;
          },
        )
        ∷ [];
  },
  ValidationError.invalid_cache_ttl (negsuc 0) ∷ [],
)

built_ok : build protobuf files qualified ≡ Result.ok built
unfolding build build_files find_service find all_services packaged collect_methods build_method
    cache_spec_of insert
built_ok = refl

build-options_example :
    (fs : List File) × (s : Text × List Method) × (name : Text) × (build_files protobuf files []
      ≡ Result.ok fs)
    × IsFirst protobuf qualified (all_services protobuf fs) (name, s)
    × ((n : Text) → lookup n built.0.methods ≡ spec_of protobuf (last_named protobuf n s.1))
    × (built.1 ≡ complaints protobuf s.1)
build-options_example = build-options protobuf qualified files built built_ok
