-- ===== src/Tests/Loader.antt =====
-- The theorems on the service loader at an object that is applied, renamed and removed.
use mathlib.Core.List.{Permᴰ}
use mathlib.Core.Path.{subst}
use mathlib.Core.Option.{some-injective}
use grcache.Prelude.{
  ℕ, ◌+◌, ◌<◌, ◌^◌, ◌≡◌, ◌≢◌, refl, Bool, true, false, ◌||◌, Option, none, some, List, [], ◌∷◌,
  Text, text_eq, ◌==◌, contains, All, arith, eq_iff, Bool-cases, inl, inr,
}
use grcache.Prelude.Map.{lookup}
use grcache.Tests.{headers, protobuf, pingora, discovery, name_a, dotted, other_dotted}
use grcache.Crd.{
  ObjectRef, object_ref_eq, GrcacheService, Upstream, DescriptorSetSource, object_ref_beq_iff,
}
use grcache.Service.{Result, QualifiedService, ServiceSpec, parse, build_passthrough}
use grcache.ResourceChange.{ResourceChange, Item}
use grcache.ResourceChange.Mirror.{replay}
use grcache.Store.{
  State, Task, ServiceData, apply_object, remove_object, handle_changes, finish_tasks,
}
use grcache.Store.Generation.{Ended, finish_tasks-perm}
use grcache.Store.Index.{IsParseable, owns}
use grcache.Store.Update.{IsWellIndexed}
use grcache.Store.Watch.{has_ready, handle_changes-mirror}
use grcache.Store.Publish.{apply_object-renamed}
use grcache.Prelude.Ascii.{is_utf8}
use grcache.Prelude.Str.{split}
use grcache.Proxy.{http_status, new_ctx, request_filter, parse_grpc_path, path_parts, two_elements}
use grcache.Proxy.Removal.{remove_object-refused}
use grcache.Tests.Requests.{session}

-- The metadata of an object is its reference.
abbrev pub Object : Type 0
Object = GrcacheService ObjectRef

abbrev pub ref_a : ObjectRef
ref_a = record { name = name_a; namespace = none }

abbrev pub object_at : ObjectRef → Text → Object
object_at ref service_name = record {
  metadata = ref;
  spec = record {
    cluster = [];
    upstream_name = none;
    upstream = Upstream.dns name_a 80;
    service_name = service_name;
    descriptor_set_source = none;
  };
}

abbrev pub from_metadata : Object → ObjectRef
from_metadata object = object.metadata

abbrev pub passthrough : QualifiedService → ServiceSpec protobuf
passthrough = build_passthrough protobuf

-- The spec of `p.a`.
abbrev spec_a : ServiceSpec protobuf
spec_a = passthrough (record { package_name = 112 ∷ []; name = name_a })

-- One object, `p.a`, published with generation 0.
abbrev loaded : State discovery (ServiceSpec protobuf) ObjectRef
loaded = record {
  spec_generation = 1;
  services =
      (dotted, record { generation = 0; service_spec = some spec_a; load_balancer = some 0 }) ∷ [];
  raw_services = (ref_a, object_at ref_a dotted) ∷ [];
  ref_by_grpc_service = (dotted, ref_a ∷ []) ∷ [];
  dns_service = 1;
  tasks = [];
}

pub parse_dotted : IsParseable dotted
unfolding parse grcache.Prelude.Str.rsplit_once
parse_dotted = (record { package_name = 112 ∷ []; name = name_a }, refl)

parse_other : IsParseable other_dotted
unfolding parse grcache.Prelude.Str.rsplit_once
parse_other = (record { package_name = 112 ∷ []; name = 98 ∷ [] }, refl)

loaded-IsParseable :
    (ref : ObjectRef) (object : Object)
    → lookup ref loaded.raw_services ≡ some object
    → IsParseable object.service_name
unfolding lookup
loaded-IsParseable ref object h = elim (Bool-cases (ref_a == ref)) [
  | inl t ↦
      subst (λ (o : Object). IsParseable o.service_name) (some-injective _ _ (rw t at h))
        parse_dotted
  | inr t ↦ absurd (ground arith)
]

loaded-IsWellIndexed : IsWellIndexed discovery passthrough from_metadata loaded
unfolding lookup
loaded-IsWellIndexed = record {
  index = λ name ref. ground (arith, object_ref_beq_iff ref_a ref, eq_iff dotted name);
  parseable = loaded-IsParseable;
}

-- The object, renamed.
abbrev renamed : Object
renamed = object_at ref_a other_dotted

other_name : dotted ≢ other_dotted
other_name h = absurd (ground arith)

ref_a_stored : lookup ref_a loaded.raw_services ≡ some (object_at ref_a dotted)
unfolding lookup
ref_a_stored = refl

apply_object-renamed_example :
    (s' : State discovery (ServiceSpec protobuf) ObjectRef) × (apply_object discovery passthrough
        from_metadata renamed loaded
      ≡ some s')
    × (owns s'.raw_services dotted ref_a ≡ false)
    × (lookup dotted s'.services ≡ lookup dotted loaded.services)
apply_object-renamed_example =
    apply_object-renamed discovery passthrough from_metadata renamed (object_at ref_a dotted) loaded
      parse_other loaded-IsWellIndexed ref_a_stored other_name

-- A task of generation 0, which ended with a spec, and one that panicked.
abbrev task_at : Text → ℕ → Task ℕ
task_at service_name generation = record {
  source = DescriptorSetSource.inline name_a;
  service_name = service_name;
  service = record { package_name = 112 ∷ []; name = name_a };
  generation = generation;
  load_balancer = 0;
}

abbrev ended : List (Ended (ServiceSpec protobuf) ℕ)
ended = (task_at dotted 0, some spec_a) ∷ (task_at dotted 0, none) ∷ []

only_ref_a : (o : ObjectRef) → owns loaded.raw_services dotted o ≡ true → o ≡ ref_a
unfolding lookup
only_ref_a o h = ground (arith, object_ref_beq_iff ref_a o)

path_parsed : parse_grpc_path session.raw_path ≡ Result.ok (dotted, name_a)
unfolding parse_grpc_path is_utf8 path_parts two_elements split
path_parsed = refl

remove_object-refused_example :
    (s' : State discovery (ServiceSpec protobuf) ObjectRef) × (remove_object discovery passthrough
        from_metadata ref_a loaded
      ≡ some s')
    × (request_filter headers protobuf pingora
          (finish_tasks ended s'.services)
          session
          (new_ctx headers protobuf pingora)
        ≡ (Result.err (http_status 404), session, new_ctx headers protobuf pingora))
remove_object-refused_example =
    remove_object-refused headers protobuf discovery pingora passthrough from_metadata ref_a
      (object_at ref_a dotted) loaded ended session name_a loaded-IsWellIndexed ref_a_stored
      only_ref_a (omega arith, (omega arith, tt)) path_parsed

-- An entry of generation 1.
abbrev entries : List (Text × ServiceData (ServiceSpec protobuf) ℕ)
entries = (dotted, record { generation = 1; service_spec = none; load_balancer = none }) ∷ []

entry_found :
    lookup dotted entries
    ≡ some (record { generation = 1; service_spec = none; load_balancer = none })
unfolding lookup
entry_found = refl

abbrev issued : ℕ → Ended (ServiceSpec protobuf) ℕ
issued n = (task_at dotted n, some spec_a)

finish_tasks-perm_example :
    lookup dotted (finish_tasks (issued 2 ∷ issued 3 ∷ []) entries)
    ≡ lookup dotted (finish_tasks (issued 3 ∷ issued 2 ∷ []) entries)
finish_tasks-perm_example =
    finish_tasks-perm issued (issued 2 ∷ issued 3 ∷ []) (issued 3 ∷ issued 2 ∷ []) entries
      (refl, (refl, tt)) (Permᴰ.swap refl refl) dotted

-- The object is applied again, the watch is ready, and the object is deleted.
abbrev changes : List (Item (ResourceChange Object ObjectRef) ℕ)
changes =
    Item.ok (ResourceChange.apply renamed)
    ∷ Item.ok ResourceChange.ready
    ∷ Item.err 1
    ∷ Item.ok (ResourceChange.delete ref_a)
    ∷ []

handle_changes-mirror_example :
    (s' : State discovery (ServiceSpec protobuf) ObjectRef) × (handle_changes discovery passthrough
        from_metadata changes
        (loaded, false)
      ≡ some (s', has_ready discovery ℕ passthrough from_metadata changes || false))
    × IsWellIndexed discovery passthrough from_metadata s'
    × ((o : ObjectRef)
        → lookup o s'.raw_services ≡ lookup o (replay from_metadata loaded.raw_services changes))
handle_changes-mirror_example =
    handle_changes-mirror discovery ℕ passthrough from_metadata changes loaded false
      loaded-IsWellIndexed (parse_other, (tt, (tt, (tt, tt))))

abbrev ref_b : ObjectRef
ref_b = record { name = 98 ∷ []; namespace = none }

same_members : (o : ObjectRef) → contains o (ref_a ∷ ref_b ∷ []) ≡ contains o (ref_b ∷ ref_a ∷ [])
same_members o = ground arith
