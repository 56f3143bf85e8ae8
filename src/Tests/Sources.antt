-- ===== src/Tests/Sources.antt =====
-- A file, a bucket and a task, and the theorems on descriptor sources at them.
use Prim.Native.Nat.{◌≤◌}
use grcache.Prelude.{
  ℕ, zero, suc, ◌+◌, ◌*◌, ◌%◌, ◌/◌, ◌≡◌, refl, false, none, some, List, [], ◌∷◌, Text, arith,
  text_eq, length, All, if◌then◌else◌, ◌==◌, ltb,
}
use grcache.Prelude.Map.{insert}
use grcache.Crd.{DescriptorSetSource}
use grcache.Service.{
  Result, ServiceSpec, build, build_files, find_service, find, all_services, packaged,
  collect_methods, build_method, cache_spec_of,
}
use grcache.Store.{Task, finish_task}
use grcache.Tests.{protobuf, File, name_a}
use grcache.DescriptorSet.{
  Sources, LoadFromBucket, from_source, load, checked, parsed_set, from_proto, run_task, Fetches,
  sha256_hex,
}
use grcache.DescriptorSet.Errors.{Explains, from_source-Explains}
use grcache.DescriptorSet.Hash.{IsHexDigit, HashLaws, from_source-IsHexDigit}
use grcache.DescriptorSet.Tasks.{Builds, finish_task-bucket}

-- A digit in lower case, and the two of a byte.
abbrev hex_digit : ℕ → ℕ
hex_digit n = if ltb n 10 then 48 + n else 87 + n

abbrev hex : Text → Text
hex [] = []
hex (b ∷ bs) = hex_digit (b / 16 % 16) ∷ hex_digit (b % 16) ∷ hex bs

abbrev copies : ℕ → ℕ → Text
copies zero b = []
copies (suc n) b = b ∷ copies n b

-- Every path but the empty one is a file with itself in it; digests repeat the length.
abbrev pub sources : Sources
sources = record {
  IoError = ℕ;
  DecodeError = ℕ;
  AnyhowError = ℕ;
  read_file = λ path. if path == [] then Result.err 2 else Result.ok path;
  decode = λ encoded. Result.ok encoded;
  finalize = λ bytes. copies 32 (length bytes);
  lower_hex = hex;
}

hex_digit-IsHexDigit : (n : ℕ) → n ≤ 15 → IsHexDigit (hex_digit n)
hex_digit-IsHexDigit n small = ground (arith, small)

length-hex : (bs : Text) → length (hex bs) ≡ 2 * length bs
length-hex [] = refl
length-hex (b ∷ bs) = omega (arith, length-hex bs)

hex-IsHexDigit : (bs : Text) → All IsHexDigit (hex bs)
hex-IsHexDigit [] = tt
hex-IsHexDigit (b ∷ bs) = (
  hex_digit-IsHexDigit (b / 16 % 16) (omega arith),
  (hex_digit-IsHexDigit (b % 16) (omega arith), hex-IsHexDigit bs),
)

length-copies : (n b : ℕ) → length (copies n b) ≡ n
length-copies zero b = refl
length-copies (suc n) b = omega (arith, length-copies n b)

sources_laws : HashLaws sources
sources_laws = record {
  length-finalize = λ bytes. length-copies 32 (length bytes);
  length-lower_hex = length-hex;
  lower_hex-IsHexDigit = hex-IsHexDigit;
}

-- A bucket with one object, whose name is its hash.
abbrev a_hash : Text
a_hash = sha256_hex protobuf sources name_a

abbrev bucket_with_a : LoadFromBucket protobuf sources
bucket_with_a = record {
  file_from_bucket = λ bucket_id object_name.
      some (if object_name == a_hash then Result.ok name_a else Result.err 404);
}

abbrev file_a : List File
file_a = (name_a, (name_a, (name_a, none) ∷ []) ∷ []) ∷ []

from_source-Explains_example :
    Explains protobuf sources bucket_with_a
      (DescriptorSetSource.file [])
      (from_source protobuf sources bucket_with_a (DescriptorSetSource.file []))
from_source-Explains_example =
    from_source-Explains protobuf sources bucket_with_a (DescriptorSetSource.file [])

accepted_test :
    from_source protobuf sources bucket_with_a (DescriptorSetSource.bucket [] a_hash)
    ≡ some (Result.ok file_a)
unfolding from_source load checked parsed_set from_proto
accepted_test = refl

from_source-IsHexDigit_example : (length a_hash ≡ 64) × All IsHexDigit a_hash
from_source-IsHexDigit_example =
    from_source-IsHexDigit protobuf sources bucket_with_a sources_laws [] a_hash file_a
      accepted_test

-- A task with a file, and one with a bucket.
abbrev task : DescriptorSetSource → Task ℕ
task source = record {
  source = source;
  service_name = name_a;
  service = record { package_name = name_a; name = name_a };
  generation = 0;
  load_balancer = 0;
}

abbrev spec_a : ServiceSpec protobuf
spec_a = record {
  name = record { package_name = name_a; name = name_a };
  passthrough = false;
  methods = (name_a, record { name = name_a; descriptor = (name_a, none); cache_spec = none }) ∷ [];
}

task-Builds : Builds protobuf sources (task (DescriptorSetSource.file name_a)) spec_a
unfolding Fetches build build_files find_service find all_services packaged collect_methods
    build_method cache_spec_of insert
task-Builds = (name_a, file_a, [], refl, refl, refl)

abbrev bucket_task : Task ℕ
bucket_task = task (DescriptorSetSource.bucket [] a_hash)

finish_task-bucket_example :
    finish_task (bucket_task, run_task protobuf sources bucket_task) [] ≡ []
finish_task-bucket_example = finish_task-bucket protobuf sources bucket_task [] a_hash [] refl
