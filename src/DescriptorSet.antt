-- ===== src/DescriptorSet.antt =====
-- grcache-shared/src/service/descriptor_set.rs: where a descriptor set comes from, and the task of
-- grcache-proxy/src/service_store.rs that builds a service from it. `none` is a panic.
pub mod Errors
pub mod Hash
pub mod Tasks
use grcache.Prelude.{◌≡◌, Option, none, some, Text, text_eq, ◌==◌, if◌then◌else◌}
use grcache.Crd.{DescriptorSetSource}
use grcache.Service.{Protobuf, Result, ServiceSpec, build}
use grcache.Store.{◌>>=◌, Task}

-- What the code uses of the file system and of the crates base64, sha2 and anyhow.
pub record Sources : Type 1 where
  pub IoError : Type 0
  pub DecodeError : Type 0
  pub AnyhowError : Type 0
  -- `File::open`, and `read_to_end` of the file
  pub read_file : Text → Result Text IoError
  -- `BASE64_STANDARD.decode`
  pub decode : Text → Result Text DecodeError
  -- the `finalize` of a `Sha256` that was updated with the bytes
  pub finalize : Text → Text
  -- `{:x}`
  pub lower_hex : Text → Text

module _ (p : Protobuf) (c : Sources) where
  open p use {FileDescriptorSet, ProtoError, parse_from_bytes}
  open c use {IoError, DecodeError, AnyhowError, read_file, decode, finalize, lower_hex}

  pub data Error : Type 0 where
    file_retrieval : IoError → Error
    base64_decode_error : DecodeError → Error
    proto_parse : ProtoError → Error
    bucket_load : AnyhowError → (bucket_name : Text) → Error
    checksum_mismatch : (reference : Text) → (file : Text) → Error

  pub record LoadFromBucket : Type 0 where
    pub file_from_bucket : Text → Text → Option (Result Text AnyhowError)

  abbrev pub dummy_panic_context : LoadFromBucket
  dummy_panic_context = record { file_from_bucket = λ bucket_id object_name. none }

  abbrev pub sha256_hex : Text → Text
  sha256_hex bytes = lower_hex (finalize bytes)

  -- The conversions of `?` and of `map_err`
  unfoldable pub from_io : Result Text IoError → Result Text Error
  from_io (Result.ok buf) = Result.ok buf
  from_io (Result.err e) = Result.err (file_retrieval e)

  unfoldable pub from_decode : Result Text DecodeError → Result Text Error
  from_decode (Result.ok buf) = Result.ok buf
  from_decode (Result.err e) = Result.err (base64_decode_error e)

  unfoldable pub from_proto : Result FileDescriptorSet ProtoError → Result FileDescriptorSet Error
  from_proto (Result.ok descriptor_set) = Result.ok descriptor_set
  from_proto (Result.err e) = Result.err (proto_parse e)

  -- The check of what a bucket has returned.
  unfoldable pub checked : Text → Text → Result Text AnyhowError → Result Text Error
  checked name hash (Result.err error) = Result.err (bucket_load error name)
  checked name hash (Result.ok buf) =
      if hash == sha256_hex buf
      then Result.ok buf
      else Result.err (checksum_mismatch hash (sha256_hex buf))

  -- The `match` on the source.
  unfoldable pub load : LoadFromBucket → DescriptorSetSource → Option (Result Text Error)
  load context (DescriptorSetSource.file path) = some (from_io (read_file path))
  load context (DescriptorSetSource.bucket name hash) = do
    loaded ← context.file_from_bucket name hash
    some (checked name hash loaded)
  load context (DescriptorSetSource.inline encoded) = some (from_decode (decode encoded))

  -- The end of `from_source`
  unfoldable pub parsed_set : Result Text Error → Result FileDescriptorSet Error
  parsed_set (Result.ok buf) = from_proto (parse_from_bytes buf)
  parsed_set (Result.err e) = Result.err e

  unfoldable pub from_source :
      LoadFromBucket → DescriptorSetSource → Option (Result FileDescriptorSet Error)
  from_source context source = do buf ← load context source; some (parsed_set buf)

  abbrev pub unwrap : {A E : Type 0} → Result A E → Option A
  unwrap (Result.ok a) = some a
  unwrap (Result.err e) = none

  -- The closure that `update_service` spawns: the spec that it publishes.
  unfoldable pub run_task : {Handle : Type 0} → Task Handle → Option (ServiceSpec p)
  run_task t = do
    loaded ← from_source dummy_panic_context t.source
    descriptor_set ← unwrap loaded
    built ← unwrap (build p descriptor_set t.service)
    some built.0

  -- The bytes that a source stands for.
  unfoldable pub Fetches : LoadFromBucket → DescriptorSetSource → Text → Type 0
  Fetches context (DescriptorSetSource.file path) buf = read_file path ≡ Result.ok buf
  Fetches context (DescriptorSetSource.bucket name hash) buf =
      (context.file_from_bucket name hash ≡ some (Result.ok buf)) × (sha256_hex buf ≡ hash)
  Fetches context (DescriptorSetSource.inline encoded) buf = decode encoded ≡ Result.ok buf
