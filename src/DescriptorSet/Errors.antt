-- ===== src/DescriptorSet/Errors.antt =====
-- Every outcome of `from_source` in grcache-shared/src/service/descriptor_set.rs.
use grcache.Prelude.{
  ◌≡◌, ◌≢◌, refl, sym, Option, none, some, Text, text_eq, Option-cases, inl, inr, eq_cases,
}
use grcache.Crd.{DescriptorSetSource}
use grcache.Service.{Protobuf, Result, Result-cases}
use grcache.DescriptorSet.{
  Sources, Error, file_retrieval, base64_decode_error, proto_parse, bucket_load, checksum_mismatch,
  LoadFromBucket, sha256_hex, from_io, from_decode, from_proto, checked, load, parsed_set,
  from_source, Fetches,
}

module _ (p : Protobuf) (c : Sources) (context : LoadFromBucket p c) where
  open p use {FileDescriptorSet, parse_from_bytes}
  open c use {IoError, DecodeError, AnyhowError, read_file, decode}

  -- What each error is about.
  abbrev pub Causes : DescriptorSetSource → Error p c → Type 0
  Causes source (file_retrieval e) =
      (path : Text) × (source ≡ DescriptorSetSource.file path) × (read_file path ≡ Result.err e)
  Causes source (base64_decode_error e) =
      (encoded : Text) × (source ≡ DescriptorSetSource.inline encoded)
      × (decode encoded ≡ Result.err e)
  Causes source (proto_parse e) =
      (buf : Text) × Fetches p c context source buf × (parse_from_bytes buf ≡ Result.err e)
  Causes source (bucket_load e bucket_name) =
      (hash : Text) × (source ≡ DescriptorSetSource.bucket bucket_name hash)
      × (context.file_from_bucket bucket_name hash ≡ some (Result.err e))
  Causes source (checksum_mismatch reference file) =
      (name : Text) × (buf : Text) × (source ≡ DescriptorSetSource.bucket name reference)
      × (context.file_from_bucket name reference ≡ some (Result.ok buf))
      × (file ≡ sha256_hex p c buf)
      × (reference ≢ file)

  -- What each outcome is about; a panic is one of the bucket's.
  abbrev pub Explains : DescriptorSetSource → Option (Result FileDescriptorSet (Error p c)) → Type 0
  Explains source none =
      (name : Text) × (hash : Text) × (source ≡ DescriptorSetSource.bucket name hash)
      × (context.file_from_bucket name hash ≡ none)
  Explains source (some (Result.ok descriptor_set)) =
      (buf : Text) × Fetches p c context source buf
      × (parse_from_bytes buf ≡ Result.ok descriptor_set)
  Explains source (some (Result.err e)) = Causes source e

  -- Bytes that were fetched are parsed.
  parsed_set-Explains :
      (source : DescriptorSetSource) (buf : Text)
      → Fetches p c context source buf
      → Explains source (some (parsed_set p c (Result.ok buf)))
  unfolding parsed_set from_proto
  parsed_set-Explains source buf fetched = elim (Result-cases (parse_from_bytes buf)) [
    | inl (d, e) ↦ rw (e, parsed_set, from_proto) (buf, fetched, e)
    | inr (x, e) ↦ rw (e, parsed_set, from_proto) (buf, fetched, e)
  ]

  checked-Explains :
      (name hash : Text) (loaded : Result Text AnyhowError)
      → context.file_from_bucket name hash ≡ some loaded
      → Explains
          (DescriptorSetSource.bucket name hash)
          (some (parsed_set p c (checked p c name hash loaded)))
  unfolding checked parsed_set Fetches
  checked-Explains name hash (Result.err error) e = (hash, refl, e)
  checked-Explains name hash (Result.ok buf) e = elim (eq_cases hash (sha256_hex p c buf)) [
    | inl (t, same) ↦
        rw (t, checked)
          (parsed_set-Explains (DescriptorSetSource.bucket name hash) buf (e, sym same))
    | inr (t, other) ↦ rw (t, checked) (name, buf, refl, e, refl, other)
  ]

  -- For every source and every bucket loader, what `from_source` returns is explained: a descriptor set
  -- is what the bytes of the source parse to, where those of a bucket have the hash of the source; each
  -- error is that of the file, of the decoding, of the parsing of the bytes, of the bucket of that name,
  -- or a checksum that is not the hash of the source; and a panic is one of the bucket loader's.
  pub from_source-Explains :
      (source : DescriptorSetSource) → Explains source (from_source p c context source)
  unfolding from_source load parsed_set from_io from_decode Fetches
  from_source-Explains (DescriptorSetSource.file path) = elim (Result-cases (read_file path)) [
    | inl (buf, e) ↦
        rw (e, from_source, load, from_io)
          (parsed_set-Explains (DescriptorSetSource.file path) buf e)
    | inr (x, e) ↦ rw (e, from_source, load, from_io) (path, refl, e)
  ]
  from_source-Explains (DescriptorSetSource.bucket name hash) =
      elim (Option-cases (context.file_from_bucket name hash)) [
        | inl n ↦ rw (n, from_source, load) (name, hash, refl, n)
        | inr (loaded, e) ↦ rw (e, from_source, load) (checked-Explains name hash loaded e)
      ]
  from_source-Explains (DescriptorSetSource.inline encoded) = elim (Result-cases (decode encoded)) [
    | inl (buf, e) ↦
        rw (e, from_source, load, from_decode)
          (parsed_set-Explains (DescriptorSetSource.inline encoded) buf e)
    | inr (x, e) ↦ rw (e, from_source, load, from_decode) (encoded, refl, e)
  ]

  -- Bytes that a source stands for are parsed, whatever comes of it.
  pub Fetches-from_source :
      (source : DescriptorSetSource) (buf : Text)
      → Fetches p c context source buf
      → from_source p c context source ≡ some (from_proto p c (parse_from_bytes buf))
  unfolding from_source load parsed_set from_io from_decode Fetches checked
  Fetches-from_source (DescriptorSetSource.file path) buf e =
      rw (e, from_source, load, from_io, parsed_set) refl
  Fetches-from_source (DescriptorSetSource.bucket name hash) buf (e, same) =
      elim (eq_cases hash (sha256_hex p c buf)) [
        | inl (t, _) ↦ rw (e, from_source, load, checked, t, parsed_set) refl
        | inr (t, other) ↦ absurd (other (sym same))
      ]
  Fetches-from_source (DescriptorSetSource.inline encoded) buf e =
      rw (e, from_source, load, from_decode, parsed_set) refl
