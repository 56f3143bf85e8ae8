-- ===== src/DescriptorSet/Hash.antt =====
-- The hashes that a bucket source of grcache-shared/src/service/descriptor_set.rs can have.
use mathlib.Core.Path.{subst}
use Prim.Native.Nat.{◌≤◌}
use grcache.Prelude.{ℕ, ◌*◌, ◌≡◌, ◌⊎◌, some, Text, text_eq, arith, length}
use grcache.Prelude.{All}
use grcache.Crd.{DescriptorSetSource}
use grcache.Service.{Protobuf, Result}
use grcache.DescriptorSet.{Sources, LoadFromBucket, from_source, Fetches}
use grcache.DescriptorSet.Errors.{Explains, from_source-Explains}

-- A digit, or a letter from a to f in lower case.
abbrev pub IsHexDigit : ℕ → Type 0
IsHexDigit b = ((48 ≤ b) × (b ≤ 57)) ⊎ ((97 ≤ b) × (b ≤ 102))

-- What is documented of sha2, and of the format `{:x}`.
pub record HashLaws (c : Sources) : Type 0 where
  pub length-finalize : (bytes : Text) → length (c.finalize bytes) ≡ 32
  pub length-lower_hex : (bytes : Text) → length (c.lower_hex bytes) ≡ 2 * length bytes
  pub lower_hex-IsHexDigit : (bytes : Text) → All IsHexDigit (c.lower_hex bytes)

-- By the documented length of a SHA-256 digest and the documented format of bytes in hexadecimal: a
-- bucket source from which a descriptor set is loaded has a hash of 64 characters, each a digit or a
-- letter from a to f in lower case.
pub from_source-IsHexDigit :
    (p : Protobuf) (c : Sources) (context : LoadFromBucket p c)
    → HashLaws c
    → (name hash : Text) (descriptor_set : Protobuf.FileDescriptorSet p)
    → from_source p c context (DescriptorSetSource.bucket name hash)
      ≡ some (Result.ok descriptor_set)
    → (length hash ≡ 64) × All IsHexDigit hash
unfolding Fetches
from_source-IsHexDigit p c context laws name hash descriptor_set e =
    let (buf, (_, same), _) =
      subst (Explains p c context (DescriptorSetSource.bucket name hash)) e
        (from_source-Explains p c context (DescriptorSetSource.bucket name hash)) in
    let digest = Sources.finalize c buf in
    subst (λ h. (length h ≡ 64) × All IsHexDigit h) same
      (
        omega (arith, laws.length-lower_hex digest, laws.length-finalize buf),
        laws.lower_hex-IsHexDigit digest,
      )
