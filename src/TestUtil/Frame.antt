-- ===== src/TestUtil/Frame.antt =====
-- What a server reads of the requests of grcache-shared/src/test/grpc_client.rs, and the path that
-- `parse_grpc_path` of grcache-proxy/src/proxy/mod.rs finds in them.
use grcache.Prelude.{
  ℕ, zero, suc, ◌+◌, ◌*◌, ◌/◌, ◌%◌, ◌^◌, ◌<◌, ◌≡◌, refl, ap, ◌∙◌, true, Option, none, some, [], ◌∷◌,
  ◌++◌, Text, length, arith,
}
use grcache.Prelude.Ascii.{is_utf8}
use grcache.Prelude.Str.{Lacks}
use grcache.Service.{Result}
use grcache.Proxy.{slash, parse_grpc_path}
use grcache.Proxy.Path.{parse_grpc_path-eq-ok}
use grcache.TestUtil.Client.{be_bytes, frame, grpc_request}

-- The first `n` bytes, and those after them.
abbrev pub split_at : ℕ → Text → Option (Text × Text)
split_at zero s = some ([], s)
split_at (suc n) [] = none
split_at (suc n) (x ∷ s) = elim (split_at n s) [ some (a, b) ↦ some (x ∷ a, b) | none ↦ none ]

-- A message of the gRPC protocol that is not compressed: a byte 0, four bytes that hold the length,
-- and as many bytes, with what follows them.
abbrev pub read_message : Text → Option (Text × Text)
read_message (zero ∷ a ∷ b ∷ c ∷ d ∷ s) = split_at (((a * 256 + b) * 256 + c) * 256 + d) s
read_message s = none

split_at-length : (m rest : Text) → split_at (length m) (m ++ rest) ≡ some (m, rest)
split_at-length [] rest = refl
split_at-length (x ∷ m) rest = rw (split_at-length m rest) refl

u32_value :
    (x : ℕ)
    → x < 4294967296
    → (((x % 4294967296 / 16777216 % 256) * 256 + x % 4294967296 / 65536 % 256) * 256
            + x % 4294967296 / 256 % 256)
          * 256
        + x % 4294967296 / 1 % 256
      ≡ x
u32_value x h = omega arith

-- A message shorter than 2 ^ 32 bytes is read back from its frame, whatever follows.
pub read_message-frame :
    (m rest : Text) → length m < 2 ^ 32 → read_message (frame m ++ rest) ≡ some (m, rest)
unfolding frame be_bytes
read_message-frame m rest h =
    ap (λ n. split_at n (m ++ rest)) (u32_value (length m) h) ∙ split_at-length m rest

-- The uri is a string, and so is UTF-8.
pub parse_grpc_path-grpc_request :
    (service method message : Text)
    → is_utf8 (grpc_request service method message).uri ≡ true
    → Lacks slash service
    → Lacks slash method
    → parse_grpc_path (grpc_request service method message).uri ≡ Result.ok (service, method)
parse_grpc_path-grpc_request service method message u hs hm =
    (parse_grpc_path-eq-ok _ service method).1 (u, (refl, hs, hm))
