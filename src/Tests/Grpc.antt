-- ===== src/Tests/Grpc.antt =====
-- The theorems on headers, hashes and statuses at concrete requests.
use grcache.Prelude.{ℕ, ◌≡◌, refl, some, List, [], ◌∷◌, ◌++◌, Text, text_eq, contains, arith}
use grcache.Service.{Result}
use grcache.Tests.{headers, hasher, Entries, name_a, dotted}
use grcache.Grpc.{
  vary, comma, grpc_status, make_vary_headers_set, hash_body, hash_vary, parse_status,
}
use grcache.Grpc.Strip.{all_names, make_vary_headers_set-names}
use grcache.Grpc.Encoding.{NoNul, SameValues, vary_bytes, body_bytes, hash_input-injective}
use grcache.Grpc.Status.{show, Explains, parse_status-Explains}

-- `vary: a, p.a`, with both headers.
abbrev pub varied : Entries
varied =
    (vary, name_a ++ comma ∷ 32 ∷ dotted)
    ∷ (name_a, 49 ∷ [])
    ∷ (dotted, 50 ∷ [])
    ∷ (120 ∷ [], 51 ∷ [])
    ∷ []

make_vary_headers_set-names_example :
    (set : List Text) × (make_vary_headers_set headers varied ≡ Result.ok set)
    × ((t : Text) → contains t set ≡ contains t (all_names headers (headers.get_all varied vary)))
make_vary_headers_set-names_example = make_vary_headers_set-names headers varied

no_nul : NoNul headers (name_a ∷ dotted ∷ []) varied
no_nul = ground arith

hash_input-injective_example :
    (hash_body hasher dotted name_a
        (hash_vary hasher headers (name_a ∷ dotted ∷ []) varied hasher.new)
      ≡ hasher.update
          (vary_bytes headers (name_a ∷ dotted ∷ []) varied ++ body_bytes dotted name_a)
          hasher.new)
    × SameValues headers (name_a ∷ dotted ∷ []) varied varied
    × (dotted ≡ dotted)
    × (name_a ≡ name_a)
hash_input-injective_example =
    hash_input-injective hasher headers (name_a ∷ dotted ∷ []) varied varied dotted dotted name_a
      name_a no_nul no_nul (omega arith) (omega arith) (omega arith) (omega arith) refl

abbrev pub trailers : Entries
trailers = (grpc_status, 49 ∷ 53 ∷ []) ∷ []

abbrev pub fifteen : ℕ
fifteen = 15

shown : headers.get trailers grpc_status ≡ some (show fifteen)
unfolding show
shown = refl

parse_status-Explains_example :
    Explains (headers.get trailers grpc_status) (parse_status headers trailers)
parse_status-Explains_example = parse_status-Explains headers trailers
