-- ===== src/Grpc.antt =====
-- grcache-proxy/src/grpc: the headers of a request, the bytes that a cache key hashes, and the status
-- of a response. The http crate and the hasher are the parameters `Headers` and `Hasher`.
pub mod Strip
pub mod Encoding
pub mod Status
use grcache.Prelude.{
  ℕ, zero, suc, ◌+◌, ◌/◌, ◌%◌, ◌≡◌, ◌≢◌, Bool, true, false, not, ◌&&◌, ◌||◌, Option, none, some,
  List, [], ◌∷◌, ◌++◌, map, Text, text_eq, ◌==◌, if◌then◌else◌, contains, filter, length, All,
  nat_beq,
}
use grcache.Prelude.Ascii.{trim, is_utf8, parse_u8}
use grcache.Prelude.Order.{text_lt}
use grcache.Prelude.Str.{split}
use grcache.Service.{Result}

-- What the code uses of `http::HeaderMap`, `HeaderValue` and pingora's `remove_header`, as the crates
-- document it. A name is canonical in lower case, as the map holds it.
pub record Headers : Type 1 where
  pub HeaderMap : Type 0
  pub IsCanonical : Text → Type 0
  pub keys : HeaderMap → List Text
  pub get_all : HeaderMap → Text → List Text
  pub get : HeaderMap → Text → Option Text
  pub remove_header : Text → HeaderMap → HeaderMap
  -- `to_str`: a text where the value is visible ASCII
  pub to_str : Text → Option Text
  pub keys_canonical : (h : HeaderMap) → All IsCanonical (keys h)
  pub keys-remove_header :
      (k j : Text) (h : HeaderMap)
      → IsCanonical k
      → contains j (keys (remove_header k h)) ≡ (not (k == j) && contains j (keys h))
  pub get_all-remove_header :
      (k j : Text) (h : HeaderMap)
      → IsCanonical k
      → IsCanonical j
      → k ≢ j
      → get_all (remove_header k h) j ≡ get_all h j

-- What the code uses of `blake2::Digest`: feeding parts is feeding what they append to.
pub record Hasher : Type 1 where
  pub State : Type 0
  pub new : State
  pub update : Text → State → State
  pub finalize : State → Text
  pub update-append : (a b : Text) (s : State) → update b (update a s) ≡ update (a ++ b) s
  pub update-nil : (s : State) → update [] s ≡ s

-- The error of `to_str`, which carries nothing.
pub data ToStrError : Type 0 where
  to_str_error : ToStrError

abbrev pub comma : ℕ
comma = 44

-- "vary"
abbrev pub vary : Text
vary = 118 ∷ 97 ∷ 114 ∷ 121 ∷ []

-- `CORE_HEADERS`: "host", "content-type", "te", "vary", "user-agent"
abbrev pub core_headers : List Text
core_headers =
    (104 ∷ 111 ∷ 115 ∷ 116 ∷ [])
    ∷ (99 ∷ 111 ∷ 110 ∷ 116 ∷ 101 ∷ 110 ∷ 116 ∷ 45 ∷ 116 ∷ 121 ∷ 112 ∷ 101 ∷ [])
    ∷ (116 ∷ 101 ∷ [])
    ∷ vary
    ∷ (117 ∷ 115 ∷ 101 ∷ 114 ∷ 45 ∷ 97 ∷ 103 ∷ 101 ∷ 110 ∷ 116 ∷ [])
    ∷ []

-- The first closure of `make_vary_headers_set`, `v.map(split).into_iter().flatten().map(Ok)`, with
-- the trim of the next: a value that is no text is dropped by `into_iter`.
abbrev pub pieces : Result Text ToStrError → List (Result Text ToStrError)
pieces (Result.ok i) = map (λ v. Result.ok (trim v)) (split comma i)
pieces (Result.err e) = []

abbrev pub flat_pieces : List (Result Text ToStrError) → List (Result Text ToStrError)
flat_pieces [] = []
flat_pieces (v ∷ vs) = pieces v ++ flat_pieces vs

-- `BTreeSet::insert`
unfoldable pub sorted_insert : Text → List Text → List Text
sorted_insert t [] = t ∷ []
sorted_insert t (x ∷ xs) =
    let rest = sorted_insert t xs in
    if t == x then x ∷ xs else if text_lt t x then t ∷ x ∷ xs else x ∷ rest

-- `collect` into a `Result<BTreeSet<_>, _>`: the first error, or the set.
unfoldable pub collect : List Text → List (Result Text ToStrError) → Result (List Text) ToStrError
collect set [] = Result.ok set
collect set (Result.ok t ∷ l) = collect (sorted_insert t set) l
collect set (Result.err e ∷ l) = Result.err e

-- `get_all` takes a name in any case; the hasher asks with the names of the vary set.
module _ (hs : Headers) where
  open hs use {HeaderMap, keys, get_all, get, to_str, remove_header}

  abbrev pub to_str_result : Text → Result Text ToStrError
  to_str_result v = elim (to_str v) [ some s ↦ Result.ok s | none ↦ Result.err to_str_error ]

  unfoldable pub make_vary_headers_set : HeaderMap → Result (List Text) ToStrError
  make_vary_headers_set headers =
      collect [] (flat_pieces (map to_str_result (get_all headers vary)))

  abbrev pub keep_header : List Text → List Text → Text → Bool
  keep_header vary_set propagation_set key =
      contains key core_headers || contains key vary_set || contains key propagation_set

  unfoldable pub find_strip_headers : HeaderMap → List Text → List Text → List Text
  find_strip_headers req_headers vary_set propagation_set =
      filter (λ key. not (keep_header vary_set propagation_set key)) (keys req_headers)

-- `usize::to_le_bytes`, of `n` bytes
unfoldable pub le_bytes : ℕ → ℕ → Text
le_bytes zero x = []
le_bytes (suc n) x = x % 256 ∷ le_bytes n (x / 256)

module _ (d : Hasher) where
  -- `intersperse` with `None`, where a `None` feeds ", "
  unfoldable pub hash_values : List Text → d.State → d.State
  hash_values [] s = s
  hash_values (v ∷ []) s = d.update v s
  hash_values (v ∷ w ∷ vs) s = hash_values (w ∷ vs) (d.update (44 ∷ 32 ∷ []) (d.update v s))

  unfoldable pub hash_vary : (hs : Headers) → List Text → hs.HeaderMap → d.State → d.State
  hash_vary hs [] headers s = s
  hash_vary hs (name ∷ names) headers s = hash_vary hs names headers (
      d.update (0 ∷ 0 ∷ [])
        (hash_values (hs.get_all headers name) (d.update (0 ∷ []) (d.update name s))))

  unfoldable pub hash_body : Text → Text → d.State → d.State
  hash_body raw_path body s = d.update body (
      d.update (le_bytes 8 (length body))
        (d.update raw_path (d.update (le_bytes 8 (length raw_path)) s)))

-- `grpc::status::ParseError`
pub data ParseError : Type 0 where
  no_status_header invalid_status_header_text invalid_status_header_int : ParseError

pub record GrpcStatus : Type 0 where
  pub code : ℕ

-- "grpc-status"
abbrev pub grpc_status : Text
grpc_status = 103 ∷ 114 ∷ 112 ∷ 99 ∷ 45 ∷ 115 ∷ 116 ∷ 97 ∷ 116 ∷ 117 ∷ 115 ∷ []

-- The part of `GrpcStatus::parse` after the header is found.
unfoldable pub parse_value : Text → Result GrpcStatus ParseError
parse_value value =
    if is_utf8 value
    then (elim (parse_u8 value) [
      | some code ↦ Result.ok (record { code = code })
      | none ↦ Result.err invalid_status_header_int
    ])
    else Result.err invalid_status_header_text

unfoldable pub parse_status : (hs : Headers) → hs.HeaderMap → Result GrpcStatus ParseError
parse_status hs trailers = elim (hs.get trailers grpc_status) [
  | some value ↦ parse_value value
  | none ↦ Result.err no_status_header
]

unfoldable pub is_ok : GrpcStatus → Bool
is_ok s = nat_beq s.code 0
