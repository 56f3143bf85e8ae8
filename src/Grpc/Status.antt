-- ===== src/Grpc/Status.antt =====
-- `GrpcStatus` in grcache-proxy/src/grpc/status.rs.
use Prim.Native.Nat.{◌<◌}
use grcache.Prelude.{
  ℕ, zero, suc, ◌+◌, ◌-◌, ◌/◌, ◌%◌, ◌*◌, ◌≡◌, refl, Bool, true, false, Option, none, some, [], ◌∷◌,
  Text, arith, if◌then◌else◌, ltb, nat_beq, nat_beq_iff, Option-cases, Bool-cases, inl, inr, ◌↔◌,
}
use grcache.Prelude.Ascii.{is_utf8, u8_digits, parse_u8}
use grcache.Service.{Result}
use grcache.Grpc.{
  Headers, ParseError, GrpcStatus, grpc_status, parse_value, parse_status, is_ok, no_status_header,
  invalid_status_header_text, invalid_status_header_int,
}

-- A status as it is sent: in decimal, without leading zeros.
unfoldable pub show : ℕ → Text
show c =
    if ltb c 10
    then (c + 48) ∷ []
    else if ltb c 100
    then (c / 10 + 48) ∷ (c % 10 + 48) ∷ []
    else (c / 100 + 48) ∷ (c / 10 % 10 + 48) ∷ (c % 10 + 48) ∷ []

reads_back : ℕ → Bool
reads_back c = elim (parse_value (show c)) [ Result.ok s ↦ nat_beq s.code c | Result.err e ↦ false ]

-- All codes below the bound are read back.
codes_read : ℕ → Bool
codes_read zero = true
codes_read (suc top) = if reads_back top then codes_read top else false

codes_read-reads_back : (top c : ℕ) → c < top → codes_read top ≡ true → reads_back c ≡ true
unfolding codes_read
codes_read-reads_back zero c below read = absurd (omega arith)
codes_read-reads_back (suc top) c below read = ground (codes_read-reads_back top c, arith)

show_table : codes_read 256 ≡ true
unfolding codes_read reads_back show parse_value is_utf8 parse_u8 u8_digits
show_table = refl

u8_digits-lt : (acc : ℕ) (s : Text) (n : ℕ) → acc < 256 → u8_digits acc s ≡ some n → n < 256
unfolding u8_digits
u8_digits-lt acc [] n h e = ground arith
u8_digits-lt acc (c ∷ s) n h e = ground (arith, u8_digits-lt (acc * 10 + (c - 48)) s n)

parse_u8-lt : (s : Text) (n : ℕ) → parse_u8 s ≡ some n → n < 256
unfolding parse_u8
parse_u8-lt [] n e = absurd (ground arith)
parse_u8-lt (c ∷ []) n e = u8_digits-lt 0 (c ∷ []) n (omega arith) e
parse_u8-lt (c ∷ d ∷ s) n e = ground (arith, u8_digits-lt 0 (d ∷ s) n, u8_digits-lt 0 (c ∷ d ∷ s) n)

-- The value of a result that reads back.
read_ok :
    (r : Result GrpcStatus ParseError) (c : ℕ)
    → (elim r [ Result.ok s ↦ nat_beq s.code c | Result.err e ↦ false ]) ≡ true
    → r ≡ Result.ok (record { code = c })
read_ok (Result.ok s) c h = ground (arith, nat_beq_iff s.code c)
read_ok (Result.err e) c h = absurd (ground arith)

parse_value-show : (c : ℕ) → c < 256 → parse_value (show c) ≡ Result.ok (record { code = c })
unfolding reads_back
parse_value-show c h = read_ok (parse_value (show c)) c (codes_read-reads_back 256 c h show_table)

-- Trailers whose status is a number below 256 in decimal are read as that number, and count as a
-- success exactly where it is 0.
pub parse_status-show :
    (hs : Headers) (trailers : hs.HeaderMap) (c : ℕ)
    → c < 256
    → hs.get trailers grpc_status ≡ some (show c)
    → (s : GrpcStatus) × (parse_status hs trailers ≡ Result.ok s)
      × (s.code ≡ c)
      × ((is_ok s ≡ true) ↔ (c ≡ 0))
unfolding parse_status is_ok
parse_status-show hs trailers c h e =
    (record { code = c }, rw (e, parse_status) (parse_value-show c h), refl, nat_beq_iff c 0)

-- What an outcome says of the status header.
abbrev pub Explains : Option Text → Result GrpcStatus ParseError → Type 0
Explains header (Result.ok s) =
    (value : Text) × (header ≡ some value)
    × (is_utf8 value ≡ true)
    × (parse_u8 value ≡ some s.code)
    × (s.code < 256)
Explains header (Result.err no_status_header) = header ≡ none
Explains header (Result.err invalid_status_header_text) =
    (value : Text) × (header ≡ some value) × (is_utf8 value ≡ false)
Explains header (Result.err invalid_status_header_int) =
    (value : Text) × (header ≡ some value) × (is_utf8 value ≡ true) × (parse_u8 value ≡ none)

-- Every outcome is explained by the status header: a code, which fits in a byte, is what the text of
-- the header reads as; and each error names what is wrong with it.
pub parse_status-Explains :
    (hs : Headers) (trailers : hs.HeaderMap)
    → Explains (hs.get trailers grpc_status) (parse_status hs trailers)
unfolding parse_status parse_value
parse_status-Explains hs trailers = elim (Option-cases (hs.get trailers grpc_status)) [
  | inl e ↦ rw (e, parse_status) refl
  | inr (value, e) ↦ elim (Bool-cases (is_utf8 value)) [
    | inr bad ↦ rw (e, parse_status, bad, parse_value) (value, refl, bad)
    | inl good ↦ elim (Option-cases (parse_u8 value)) [
      | inl n ↦ rw (e, parse_status, good, parse_value, n) (value, refl, good, n)
      | inr (c, n) ↦
          rw (e, parse_status, good, parse_value, n) (value, refl, good, n, parse_u8-lt value c n)
    ]
  ]
]
