-- ===== src/Grpc/Strip.antt =====
-- The vary set of a request in grcache-proxy/src/grpc/headers.rs.
use grcache.Prelude.{
  ◌≡◌, refl, sym, ap, ◌∙◌, ◌||◌, Option, none, some, List, [], ◌∷◌, ◌++◌, map, Text, text_eq, ◌==◌,
  contains, arith, eq_iff,
}
use grcache.Prelude.Ascii.{trim}
use grcache.Prelude.Str.{split}
use grcache.Service.{Result}
use grcache.Grpc.{
  Headers, ToStrError, to_str_error, comma, vary, pieces, flat_pieces, sorted_insert, collect,
  to_str_result, make_vary_headers_set,
}

contains-sorted_insert :
    (t u : Text) (l : List Text) → contains t (sorted_insert u l) ≡ (u == t || contains t l)
unfolding sorted_insert
contains-sorted_insert t u [] = refl
contains-sorted_insert t u (x ∷ xs) =
    ground (arith, contains-sorted_insert t u xs, eq_iff u t, eq_iff u x, eq_iff x t)

contains-append :
    (t : Text) (xs ys : List Text) → contains t (xs ++ ys) ≡ (contains t xs || contains t ys)
contains-append t [] ys = refl
contains-append t (x ∷ xs) ys = ground (arith, contains-append t xs ys)

oks : List Text → List (Result Text ToStrError)
oks [] = []
oks (t ∷ ts) = Result.ok t ∷ oks ts

collect-oks :
    (set : List Text) (ts : List Text)
    → (out : List Text) × (collect set (oks ts) ≡ Result.ok out)
      × ((t : Text) → contains t out ≡ (contains t ts || contains t set))
unfolding collect oks
collect-oks set [] = (set, refl, λ t. refl)
collect-oks set (u ∷ ts) =
    let (out, e, same) = collect-oks (sorted_insert u set) ts in
    (out, e, λ t. ground (arith, same t, contains-sorted_insert t u set))

oks-append : (xs ys : List Text) → oks (xs ++ ys) ≡ oks xs ++ oks ys
unfolding oks
oks-append [] ys = refl
oks-append (x ∷ xs) ys = ap (◌∷◌ (Result.ok x)) (oks-append xs ys)

abbrev ok_trimmed : Text → Result Text ToStrError
ok_trimmed v = Result.ok (trim v)

oks-map : (ts : List Text) → map ok_trimmed ts ≡ oks (map trim ts)
unfolding oks
oks-map [] = refl
oks-map (t ∷ ts) = ap (◌∷◌ (Result.ok (trim t))) (oks-map ts)

pieces-option :
    (o : Option Text)
    → pieces (elim o [ some s ↦ Result.ok s | none ↦ Result.err to_str_error ])
      ≡ oks (elim o [ some s ↦ map trim (split comma s) | none ↦ [] ])
unfolding oks
pieces-option none = refl
pieces-option (some s) = oks-map (split comma s)

module _ (hs : Headers) where
  -- The names that one value lists, none where it is no text.
  abbrev pub names_of : Text → List Text
  names_of v = elim (hs.to_str v) [ some s ↦ map trim (split comma s) | none ↦ [] ]

  abbrev pub all_names : List Text → List Text
  all_names [] = []
  all_names (v ∷ vs) = names_of v ++ all_names vs

  flat_pieces-oks : (vs : List Text) → flat_pieces (map (to_str_result hs) vs) ≡ oks (all_names vs)
  unfolding oks
  flat_pieces-oks [] = refl
  flat_pieces-oks (v ∷ vs) =
      ap (λ l. l ++ flat_pieces (map (to_str_result hs) vs)) (pieces-option (hs.to_str v))
      ∙ ap (λ l. oks (names_of v) ++ l) (flat_pieces-oks vs)
      ∙ sym (oks-append (names_of v) (all_names vs))

  -- The vary set is never refused: a value that is no text is passed over in silence. Its members are
  -- exactly the trimmed, comma separated parts of the `vary` values that are texts.
  pub make_vary_headers_set-names :
      (headers : hs.HeaderMap)
      → (set : List Text) × (make_vary_headers_set hs headers ≡ Result.ok set)
        × ((t : Text) → contains t set ≡ contains t (all_names (hs.get_all headers vary)))
  unfolding make_vary_headers_set
  make_vary_headers_set-names headers =
      let names = all_names (hs.get_all headers vary) in
      let (set, e, same) = collect-oks [] names in
      (set, rw (flat_pieces-oks (hs.get_all headers vary)) e, λ t. ground (arith, same t))
