-- ===== src/Service/Name.antt =====
-- Names in grcache-shared/src/service/qualified_service.rs and grcache-shared/src/field_ref.rs.
use grcache.Prelude.{◌≡◌, refl, sym, ap, List, [], ◌∷◌, Text, Option-cases, inl, inr, map}
use grcache.Prelude.Str.{
  Lacks, join, join-split, rsplit_once, rsplit_once-append, rsplit_once-eq-some,
  rsplit_once-eq-none,
}
use grcache.Service.{
  QualifiedService, FailedParse, Result, dot, fmt, parse, PathComponent, parse_field_ref,
}

-- A qualified name whose service part has no dot is parsed back from what it is displayed as.
pub parse-fmt : (q : QualifiedService) → Lacks dot q.name → parse (fmt q) ≡ Result.ok q
unfolding parse fmt
parse-fmt q h = rw (rsplit_once-append dot q.package_name q.name h, parse)

-- The outcome of a parse says all there is: a success displays as the text and its service part has
-- no dot, and a failure returns the text, which has no dot.
abbrev pub Parsed : Text → Result QualifiedService FailedParse → Type 0
Parsed s (Result.ok q) = (fmt q ≡ s) × Lacks dot q.name
Parsed s (Result.err e) = (e.name ≡ s) × Lacks dot s

-- Every text either parses to a name that displays as that text and whose service part has no dot,
-- or has no dot and is returned in the error.
pub parse-Parsed : (s : Text) → Parsed s (parse s)
unfolding parse fmt
parse-Parsed s = elim (Option-cases (rsplit_once dot s)) [
  | inl e ↦ rw (e, parse) (refl, rsplit_once-eq-none dot s e)
  | inr (r, e) ↦
      let (whole, lacks) = rsplit_once-eq-some dot s r e in rw (e, parse) (sym whole, lacks)
]

abbrev pub texts : List PathComponent → List Text
texts [] = []
texts (PathComponent.field t ∷ cs) = t ∷ texts cs

texts-map : (ps : List Text) → texts (map PathComponent.field ps) ≡ ps
texts-map [] = refl
texts-map (p ∷ ps) = ap (◌∷◌ p) (texts-map ps)

-- The components of a field reference, joined by dots, are the text that was parsed.
pub join-parse_field_ref : (s : Text) → join dot (texts (parse_field_ref s).components) ≡ s
unfolding parse_field_ref
join-parse_field_ref s = rw texts-map (join-split dot s)
