-- ===== src/Proxy/Filter.antt =====
-- The headers that `request_filter` of grcache-proxy/src/proxy/mod.rs removes.
use grcache.Prelude.{
  ◌≡◌, refl, ◌∙◌, Bool, true, false, not, ◌&&◌, List, [], ◌∷◌, Text, text_eq, arith, Bool-cases,
  inl, inr, eq_iff, eq_refl, eq_cases, contains, filter, All,
}
use grcache.Service.{Protobuf}
use grcache.Grpc.{Headers, keep_header, find_strip_headers}
use grcache.Proxy.{Pingora, remove_headers, strip}

contains-filter :
    (q : Text → Bool) (j : Text) (l : List Text) → contains j (filter q l) ≡ (contains j l && q j)
contains-filter q j [] = refl
contains-filter q j (i ∷ l) = elim (eq_cases i j) [
  | inl (t, e) ↦ rw e (ground (arith, eq_refl j, contains-filter q j l))
  | inr (t, e) ↦ ground (arith, contains-filter q j l)
]

All-filter : (P : Text → Type 0) (q : Text → Bool) (l : List Text) → All P l → All P (filter q l)
All-filter P q [] h = tt
All-filter P q (i ∷ l) (h, hs) = elim (Bool-cases (q i)) [
  | inl e ↦ rw e (h, All-filter P q l hs)
  | inr e ↦ rw e (All-filter P q l hs)
]

bools : (strip key keep : Bool) → strip ≡ (key && not keep) → (not strip && key) ≡ (key && keep)
bools strip key keep e = ground arith

dropped_false : (key keep : Bool) → keep ≡ true → (key && not keep) ≡ false
dropped_false key keep e = ground arith

module _ (hs : Headers) (p : Protobuf) {LoadBalancer : Type 0}
    (g : Pingora hs.HeaderMap LoadBalancer) where
  keys-remove_headers :
      (l : List Text) (h : hs.HeaderMap) (j : Text)
      → All hs.IsCanonical l
      → contains j (hs.keys (remove_headers hs p g l h))
        ≡ (not (contains j l) && contains j (hs.keys h))
  unfolding remove_headers
  keys-remove_headers [] h j c = refl
  keys-remove_headers (k ∷ l) h j (c, cs) =
      ground
        (arith, keys-remove_headers l (hs.remove_header k h) j cs, hs.keys-remove_header k j h c)

  get_all-remove_headers :
      (l : List Text) (h : hs.HeaderMap) (j : Text)
      → All hs.IsCanonical l
      → hs.IsCanonical j
      → contains j l ≡ false
      → hs.get_all (remove_headers hs p g l h) j ≡ hs.get_all h j
  unfolding remove_headers
  get_all-remove_headers [] h j c cj e = refl
  get_all-remove_headers (k ∷ l) h j (c, cs) cj e =
      get_all-remove_headers l (hs.remove_header k h) j cs cj (ground arith)
      ∙ hs.get_all-remove_header k j h c cj (ground (arith, eq_iff k j))

  strip_canonical :
      (vary_set : List Text) (h : hs.HeaderMap)
      → All hs.IsCanonical (find_strip_headers hs h vary_set [])
  unfolding find_strip_headers
  strip_canonical vary_set h = All-filter hs.IsCanonical _ (hs.keys h) (hs.keys_canonical h)

  contains-strip_headers :
      (vary_set : List Text) (h : hs.HeaderMap) (j : Text)
      → contains j (find_strip_headers hs h vary_set [])
        ≡ (contains j (hs.keys h) && not (keep_header hs vary_set [] j))
  unfolding find_strip_headers
  contains-strip_headers vary_set h j = contains-filter _ j (hs.keys h)

  pub keys-strip :
      (vary_set : List Text) (h : hs.HeaderMap) (j : Text)
      → contains j (hs.keys (strip hs p g vary_set h))
        ≡ (contains j (hs.keys h) && keep_header hs vary_set [] j)
  keys-strip vary_set h j =
      keys-remove_headers (find_strip_headers hs h vary_set []) h j (strip_canonical vary_set h)
      ∙ bools _ _ _ (contains-strip_headers vary_set h j)

  pub get_all-strip :
      (vary_set : List Text) (h : hs.HeaderMap) (j : Text)
      → hs.IsCanonical j
      → keep_header hs vary_set [] j ≡ true
      → hs.get_all (strip hs p g vary_set h) j ≡ hs.get_all h j
  get_all-strip vary_set h j cj keep =
      get_all-remove_headers (find_strip_headers hs h vary_set []) h j (strip_canonical vary_set h)
        cj (contains-strip_headers vary_set h j ∙ dropped_false _ _ keep)
