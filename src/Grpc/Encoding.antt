-- ===== src/Grpc/Encoding.antt =====
-- The bytes that grcache-proxy/src/grpc/hash.rs feeds to the hasher, and that they tell requests with
-- the same vary set apart.
use Prim.Native.Nat.{◌*◌, ◌<◌}
use grcache.Prelude.{
  ℕ, zero, suc, ◌/◌, ◌%◌, ◌^◌, ◌≡◌, refl, sym, ap, ◌∙◌, ◌≢◌, All-append, List, [], ◌∷◌, ◌++◌, Text,
  arith, All, length, append_assoc,
}
use grcache.Prelude.Str.{Lacks}
use grcache.Grpc.{Headers, Hasher, le_bytes, hash_values, hash_vary, hash_body}

-- The values of one header, as one.
pub joined : List Text → Text
joined [] = []
joined (v ∷ []) = v
joined (v ∷ w ∷ vs) = v ++ 44 ∷ 32 ∷ joined (w ∷ vs)

-- The names with their values.
pub vary_bytes : (hs : Headers) → List Text → hs.HeaderMap → Text
vary_bytes hs [] headers = []
vary_bytes hs (name ∷ names) headers =
    name ++ 0 ∷ (joined (hs.get_all headers name) ++ 0 ∷ 0 ∷ vary_bytes hs names headers)

pub body_bytes : Text → Text → Text
body_bytes raw_path body =
    le_bytes 8 (length raw_path) ++ (raw_path ++ (le_bytes 8 (length body) ++ body))

module _ (d : Hasher) where
  hash_values-joined : (vs : List Text) (s : d.State) → hash_values d vs s ≡ d.update (joined vs) s
  unfolding hash_values joined
  hash_values-joined [] s = sym (d.update-nil s)
  hash_values-joined (v ∷ []) s = refl
  hash_values-joined (v ∷ w ∷ vs) s =
      hash_values-joined (w ∷ vs) _
      ∙ ap (d.update (joined (w ∷ vs))) (d.update-append v (44 ∷ 32 ∷ []) s)
      ∙ d.update-append (v ++ 44 ∷ 32 ∷ []) (joined (w ∷ vs)) s
      ∙ ap (λ t. d.update t s) (append_assoc v (44 ∷ 32 ∷ []) (joined (w ∷ vs)))

  hash_vary-vary_bytes :
      (hs : Headers) (names : List Text) (h : hs.HeaderMap) (s : d.State)
      → hash_vary d hs names h s ≡ d.update (vary_bytes hs names h) s
  unfolding hash_vary vary_bytes
  hash_vary-vary_bytes hs [] h s = sym (d.update-nil s)
  hash_vary-vary_bytes hs (name ∷ names) h s =
      let values = joined (hs.get_all h name) in
      let rest = vary_bytes hs names h in
      hash_vary-vary_bytes hs names h _
      ∙ ap (λ t. d.update rest (d.update (0 ∷ 0 ∷ []) t)) (hash_values-joined (hs.get_all h name) _)
      ∙ simp (d.update-append, append_assoc)

  hash_body-body_bytes :
      (raw_path body : Text) (s : d.State)
      → hash_body d raw_path body s ≡ d.update (body_bytes raw_path body) s
  unfolding hash_body body_bytes
  hash_body-body_bytes raw_path body s = simp (d.update-append, append_assoc)

append_cancel : (a x y : Text) → a ++ x ≡ a ++ y → x ≡ y
append_cancel [] x y h = h
append_cancel (c ∷ a) x y h = append_cancel a x y (ground arith)

-- A text without NUL ends where the first NUL stands.
nul_split : (a b x y : Text) → Lacks 0 a → Lacks 0 b → a ++ 0 ∷ x ≡ b ++ 0 ∷ y → (a ≡ b) × (x ≡ y)
nul_split [] [] x y h k e = (refl, ground arith)
nul_split [] (c ∷ b) x y h k e = absurd (ground arith)
nul_split (c ∷ a) [] x y h k e = absurd (ground arith)
nul_split (c ∷ a) (c' ∷ b) x y h k e =
    let (same, rest) = nul_split a b x y h.1 k.1 (ground arith) in (ground arith, rest)

length_split : (a b x y : Text) → length a ≡ length b → a ++ x ≡ b ++ y → (a ≡ b) × (x ≡ y)
length_split [] [] x y h e = (refl, e)
length_split [] (c ∷ b) x y h e = absurd (omega arith)
length_split (c ∷ a) [] x y h e = absurd (omega arith)
length_split (c ∷ a) (c' ∷ b) x y h e =
    let (same, rest) = length_split a b x y (omega arith) (ground arith) in (ground arith, rest)

-- What fits in `n` bytes.
abbrev pub byte_range : ℕ → ℕ
byte_range zero = 1
byte_range (suc n) = 256 * byte_range n

le_bytes_split :
    (n a b : ℕ) (x y : Text)
    → a < byte_range n
    → b < byte_range n
    → le_bytes n a ++ x ≡ le_bytes n b ++ y
    → (a ≡ b) × (x ≡ y)
unfolding le_bytes
le_bytes_split zero a b x y h k e = (omega arith, e)
le_bytes_split (suc n) a b x y h k e =
    let (same, rest) =
      le_bytes_split n (a / 256) (b / 256) x y (omega arith) (omega arith) (ground arith) in
    let low : a % 256 ≡ b % 256 = ground arith in (omega arith, rest)

joined-Lacks : (vs : List Text) → All (Lacks 0) vs → Lacks 0 (joined vs)
unfolding joined
joined-Lacks [] h = tt
joined-Lacks (v ∷ []) h = h.0
joined-Lacks (v ∷ w ∷ vs) h =
    All-append (λ c. c ≢ 0) v _ h.0 (ground arith, (ground arith, joined-Lacks (w ∷ vs) h.1))

body_bytes-injective :
    (p q a b : Text)
    → length p < 2 ^ 64
    → length q < 2 ^ 64
    → length a < 2 ^ 64
    → length b < 2 ^ 64
    → body_bytes p a ≡ body_bytes q b
    → (p ≡ q) × (a ≡ b)
unfolding body_bytes
body_bytes-injective p q a b hp hq ha hb e =
    let (lengths, e1) = le_bytes_split 8 (length p) (length q) _ _ hp hq e in
    let (paths, e2) = length_split p q _ _ lengths e1 in
    let (_, e3) = le_bytes_split 8 (length a) (length b) a b ha hb e2 in (paths, e3)

-- The values of the named headers hold no NUL byte, as the http crate has it.
abbrev pub NoNul : (hs : Headers) → List Text → hs.HeaderMap → Type 0
NoNul hs names h = All (λ name. All (Lacks 0) (hs.get_all h name)) names

-- Both requests have the same values, joined, of every named header.
abbrev pub SameValues : (hs : Headers) → List Text → hs.HeaderMap → hs.HeaderMap → Type 0
SameValues hs names h k =
    All (λ name. joined (hs.get_all h name) ≡ joined (hs.get_all k name)) names

vary_bytes-injective :
    (hs : Headers) (names : List Text) (h k : hs.HeaderMap) (x y : Text)
    → NoNul hs names h
    → NoNul hs names k
    → vary_bytes hs names h ++ x ≡ vary_bytes hs names k ++ y
    → SameValues hs names h k × (x ≡ y)
unfolding vary_bytes
vary_bytes-injective hs [] h k x y nh nk e = (tt, e)
vary_bytes-injective hs (name ∷ names) h k x y nh nk e =
    let e1 = append_cancel name _ _ (sym (append_assoc name _ x) ∙ e ∙ append_assoc name _ y) in
    let a = joined (hs.get_all h name) in
    let b = joined (hs.get_all k name) in
    let r = vary_bytes hs names h in
    let t = vary_bytes hs names k in
    let values : a ++ 0 ∷ 0 ∷ (r ++ x) ≡ b ++ 0 ∷ 0 ∷ (t ++ y) =
      sym (append_assoc a (0 ∷ 0 ∷ r) x)
      ∙ append_cancel (0 ∷ []) _ _ e1
      ∙ append_assoc b (0 ∷ 0 ∷ t) y in
    let (same, e2) =
      nul_split a b (0 ∷ (r ++ x)) (0 ∷ (t ++ y)) (joined-Lacks _ nh.0) (joined-Lacks _ nk.0)
        values in
    let (rest, e3) =
      vary_bytes-injective hs names h k x y nh.1 nk.1
        (append_cancel (0 ∷ []) (r ++ x) (t ++ y) e2) in
    ((same, rest), e3)

-- The hasher is fed one text: for each name of the vary set the name, a NUL, the joined values and
-- two NULs; then the path and the body, each behind its length in eight bytes. Two requests with one
-- vary set, whose values hold no NUL and whose paths and bodies are shorter than 2^64 bytes, and
-- whose texts are equal, have equal paths, equal bodies and, for each name of the set, equal joined
-- values.
pub hash_input-injective :
    (d : Hasher) (hs : Headers) (names : List Text) (h k : hs.HeaderMap) (p q a b : Text)
    → NoNul hs names h
    → NoNul hs names k
    → length p < 2 ^ 64
    → length q < 2 ^ 64
    → length a < 2 ^ 64
    → length b < 2 ^ 64
    → vary_bytes hs names h ++ body_bytes p a ≡ vary_bytes hs names k ++ body_bytes q b
    → (hash_body d p a (hash_vary d hs names h d.new)
        ≡ d.update (vary_bytes hs names h ++ body_bytes p a) d.new)
      × SameValues hs names h k
      × (p ≡ q)
      × (a ≡ b)
hash_input-injective d hs names h k p q a b nh nk hp hq ha hb e =
    let (values, e1) = vary_bytes-injective hs names h k _ _ nh nk e in
    let (paths, bodies) = body_bytes-injective p q a b hp hq ha hb e1 in
    (
      hash_body-body_bytes d p a _
          ∙ ap (d.update (body_bytes p a)) (hash_vary-vary_bytes d hs names h d.new)
          ∙ d.update-append _ _ _,
      values,
      paths,
      bodies,
    )
