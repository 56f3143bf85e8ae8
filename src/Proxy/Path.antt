-- ===== src/Proxy/Path.antt =====
-- The paths that `parse_grpc_path` of grcache-proxy/src/proxy/mod.rs accepts.
use mathlib.Core.Path.{subst}
use grcache.Prelude.{
  ◌≡◌, ap, sym, ◌∙◌, ◌↔◌, true, List, [], ◌∷◌, ◌++◌, Text, arith, All, Bool-cases, inl, inr,
}
use grcache.Prelude.Ascii.{is_utf8}
use grcache.Prelude.Str.{split, join, join-split, split-Lacks, split-append, split_of_Lacks, Lacks}
use grcache.Service.{Result}
use grcache.Proxy.{slash, two_elements, path_parts, parse_grpc_path}

path_parts-eq-ok :
    (l : List Text) (service method : Text)
    → path_parts l ≡ Result.ok (service, method)
    → l ≡ [] ∷ service ∷ method ∷ []
unfolding path_parts two_elements
path_parts-eq-ok [] service method h = absurd (ground arith)
path_parts-eq-ok ([] ∷ []) service method h = absurd (ground arith)
path_parts-eq-ok ([] ∷ a ∷ []) service method h = absurd (ground arith)
path_parts-eq-ok ([] ∷ a ∷ b ∷ []) service method h = ground arith
path_parts-eq-ok ([] ∷ a ∷ b ∷ c ∷ l) service method h = absurd (ground arith)
path_parts-eq-ok ((x ∷ xs) ∷ l) service method h = absurd (ground arith)

split-elements :
    (service method : Text)
    → Lacks slash service
    → Lacks slash method
    → split slash (slash ∷ (service ++ slash ∷ method)) ≡ [] ∷ service ∷ method ∷ []
split-elements service method hs hm =
    split-append slash [] (service ++ slash ∷ method) tt
    ∙ ap (◌∷◌ []) (split-append slash service method hs)
    ∙ ap (λ l. [] ∷ service ∷ l) (split_of_Lacks slash method hm)

-- What `service` and `method` are of a path: its two parts behind slashes, without slashes of their
-- own.
abbrev pub IsGrpcPath : Text → Text → Text → Type 0
IsGrpcPath path service method =
    (path ≡ slash ∷ (service ++ slash ∷ method)) × Lacks slash service × Lacks slash method

-- A path is accepted with a service and a method exactly when it is valid UTF-8 and consists of a
-- slash, the service, a slash and the method, and neither has a slash.
pub parse_grpc_path-eq-ok :
    (path service method : Text)
    → (parse_grpc_path path ≡ Result.ok (service, method))
      ↔ ((is_utf8 path ≡ true) × IsGrpcPath path service method)
unfolding parse_grpc_path path_parts two_elements join
parse_grpc_path-eq-ok path service method = (
  λ h. elim (Bool-cases (is_utf8 path)) [
    | inl u ↦
        let parts : split slash path ≡ [] ∷ service ∷ method ∷ [] =
          path_parts-eq-ok _ service method (ground arith) in
        let (_, (hs, (hm, _))) = subst (All (Lacks slash)) parts (split-Lacks slash path) in
        (u, (sym (join-split slash path) ∙ ap (join slash) parts, hs, hm))
    | inr u ↦ absurd (ground arith)
  ],
  λ (u, (e, hs, hm)).
      let parts : split slash path ≡ [] ∷ service ∷ method ∷ [] =
        ap (split slash) e ∙ split-elements service method hs hm in
      ground arith,
)
