-- ===== src/Dns/Cells.antt =====
-- The laws of the handles and of the queue in grcache-proxy/src/discovery/dns.rs.
use mathlib.Core.Option.{some-injective}
use mathlib.Core.Option
use grcache.Prelude.{
  ℕ, ◌<◌, ◌≡◌, ap, ◌∙◌, true, none, some, [], ◌∷◌, ◌++◌, nat_eq, if◌then◌else◌, nat_beq,
  nat_beq_iff, arith, Option-cases, Bool-cases, inl, inr, ◌⊎◌, is_some,
}
use grcache.Prelude.Map.{Map, lookup, lookup-insert}
use grcache.Dns.{Handle, State, upgraded, host_port_eq, modify, strong_count, is_live, HostPort}

pub lookup-modify :
    (id j : ℕ) (f : Handle → Handle) (m : Map ℕ Handle)
    → lookup j (modify id f m) ≡ (if nat_beq id j then Option.map f (lookup j m) else lookup j m)
unfolding modify
lookup-modify id j f m = elim (Option-cases (lookup id m)) [
  | inl e ↦ ground (arith, e)
  | inr (h, e) ↦ ground (arith, e, lookup-insert id j (f h) m)
]

pub lookup-snoc :
    {V : Type 0} (k j : ℕ) (v : V) (m : Map ℕ V)
    → lookup j (m ++ (k, v) ∷ [])
      ≡ (if is_some (lookup j m) then lookup j m else if nat_beq k j then some v else none)
unfolding lookup
lookup-snoc k j v [] = ground arith
lookup-snoc k j v ((i, w) ∷ m) = ground (arith, lookup-snoc k j v m)

pub modify-eq-some :
    (id j : ℕ) (f : Handle → Handle) (m : Map ℕ Handle) (h : Handle)
    → lookup j (modify id f m) ≡ some h
    → (lookup j m ≡ some h) ⊎ ((old : Handle) × (id ≡ j) × (lookup j m ≡ some old) × (h ≡ f old))
modify-eq-some id j f m h e = elim (Bool-cases (nat_beq id j)) [
  | inr other ↦ inl (ground (arith, lookup-modify id j f m))
  | inl same ↦ elim (Option-cases (lookup j m)) [
    | inl n ↦ absurd (ground (arith, lookup-modify id j f m))
    | inr (old, o) ↦ inr (old, (nat_beq_iff id j).0 same, o, ground (arith, lookup-modify id j f m))
  ]
]

pub is_live-eq_true :
    (id : ℕ) (s : State)
    → is_live id s ≡ true
    → (h : Handle) × (lookup id s.handles ≡ some h) × (0 < h.strong)
unfolding strong_count
is_live-eq_true id s live = elim (Option-cases (lookup id s.handles)) [
  | inl n ↦ absurd (ground arith)
  | inr (h, e) ↦ (h, e, ground arith)
]

pub is_live_of_lookup :
    (id : ℕ) (s : State) (h : Handle)
    → lookup id s.handles ≡ some h
    → 0 < h.strong
    → is_live id s ≡ true
unfolding strong_count
is_live_of_lookup id s h e pos = ground arith

pub upgraded-is_live :
    (host_port : HostPort) (id : ℕ) (s : State)
    → upgraded host_port s ≡ some id
    → (lookup host_port s.service_backends ≡ some id) × (is_live id s ≡ true)
unfolding upgraded
upgraded-is_live host_port id s h = elim (Option-cases (lookup host_port s.service_backends)) [
  | inl n ↦ absurd (ground arith)
  | inr (j, e) ↦ elim (Bool-cases (is_live j s)) [
    | inl live ↦
        let same : j ≡ id = some-injective _ _ (rw (e, upgraded, live) at h) in
        (e ∙ ap some same, rw (← same) live)
    | inr dead ↦ absurd (ground arith)
  ]
]
