-- ===== src/TestUtil/Handles.antt =====
-- The handles of the proxy of grcache-proxy/src/test_util/mod.rs: each service has one of its own,
-- whose load balancers hold what the test has last sent.
use mathlib.Core.Path.{subst}
use grcache.Prelude.{
  ℕ, ◌<◌, ◌≡◌, ◌≢◌, refl, sym, ap, ◌∙◌, true, none, some, List, Text, text_eq, nat_eq, arith,
  eq_iff, eq_refl, Option-cases, inl, inr, eq_cases, ◌==◌, if◌then◌else◌,
}
use mathlib.Core.Option.{some-injective}
use grcache.Prelude.Map.{Map, lookup, lookup-insert, lookup-insert_cases}
use grcache.Service.{
  QualifiedService, Protobuf, Result, ServiceSpec, build_passthrough, build, parse, Result-cases,
}
use grcache.Store.{ServiceData, ◌>>=◌}
use grcache.Crd.{DescriptorSetSource}
use grcache.Dns.{Backend}
use grcache.DescriptorSet.{Sources, from_source, dummy_panic_context}
use grcache.TestUtil.{
  TestHandle, BackendsTest, ProxyTest, new, new_test, on_handle, add_entry, add_service_passthrough,
  add_service, set_backends, Step, passthrough, full, backends, Steps, done, next, send,
  update_consistent, update_round_robin,
}

-- Ready, with load balancers that hold what was sent.
abbrev pub IsCurrent : TestHandle → Type 0
IsCurrent h =
    (h.ready ≡ true)
    × (h.load_balancer_round_robin ≡ h.backends)
    × (h.load_balancer_consistent ≡ h.backends)

lookup-on_handle :
    (i j : ℕ) (f : TestHandle → TestHandle) (handles : Map ℕ TestHandle) (h : TestHandle)
    → lookup i handles ≡ some h
    → lookup j (on_handle i f handles) ≡ (if i == j then some (f h) else lookup j handles)
unfolding on_handle
lookup-on_handle i j f handles h e = rw (e, on_handle) (lookup-insert i j (f h) handles)

lookup-on_missing :
    (i j : ℕ) (f : TestHandle → TestHandle) (handles : Map ℕ TestHandle)
    → lookup i handles ≡ none
    → lookup j (on_handle i f handles) ≡ lookup j handles
unfolding on_handle
lookup-on_missing i j f handles e = rw (e, on_handle) refl

abbrev pub set : List Backend → TestHandle → TestHandle
set l h = update_round_robin (update_consistent (send l h))

module _ (p : Protobuf) (c : Sources) where
  -- Handles are numbered below the count, and current; a service has a handle that no other has.
  abbrev pub IsNumbered : ProxyTest p c → Type 0
  IsNumbered t =
      (i : ℕ) (h : TestHandle) → lookup i t.handles ≡ some h → (i < t.created) × IsCurrent h

  abbrev pub HasHandles : ProxyTest p c → Type 0
  HasHandles t =
      (name : Text) (e : ServiceData (ServiceSpec p) ℕ)
      → lookup name t.services ≡ some e
      → (i : ℕ) × (h : TestHandle) × (e.load_balancer ≡ some i) × (lookup i t.handles ≡ some h)

  abbrev pub AreSeparate : ProxyTest p c → Type 0
  AreSeparate t =
      (a b : Text) (e f : ServiceData (ServiceSpec p) ℕ)
      → lookup a t.services ≡ some e
      → lookup b t.services ≡ some f
      → e.load_balancer ≡ f.load_balancer
      → a ≡ b

  abbrev pub Sound : ProxyTest p c → Type 0
  Sound t = IsNumbered t × HasHandles t × AreSeparate t

  Sound-new : Sound (new p c)
  unfolding lookup
  Sound-new = (
    λ i h e. absurd (ground arith),
    λ name e f. absurd (ground arith),
    λ a b e f g k. absurd (ground arith),
  )

  Sound-add_entry :
      (service_name : Text) (spec : ServiceSpec p) (t : ProxyTest p c)
      → Sound t
      → Sound (add_entry p c service_name spec t).0
  Sound-add_entry service_name spec t (numbered, handled, separate) = (
    λ i h e. elim (lookup-insert_cases t.created i new_test h t.handles e) [
      | inl (at, it) ↦ (omega (arith, at), subst IsCurrent it (refl, refl, refl))
      | inr (other, before) ↦
          let (below, current) = numbered i h before in (omega (arith, below), current)
    ],
    λ name e f. elim (lookup-insert_cases service_name name _ e t.services f) [
      | inl (at, it) ↦ (
        t.created,
        new_test,
        ap (λ x. x.load_balancer) (sym it),
        rw (lookup-insert, eq_refl t.created) refl,
      )
      | inr (other, before) ↦
          let (i, h, l, found) = handled name e before in
          let (below, _) = numbered i h found in
          (
            i,
            h,
            l,
            ground (
              arith,
              lookup-insert t.created i new_test t.handles,
              found,
              eq_iff t.created i,
              below,
            ),
          )
    ],
    λ a b e f g k same.
        let older : (name : Text) (x : ServiceData (ServiceSpec p) ℕ)
            → lookup name t.services ≡ some x
            → x.load_balancer ≢ some t.created =
          λ name x found here.
            let (i, h, l, held) = handled name x found in
            let (below, _) = numbered i h held in
            omega (arith, below, some-injective _ _ (sym l ∙ here)) in
        elim (lookup-insert_cases service_name a _ e t.services g) [
          | inl (x, it) ↦ elim (lookup-insert_cases service_name b _ f t.services k) [
            | inl (y, _) ↦ sym x ∙ y
            | inr (_, y) ↦ absurd (older b f y (sym same ∙ ap (λ z. z.load_balancer) (sym it)))
          ]
          | inr (_, x) ↦ elim (lookup-insert_cases service_name b _ f t.services k) [
            | inl (y, it) ↦ absurd (older a e x (same ∙ ap (λ z. z.load_balancer) (sym it)))
            | inr (_, y) ↦ separate a b e f x y same
          ]
        ],
  )

  pub lookup-set_backends :
      (b : BackendsTest) (l : List Backend) (t : ProxyTest p c) (h : TestHandle) (j : ℕ)
      → lookup b.handle t.handles ≡ some h
      → lookup j (set_backends p c b l t).handles
        ≡ (if b.handle == j then some (set l h) else lookup j t.handles)
  unfolding set_backends
  lookup-set_backends b l t h j e = lookup-on_handle b.handle j (set l) t.handles h e

  Sound-set_backends :
      (b : BackendsTest) (l : List Backend) (t : ProxyTest p c)
      → Sound t
      → Sound (set_backends p c b l t)
  unfolding set_backends
  Sound-set_backends b l t (numbered, handled, separate) =
      elim (Option-cases (lookup b.handle t.handles)) [
        | inl none_there ↦ (
          λ i h e. numbered i h (sym (lookup-on_missing b.handle i _ t.handles none_there) ∙ e),
          λ name e f.
              let (i, h, x, found) = handled name e f in
              (i, h, x, lookup-on_missing b.handle i _ t.handles none_there ∙ found),
          separate,
        )
        | inr (old, there) ↦
            let (below, (ready, _, _)) = numbered b.handle old there in
            let at = λ (j : ℕ). lookup-set_backends b l t old j there in
            (
              λ i h e. elim (eq_cases b.handle i) [
                | inl (q, same) ↦
                    let it : set l old ≡ h = some-injective _ _ (rw (at, q) at e) in
                    (omega (arith, same, below), subst IsCurrent it (ready, refl, refl))
                | inr (q, other) ↦ numbered i h (rw (at, q) at e)
              ],
              λ name e f.
                  let (i, h, x, found) = handled name e f in
                  elim (eq_cases b.handle i) [
                    | inl (q, same) ↦ (i, set l old, x, rw (at, q) refl)
                    | inr (q, other) ↦ (i, h, x, rw (at, q) found)
                  ],
              separate,
            )
      ]

  -- A test that does not panic has added an entry.
  pub add_service_passthrough-added :
      (name : Text) (t : ProxyTest p c) (r : ProxyTest p c × BackendsTest)
      → add_service_passthrough p c name t ≡ some r
      → (q : QualifiedService) × (parse name ≡ Result.ok q)
        × (add_entry p c name (build_passthrough p q) t ≡ r)
  unfolding add_service_passthrough
  add_service_passthrough-added name t r h = elim (Result-cases (parse name)) [
    | inl (q, e) ↦ (q, e, some-injective _ _ (rw (e, ◌>>=◌) at h))
    | inr (x, e) ↦ absurd (ground arith)
  ]

  add_service-added :
      (name path : Text) (t : ProxyTest p c) (r : ProxyTest p c × BackendsTest)
      → add_service p c name path t ≡ some r
      → (spec : ServiceSpec p) × (add_entry p c name spec t ≡ r)
  unfolding add_service
  add_service-added name path t r h =
      let load = from_source p c (dummy_panic_context p c) (DescriptorSetSource.file path) in
      elim (Option-cases load) [
        | inl e ↦ absurd (ground arith)
        | inr (loaded, e) ↦ elim (Result-cases loaded) [
          | inr (x, f) ↦ absurd (ground arith)
          | inl (descriptor_set, f) ↦ elim (Result-cases (parse name)) [
            | inr (x, g) ↦ absurd (ground arith)
            | inl (q, g) ↦ elim (Result-cases (build p descriptor_set q)) [
              | inr (x, k) ↦ absurd (ground arith)
              | inl (built, k) ↦ (built.0, some-injective _ _ (rw (e, ◌>>=◌, f, g, k) at h))
            ]
          ]
        ]
      ]

  Sound-Step : (t u : ProxyTest p c) → Step p c t u → Sound t → Sound u
  Sound-Step t u (passthrough name _ r e) sound =
      let (q, _, same) = add_service_passthrough-added name t r e in
      subst (λ x. Sound x.0) same (Sound-add_entry name (build_passthrough p q) t sound)
  Sound-Step t u (full name path _ r e) sound =
      let (spec, same) = add_service-added name path t r e in
      subst (λ x. Sound x.0) same (Sound-add_entry name spec t sound)
  Sound-Step t u (backends b l _) sound = Sound-set_backends b l t sound

  Sound-Steps_from : (t u : ProxyTest p c) → Steps p c t u → Sound t → Sound u
  Sound-Steps_from t u (done _) sound = sound
  Sound-Steps_from t w (next _ u _ steps step) sound =
      Sound-Step u w step (Sound-Steps_from t u steps sound)

  -- Whatever a test adds and sends, starting from a new proxy: every handle is ready and both its load
  -- balancers hold the backends that were last sent to it, every service has a handle, and no two
  -- services share one.
  pub Sound-Steps : (t : ProxyTest p c) → Steps p c (new p c) t → Sound t
  Sound-Steps t steps = Sound-Steps_from (new p c) t steps Sound-new
