-- ===== src/TestUtil/Routes.antt =====
-- The services of the proxy of grcache-proxy/src/test_util/mod.rs, as its callbacks find them.
use grcache.Prelude.{
  ℕ, ◌≡◌, ◌≢◌, refl, sym, ap, ◌∙◌, false, Option, some, List, [], Text, text_eq, nat_eq, arith,
  Option-cases, eq_iff, eq_refl, inl, inr, eq_cases, ◌==◌, if◌then◌else◌,
}
use grcache.Prelude.Map.{Map, lookup, lookup-insert}
use grcache.Service.{Protobuf, ServiceSpec}
use grcache.Store.{ServiceData, ◌>>=◌}
use grcache.Dns.{Backend}
use grcache.DescriptorSet.{Sources}
use grcache.Proxy.Peers.{services_at, lookup-services_at, entry_found}
use grcache.TestUtil.{TestHandle, BackendsTest, ProxyTest, new_test, add_entry, set_backends}
use grcache.TestUtil.Handles.{Sound, set, lookup-set_backends}

-- The round robin balancer of a handle, by what its last update has discovered.
abbrev pub balancer : Map ℕ TestHandle → ℕ → Option (List Backend)
balancer handles i = do h ← lookup i handles; some h.load_balancer_round_robin

balancer_found :
    (handles : Map ℕ TestHandle) (i : ℕ) (h : TestHandle)
    → lookup i handles ≡ some h
    → balancer handles i ≡ some h.load_balancer_round_robin
balancer_found handles i h e = rw (e, balancer) refl

module _ (p : Protobuf) (c : Sources) where
  abbrev pub services_of : ProxyTest p c → Map Text (ServiceData (ServiceSpec p) (List Backend))
  services_of t = services_at (balancer t.handles) t.services

  -- The handle of a service that was added, before and after its backends are set.
  new_there :
      (name : Text) (spec : ServiceSpec p) (t : ProxyTest p c)
      → lookup t.created (add_entry p c name spec t).0.handles ≡ some new_test
  new_there name spec t = rw (lookup-insert, eq_refl t.created) refl

  abbrev pub with_backends : Text → ServiceSpec p → List Backend → ProxyTest p c → ProxyTest p c
  with_backends name spec l t = let (u, b) = add_entry p c name spec t in set_backends p c b l u

  lookup-with_backends :
      (name : Text) (spec : ServiceSpec p) (l : List Backend) (t : ProxyTest p c) (j : ℕ)
      → lookup j (with_backends name spec l t).handles
        ≡ (if t.created == j then some (set l new_test) else lookup j t.handles)
  lookup-with_backends name spec l t j = elim (eq_cases t.created j) [
    | inl (q, _) ↦
        lookup-set_backends p c _ l (add_entry p c name spec t).0 new_test j (new_there name spec t)
        ∙ rw q refl
    | inr (q, _) ↦
        lookup-set_backends p c _ l (add_entry p c name spec t).0 new_test j (new_there name spec t)
        ∙ rw (q, lookup-insert, q) refl
  ]

  services-set_backends :
      (b : BackendsTest) (l : List Backend) (t : ProxyTest p c)
      → (set_backends p c b l t).services ≡ t.services
  unfolding set_backends
  services-set_backends b l t = refl

  pub entry-own :
      (name : Text) (spec : ServiceSpec p) (l : List Backend) (t : ProxyTest p c)
      → lookup name (services_of (with_backends name spec l t))
        ≡ some (record { generation = 10; service_spec = some spec; load_balancer = some l })
  entry-own name spec l t =
      entry_found (balancer (with_backends name spec l t).handles) name
        (with_backends name spec l t).services
        (record { generation = 10; service_spec = some spec; load_balancer = some t.created })
        (some l)
        (ap (lookup name) (services-set_backends _ l _) ∙ rw (lookup-insert, eq_refl name) refl)
        (balancer_found (with_backends name spec l t).handles t.created (set l new_test)
          (lookup-with_backends name spec l t t.created ∙ rw (eq_refl t.created) refl))

  pub entry-added :
      (name : Text) (spec : ServiceSpec p) (t : ProxyTest p c)
      → lookup name (services_of (add_entry p c name spec t).0)
        ≡ some (record { generation = 10; service_spec = some spec; load_balancer = some [] })
  entry-added name spec t =
      entry_found (balancer (add_entry p c name spec t).0.handles) name
        (add_entry p c name spec t).0.services
        (record { generation = 10; service_spec = some spec; load_balancer = some t.created })
        (some []) (rw (lookup-insert, eq_refl name) refl)
        (balancer_found (add_entry p c name spec t).0.handles t.created new_test
          (new_there name spec t))

  -- The balancers of the services that were there are as they were.
  pub entry-with_backends :
      (name other : Text) (spec : ServiceSpec p) (l : List Backend) (t : ProxyTest p c)
      → Sound p c t
      → name ≢ other
      → lookup other (services_of (with_backends name spec l t)) ≡ lookup other (services_of t)
  entry-with_backends name other spec l t (numbered, handled, separate) apart =
      let u = with_backends name spec l t in
      let differ : (name == other) ≡ false = ground (arith, eq_iff name other) in
      let same : lookup other u.services ≡ lookup other t.services =
        ap (lookup other) (services-set_backends _ l _) ∙ rw (lookup-insert, differ) refl in
      elim (Option-cases (lookup other t.services)) [
        | inl n ↦
            lookup-services_at (balancer u.handles) other u.services
            ∙ rw (same, n) refl
            ∙ sym (lookup-services_at (balancer t.handles) other t.services)
        | inr (x, n) ↦
            let (i, h, at, held) = handled other x n in
            let (below, _) = numbered i h held in
            let older : (t.created == i) ≡ false = ground (arith, eq_iff t.created i) in
            let still : lookup i u.handles ≡ some h =
              lookup-with_backends name spec l t i ∙ rw older held in
            entry_found (balancer u.handles) other u.services x (some h.load_balancer_round_robin)
              (same ∙ n)
              (ap (λ lb. lb >>= balancer u.handles) at ∙ balancer_found u.handles i h still)
            ∙ sym (
                entry_found (balancer t.handles) other t.services x
                  (some h.load_balancer_round_robin) n
                  (ap (λ lb. lb >>= balancer t.handles) at ∙ balancer_found t.handles i h held))
      ]
