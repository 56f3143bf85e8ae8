-- ===== src/TestUtil.antt =====
-- grcache-proxy/src/test_util/mod.rs and proxy.rs, with `new_test` of grcache-proxy/src/discovery/mod.rs:
-- a proxy whose services and backends a test sets. Handles are numbered in the order of their
-- creation. `none` is a panic of an `unwrap`.
pub mod Handles
pub mod Routes
pub mod Passing
pub mod Client
pub mod Frame
pub mod MockServer
pub mod Expectations
pub mod MockStorage
use grcache.Prelude.{
  ℕ, ◌+◌, ◌≡◌, Bool, true, Option, none, some, List, [], ◌∷◌, Text, text_eq, nat_eq,
}
use grcache.Prelude.Map.{Map, lookup, insert}
use grcache.Crd.{DescriptorSetSource}
use grcache.Service.{Protobuf, ServiceSpec, parse, build, build_passthrough}
use grcache.Store.{ServiceData, ◌>>=◌}
use grcache.Dns.{Backend}
use grcache.DescriptorSet.{Sources, from_source, dummy_panic_context, unwrap}

-- `ServiceBackendsHandle`, as Dns has it, without the count of its owners.
pub record TestHandle : Type 0 where
  pub backends : List Backend
  pub load_balancer_round_robin : List Backend
  pub load_balancer_consistent : List Backend
  pub ready : Bool

-- `ServiceBackendsHandle::new_test`
abbrev pub new_test : TestHandle
new_test = record {
  backends = [];
  load_balancer_round_robin = [];
  load_balancer_consistent = [];
  ready = true;
}

-- The number of the handle, whose watch the sender feeds.
pub record BackendsTest : Type 0 where
  pub handle : ℕ

-- `send`, and `update` of each load balancer, which discovers what the watch holds.
abbrev pub send : List Backend → TestHandle → TestHandle
send l h = record h { backends = l }

abbrev pub update_consistent : TestHandle → TestHandle
update_consistent h = record h { load_balancer_consistent = h.backends }

abbrev pub update_round_robin : TestHandle → TestHandle
update_round_robin h = record h { load_balancer_round_robin = h.backends }

unfoldable pub on_handle : ℕ → (TestHandle → TestHandle) → Map ℕ TestHandle → Map ℕ TestHandle
on_handle i f handles = elim (lookup i handles) [ some h ↦ insert i (f h) handles | none ↦ handles ]

module _ (p : Protobuf) (c : Sources) where
  -- The services of the proxy, and the handles that were created. The listener and the task of the
  -- server are left out.
  pub record ProxyTest : Type 0 where
    pub services : Map Text (ServiceData (ServiceSpec p) ℕ)
    pub handles : Map ℕ TestHandle
    pub created : ℕ

  -- `ProxyTest::new`, with the empty map of `proxy_server`
  abbrev pub new : ProxyTest
  new = record { services = []; handles = []; created = 0 }

  -- The end of `add_service_passthrough` and of `add_service`.
  abbrev pub add_entry : Text → ServiceSpec p → ProxyTest → ProxyTest × BackendsTest
  add_entry service_name spec t = (
    record {
      services =
          insert service_name
            (record { generation = 10; service_spec = some spec; load_balancer = some t.created })
            t.services;
      handles = insert t.created new_test t.handles;
      created = t.created + 1;
    },
    record { handle = t.created },
  )

  unfoldable pub add_service_passthrough : Text → ProxyTest → Option (ProxyTest × BackendsTest)
  add_service_passthrough service_name t = do
    name ← unwrap p c (parse service_name)
    some (add_entry service_name (build_passthrough p name) t)

  unfoldable pub add_service : Text → Text → ProxyTest → Option (ProxyTest × BackendsTest)
  add_service service_name descriptor_set_path t = do
    loaded ←
        from_source p c (dummy_panic_context p c) (DescriptorSetSource.file descriptor_set_path)
    descriptor_set ← unwrap p c loaded
    name ← unwrap p c (parse service_name)
    built ← unwrap p c (build p descriptor_set name)
    some (add_entry service_name built.0 t)

  unfoldable pub set_backends : BackendsTest → List Backend → ProxyTest → ProxyTest
  set_backends b backends t = record t {
    handles =
        on_handle b.handle (λ h. update_round_robin (update_consistent (send backends h)))
          t.handles;
  }

  -- `set_single_backend_addr`, of an address and a port
  abbrev pub set_single_backend_addr : BackendsTest → ℕ → ℕ → ProxyTest → ProxyTest
  set_single_backend_addr b addr port =
      set_backends b (record { addr = addr; port = port; weight = 1 } ∷ [])

  -- What a test does to the proxy.
  pub data Step : ProxyTest → ProxyTest → Type 0 where
    passthrough :
        (service_name : Text) (t : ProxyTest) (r : ProxyTest × BackendsTest)
        → add_service_passthrough service_name t ≡ some r
        → Step t r.0
    full :
        (service_name descriptor_set_path : Text) (t : ProxyTest) (r : ProxyTest × BackendsTest)
        → add_service service_name descriptor_set_path t ≡ some r
        → Step t r.0
    backends : (b : BackendsTest) (l : List Backend) (t : ProxyTest) → Step t (set_backends b l t)

  pub data Steps : ProxyTest → ProxyTest → Type 0 where
    done : (t : ProxyTest) → Steps t t
    next : (t u w : ProxyTest) → Steps t u → Step u w → Steps t w
