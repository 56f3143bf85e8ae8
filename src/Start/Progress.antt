-- ===== src/Start/Progress.antt =====
-- How the process of grcache-proxy/src/main.rs becomes ready.
use grcache.Prelude.{nat_eq, ◌≡◌, true, Option, arith}
use grcache.Crd.{ObjectRef, GrcacheService}
use grcache.Service.{QualifiedService}
use grcache.Health
use grcache.Dns
use grcache.Prelude.{Option, arith}
use grcache.Dns.{host_port_eq}
use grcache.Dns.Invariant as DnsInvariant
use grcache.Start.Owned.{Owned}
use grcache.Dns.Step as DnsStep
use grcache.ResourceChange.{ResourceChange}
use grcache.Start.{System, Steps}

module _ {Spec Metadata : Type 0} (E : Type 0) (build_passthrough : QualifiedService → Spec)
    (from_obj : GrcacheService Metadata → ObjectRef) where
  -- Steps lead on to a state in which readiness is signalled.
  abbrev pub Becomes : System Spec Metadata → Type 0
  Becomes s =
      (u : System Spec Metadata) × Steps E build_passthrough from_obj s u × (u.health.ready ≡ true)

  with_discovery : System Spec Metadata → Dns.State → System Spec Metadata
  with_discovery t dns = record t { loader = record t.loader { dns_service = dns } }
