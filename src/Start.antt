-- ===== src/Start.antt =====
-- grcache-proxy/src/main.rs: the start of the process, and its services at work together: the
-- discovery, the loader, the readiness task of the redis cache and the health check.
pub mod Owners
pub mod Count
pub mod Kept
pub mod Rounds
pub mod Ready
pub mod Owned
pub mod Progress
pub mod Requests
use grcache.Prelude.{
  ℕ, ◌+◌, ◌++◌, List, ◌∷◌, ◌<◌, ◌≡◌, Bool, true, false, not, Option, none, some, Text,
  if◌then◌else◌, nat_eq,
}
use grcache.Prelude.Map.{lookup}
use grcache.Crd.{ObjectRef, GrcacheService}
use grcache.Service.{QualifiedService}
use grcache.ResourceChange.{ResourceChange, Item}
use grcache.Config.{ConfigFile, CacheBackend}
use grcache.Health
use grcache.Dns
use grcache.Dns.{dns_discovery, backends_for_hostname, ready_of, strong_count}
use grcache.Dns.Owners.{loops_own}
use grcache.Start.Owners.{entries_own, tasks_own, is_held}
use grcache.Dns.Step as DnsStep
use grcache.Store.{◌>>=◌, initial, handle_change, finish_task, Task}
use grcache.Store

pub data Commands : Type 0 where
  proxy : Commands

pub record Args : Type 0 where
  pub config : Text
  pub command : Commands

-- `assert!`
abbrev assert : Bool → Option Bool
assert b = if b then some b else none

-- What the services share: the health check, whose endpoints are those of the cache, of the loader and
-- of the root, in this order; the loader with the discovery that it uses; whether the loader has caught
-- up, and whether it has ended; and the handle of the cache.
pub record System (Spec Metadata : Type 0) : Type 0 where
  pub health : Health.State
  pub loader : Store.State dns_discovery Spec Metadata
  pub is_ready : Bool
  pub ended : Bool
  pub redis_discovery : ℕ

-- The `ready` watch of the handle that the cache holds.
abbrev pub cache_ready : {Spec Metadata : Type 0} → System Spec Metadata → Bool
cache_ready s = ready_of s.redis_discovery s.loader.dns_service

-- How many entries, tasks and loops hold a handle, and the cache, each for as long as it is there.
abbrev pub holders : {Spec Metadata : Type 0} → ℕ → System Spec Metadata → ℕ
holders id s =
    entries_own id s.loader.services
    + tasks_own id s.loader.tasks
    + loops_own id s.loader.dns_service
    + is_held id s.redis_discovery

-- An owner that drops its handle is another one, such as a request or an entry that was replaced.
abbrev pub Permits :
    {Spec Metadata : Type 0} (s : System Spec Metadata) {dns : Dns.State}
    → DnsStep.Step s.loader.dns_service dns
    → Type 0
Permits s (DnsStep.release id live) = holders id s < strong_count id s.loader.dns_service
Permits s (DnsStep.call hostname port) = Unit
Permits s (DnsStep.copy id live) = Unit
Permits s DnsStep.accept = Unit
Permits s (DnsStep.turn r sender e) = Unit

abbrev pub on_health :
    {Spec Metadata : Type 0}
    → (Health.State → Health.State)
    → System Spec Metadata
    → System Spec Metadata
on_health f s = record s { health = f s.health }

-- `E` is the error of the watch.
module _ {Spec Metadata : Type 0} (E : Type 0) (build_passthrough : QualifiedService → Spec)
    (from_obj : GrcacheService Metadata → ObjectRef) where
  -- The `match` on the cache backend: the discovery and a handle of it, and the health check. The backend
  -- spawns its readiness task, and `tokio::spawn` panics outside the context of a runtime.
  unfoldable pub start_cache :
      Bool → CacheBackend → Dns.State → Health.State → Option ((Dns.State × ℕ) × Health.State)
  start_cache in_runtime (CacheBackend.redis_replicas hostname port) dns_discovery health = do
    _ ← assert in_runtime
    some (backends_for_hostname hostname port dns_discovery, Health.add true health)

  -- `main`, from the arguments to `health_root.ready()`. `load_config` opens, reads and parses the
  -- file; `daemon` is the option of pingora; `in_runtime` is whether `main` is run in the context of a
  -- tokio runtime, which nothing in the repository provides.
  unfoldable pub main :
      (Text → Option ConfigFile) → Bool → Bool → Args → Option (System Spec Metadata)
  main load_config daemon in_runtime args = do
    config ← load_config args.config
    _ ← assert (not daemon)
    _ ← assert config.kubernetes.enable
    cache ← start_cache in_runtime config.cache_backend Dns.new (Health.add true Health.new)
    some (record {
      health = cache.1;
      loader = initial dns_discovery build_passthrough from_obj cache.0.0;
      is_ready = false;
      ended = false;
      redis_discovery = cache.0.1;
    })

  -- A step of any part of the process. The root endpoint calls `ready` at the end of `main`, the loader
  -- when it has caught up, the readiness task of the cache when its handle is ready. The loader may end:
  -- its client, its stream, or a change whose service name does not parse panics, before it has any
  -- effect on what is shared. That drops its endpoint, which calls `ready`; the endpoint of the cache is
  -- in the leaked backend, and never dropped. A task of the loader ends with the spec that it has built,
  -- or in a panic.
  pub data Step (s : System Spec Metadata) : System Spec Metadata → Type 0 where
    discover :
        {dns : Dns.State} (step : DnsStep.Step s.loader.dns_service dns)
        → Permits s step
        → Step s (record s { loader = record s.loader { dns_service = dns } })
    change :
        (running : s.ended ≡ false)
        (item : Item (ResourceChange (GrcacheService Metadata) ObjectRef) E)
        {loader : Store.State dns_discovery Spec Metadata} {is_ready : Bool}
        → handle_change dns_discovery build_passthrough from_obj item (s.loader, s.is_ready)
          ≡ some (loader, is_ready)
        → Step s (record s { loader = loader; is_ready = is_ready })
    finish :
        (before after : List (Task ℕ)) (task : Task ℕ) (spec : Option Spec)
        → s.loader.tasks ≡ before ++ task ∷ after
        → Step s (record s {
          loader = record s.loader {
            services = finish_task (task, spec) s.loader.services;
            tasks = before ++ after;
          };
        })
    root_ready : Step s (on_health (Health.swap 2) s)
    loader_ready : s.ended ≡ false → s.is_ready ≡ true → Step s (on_health (Health.swap 1) s)
    loader_ends : s.ended ≡ false → Step s (on_health (Health.swap 1) (record s { ended = true }))
    backends_ready : cache_ready s ≡ true → Step s (on_health (Health.swap 0) s)
    subtract : 0 < s.health.subtracting → Step s (on_health Health.fetch_sub s)
    signal : 0 < s.health.sending → Step s (on_health Health.send s)

  pub data Steps (s : System Spec Metadata) : System Spec Metadata → Type 0 where
    here : Steps s s
    next : {t u : System Spec Metadata} → Steps s t → Step t u → Steps s u
