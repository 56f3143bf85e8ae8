-- ===== src/Start/Ready.antt =====
-- When the process of grcache-proxy/src/main.rs is ready.
use mathlib.Core.Option.{some-injective}
use mathlib.Core.Path.{subst}
use grcache.Prelude.{
  length, ℕ, zero, suc, ◌<◌, ◌⊎◌, List, [], ◌∷◌, ◌≡◌, refl, sym, ◌∙◌, Bool, true, false, Option,
  none, some, Text, arith, Option-cases, Bool-cases, inl, inr, nat_beq,
}
use grcache.Prelude.Map.{lookup}
use grcache.Crd.{ObjectRef, GrcacheService}
use grcache.Service.{QualifiedService}
use grcache.Config.{ConfigFile, CacheBackend}
use grcache.Health
use grcache.Health.{flag, clear, swap, fetch_sub, send, add}
use grcache.Health.Invariant.{blocking, length-clear}
use grcache.Dns
use grcache.Dns.{dns_discovery, backends_for_hostname, upgraded, create}
use grcache.Dns.Invariant as DnsInvariant
use grcache.Dns.Invariant.Moves.{Inv-new, Inv-backends_for_hostname}
use grcache.Dns.Runs as DnsRuns
use grcache.Dns.Kept.{Keeps-Step, Keeps-Steps}
use grcache.Store
use grcache.Store.{◌>>=◌}
use grcache.Start.{
  System, Args, cache_ready, start_cache, main, Step, discover, change, finish, root_ready,
  loader_ready, loader_ends, backends_ready, subtract, signal, Steps, here, next,
}
use grcache.Start.Count.{
  Counts, Counts-swap, Counts-fetch_sub, Counts-send, flag-clear_other, flag_of_blocking,
}
use grcache.Start.Rounds.{handle_change-Steps}

-- Three endpoints, and no more.
abbrev pub Three : Health.State → Type 0
Three h = length h.can_indicate_ready ≡ 3

swap-Three : (h : Health.State) (i : ℕ) → Three h → Three (swap i h)
unfolding swap
swap-Three h i three = elim (Bool-cases (flag h.can_indicate_ready i)) [
  | inl e ↦ rw (e, swap) (length-clear h.can_indicate_ready i ∙ three)
  | inr e ↦ rw (e, swap) three
]

-- A call of `ready` clears its own flag at most.
pub swap-flag :
    (h : Health.State) (i j : ℕ)
    → nat_beq i j ≡ false
    → flag (swap i h).can_indicate_ready j ≡ flag h.can_indicate_ready j
unfolding swap
swap-flag h i j other = elim (Bool-cases (flag h.can_indicate_ready i)) [
  | inl e ↦ rw (e, swap) (flag-clear_other h.can_indicate_ready i j other)
  | inr e ↦ rw (e, swap) refl
]

-- It does clear its own.
swap-called : (h : Health.State) (i : ℕ) → flag (swap i h).can_indicate_ready i ≡ false
unfolding swap
swap-called h i = elim (Bool-cases (flag h.can_indicate_ready i)) [
  | inl e ↦ rw (e, swap) (flag-clear_same h.can_indicate_ready i)
  | inr e ↦ rw (e, swap) e
]
  where
    flag-clear_same : (bs : List Bool) (i : ℕ) → flag (clear bs i) i ≡ false
    flag-clear_same [] i = refl
    flag-clear_same (b ∷ bs) zero = refl
    flag-clear_same (b ∷ bs) (suc i) = flag-clear_same bs i

module _ {Spec Metadata : Type 0} where
  -- The loader has caught up, or has ended.
  abbrev pub IsSettled : System Spec Metadata → Type 0
  IsSettled s = (s.is_ready ≡ true) ⊎ (s.ended ≡ true)

  -- The count is right, the handle of the cache exists, and no endpoint has called `ready` too early.
  pub record Inv (s : System Spec Metadata) : Type 0 where
    pub counts : Counts s.health
    pub three : Three s.health
    pub discovery : DnsInvariant.Inv s.loader.dns_service
    known : s.redis_discovery < s.loader.dns_service.next
    loader_waits : flag s.health.can_indicate_ready 1 ≡ false → IsSettled s
    pub ended_called : s.ended ≡ true → flag s.health.can_indicate_ready 1 ≡ false
    cache_waits : flag s.health.can_indicate_ready 0 ≡ false → cache_ready s ≡ true

  module _ (E : Type 0) (build_passthrough : QualifiedService → Spec)
      (from_obj : GrcacheService Metadata → ObjectRef) where
    Inv-Step : {s t : System Spec Metadata} → Inv s → Step E build_passthrough from_obj s t → Inv t
    unfolding fetch_sub send
    Inv-Step {s = s} inv (discover step allowed) =
        let k = Keeps-Step step in
        record {
          counts = inv.counts;
          three = inv.three;
          discovery = DnsRuns.Inv-Step inv.discovery step;
          known = omega (arith, inv.known, k.grows);
          loader_waits = inv.loader_waits;
          ended_called = inv.ended_called;
          cache_waits = λ e. k.stays_ready s.redis_discovery inv.known (inv.cache_waits e);
        }
    Inv-Step {s = s} inv (change running item e) =
        let (steps, still) =
          handle_change-Steps build_passthrough from_obj item s.loader s.is_ready e in
        let k = Keeps-Steps steps in
        record {
          counts = inv.counts;
          three = inv.three;
          discovery = DnsRuns.Inv-Steps inv.discovery steps;
          known = omega (arith, inv.known, k.grows);
          loader_waits = λ f. elim (inv.loader_waits f) [
            | inl caught_up ↦ inl (still caught_up)
            | inr ended ↦ inr ended
          ];
          ended_called = inv.ended_called;
          cache_waits = λ f. k.stays_ready s.redis_discovery inv.known (inv.cache_waits f);
        }
    Inv-Step inv (finish before after task spec e) = record {
      counts = inv.counts;
      three = inv.three;
      discovery = inv.discovery;
      known = inv.known;
      loader_waits = inv.loader_waits;
      ended_called = inv.ended_called;
      cache_waits = inv.cache_waits;
    }
    Inv-Step {s = s} inv root_ready = record {
      counts = Counts-swap inv.counts 2;
      three = swap-Three s.health 2 inv.three;
      discovery = inv.discovery;
      known = inv.known;
      loader_waits = λ e. inv.loader_waits (sym (swap-flag s.health 2 1 refl) ∙ e);
      ended_called = λ e. swap-flag s.health 2 1 refl ∙ inv.ended_called e;
      cache_waits = λ e. inv.cache_waits (sym (swap-flag s.health 2 0 refl) ∙ e);
    }
    Inv-Step {s = s} inv (loader_ready running ready) = record {
      counts = Counts-swap inv.counts 1;
      three = swap-Three s.health 1 inv.three;
      discovery = inv.discovery;
      known = inv.known;
      loader_waits = λ e. inl ready;
      ended_called = λ e. swap-called s.health 1;
      cache_waits = λ e. inv.cache_waits (sym (swap-flag s.health 1 0 refl) ∙ e);
    }
    Inv-Step {s = s} inv (loader_ends running) = record {
      counts = Counts-swap inv.counts 1;
      three = swap-Three s.health 1 inv.three;
      discovery = inv.discovery;
      known = inv.known;
      loader_waits = λ e. inr refl;
      ended_called = λ e. swap-called s.health 1;
      cache_waits = λ e. inv.cache_waits (sym (swap-flag s.health 1 0 refl) ∙ e);
    }
    Inv-Step {s = s} inv (backends_ready ready) = record {
      counts = Counts-swap inv.counts 0;
      three = swap-Three s.health 0 inv.three;
      discovery = inv.discovery;
      known = inv.known;
      loader_waits = λ e. inv.loader_waits (sym (swap-flag s.health 0 1 refl) ∙ e);
      ended_called = λ e. swap-flag s.health 0 1 refl ∙ inv.ended_called e;
      cache_waits = λ e. ready;
    }
    Inv-Step inv (subtract pos) = record {
      counts = Counts-fetch_sub inv.counts pos;
      three = inv.three;
      discovery = inv.discovery;
      known = inv.known;
      loader_waits = inv.loader_waits;
      ended_called = inv.ended_called;
      cache_waits = inv.cache_waits;
    }
    Inv-Step inv (signal pos) = record {
      counts = Counts-send inv.counts pos;
      three = inv.three;
      discovery = inv.discovery;
      known = inv.known;
      loader_waits = inv.loader_waits;
      ended_called = inv.ended_called;
      cache_waits = inv.cache_waits;
    }

    pub Inv-Steps :
        {s t : System Spec Metadata} → Inv s → Steps E build_passthrough from_obj s t → Inv t
    Inv-Steps inv here = inv
    Inv-Steps inv (next run step) = Inv-Step (Inv-Steps inv run) step

    -- The state in which the services start.
    abbrev pub started : CacheBackend → System Spec Metadata
    started (CacheBackend.redis_replicas hostname port) =
        let (dns, redis_discovery) = backends_for_hostname hostname port Dns.new in
        record {
          health = add true (add true Health.new);
          loader = Store.initial dns_discovery build_passthrough from_obj dns;
          is_ready = false;
          ended = false;
          redis_discovery = redis_discovery;
        }

    -- The end of `main`, with the services that it has set up.
    launch : CacheBackend → Bool → Option (System Spec Metadata)
    launch cache_backend in_runtime = do
      cache ←
          start_cache E build_passthrough from_obj in_runtime cache_backend Dns.new
            (add true Health.new)
      some (record {
        health = cache.1;
        loader = Store.initial dns_discovery build_passthrough from_obj cache.0.0;
        is_ready = false;
        ended = false;
        redis_discovery = cache.0.1;
      })

    launched :
        (cache_backend : CacheBackend) (in_runtime : Bool) {s : System Spec Metadata}
        → launch cache_backend in_runtime ≡ some s
        → (in_runtime ≡ true) × (started cache_backend ≡ s)
    unfolding launch start_cache
    launched (CacheBackend.redis_replicas hostname port) true e = (refl, some-injective _ _ e)
    launched (CacheBackend.redis_replicas hostname port) false e = absurd (ground arith)

    pub main-started :
        (load_config : Text → Option ConfigFile) (daemon in_runtime : Bool) (args : Args)
        {s : System Spec Metadata}
        → main E build_passthrough from_obj load_config daemon in_runtime args ≡ some s
        → (in_runtime ≡ true) × (cache_backend : CacheBackend) × (started cache_backend ≡ s)
    unfolding main launch
    main-started load_config daemon in_runtime args {s = s} e =
        elim (Option-cases (load_config args.config)) [
          | inl n ↦ let stuck : none ≡ some s = rw (n, main) at e in absurd (cc)
          | inr (config, l) ↦ elim (Bool-cases daemon) [
            | inl d ↦ let stuck : none ≡ some s = rw (l, d, main) at e in absurd (cc)
            | inr d ↦ elim (Bool-cases config.kubernetes.enable) [
              | inr k ↦ let stuck : none ≡ some s = rw (l, d, k, main) at e in absurd (cc)
              | inl k ↦
                  let (runs, same) =
                    launched config.cache_backend in_runtime (rw (l, d, k, main) at e) in
                  (runs, config.cache_backend, same)
            ]
          ]
        ]

    Inv-started : (cache_backend : CacheBackend) → Inv (started cache_backend)
    unfolding start_cache add backends_for_hostname upgraded create lookup
    Inv-started (CacheBackend.redis_replicas hostname port) = record {
      counts = record {
        counted = omega arith;
        few = omega arith;
        early = λ h. absurd (ground arith);
        pending = λ h. absurd (omega (arith, h));
        late = λ h. absurd (omega (arith, h));
      };
      three = refl;
      discovery = Inv-backends_for_hostname Inv-new hostname port;
      known = omega arith;
      loader_waits = λ h. absurd (ground arith);
      ended_called = λ h. absurd (ground arith);
      cache_waits = λ h. absurd (ground arith);
    }

    pub Inv-main :
        (load_config : Text → Option ConfigFile) (daemon in_runtime : Bool) (args : Args)
        {s : System Spec Metadata}
        → main E build_passthrough from_obj load_config daemon in_runtime args ≡ some s
        → Inv s
    Inv-main load_config daemon in_runtime args e =
        let (_, cache_backend, same) = main-started load_config daemon in_runtime args e in
        subst Inv same (Inv-started cache_backend)

    -- `main` starts the process only in the context of a tokio runtime. Then, whatever its services do
    -- from there: once readiness is signalled, the root endpoint has called `ready`, the loader has caught
    -- up with the watch, or it has ended, which drops its endpoint, and the discovery of the cache
    -- backends is ready.
    pub ready-Steps :
        (load_config : Text → Option ConfigFile) (daemon in_runtime : Bool) (args : Args)
        {s t : System Spec Metadata}
        → main E build_passthrough from_obj load_config daemon in_runtime args ≡ some s
        → Steps E build_passthrough from_obj s t
        → t.health.ready ≡ true
        → (in_runtime ≡ true)
          × (flag t.health.can_indicate_ready 2 ≡ false)
          × ((t.is_ready ≡ true) ⊎ (t.ended ≡ true))
          × (cache_ready t ≡ true)
    ready-Steps load_config daemon in_runtime args {t = t} started run ready =
        let inv = Inv-Steps (Inv-main load_config daemon in_runtime args started) run in
        let all_called : blocking t.health.can_indicate_ready ≡ 0 =
          omega (arith, inv.counts.counted, inv.counts.early ready) in
        (
          (main-started load_config daemon in_runtime args started).0,
          flag_of_blocking t.health.can_indicate_ready 2 all_called,
          inv.loader_waits (flag_of_blocking t.health.can_indicate_ready 1 all_called),
          inv.cache_waits (flag_of_blocking t.health.can_indicate_ready 0 all_called),
        )
