-- ===== src/Start/Owned.antt =====
-- Who holds the handles of the discovery in the process of grcache-proxy/src/main.rs.
use mathlib.Core.Path.{subst}
use Prim.Native.Nat.{◌≤◌}
use grcache.Prelude.{
  ℕ, ◌<◌, ◌≡◌, refl, ap, ◌∙◌, Bool, true, Option, some, List, ◌∷◌, ◌++◌, Text, text_eq, arith,
  nat_eq, nat_beq, nat_beq_iff, inl, inr, Bool-cases,
}
use grcache.Prelude.Map.{lookup, insert, total, weight_of, weight_of-lookup}
use grcache.Start.Kept.{view}
use grcache.Crd.{ObjectRef, GrcacheService}
use grcache.Service.{QualifiedService}
use grcache.Config.{ConfigFile, CacheBackend}
use grcache.Dns
use grcache.Dns.{
  strong_count, is_live, Handle, HostPort, host_port_eq, dns_discovery, backends_for_hostname,
  upgraded, create, on_handle, drop,
}
use grcache.Dns.Invariant as DnsInvariant
use grcache.Dns.Cells.{is_live-eq_true}
use grcache.Dns.Invariant.{Fed, Balanced}
use grcache.Dns.Step as DnsStep
use grcache.Dns.Owners.{
  loop_owns, loops_own, Pays, Pays-call, Pays-copy, Pays-receive, Pays-advance, strong_count-drop,
}
use grcache.Store
use grcache.Store.{ServiceData, Task, finish_task}
use grcache.Start.{
  System, Args, holders, Permits, main, start_cache, Step, discover, change, finish, root_ready,
  loader_ready, loader_ends, backends_ready, subtract, signal, Steps, here, next,
}
use grcache.Start.Owners.{
  held_by, entry_owns, entries_own, tasks_own, tasks_own-append, entries_own-finish_task,
}
use grcache.Start.Rounds.{Owes, handle_change-Owes}
use grcache.Start.Ready.{Inv, Inv-main, Inv-Steps, started, main-started}

-- No handle is held more often than it has owners.
unfoldable pub Owned : {Spec Metadata : Type 0} → System Spec Metadata → Type 0
Owned s = (id : ℕ) → holders id s ≤ strong_count id s.loader.dns_service

module _ {Spec Metadata : Type 0} where
  Owned-Pays :
      (s : System Spec Metadata) (dns : Dns.State)
      → Pays s.loader.dns_service dns
      → Owned s
      → Owned (record s { loader = record s.loader { dns_service = dns } })
  unfolding Owned Pays
  Owned-Pays s dns pays owned id = omega (arith, pays id, owned id)

  Owned-release :
      (s : System Spec Metadata) (j : ℕ)
      → holders j s < strong_count j s.loader.dns_service
      → Owned s
      → Owned (record s {
        loader = record s.loader { dns_service = on_handle j drop s.loader.dns_service };
      })
  unfolding Owned
  Owned-release s j other owned id =
      let kept : loops_own id (on_handle j drop s.loader.dns_service)
          ≡ loops_own id s.loader.dns_service =
        unfold loops_own in refl in
      let dropped = strong_count-drop id j s.loader.dns_service in
      elim (Bool-cases (nat_beq j id)) [
        | inr apart ↦ ground (arith, dropped, owned id, kept)
        | inl same ↦ let q = (nat_beq_iff j id).0 same in ground (arith, dropped, other, kept)
      ]

  Owned-discover :
      (s : System Spec Metadata) {dns : Dns.State} (step : DnsStep.Step s.loader.dns_service dns)
      → Permits s step
      → DnsInvariant.Inv s.loader.dns_service
      → Owned s
      → Owned (record s { loader = record s.loader { dns_service = dns } })
  Owned-discover s (DnsStep.call hostname port) allowed inv owned =
      Owned-Pays s _ (Pays-call hostname port inv) owned
  Owned-discover s (DnsStep.copy id live) allowed inv owned =
      Owned-Pays s _ (Pays-copy id s.loader.dns_service live) owned
  Owned-discover s (DnsStep.release id live) allowed inv owned = Owned-release s id allowed owned
  Owned-discover s DnsStep.accept allowed inv owned =
      Owned-Pays s _ (Pays-receive s.loader.dns_service s.loader.dns_service.commands refl) owned
  Owned-discover s (DnsStep.turn r sender e) allowed inv owned =
      Owned-Pays s _ (Pays-advance r sender s.loader.dns_service e) owned

  Owned-change :
      (s : System Spec Metadata) (loader : Store.State dns_discovery Spec Metadata)
      (is_ready : Bool)
      → Owes (view s.loader) (view loader)
      → DnsInvariant.Inv s.loader.dns_service
      → Owned s
      → Owned (record s { loader = loader; is_ready = is_ready })
  unfolding Owned
  Owned-change s loader is_ready owes inv owned id =
      let kept : loops_own id loader.dns_service ≡ loops_own id s.loader.dns_service =
        unfold loops_own in ap (total (loop_owns id)) owes.loops in
      omega (arith, kept, owes.paid inv id, owned id)

  Owned-finish :
      (s : System Spec Metadata) (before after : List (Task ℕ)) (task : Task ℕ) (spec : Option Spec)
      → s.loader.tasks ≡ before ++ task ∷ after
      → Owned s
      → Owned (record s {
        loader = record s.loader {
          services = finish_task (task, spec) s.loader.services;
          tasks = before ++ after;
        };
      })
  unfolding Owned
  Owned-finish s before after task spec e owned id = omega (
    arith,
    owned id,
    ap (tasks_own id) e,
    tasks_own-append id before (task ∷ after),
    tasks_own-append id before after,
    entries_own-finish_task id task spec s.loader.services,
  )

  module _ (E : Type 0) (build_passthrough : QualifiedService → Spec)
      (from_obj : GrcacheService Metadata → ObjectRef) where
    Owned-Step :
        {s t : System Spec Metadata}
        → Inv s
        → Owned s
        → Step E build_passthrough from_obj s t
        → Owned t
    unfolding Owned
    Owned-Step {s = s} inv owned (discover step allowed) =
        Owned-discover s step allowed inv.discovery owned
    Owned-Step {s = s} inv owned (change running item {loader = loader} {is_ready = still} e) =
        Owned-change s loader still
          (handle_change-Owes build_passthrough from_obj item s.loader s.is_ready e).0 inv.discovery
          owned
    Owned-Step {s = s} inv owned (finish before after task spec e) =
        Owned-finish s before after task spec e owned
    Owned-Step inv owned root_ready = owned
    Owned-Step inv owned (loader_ready running ready) = owned
    Owned-Step inv owned (loader_ends running) = owned
    Owned-Step inv owned (backends_ready ready) = owned
    Owned-Step inv owned (subtract pos) = owned
    Owned-Step inv owned (signal pos) = owned

    Owned-started :
        (cache_backend : CacheBackend) → Owned (started E build_passthrough from_obj cache_backend)
    unfolding Owned start_cache backends_for_hostname upgraded create strong_count loops_own lookup
        insert
    Owned-started (CacheBackend.redis_replicas hostname port) id = ground arith

    pub Owned-Steps :
        (load_config : Text → Option ConfigFile) (daemon in_runtime : Bool) (args : Args)
        {s t : System Spec Metadata}
        → main E build_passthrough from_obj load_config daemon in_runtime args ≡ some s
        → Steps E build_passthrough from_obj s t
        → Owned t
    Owned-Steps load_config daemon in_runtime args e here =
        let (_, cache_backend, same) =
          main-started E build_passthrough from_obj load_config daemon in_runtime args e in
        subst Owned same (Owned-started cache_backend)
    Owned-Steps load_config daemon in_runtime args e (next run step) =
        Owned-Step
          (Inv-Steps E build_passthrough from_obj
            (Inv-main E build_passthrough from_obj load_config daemon in_runtime args e) run)
          (Owned-Steps load_config daemon in_runtime args e run) step

    -- If `main` starts the process, for which it must be run in the context of a tokio runtime, then in
    -- every state that its services reach: the handle of every
    -- published service has an owner, the map of the discovery has it for some host, and either the
    -- command for it waits in the queue or it has a loop for that host, which is about to read the map or
    -- watches that same handle; and the last updates of its load balancers have read the backends that
    -- were sent last, or its loop is on its way to update them.
    pub published-Fed :
        (load_config : Text → Option ConfigFile) (daemon in_runtime : Bool) (args : Args)
        {s t : System Spec Metadata} (name : Text) (entry : ServiceData Spec ℕ) (id : ℕ)
        → main E build_passthrough from_obj load_config daemon in_runtime args ≡ some s
        → Steps E build_passthrough from_obj s t
        → lookup name t.loader.services ≡ some entry
        → entry.load_balancer ≡ some id
        → (h : Handle) × (lookup id t.loader.dns_service.handles ≡ some h)
          × (0 < h.strong)
          × ((host_port : HostPort) × (lookup host_port t.loader.dns_service.service_backends
                ≡ some id)
              × Fed id host_port t.loader.dns_service)
          × Balanced id h t.loader.dns_service
    unfolding Owned
    published-Fed load_config daemon in_runtime args {t = t} name entry id e run found held =
        let inv =
          (Inv-Steps E build_passthrough from_obj
            (Inv-main E build_passthrough from_obj load_config daemon in_runtime args e)
            run).discovery in
        let once : 1 ≤ entries_own id t.loader.services =
          subst (λ n. n ≤ entries_own id t.loader.services)
            (ap (weight_of (entry_owns id)) found
              ∙ ap (held_by id) held
              ∙ (ground (arith, nat_beq_iff id id)))
            (weight_of-lookup (entry_owns id) name t.loader.services) in
        let owned = Owned-Steps load_config daemon in_runtime args e run id in
        let live : is_live id t.loader.dns_service ≡ true = ground (arith, once, owned) in
        let (h, stored, pos) = is_live-eq_true id t.loader.dns_service live in
        (h, stored, pos, inv.fed id live, inv.balanced id h stored pos)
