-- ===== src/Start/Rounds.antt =====
-- What a round of the loader of grcache-proxy/src/service_store.rs does to the discovery, and which
-- handles of it the loader holds after.
use Prim.Native.Nat.{◌≤◌}
use grcache.Prelude.{
  ℕ, ◌+◌, ◌≡◌, refl, Bool, true, Option, none, some, [], ◌∷◌, Text, text_eq, arith,
}
use grcache.Prelude.Map.{insert}
use grcache.Crd.{Upstream, DescriptorSetSource, ObjectRef, GrcacheService}
use grcache.Service.{QualifiedService}
use grcache.ResourceChange.{ResourceChange, Item}
use grcache.Dns.{dns_discovery, backends_for_hostname, strong_count}
use grcache.Dns.Step.{Steps, here, next, call}
use grcache.Dns.Invariant.{Inv}
use grcache.Dns.Owners.{strong_count-call, loops-call}
use grcache.Store
use grcache.Store.{
  handle_change, publish, discover, usize_succ, unloaded_data, passthrough_data, ServiceData, Task,
  update_service_if_newer,
}
use grcache.Start.Owners.{
  entries_own, tasks_own, tasks_own-append, entries_own-insert, entries_own-update_service_if_newer,
}
use grcache.Start.Kept.{View, view, handle_change-keeps}

-- How many entries and tasks hold a handle.
abbrev pub loader_owns : {Spec : Type 0} → ℕ → View Spec → ℕ
loader_owns id (dns, services, tasks) = entries_own id services + tasks_own id tasks

-- What the loader holds more after, the handle has more owners; the loops are left alone.
pub record Owes {Spec : Type 0} (v w : View Spec) : Type 0 where
  pub loops : w.0.loops ≡ v.0.loops
  pub paid :
      Inv v.0
      → (id : ℕ) → loader_owns id w + strong_count id v.0 ≤ loader_owns id v + strong_count id w.0

module _ {Spec Metadata : Type 0} (build_passthrough : QualifiedService → Spec)
    (from_obj : GrcacheService Metadata → ObjectRef) where
  abbrev Loader : Type 0
  Loader = Store.State dns_discovery Spec Metadata

  discover-Steps :
      (source : Option DescriptorSetSource) (name : Text) (service : QualifiedService)
      (upstream : Upstream) (s : Loader)
      → let found = discover dns_discovery build_passthrough from_obj upstream s.dns_service in
        Steps s.dns_service
          (publish dns_discovery build_passthrough from_obj source name service s.spec_generation
            found.1
            (record s {
              spec_generation = usize_succ s.spec_generation;
              dns_service = found.0;
            })).dns_service
  unfolding discover publish
  discover-Steps none name service (Upstream.dns url port) s = next here (call url port)
  discover-Steps (some source) name service (Upstream.dns url port) s = next here (call url port)

  pub handle_change-Steps :
      {E : Type 0} (item : Item (ResourceChange (GrcacheService Metadata) ObjectRef) E) (s : Loader)
      {t : Loader} (is_ready : Bool) {still : Bool}
      → handle_change dns_discovery build_passthrough from_obj item (s, is_ready) ≡ some (t, still)
      → Steps s.dns_service t.dns_service × (is_ready ≡ true → still ≡ true)
  handle_change-Steps =
      handle_change-keeps build_passthrough from_obj (λ v w. Steps v.0 w.0) (λ v. here)
        (λ name s. here) discover-Steps

  kept-Owes : (v : View Spec) → Owes v v
  kept-Owes v = record { loops = refl; paid = λ inv id. omega arith }

  unloads-Owes :
      (name : Text) (s : Loader)
      → Owes (view s) (
        s.dns_service,
        insert name
            (unloaded_data dns_discovery build_passthrough from_obj s.spec_generation)
            s.services,
        s.tasks,
      )
  unloads-Owes name s = record {
    loops = refl;
    paid = λ inv id. omega (
      arith,
      entries_own-insert id name
          (unloaded_data dns_discovery build_passthrough from_obj s.spec_generation) s.services,
    );
  }

  publishes-Owes :
      (source : Option DescriptorSetSource) (name : Text) (service : QualifiedService)
      (upstream : Upstream) (s : Loader)
      → let found = discover dns_discovery build_passthrough from_obj upstream s.dns_service in
        Owes (view s) (
          view (
            publish dns_discovery build_passthrough from_obj source name service s.spec_generation
              found.1
              (record s { spec_generation = usize_succ s.spec_generation; dns_service = found.0 })))
  unfolding discover publish
  publishes-Owes none name service (Upstream.dns url port) s = record {
    loops = loops-call url port s.dns_service;
    paid = λ inv id. omega (
      arith,
      strong_count-call id url port inv,
      entries_own-update_service_if_newer id name
          (passthrough_data dns_discovery build_passthrough from_obj s.spec_generation service
            (backends_for_hostname url port s.dns_service).1)
          s.services,
    );
  }
  publishes-Owes (some source) name service (Upstream.dns url port) s =
      let task : Task ℕ = record {
        source = source;
        service_name = name;
        service = service;
        generation = s.spec_generation;
        load_balancer = (backends_for_hostname url port s.dns_service).1;
      } in
      record {
        loops = loops-call url port s.dns_service;
        paid = λ inv id.
            omega
              (arith, strong_count-call id url port inv, tasks_own-append id s.tasks (task ∷ []));
      }

  pub handle_change-Owes :
      {E : Type 0} (item : Item (ResourceChange (GrcacheService Metadata) ObjectRef) E) (s : Loader)
      {t : Loader} (is_ready : Bool) {still : Bool}
      → handle_change dns_discovery build_passthrough from_obj item (s, is_ready) ≡ some (t, still)
      → Owes (view s) (view t) × (is_ready ≡ true → still ≡ true)
  handle_change-Owes =
      handle_change-keeps build_passthrough from_obj Owes kept-Owes unloads-Owes publishes-Owes
