-- ===== src/Tests/Process.antt =====
-- A process with a redis host that becomes ready, and the theorems on its start at it.
use grcache.Prelude.{
  ℕ, ◌<◌, ◌≡◌, ◌⊎◌, refl, Bool, true, false, none, some, List, [], ◌∷◌, Text, arith, text_eq,
  nat_eq,
}
use grcache.Prelude.Map.{lookup, insert}
use grcache.Crd.{ObjectRef, GrcacheService}
use grcache.Service.{QualifiedService, ServiceSpec, build_passthrough}
use grcache.ResourceChange.{ResourceChange, Item}
use grcache.Config.{ConfigFile, CacheBackend}
use grcache.Health
use grcache.Health.{flag, swap, fetch_sub, send, add}
use grcache.Dns
use grcache.Dns.{
  dns_discovery, backends_for_hostname, upgraded, create, receive, failed, looking, checking,
  ready_of, strong_count,
}
use grcache.Dns.Step.{accept, turn}
use grcache.Store
use grcache.Store.{
  handle_change, apply_object, remove_noupdate, update_service, load_object, publish, add_ref,
  parsed, update_service_if_newer, ServiceData,
}
use grcache.Start.Owned.{published-Fed}
use grcache.Tests.Loader.{ref_a, object_at}
use grcache.Dns.Invariant.{Fed, Balanced}
use grcache.Prelude.Map.{remove}
use grcache.Service.{parse}
use grcache.Dns.{Handle, HostPort, host_port_eq, on_handle, clone}
use grcache.Start.{
  System, Args, Commands, cache_ready, main, start_cache, discover, change, root_ready,
  loader_ready, backends_ready, subtract, signal, Steps, here, next,
}
use grcache.Start.Ready.{ready-Steps}
use grcache.Tests.{headers, protobuf, name_a, dotted}
use grcache.Tests.Harness.{proxy, pick_first, pick_first-Selects, session_of, path_a}
use grcache.Proxy.Peers.{requested, IsRouted}
use grcache.Start.Requests.{services_of, published-IsRouted}
use grcache.Tests.Backends.{
  asked, answer, with_loop, balanced, starting_turn, answer_turn, upgrade_turn, update_turn,
  ready_turn,
}

abbrev config : ConfigFile
config = record {
  kubernetes = record { enable = true };
  cache_backend = CacheBackend.redis_replicas name_a 80;
  proxy = record { propagation_headers = [] };
  tracing = none;
}

abbrev args : Args
args = record { config = name_a; command = Commands.proxy }

-- The metadata of an object is its reference.
abbrev passthrough : QualifiedService → ServiceSpec protobuf
passthrough = build_passthrough protobuf

abbrev reference : GrcacheService ObjectRef → ObjectRef
reference object = object.metadata

abbrev Process : Type 0
Process = System (ServiceSpec protobuf) ObjectRef

abbrev health : ℕ → List Bool → ℕ → ℕ → Bool → Health.State
health ready_blocks flags subtracting sending ready = record {
  ready_blocks = ready_blocks;
  ready = ready;
  can_indicate_ready = flags;
  subtracting = subtracting;
  sending = sending;
}

abbrev process : Dns.State → Bool → Health.State → Process
process dns is_ready h = record {
  health = h;
  loader = Store.initial dns_discovery passthrough reference dns;
  is_ready = is_ready;
  ended = false;
  redis_discovery = 0;
}

abbrev started : Process
started = process asked.0 false (health 3 (true ∷ true ∷ true ∷ []) 0 0 false)

main_starts : main ℕ passthrough reference (λ path. some config) false true args ≡ some started
unfolding main start_cache add backends_for_hostname upgraded lookup
main_starts = refl

-- The redis host is discovered.
abbrev discovered : Process
discovered =
    process (with_loop (looking 0) (balanced true)) false
      (health 3 (true ∷ true ∷ true ∷ []) 0 0 false)

started-Steps : Steps ℕ passthrough reference started discovered
unfolding backends_for_hostname upgraded create receive lookup insert
started-Steps =
    next
      (next
        (next
          (next (next (next here (discover accept tt)) (discover (turn failed 0 starting_turn) tt))
            (discover (turn answer 0 answer_turn) tt))
          (discover (turn failed 0 upgrade_turn) tt))
        (discover (turn failed 0 update_turn) tt))
      (discover (turn failed 0 ready_turn) tt)

-- Then the endpoints call `ready`, one after the other.
abbrev final : Process
final =
    process (with_loop (looking 0) (balanced true)) true
      (health 0 (false ∷ false ∷ false ∷ []) 0 0 true)

caught_up :
    handle_change dns_discovery passthrough reference {E = ℕ}
      (Item.ok ResourceChange.ready)
      (discovered.loader, false)
    ≡ some (discovered.loader, true)
unfolding handle_change
caught_up = refl

final-Steps : Steps ℕ passthrough reference started final
unfolding swap fetch_sub send lookup ready_of
final-Steps =
    next
      (next
        (next
          (next
            (next
              (next
                (next (next started-Steps (change refl (Item.ok ResourceChange.ready) caught_up))
                  root_ready)
                (subtract (omega arith)))
              (loader_ready refl refl))
            (subtract (omega arith)))
          (backends_ready refl))
        (subtract (omega arith)))
      (signal (omega arith))

ready-Steps_example :
    (◌≡◌ {A = Bool} true true)
    × (flag final.health.can_indicate_ready 2 ≡ false)
    × ((final.is_ready ≡ true) ⊎ (final.ended ≡ true))
    × (cache_ready final ≡ true)
ready-Steps_example =
    ready-Steps ℕ passthrough reference (λ path. some config) false true args main_starts
      final-Steps refl

-- An object for the host of the cache is applied, and shares its handle.
abbrev entry : ServiceData (ServiceSpec protobuf) ℕ
entry = record {
  generation = 0;
  service_spec = some (passthrough (record { package_name = 112 ∷ []; name = name_a }));
  load_balancer = some 0;
}

abbrev loaded_loader : Store.State dns_discovery (ServiceSpec protobuf) ObjectRef
loaded_loader = record {
  spec_generation = 1;
  services = (dotted, entry) ∷ [];
  raw_services = (ref_a, object_at ref_a dotted) ∷ [];
  ref_by_grpc_service = (dotted, ref_a ∷ []) ∷ [];
  dns_service = on_handle 0 clone asked.0;
  tasks = [];
}

loading :
    handle_change dns_discovery passthrough reference {E = ℕ}
      (Item.ok (ResourceChange.apply (object_at ref_a dotted)))
      (started.loader, false)
    ≡ some (loaded_loader, false)
unfolding handle_change apply_object remove_noupdate update_service load_object publish
    Store.discover add_ref parsed update_service_if_newer parse grcache.Prelude.Str.rsplit_once
    lookup insert remove backends_for_hostname upgraded create strong_count
    grcache.Store.Order.min_by_key
loading = refl

abbrev loaded_process : Process
loaded_process = record started { loader = loaded_loader }

published-Fed_example :
    (h : Handle) × (lookup 0 loaded_loader.dns_service.handles ≡ some h)
    × (0 < h.strong)
    × ((host_port : HostPort) × (lookup host_port loaded_loader.dns_service.service_backends
          ≡ some 0)
        × Fed 0 host_port loaded_loader.dns_service)
    × Balanced 0 h loaded_loader.dns_service
unfolding lookup
published-Fed_example =
    published-Fed ℕ passthrough reference (λ path. some config) false true args {t = loaded_process}
      dotted entry 0 main_starts
      (next here (change refl (Item.ok (ResourceChange.apply (object_at ref_a dotted))) loading))
      refl refl

published-IsRouted_example :
    (h : Handle) × (lookup 0 loaded_loader.dns_service.handles ≡ some h)
    × IsRouted headers protobuf proxy pick_first h.load_balancer_round_robin
        (requested headers protobuf proxy pick_first
          (services_of headers protobuf proxy pick_first loaded_process)
          (session_of dotted)).0
    × Balanced 0 h loaded_loader.dns_service
unfolding lookup
published-IsRouted_example =
    published-IsRouted headers protobuf proxy pick_first ℕ passthrough reference pick_first-Selects
      (λ path. some config) false true args {t = loaded_process} dotted name_a entry 0
      (session_of dotted) main_starts
      (next here (change refl (Item.ok (ResourceChange.apply (object_at ref_a dotted))) loading))
      path_a refl refl
