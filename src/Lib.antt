-- ===== src/Lib.antt =====
-- A verification library for grcache, a caching proxy for gRPC.
--
-- The proxy receives a gRPC request, looks up its service in a map of services, and passes it on to
-- an upstream; where the method has a TTL, it first strips the headers that may not take part in the
-- response, and lets pingora look up and store the response in a redis cache. The map of services is
-- kept by a loader, which watches the GrcacheService resources of Kubernetes. The files:
--
-- + Prelude: what the others share: equality, association lists, strings of bytes, integers.
-- + ResourceChange (grcache-shared/src/resource_change.rs): `step` is a round of the generator
--   `resource_changes`; Mirror and Relist have its theorems.
-- + Service (grcache-shared/src/service/mod.rs, service/qualified_service.rs, field_ref.rs): names,
--   `ServiceSpec::build` and `MethodSpec::build`. The record `Protobuf` is the protobuf crate.
-- + Crd (grcache-shared/src/config/crd.rs): the resource.
-- + Store (grcache-proxy/src/service_store.rs): `State` is `ServiceConfigState` with the published map
--   and the spawned tasks; `apply_object`, `remove_object`, `remove_noupdate` and `update_service` are
--   its methods, `handle_change` a round of the loop of `start`, and `finish_task` the end of a task,
--   with `update_service_if_newer`. The changes that it handles are those of ResourceChange, and
--   Pipeline has both in a row. The record `Discovery` is what it uses of service discovery.
-- + Health (grcache-shared/src/health.rs): `Step` is one atomic access of any thread.
-- + Grpc (grcache-proxy/src/grpc/headers.rs, hash.rs, status.rs): the records `Headers` and `Hasher`
--   are the http crate and the hasher.
-- + Proxy (grcache-proxy/src/proxy/mod.rs): a function for each callback, from the session and the
--   context to what they become; `Services` is the map that Store publishes. The record `Pingora` is
--   what it uses of pingora; Fresh has `response_cache_filter`, with the record `CacheMetas`,
--   Outcomes what becomes of a request, Peers its way from the filter to the choice of its backend, and
--   Removal that of a service that the loader has unpublished.
-- + Redis (grcache-proxy/src/cache/redis_replicas.rs): `lookup_cache` is `Storage::lookup`, `finish`
--   is that of the miss handler, and `sync_pools` a round of the pool service, which Rounds has step by
--   step. The record `Crates` is what it uses of redis, bb8, bincode and pingora.
-- + Dns (grcache-proxy/src/discovery/dns.rs, mod.rs): `backends_for_hostname` is that of `Handle`,
--   `receive` a round of `Service::start`, and `advance` the next step of a `dns_discovery_loop`, with
--   what is looked up as an argument. Step interleaves them with the owners of handles that clone and
--   drop them. `dns_discovery` is the record `Discovery` of Store at this service.
-- + DescriptorSet (grcache-shared/src/service/descriptor_set.rs): `from_source` with its sources, and
--   `run_task`, the closure that the loader spawns, whose result `finish_task` of Store publishes. The
--   record `Sources` is the file system and the crates base64 and sha2.
-- + Config (grcache-shared/src/config/mod.rs): the configuration file.
-- + Start (grcache-proxy/src/main.rs): `main` up to the readiness of its root endpoint, and Step, the
--   steps of its services at work: those of Dns and Health, the rounds of Store, and the calls of `ready`
--   of the loader and of the readiness task of redis_replicas.rs. `main` is told whether it is run in the
--   context of a tokio runtime, which its only cache backend needs to spawn its task, and panics outside
--   of one; as nothing in the repository enters a runtime there, the program as it stands panics, and
--   what is said of its services holds once that is mended. The loader may end, which drops its health
--   endpoint. Owners counts who holds a handle, and only other owners drop theirs; Requests has the
--   callbacks of Proxy over the published services.
-- + Tracing (grcache-proxy/src/tracing.rs): `init` with its propagators, and `early_request_filter` of
--   the proxy. The record `Telemetry` is the opentelemetry crates.
-- + Cli (grcache-cli/src/main.rs): the commands. The record `World` is what they use of the outside.
-- + TestUtil (grcache-proxy/src/test_util, with grcache-shared/src/test): what the integration tests
--   use. `ProxyTest` has the services that a test adds and the handles of their backends, which
--   `services_of` in Routes shows the callbacks of Proxy; Client is the request of grpc_client.rs, MockServer the
--   server of grpc_server.rs, and MockStorage the storage of mock_storage.rs. The record `H2` is what
--   the server uses of the h2 crate.
-- + Tests: concrete crates and data, and each theorem at them.
--
-- A panic is `none`. No definition runs on fuel: loops go over the list of what they read. Lengths and
-- generations are numbers with the wrap of a 64-bit integer written out, and a theorem that needs it
-- says that the counter does not wrap; a text is a list of bytes.
--
-- Not modelled: the HTTP server of pingora with its connections and listeners, which is wiring; the
-- local cache, a stub whose operations are all `todo!()`; proxy/logic.rs and test/proxy.rs, which are
-- not part of the build; and generated code. Log lines, the export of spans and the lengths of waits are
-- left out, and so are the integration tests, which are single runs of TestUtil.
pub mod Prelude
pub mod ResourceChange
pub mod Service
pub mod Crd
pub mod Store
pub mod Health
pub mod Grpc
pub mod Proxy
pub mod Redis
pub mod Dns
pub mod DescriptorSet
pub mod Config
pub mod Start
pub mod Tracing
pub mod Cli
pub mod TestUtil
pub mod Tests
