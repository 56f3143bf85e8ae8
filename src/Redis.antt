-- ===== src/Redis.antt =====
-- grcache-proxy/src/cache/redis_replicas.rs: the cache on redis replicas. The redis and bb8 crates,
-- bincode, pingora's cache metadata and the selection of a backend are the parameter `Crates`. `none`
-- is a panic.
pub mod Pools
pub mod Rounds
pub mod Storage
use grcache.Prelude.{
  ℕ, Bool, true, false, Option, none, some, List, [], ◌∷◌, ◌++◌, Text, text_eq, Eq, if◌then◌else◌,
  contains, length, ◌≡◌, nat_beq,
}
use grcache.Prelude.Map.{Map, lookup, insert, retain, contains_key}
use grcache.Service.{Result, ◌>>=◌}

-- `CacheData`
pub record CacheData : Type 0 where
  pub cache_meta : Text × Text
  pub body : Text

-- What the code uses of the crates, as they document it. `Servers` is what the redis servers hold.
pub record Crates : Type 1 where
  pub Backend : Type 0
  pub backend_eq : Eq Backend
  pub Pool : Type 0
  pub Servers : Type 0
  pub Error : Type 0
  pub CacheMeta : Type 0
  -- the chain of `unwrap`s that builds a pool
  pub open_pool : Backend → Option Pool
  -- `pool.get()` returns a connection
  pub connects : Pool → Servers → Bool
  pub conn_get : Pool → Text → Servers → Result (Option Text) Error
  pub conn_set : Pool → Text → Text → Servers → Servers
  -- `load_balancer_consistent.select_with(key, 255, accept)`
  pub select_with : Text → (Backend → Bool → Bool) → Option Backend
  pub select_with-accepts :
      (key : Text) (accept : Backend → Bool → Bool) (b : Backend)
      → select_with key accept ≡ some b
      → (healthy : Bool) × (accept b healthy ≡ true)
  -- bincode
  pub serialize : CacheData → Text
  pub deserialize : Text → Result CacheData Error
  pub deserialize-serialize : (d : CacheData) → deserialize (serialize d) ≡ Result.ok d
  -- `CacheMeta::serialize` and `deserialize`
  pub serialize_meta : CacheMeta → Result (Text × Text) Error
  pub deserialize_meta : Text × Text → Result CacheMeta Error
  pub deserialize_meta-serialize_meta :
      (m : CacheMeta) (t : Text × Text)
      → serialize_meta m ≡ Result.ok t
      → deserialize_meta t ≡ Result.ok m

-- `RedisCacheHit`
pub record RedisCacheHit : Type 0 where
  pub body : Text

unfoldable pub read_body : RedisCacheHit → Option Text × RedisCacheHit
read_body hit = (some hit.body, hit)

-- `RedisCacheMiss`, without the pools
pub record RedisCacheMiss : Type 0 where
  pub meta : Text × Text
  pub hash : Text
  pub value : Text

unfoldable pub write_body : Text → RedisCacheMiss → RedisCacheMiss
write_body bytes miss = record miss { value = miss.value ++ bytes }

module _ (k : Crates) where
  open k use {
    Backend, Pool, Servers, Error, CacheMeta, open_pool, connects, conn_get, conn_set, select_with,
    serialize, deserialize, serialize_meta, deserialize_meta,
  }

  instance abbrev pub backend_eq : Eq Backend
  backend_eq = k.backend_eq

  abbrev pub PoolMap : Type 0
  PoolMap = Map Backend Pool

  abbrev pub accepts : PoolMap → Backend → Bool → Bool
  accepts pools backend healthy = if healthy then contains_key backend pools else false

  unfoldable pub select_backend : PoolMap → Text → Option Backend
  select_backend pools key = select_with key (accepts pools)

  -- The map is read twice: `now` by the selection, `later` for the pool.
  unfoldable pub pool_for_hash : PoolMap → PoolMap → Text → Option Pool
  pool_for_hash now later hash = elim (select_backend now hash) [
    | some backend ↦ lookup backend later
    | none ↦ none
  ]

  -- `pool_for_hash`, then a connection of the pool.
  unfoldable pub connection : PoolMap → PoolMap → Text → Servers → Option Pool
  connection now later hash servers = elim (pool_for_hash now later hash) [
    | some pool ↦ if connects pool servers then some pool else none
    | none ↦ none
  ]

  -- `get_miss_handler`
  unfoldable pub get_miss_handler : Text → CacheMeta → Result RedisCacheMiss Error
  get_miss_handler primary_bin meta = do
    serialized ← serialize_meta meta
    Result.ok (record { meta = serialized; hash = primary_bin; value = [] })

  -- `purge` and `update_meta`, which do nothing yet
  abbrev pub purge : Text → Result Bool Error
  purge key = Result.ok false

  abbrev pub update_meta : Text → CacheMeta → Result Bool Error
  update_meta key meta = Result.ok false

  -- The value that `finish` sets: the version byte, then the data.
  abbrev pub stored : RedisCacheMiss → Text
  stored miss = 0 ∷ serialize (record { cache_meta = miss.meta; body = miss.value })

  -- `HandleMiss::finish`: the length that it returns, and the servers.
  unfoldable pub finish : PoolMap → PoolMap → RedisCacheMiss → Servers → ℕ × Servers
  finish now later miss servers = elim (connection now later miss.hash servers) [
    | none ↦ (0, servers)
    | some pool ↦ (length (stored miss), conn_set pool miss.hash (stored miss) servers)
  ]

  -- What `lookup` makes of a value: `none` is the panic of `data[0]`.
  unfoldable pub decode : Text → Option (Result (Option (CacheMeta × RedisCacheHit)) Error)
  decode [] = none
  decode (version ∷ rest) =
      if nat_beq version 0
      then (elim (deserialize rest) [
        | Result.ok cache_data ↦ some (do
          meta ← deserialize_meta cache_data.cache_meta
          Result.ok (some (meta, record { body = cache_data.body })))
        | Result.err error ↦ some (Result.ok none)
      ])
      else some (Result.ok none)

  -- What `lookup` makes of the reply of the server.
  unfoldable pub decode_reply :
      Result (Option Text) Error → Option (Result (Option (CacheMeta × RedisCacheHit)) Error)
  decode_reply (Result.ok (some value)) = decode value
  decode_reply (Result.ok none) = some (Result.ok none)
  decode_reply (Result.err error) = some (Result.ok none)

  -- `Storage::lookup`
  unfoldable pub lookup_cache :
      PoolMap
      → PoolMap
      → Text
      → Servers
      → Option (Result (Option (CacheMeta × RedisCacheHit)) Error)
  lookup_cache now later hash servers = elim (connection now later hash servers) [
    | none ↦ some (Result.ok none)
    | some pool ↦ decode_reply (conn_get pool hash servers)
  ]

  -- The loop over the backends: a pool is opened where there is none.
  unfoldable pub open_pools : List Backend → PoolMap → Option PoolMap
  open_pools [] pools = some pools
  open_pools (backend ∷ backends) pools = elim (lookup backend pools) [
    | some pool ↦ open_pools backends pools
    | none ↦ elim (open_pool backend) [
      | some pool ↦ open_pools backends (insert backend pool pools)
      | none ↦ none
    ]
  ]

  -- One round of the loop of `Service::start`.
  unfoldable pub sync_pools : List Backend → PoolMap → Option PoolMap
  sync_pools backends pools =
      open_pools backends (retain (λ backend. contains backend backends) pools)
