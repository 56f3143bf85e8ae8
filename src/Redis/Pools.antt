-- ===== src/Redis/Pools.antt =====
-- The connection pools of grcache-proxy/src/cache/redis_replicas.rs follow the backends.
use grcache.Prelude.{
  ◌≡◌, refl, Bool, true, Option, none, some, List, [], ◌∷◌, Text, Eq, arith, All, Option-cases, inl,
  inr, contains, if◌then◌else◌, is_some, eq_cases,
}
use grcache.Prelude.Map.{lookup, insert, retain, lookup-insert, lookup-retain}
use grcache.Redis.{Crates, PoolMap, accepts, select_backend, pool_for_hash, open_pools, sync_pools}

module _ (k : Crates) where
  instance abbrev eq_backend : Eq k.Backend
  eq_backend = k.backend_eq

  -- The pool that a backend has, else a new one.
  abbrev pub kept_or_opened : k.Backend → PoolMap k → Option k.Pool
  kept_or_opened b pools = elim (lookup b pools) [ some pool ↦ some pool | none ↦ k.open_pool b ]

  abbrev CanOpen : k.Backend → Type 0
  CanOpen b = is_some (k.open_pool b) ≡ true

  open_pools-lookup :
      (backends : List k.Backend) (pools : PoolMap k)
      → All CanOpen backends
      → (pools' : PoolMap k) × (open_pools k backends pools ≡ some pools')
        × ((b : k.Backend)
            → lookup b pools'
              ≡ (if contains b backends then kept_or_opened b pools else lookup b pools))
  unfolding open_pools
  open_pools-lookup [] pools h = (pools, refl, λ b. refl)
  open_pools-lookup (c ∷ cs) pools (h, hs) = elim (Option-cases (lookup c pools)) [
    | inr (pool, e) ↦
        let (pools', f, same) = open_pools-lookup cs pools hs in
        (
          pools',
          rw (e, open_pools) f,
          λ b. elim (eq_cases c b) [
            | inl (t, q) ↦ ground (arith, same b)
            | inr (t, q) ↦ ground (arith, same b)
          ],
        )
    | inl e ↦ elim (Option-cases (k.open_pool c)) [
      | inl n ↦ absurd (ground arith)
      | inr (pool, o) ↦
          let (pools', f, same) = open_pools-lookup cs (insert c pool pools) hs in
          (
            pools',
            rw (e, o, open_pools) f,
            λ b. elim (eq_cases c b) [
              | inl (t, q) ↦ ground (arith, same b, lookup-insert c b pool pools)
              | inr (t, q) ↦ ground (arith, same b, lookup-insert c b pool pools)
            ],
          )
    ]
  ]

  -- A round of the pool service makes the pools those of the backends: where a pool opens for every
  -- backend, the round ends with a map in which a backend that is listed has the pool that it had, or a new
  -- one where it had none, and no other backend has a pool.
  pub sync_pools-lookup :
      (backends : List k.Backend) (pools : PoolMap k)
      → All CanOpen backends
      → (pools' : PoolMap k) × (sync_pools k backends pools ≡ some pools')
        × ((b : k.Backend)
            → lookup b pools' ≡ (if contains b backends then kept_or_opened b pools else none))
  unfolding sync_pools
  sync_pools-lookup backends pools h =
      let listed : k.Backend → Bool = λ b. contains b backends in
      let (pools', e, same) = open_pools-lookup backends (retain listed pools) h in
      (pools', e, λ b. ground (arith, same b, lookup-retain listed b pools))

  -- A backend that is selected has a pool, unless the map changes before the pool is read: where the
  -- selection returns a backend, the map that it read has a pool for it, which `pool_for_hash`
  -- returns for the same map.
  pub pool_for_hash-selected :
      (pools : PoolMap k) (hash : Text) (b : k.Backend)
      → select_backend k pools hash ≡ some b
      → (pool : k.Pool) × (lookup b pools ≡ some pool)
        × (pool_for_hash k pools pools hash ≡ some pool)
  unfolding select_backend pool_for_hash
  pool_for_hash-selected pools hash b h =
      let (healthy, ok) = k.select_with-accepts hash (accepts k pools) b h in
      elim (Option-cases (lookup b pools)) [
        | inl e ↦ absurd (ground arith)
        | inr (pool, e) ↦ (pool, e, rw (h, pool_for_hash) e)
      ]
