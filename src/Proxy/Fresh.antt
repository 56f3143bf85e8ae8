-- ===== src/Proxy/Fresh.antt =====
-- `response_cache_filter` of grcache-proxy/src/proxy/mod.rs, and when pingora serves what it has stamped,
-- by its own freshness and by `cache_hit_filter`. Times and durations are in nanoseconds.
use mathlib.Core.Option.{some-injective}
use grcache.Prelude.{
  ℕ, ◌+◌, ◌-◌, ◌*◌, ◌^◌, ◌<◌, ◌≡◌, sym, ap, ◌∙◌, Bool, true, false, not, ◌&&◌, Option, none, some,
  arith, Option-cases, inl, inr, ltb, leb,
}
use grcache.Prelude.Int.{pos}
use grcache.Service.{Result, Protobuf, CacheSpec}
use grcache.Store.{◌>>=◌}
use grcache.Grpc.{Headers, Hasher}
use grcache.Proxy.{
  Pingora, Services, Session, RequestCtx, GrpcMeta, new_ctx, caching, request_filter,
  cache_hit_filter, as_secs,
}
use grcache.Proxy.Callbacks.{upstream_peer-after_filter}

-- What the code uses of the metadata of a cache entry, and of the system's clock.
pub record CacheMetas : Type 1 where
  pub CacheMeta : Type 0
  pub ResponseHeader : Type 0
  -- a later time, where it can be represented
  pub checked_add : ℕ → ℕ → Option ℕ
  pub checked_add-eq-some :
      (time duration sum : ℕ) → checked_add time duration ≡ some sum → sum ≡ time + duration
  -- `CacheMeta::new`, with the times at which the entry stops being fresh and was created
  pub new_meta : ℕ → ℕ → ℕ → ℕ → ResponseHeader → CacheMeta
  -- `CacheMeta::age` at a time: the time since the creation
  pub age : ℕ → CacheMeta → ℕ
  -- `CacheMeta::is_fresh`: up to the time until which it is fresh
  pub is_fresh : ℕ → CacheMeta → Bool
  pub age-new_meta :
      (time fresh_until created swr sie : ℕ) (header : ResponseHeader)
      → age time (new_meta fresh_until created swr sie header) ≡ time - created
  pub is_fresh-new_meta :
      (time fresh_until created swr sie : ℕ) (header : ResponseHeader)
      → is_fresh time (new_meta fresh_until created swr sie header) ≡ leb time fresh_until

-- `Duration::from_secs`
abbrev pub from_secs : ℕ → ℕ
from_secs secs = secs * 1000000000

not-ltb : (a b : ℕ) → not (ltb a b) ≡ leb b a
not-ltb a b = ground arith

module _ (m : CacheMetas) where
  open m use {
    CacheMeta, ResponseHeader, checked_add, checked_add-eq-some, new_meta, age, is_fresh,
    age-new_meta, is_fresh-new_meta,
  }

  -- `now` and `created` are the two readings of the clock.
  unfoldable pub response_cache_filter : ℕ → ℕ → ResponseHeader → Option CacheMeta
  response_cache_filter now created resp = do
    fresh_until ← checked_add now (from_secs 60)
    some (new_meta fresh_until created 10 10 resp)

  response_cache_filter-stamps :
      (now created time : ℕ) (resp : ResponseHeader) (meta : CacheMeta)
      → response_cache_filter now created resp ≡ some meta
      → (age time meta ≡ time - created) × (is_fresh time meta ≡ leb time (now + from_secs 60))
  unfolding response_cache_filter
  response_cache_filter-stamps now created time resp meta e =
      elim (Option-cases (checked_add now (from_secs 60))) [
        | inl n ↦ let stuck : none ≡ some meta = rw (n, response_cache_filter) at e in absurd (cc)
        | inr (until, a) ↦
            let made : new_meta until created 10 10 resp ≡ meta =
              some-injective _ _ (rw (a, response_cache_filter) at e) in
            (
              ap (age time) (sym made) ∙ age-new_meta time until created 10 10 resp,
              ap (is_fresh time) (sym made)
                  ∙ is_fresh-new_meta time until created 10 10 resp
                  ∙ ap (leb time) (checked_add-eq-some now (from_secs 60) until a),
            )
      ]

  -- Whether pingora 0.4 takes an entry that it has found for a fresh hit: it takes a `true` of
  -- `cache_hit_filter` for a demand to expire the entry.
  abbrev pub fresh_hit :
      (hs : Headers) (p : Protobuf) {LoadBalancer : Type 0} (g : Pingora hs.HeaderMap LoadBalancer)
      → ℕ
      → CacheMeta
      → RequestCtx hs p g
      → Option Bool
  fresh_hit hs p g time meta ctx = do
    force_expire ← cache_hit_filter hs p g (age time meta) ctx
    some (not force_expire && is_fresh time meta)

  -- From a response to a later request: where `request_filter` passes a request on and asks for the
  -- cache, and the entry that is found was stamped by `response_cache_filter`, then at a time at which
  -- the entry is less than 2^63 seconds old, the entry is taken for a fresh hit exactly if its age in
  -- whole seconds has reached the TTL of the method, and not more than 60 seconds have passed since the
  -- stamp. It is assumed that pingora expires the entries for which `cache_hit_filter` returns `true`,
  -- as it documents.
  pub fresh_hit-response_cache_filter :
      (hs : Headers) (p : Protobuf) {LoadBalancer : Type 0} (g : Pingora hs.HeaderMap LoadBalancer)
      (d : Hasher) (services : Services hs p g) (s s' : Session hs p g) (b : Bool)
      (ctx' : RequestCtx hs p g) (now created time : ℕ) (resp : ResponseHeader) (meta : CacheMeta)
      → request_filter hs p g services s (new_ctx hs p g) ≡ (Result.ok b, s', ctx')
      → ctx'.do_cache ≡ true
      → response_cache_filter now created resp ≡ some meta
      → as_secs (time - created) < 2 ^ 63
      → (grpc_meta : GrpcMeta hs p g) × (c : CacheSpec) × (ttl : ℕ) × (ctx'.grpc_meta
          ≡ some grpc_meta)
        × (caching hs p g grpc_meta ≡ some c)
        × (c.descriptor.cache_ttl ≡ pos ttl)
        × (fresh_hit hs p g time meta ctx'
            ≡ some (leb ttl (as_secs (time - created)) && leb time (now + from_secs 60)))
  fresh_hit-response_cache_filter hs p g d services s s' b ctx' now created time resp meta passed
        cached stamped early =
      let (aged, fresh) = response_cache_filter-stamps now created time resp meta stamped in
      let (grpc_meta, lb, found, _, _, how) =
        upstream_peer-after_filter hs p g d services s s' b ctx' (time - created) passed early in
      elim how [
        | inl (_, off) ↦ let stuck : ◌≡◌ {A = Bool} true false = sym cached ∙ off in absurd (cc)
        | inr (c, ttl, _, asks, is_ttl, _, _, decides) ↦
            let forced : cache_hit_filter hs p g (age time meta) ctx'
                ≡ some (ltb (as_secs (time - created)) ttl) =
              ap (λ a. cache_hit_filter hs p g a ctx') aged ∙ decides in
            (
              grpc_meta,
              c,
              ttl,
              found,
              asks,
              is_ttl,
              rw (forced, ◌>>=◌, fresh)
                  (ap (λ x. some (x && leb time (now + from_secs 60)))
                    (not-ltb (as_secs (time - created)) ttl)),
            )
      ]
