-- ===== src/Tests/Fresh.antt =====
-- An entry that is stamped at 100 seconds, and the theorem on it at a request of 103.
use grcache.Prelude.{ℕ, ◌+◌, ◌-◌, ◌≡◌, refl, sym, false, ◌&&◌, some, leb, arith}
use mathlib.Core.Option.{some-injective}
use grcache.Prelude.Int.{pos}
use grcache.Service.{CacheSpec}
use grcache.Proxy.{GrpcMeta, caching, as_secs}
use grcache.Proxy.Fresh.{
  CacheMetas, from_secs, response_cache_filter, fresh_hit, fresh_hit-response_cache_filter,
}
use grcache.Tests.{headers, hasher, protobuf, pingora}
use grcache.Tests.Requests.{services, session, after, ctx_after, filtered}

-- An entry is the time until which it is fresh, and that of its creation.
abbrev metas : CacheMetas
metas = record {
  CacheMeta = ℕ × ℕ;
  ResponseHeader = ℕ;
  checked_add = λ time duration. some (time + duration);
  checked_add-eq-some = λ time duration sum h. sym (some-injective _ _ h);
  new_meta = λ fresh_until created swr sie header. (fresh_until, created);
  age = λ time meta. time - meta.1;
  is_fresh = λ time meta. leb time meta.0;
  age-new_meta = λ time fresh_until created swr sie header. refl;
  is_fresh-new_meta = λ time fresh_until created swr sie header. refl;
}

abbrev entry : ℕ × ℕ
entry = (from_secs 160, from_secs 100)

stamped : response_cache_filter metas (from_secs 100) (from_secs 100) 0 ≡ some entry
unfolding response_cache_filter
stamped = refl

fresh_hit-response_cache_filter_example :
    (grpc_meta : GrpcMeta headers protobuf pingora) × (c : CacheSpec) × (ttl : ℕ)
    × (ctx_after.grpc_meta ≡ some grpc_meta)
    × (caching headers protobuf pingora grpc_meta ≡ some c)
    × (c.descriptor.cache_ttl ≡ pos ttl)
    × (fresh_hit metas headers protobuf pingora (from_secs 103) entry ctx_after
        ≡ some (
            leb ttl (as_secs (from_secs 103 - from_secs 100))
            && leb (from_secs 103) (from_secs 100 + from_secs 60)))
fresh_hit-response_cache_filter_example =
    fresh_hit-response_cache_filter metas headers protobuf pingora hasher services session after
      false ctx_after (from_secs 100) (from_secs 100) (from_secs 103) 0 entry filtered refl stamped
      (omega arith)
