-- ===== src/Proxy/Callbacks.antt =====
-- The callbacks of grcache-proxy/src/proxy/mod.rs that rely on what `request_filter` leaves behind.
use mathlib.Core.Path.{subst}
use Prim.Native.Nat.{ℕ, ◌<◌, ◌^◌}
use grcache.Prelude.{
  ◌≡◌, refl, ap, ◌∙◌, Bool, true, false, none, some, text_eq, arith, Option-cases, Bool-cases, inl,
  inr, ◌⊎◌, ltb, is_some,
}
use grcache.Prelude.Int.{ℤ, pos, negsuc, as_i64, ltb_ℤ}
use grcache.Service.{Result, Protobuf, CacheSpec, MethodSpec}
use mathlib.Core.Option.{some-injective}
use grcache.Store.{◌>>=◌}
use grcache.Grpc.{Headers, Hasher}
use grcache.Proxy.{
  Pingora, Services, GrpcMeta, RequestCtx, Session, http_status, new_ctx, method_spec, caching,
  request_filter, cache_hit_filter, upstream_peer, as_secs, cache_key_callback,
  request_cache_filter,
}
use grcache.Proxy.Request.{outcome_ok}

module _ (hs : Headers) (p : Protobuf) {LoadBalancer : Type 0}
    (g : Pingora hs.HeaderMap LoadBalancer) where
  pub caching-eq-some :
      (meta : GrpcMeta hs p g) (c : CacheSpec)
      → caching hs p g meta ≡ some c
      → (m : MethodSpec p) × (method_spec hs p g meta ≡ some m)
        × (m.cache_spec ≡ some c)
        × (ltb_ℤ (pos 0) c.descriptor.cache_ttl ≡ true)
  unfolding caching
  caching-eq-some meta c h = elim (Option-cases (method_spec hs p g meta)) [
    | inl e ↦ absurd (ground arith)
    | inr (m, e) ↦ elim (Option-cases m.cache_spec) [
      | inl f ↦ absurd (ground arith)
      | inr (c', f) ↦ elim (Bool-cases (ltb_ℤ (pos 0) c'.descriptor.cache_ttl)) [
        | inl t ↦
            let same : c' ≡ c = some-injective _ _ (rw (e, ◌>>=◌, f, t) at h) in
            (
              m,
              e,
              f ∙ ap some same,
              subst (λ x. ltb_ℤ (pos 0) x.descriptor.cache_ttl ≡ true) same t,
            )
        | inr t ↦ absurd (ground arith)
      ]
    ]
  ]

fresh-ltb :
    (age : ℕ) (ttl : ℤ)
    → age < 2 ^ 63
    → ltb_ℤ (pos 0) ttl ≡ true
    → (t : ℕ) × (ttl ≡ pos t) × (ltb_ℤ (as_i64 age) ttl ≡ ltb age t)
fresh-ltb age (pos t) h k = (t, refl, ground arith)
fresh-ltb age (negsuc t) h k = absurd (ground arith)

module _ (hs : Headers) (p : Protobuf) {LoadBalancer : Type 0}
    (g : Pingora hs.HeaderMap LoadBalancer) where
  -- What the later callbacks do where `request_filter` passes a request on with a fresh context.
  -- `upstream_peer` returns the address of a backend that the load balancer selects, or the error 502; it
  -- panics only where the address of that backend is not one of the internet. Either the method has no
  -- TTL above 0 and the cache is not asked for; or it has one, and the request has a retry buffer,
  -- `cache_key_callback` panics exactly where pingora returns no contents of that buffer, and for an
  -- entry whose age is below 2^63 seconds `cache_hit_filter` returns whether the age, in whole seconds,
  -- is below the TTL.
  pub upstream_peer-after_filter :
      (d : Hasher) (services : Services hs p g) (s s' : Session hs p g) (b : Bool)
      (ctx' : RequestCtx hs p g) (age : ℕ)
      → request_filter hs p g services s (new_ctx hs p g) ≡ (Result.ok b, s', ctx')
      → as_secs age < 2 ^ 63
      → (meta : GrpcMeta hs p g) × (load_balancer : LoadBalancer) × (ctx'.grpc_meta ≡ some meta)
        × (meta.service_data.load_balancer ≡ some load_balancer)
        × (upstream_peer hs p g ctx' ≡ (elim (g.select load_balancer) [
          | some backend ↦ elim (g.as_inet backend) [
            | some inet ↦ some (Result.ok inet)
            | none ↦ none
          ]
          | none ↦ some (Result.err (http_status 502))
        ]))
        × (((caching hs p g meta ≡ none) × (ctx'.do_cache ≡ false))
            ⊎ ((c : CacheSpec) × (ttl : ℕ) × (buffer : g.Buffer) × (caching hs p g meta ≡ some c)
                × (c.descriptor.cache_ttl ≡ pos ttl)
                × (s'.retry_buffer ≡ some buffer)
                × (is_some (cache_key_callback hs p g d (request_cache_filter hs p g s' ctx') ctx')
                    ≡ is_some (g.contents buffer))
                × (cache_hit_filter hs p g age ctx' ≡ some (ltb (as_secs age) ttl))))
  unfolding upstream_peer cache_hit_filter cache_key_callback request_cache_filter
  upstream_peer-after_filter d services s s' b ctx' age h young =
      let (meta, (_, _, _, balanced, _), (_, found, how)) =
        outcome_ok hs p g services s s' b ctx' h in
      elim (Option-cases meta.service_data.load_balancer) [
        | inl e ↦ absurd (ground arith)
        | inr (lb, e) ↦ (
          meta,
          lb,
          found,
          e,
          elim (Option-cases (g.select lb)) [
            | inl n ↦ rw (found, ◌>>=◌, e, n) refl
            | inr (y, n) ↦ elim (Option-cases (g.as_inet y)) [
              | inl u ↦ rw (found, ◌>>=◌, e, n, u) refl
              | inr (inet, u) ↦ rw (found, ◌>>=◌, e, n, u) refl
            ]
          ],
          elim how [
            | inl (uncached, off, _) ↦ inl (uncached, off)
            | inr (c, buffer, _, cached, _, _, on, kept, _) ↦
                let (m, em, ec, positive) = caching-eq-some hs p g meta c cached in
                let (t, et, fresh) =
                  fresh-ltb (as_secs age) c.descriptor.cache_ttl young positive in
                inr (
                  c,
                  t,
                  buffer,
                  cached,
                  et,
                  kept,
                  elim (Option-cases (g.contents buffer)) [
                    | inl n ↦ rw (found, ◌>>=◌, on, kept, n) refl
                    | inr (body, n) ↦ rw (found, ◌>>=◌, on, kept, n) refl
                  ],
                  rw (found, ◌>>=◌, em, ec, fresh) refl,
                )
          ],
        )
      ]
