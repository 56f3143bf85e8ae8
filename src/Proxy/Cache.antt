-- ===== src/Proxy/Cache.antt =====
-- The callbacks of grcache-proxy/src/proxy/mod.rs that decide what is cached.
use grcache.Prelude.{
  ◌≡◌, refl, ◌↔◌, true, some, Text, arith, nat_beq_iff, Option-cases, Bool-cases, inl, inr,
}
use grcache.Prelude.Ascii.{is_utf8, parse_u8}
use grcache.Service.{Protobuf}
use grcache.Grpc.{Headers, Hasher, grpc_status, parse_status, parse_value, is_ok}
use grcache.Proxy.{
  Pingora, Session, GrpcMeta, RequestCtx, cache_key_callback, upstream_response_trailer_filter,
}

-- The trailers have the status 0.
abbrev pub IsOk : (hs : Headers) → hs.HeaderMap → Type 0
IsOk hs trailers =
    (value : Text) × (hs.get trailers grpc_status ≡ some value)
    × (is_utf8 value ≡ true)
    × (parse_u8 value ≡ some 0)

module _ (hs : Headers) (p : Protobuf) {LoadBalancer : Type 0}
    (g : Pingora hs.HeaderMap LoadBalancer) where
  -- After the trailers of a response the cache is enabled exactly when it was before and the trailers
  -- have a `grpc-status` that is valid UTF-8 and reads as 0: a response without a status, with one that is no
  -- number below 256, or with an error, is forwarded but not cached.
  pub upstream_response_trailer_filter-IsOk :
      (trailers : hs.HeaderMap) (s : Session hs p g)
      → ((upstream_response_trailer_filter hs p g trailers s).cache_enabled ≡ true)
        ↔ ((s.cache_enabled ≡ true) × IsOk hs trailers)
  unfolding upstream_response_trailer_filter parse_status parse_value is_ok
  upstream_response_trailer_filter-IsOk trailers s =
      elim (Option-cases (hs.get trailers grpc_status)) [
        | inl e ↦ (λ h. absurd (ground arith), λ (_, (v, f, _, _)). absurd (ground arith))
        | inr (v, e) ↦ elim (Bool-cases (is_utf8 v)) [
          | inl u ↦ elim (Option-cases (parse_u8 v)) [
            | inl f ↦ (λ h. absurd (ground arith), λ (_, (w, q, _, k)). absurd (ground arith))
            | inr (c, f) ↦ (
              λ h. (ground arith, (v, e, u, ground (arith, nat_beq_iff c 0))),
              λ (t, (w, q, _, k)). ground (arith, nat_beq_iff c 0),
            )
          ]
          | inr u ↦ (λ h. absurd (ground arith), λ (_, (w, q, k, _)). absurd (ground arith))
        ]
      ]

  -- The cache key of a request is the same for every request body and every vary set: for two
  -- sessions with the same path and headers whose buffers have contents, whatever those are, the
  -- callback returns one key. The hash of the body and of the vary headers is computed and dropped.
  pub cache_key_callback-ignores_body :
      (d : Hasher) (s t : Session hs p g) (ctx other : RequestCtx hs p g)
      (meta meta' : GrpcMeta hs p g) (b b' : g.Buffer) (body body' : Text)
      → s.raw_path ≡ t.raw_path
      → s.req_header ≡ t.req_header
      → s.retry_buffer ≡ some b
      → t.retry_buffer ≡ some b'
      → g.contents b ≡ some body
      → g.contents b' ≡ some body'
      → ctx.grpc_meta ≡ some meta
      → other.grpc_meta ≡ some meta'
      → cache_key_callback hs p g d s ctx ≡ cache_key_callback hs p g d t other
  unfolding cache_key_callback
  cache_key_callback-ignores_body d s t ctx other meta meta' b b' body body' path header hb hb' hc
        hc' hm hm' =
      rw (hm, hm', hb, hb', hc, hc', path, header) refl
