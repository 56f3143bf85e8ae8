-- ===== src/Redis/Storage.antt =====
-- The values that grcache-proxy/src/cache/redis_replicas.rs stores and reads back.
use grcache.Prelude.{
  ℕ, zero, suc, ◌≡◌, refl, sym, ap, ◌∙◌, Option, some, List, [], ◌∷◌, ◌++◌, Text, arith, inl, inr,
  append_assoc, append-nil,
}
use grcache.Service.{Result, Result-cases, ◌>>=◌}
use grcache.Redis.{
  Crates, RedisCacheHit, read_body, RedisCacheMiss, write_body, PoolMap, connection,
  get_miss_handler, stored, finish, decode, decode_reply, lookup_cache,
}

-- The parts of a body that are written one after the other, and the whole.
pub write_all : List Text → RedisCacheMiss → RedisCacheMiss
write_all [] miss = miss
write_all (bytes ∷ l) miss = write_all l (write_body bytes miss)

pub concat : List Text → Text
concat [] = []
concat (bytes ∷ l) = bytes ++ concat l

write_all_lem :
    (l : List Text) (miss : RedisCacheMiss)
    → write_all l miss
      ≡ (record { meta = miss.meta; hash = miss.hash; value = miss.value ++ concat l })
unfolding write_all concat write_body
write_all_lem [] miss =
    ap (λ v. record { meta = miss.meta; hash = miss.hash; value = v }) (sym (append-nil miss.value))
write_all_lem (bytes ∷ l) miss =
    write_all_lem l (write_body bytes miss)
    ∙ ap (λ v. record { meta = miss.meta; hash = miss.hash; value = v })
        (append_assoc miss.value bytes (concat l))

-- What a caller gets that reads a hit `n` times.
pub reads : ℕ → RedisCacheHit → List (Option Text)
reads zero hit = []
reads (suc n) hit = let (chunk, hit') = read_body hit in chunk ∷ reads n hit'

pub replicated : ℕ → Text → List (Option Text)
replicated zero t = []
replicated (suc n) t = some t ∷ replicated n t

-- A hit never says that its body has ended: each of any number of reads returns the whole body.
pub reads-replicated : (n : ℕ) (hit : RedisCacheHit) → reads n hit ≡ replicated n hit.body
unfolding reads replicated read_body
reads-replicated zero hit = refl
reads-replicated (suc n) hit = ap (◌∷◌ (some hit.body)) (reads-replicated n hit)

ok-injective :
    (a b : RedisCacheMiss) {E : Type 0}
    → ◌≡◌ {A = Result RedisCacheMiss E} (Result.ok a) (Result.ok b)
    → a ≡ b
ok-injective a b h = ground arith

module _ (k : Crates) where
  decode-stored :
      (meta : k.CacheMeta) (miss : RedisCacheMiss)
      → k.serialize_meta meta ≡ Result.ok miss.meta
      → decode k (stored k miss) ≡ some (Result.ok (some (meta, record { body = miss.value })))
  unfolding decode
  decode-stored meta miss h =
      rw
        (
          k.deserialize-serialize (record { cache_meta = miss.meta; body = miss.value }),
          k.deserialize_meta-serialize_meta meta miss.meta h,
        )
        refl

  get_miss_handler-eq-ok :
      (hash : Text) (meta : k.CacheMeta) (miss : RedisCacheMiss)
      → get_miss_handler k hash meta ≡ Result.ok miss
      → (k.serialize_meta meta ≡ Result.ok miss.meta) × (miss.hash ≡ hash) × (miss.value ≡ [])
  unfolding get_miss_handler
  get_miss_handler-eq-ok hash meta miss h = elim (Result-cases (k.serialize_meta meta)) [
    | inl (t, e) ↦
        let made : (record { meta = t; hash = hash; value = [] }) ≡ miss =
          ok-injective _ _ (rw (get_miss_handler, e, ◌>>=◌) at h) in
        (
          e ∙ ap Result.ok (ap (λ (m : RedisCacheMiss). m.meta) made),
          sym (ap (λ (m : RedisCacheMiss). m.hash) made),
          sym (ap (λ (m : RedisCacheMiss). m.value) made),
        )
    | inr (error, e) ↦ absurd (ground arith)
  ]

  finish-connected :
      (now later : PoolMap k) (hash : Text) (miss : RedisCacheMiss) (servers : k.Servers)
      (pool : k.Pool)
      → miss.hash ≡ hash
      → connection k now later hash servers ≡ some pool
      → (finish k now later miss servers).1 ≡ k.conn_set pool hash (stored k miss) servers
  unfolding finish
  finish-connected now later hash miss servers pool h c =
      rw (finish, h, c) (ap (λ x. k.conn_set pool x (stored k miss) servers) h)

  lookup_cache-connected :
      (now later : PoolMap k) (hash : Text) (servers : k.Servers) (pool : k.Pool)
      → connection k now later hash servers ≡ some pool
      → lookup_cache k now later hash servers ≡ decode_reply k (k.conn_get pool hash servers)
  unfolding lookup_cache
  lookup_cache-connected now later hash servers pool c = rw (lookup_cache, c) refl

  -- What is stored is read back. A miss handler is made for a key and metadata, the body is written
  -- in any parts, and `finish` has a connection. Where afterwards a lookup of the key has a
  -- connection of the same pool, and its server returns for the key the value last set, the lookup is a
  -- hit, with the same metadata and the parts as one body.
  pub lookup_cache-finish :
      (now later now' later' : PoolMap k) (hash : Text) (meta : k.CacheMeta) (miss : RedisCacheMiss)
      (l : List Text) (servers : k.Servers) (pool : k.Pool)
      → get_miss_handler k hash meta ≡ Result.ok miss
      → connection k now later hash servers ≡ some pool
      → connection k now' later' hash (k.conn_set pool hash (stored k (write_all l miss)) servers)
        ≡ some pool
      → k.conn_get pool hash (k.conn_set pool hash (stored k (write_all l miss)) servers)
        ≡ Result.ok (some (stored k (write_all l miss)))
      → lookup_cache k now' later' hash (finish k now later (write_all l miss) servers).1
        ≡ some (Result.ok (some (meta, record { body = concat l })))
  unfolding decode_reply
  lookup_cache-finish now later now' later' hash meta miss l servers pool h c c' got =
      let w = write_all l miss in
      let (serialized, same_hash, empty) = get_miss_handler-eq-ok hash meta miss h in
      let written = write_all_lem l miss in
      let w_hash : w.hash ≡ hash = ap (λ (m : RedisCacheMiss). m.hash) written ∙ same_hash in
      let w_meta : w.meta ≡ miss.meta = ap (λ (m : RedisCacheMiss). m.meta) written in
      let w_value : w.value ≡ concat l =
        ap (λ (m : RedisCacheMiss). m.value) written ∙ ap (λ v. v ++ concat l) empty in
      ap (lookup_cache k now' later' hash) (finish-connected now later hash w servers pool w_hash c)
      ∙ lookup_cache-connected now' later' hash (k.conn_set pool hash (stored k w) servers) pool c'
      ∙ ap (decode_reply k) got
      ∙ decode-stored meta w (serialized ∙ ap Result.ok (sym w_meta))
      ∙ ap (λ v. some (Result.ok (some (meta, record { body = v })))) w_value
