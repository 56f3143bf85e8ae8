-- ===== src/Tests/Replicas.antt =====
-- The theorems on the redis cache with one replica.
use grcache.Prelude.{
  ℕ, zero, suc, ap, sym, ◌∙◌, ◌≡◌, refl, nat_beq, nat_beq_iff, Eq, Bool-cases, inl, inr, Bool, true,
  false, is_some, ◌⊎◌, Option, none, some, List, [], ◌∷◌, Text, text_eq, if◌then◌else◌, contains,
  arith,
}
use mathlib.Core.Path.{subst}
use mathlib.Core.Option.{some-injective}
use grcache.Prelude.Map.{lookup, insert, retain}
use grcache.Service.{Result}
use grcache.Tests.{name_a, dotted}
use grcache.Redis.{
  Crates, CacheData, RedisCacheHit, RedisCacheMiss, PoolMap, connection, get_miss_handler, finish,
  stored, lookup_cache, sync_pools, select_backend, pool_for_hash,
}
use grcache.Redis.Rounds.{
  Round, start, read, open_next, reading, opening, here, next, lookup-at_rest,
}
use grcache.Redis.Pools.{kept_or_opened, sync_pools-lookup}
use grcache.Redis.Storage.{write_all, concat, lookup_cache-finish}

-- A text with a 0 at its end and every byte one higher, and what follows it.
abbrev encode : Text → Text → Text
encode [] rest = 0 ∷ rest
encode (x ∷ xs) rest = suc x ∷ encode xs rest

abbrev decode_text : Text → Text × Text
decode_text [] = ([], [])
decode_text (zero ∷ s) = ([], s)
decode_text (suc n ∷ s) = let (t, rest) = decode_text s in (n ∷ t, rest)

decode_text-encode : (t rest : Text) → decode_text (encode t rest) ≡ (t, rest)
decode_text-encode [] rest = refl
decode_text-encode (x ∷ xs) rest =
    ap (λ (r : Text × Text). (x ∷ r.0, r.1)) (decode_text-encode xs rest)

abbrev plain_serialize : CacheData → Text
plain_serialize d = encode d.cache_meta.0 (encode d.cache_meta.1 (encode d.body []))

abbrev plain_deserialize : Text → Result CacheData ℕ
plain_deserialize s =
    let (a, s1) = decode_text s in
    let (b, s2) = decode_text s1 in
    let (c, s3) = decode_text s2 in Result.ok (record { cache_meta = (a, b); body = c })

plain_round_trip : (d : CacheData) → plain_deserialize (plain_serialize d) ≡ Result.ok d
plain_round_trip d =
    let first = decode_text-encode d.cache_meta.0 (encode d.cache_meta.1 (encode d.body [])) in
    let second = decode_text-encode d.cache_meta.1 (encode d.body []) in
    let third = decode_text-encode d.body [] in
    ap
      (λ (r : Text × Text). Result.ok (record {
        cache_meta = (r.0, (decode_text r.1).0);
        body = (decode_text (decode_text r.1).1).0;
      }))
      first
    ∙ ap
        (λ (r : Text × Text).
          Result.ok (record { cache_meta = (d.cache_meta.0, r.0); body = (decode_text r.1).0 }))
        second
    ∙ ap (λ (r : Text × Text). Result.ok (record { cache_meta = d.cache_meta; body = r.0 })) third

instance abbrev nat_eq : Eq ℕ
nat_eq = record { beq = nat_beq; beq_iff = nat_beq_iff }

-- The only backend that is selected is 1, if it is accepted.
abbrev select_one : Text → (ℕ → Bool → Bool) → Option ℕ
select_one key accept = if accept 1 true then some 1 else none

select_one-accepts :
    (key : Text) (accept : ℕ → Bool → Bool) (b : ℕ)
    → select_one key accept ≡ some b
    → (healthy : Bool) × (accept b healthy ≡ true)
select_one-accepts key accept b h = elim (Bool-cases (accept 1 true)) [
  | inl e ↦ (true, subst (λ x. accept x true ≡ true) (some-injective _ _ (rw e at h)) e)
  | inr e ↦ absurd (ground arith)
]

-- One server, whose pool always has a connection.
abbrev crates : Crates
crates = record {
  Backend = ℕ;
  backend_eq = nat_eq;
  Pool = ℕ;
  Servers = List (Text × Text);
  Error = ℕ;
  CacheMeta = Text × Text;
  open_pool = some;
  connects = λ pool servers. true;
  conn_get = λ pool key servers. Result.ok (lookup key servers);
  conn_set = λ pool key value servers. insert key value servers;
  select_with = select_one;
  select_with-accepts = select_one-accepts;
  serialize = plain_serialize;
  deserialize = plain_deserialize;
  deserialize-serialize = plain_round_trip;
  serialize_meta = Result.ok;
  deserialize_meta = Result.ok;
  deserialize_meta-serialize_meta = λ m t h. ap (λ r. r) (sym h);
}

abbrev pools : PoolMap crates
pools = (1, 10) ∷ []

sync_pools-lookup_example :
    (pools' : PoolMap crates) × (sync_pools crates (1 ∷ 2 ∷ []) pools ≡ some pools')
    × ((b : ℕ)
        → lookup b pools'
          ≡ (if contains b (1 ∷ 2 ∷ []) then kept_or_opened crates b pools else none))
sync_pools-lookup_example = sync_pools-lookup crates (1 ∷ 2 ∷ []) pools (refl, (refl, tt))

abbrev miss : RedisCacheMiss
miss = record { meta = (name_a, dotted); hash = name_a; value = [] }

abbrev chunks : List Text
chunks = name_a ∷ dotted ∷ []

handled : get_miss_handler crates name_a (name_a, dotted) ≡ Result.ok miss
unfolding get_miss_handler
handled = refl

connected : (servers : List (Text × Text)) → connection crates pools pools name_a servers ≡ some 10
unfolding connection pool_for_hash select_backend lookup
connected servers = refl

value_set : (v : Text) → lookup name_a (insert name_a v []) ≡ some v
unfolding lookup insert
value_set v = refl

lookup_cache-finish_example :
    lookup_cache crates pools pools name_a (finish crates pools pools (write_all chunks miss) []).1
    ≡ some (Result.ok (some ((name_a, dotted), record { body = concat chunks })))
lookup_cache-finish_example =
    lookup_cache-finish crates pools pools pools pools name_a (name_a, dotted) miss chunks [] 10
      handled (connected []) (connected _)
      (ap Result.ok (value_set (stored crates (write_all chunks miss))))

abbrev hit : RedisCacheHit
hit = record { body = dotted }

-- Two backends are sent, read and given their pools.
abbrev one_open : Round crates
one_open = record {
  backends = 1 ∷ 2 ∷ [];
  changed = false;
  remaining = 2 ∷ [];
  pools = (1, 1) ∷ [];
}

abbrev both_open : Round crates
both_open = record {
  backends = 1 ∷ 2 ∷ [];
  changed = false;
  remaining = [];
  pools = (1, 1) ∷ (2, 2) ∷ [];
}

opens_one : open_next crates 1 (2 ∷ []) (read crates (start crates (1 ∷ 2 ∷ []))) ≡ some one_open
unfolding open_next lookup insert retain
opens_one = refl

opens_both : open_next crates 2 [] one_open ≡ some both_open
unfolding open_next lookup insert
opens_both = refl

lookup-at_rest_example :
    (is_some (lookup 2 both_open.pools) ≡ contains 2 both_open.backends)
    × ((lookup 2 both_open.pools ≡ none) ⊎ (lookup 2 both_open.pools ≡ some 2))
lookup-at_rest_example =
    lookup-at_rest crates (1 ∷ 2 ∷ []) 2
      (next (next (next here (reading refl refl)) (opening 1 (2 ∷ []) refl opens_one))
        (opening 2 [] refl opens_both))
      refl refl
