-- ===== src/Tests/Requests.antt =====
-- The theorems on the proxy at a request of a cached method.
use grcache.Prelude.{
  ℕ, ◌<◌, ◌^◌, ◌≡◌, ◌⊎◌, ◌↔◌, refl, Bool, true, false, ◌&&◌, ◌||◌, Option, none, some, List, [],
  ◌∷◌, ◌++◌, Text, text_eq, contains, is_some, arith, ltb, All,
}
use grcache.Prelude.Ascii.{is_utf8}
use grcache.Prelude.Int.{pos}
use grcache.Service.{Result, CacheSpec, ServiceSpec}
use grcache.Tests.{headers, hasher, protobuf, pingora, name_a, dotted, without}
use grcache.Tests.Grpc.{varied, trailers}
use grcache.Store.{ServiceData}
use grcache.Grpc.{Headers, keep_header, make_vary_headers_set}
use grcache.Proxy.{
  parse_grpc_path, slash, Session, RequestCtx, GrpcMeta, Services, new_ctx, http_status,
  request_filter, request_cache_filter, as_secs, upstream_peer, caching, cache_hit_filter,
  cache_key_callback, upstream_response_trailer_filter, with_meta, prepare_cache, check_buffer,
  read_request_body, remove_headers, method_spec, present, two_elements, path_parts,
}
use grcache.Proxy.Path.{IsGrpcPath, parse_grpc_path-eq-ok}
use grcache.Proxy.Request.{request_filter-strips}
use grcache.Proxy.Callbacks.{upstream_peer-after_filter}
use grcache.Proxy.Cache.{
  IsOk, upstream_response_trailer_filter-IsOk, cache_key_callback-ignores_body,
}

-- `/p.a/a`
abbrev path : Text
path = slash ∷ (dotted ++ slash ∷ name_a)

parse_grpc_path-eq-ok_example :
    (parse_grpc_path path ≡ Result.ok (dotted, name_a))
    ↔ ((is_utf8 path ≡ true) × IsGrpcPath path dotted name_a)
parse_grpc_path-eq-ok_example = parse_grpc_path-eq-ok path dotted name_a

-- `p.a`, with a method `a` that is cached for 5 seconds.
abbrev entry : ServiceData (ServiceSpec protobuf) ℕ
entry = record {
  generation = 0;
  service_spec = some (record {
    name = record { package_name = 112 ∷ []; name = name_a };
    passthrough = false;
    methods =
        (
          name_a,
          record {
            name = name_a;
            descriptor = (name_a, some (record { cache_ttl = pos 5 }));
            cache_spec = some (record { hash_on = []; descriptor = record { cache_ttl = pos 5 } });
          },
        )
        ∷ [];
  });
  load_balancer = some 7;
}

abbrev pub services : Services headers protobuf pingora
services = (dotted, entry) ∷ []

abbrev pub session : Session headers protobuf pingora
session = record {
  raw_path = path;
  req_header = varied;
  incoming = Result.ok (0 ∷ []) ∷ Result.ok (1 ∷ []) ∷ [];
  retry_buffer = none;
  cache_enabled = false;
}

-- The session and the context that the filter leaves: the header `x` is gone.
abbrev pub after : Session headers protobuf pingora
after = record {
  raw_path = path;
  req_header = without (120 ∷ []) varied;
  incoming = [];
  retry_buffer = some (0 ∷ 1 ∷ []);
  cache_enabled = false;
}

abbrev meta : GrpcMeta headers protobuf pingora
meta = record { service_data = entry; method_name = name_a; vary_set = name_a ∷ dotted ∷ [] }

abbrev pub ctx_after : RequestCtx headers protobuf pingora
ctx_after = record { do_cache = true; grpc_meta = some meta }

pub filtered :
    request_filter headers protobuf pingora services session (new_ctx headers protobuf pingora)
    ≡ (Result.ok false, after, ctx_after)
unfolding request_filter parse_grpc_path is_utf8 path_parts grcache.Prelude.Str.split two_elements
    present grcache.Prelude.Map.lookup make_vary_headers_set grcache.Grpc.collect with_meta caching
    method_spec prepare_cache check_buffer read_request_body remove_headers
    grcache.Grpc.sorted_insert grcache.Grpc.find_strip_headers grcache.Prelude.Ascii.trim
    grcache.Prelude.Ascii.trim_start grcache.Prelude.Order.text_lt
filtered = refl

request_filter-strips_example :
    (vary_set : List Text) × (make_vary_headers_set headers varied ≡ Result.ok vary_set)
    × (contains (120 ∷ []) (headers.keys after.req_header)
        ≡ (contains (120 ∷ []) (headers.keys varied) && keep_header headers vary_set [] (120 ∷ [])))
    × ((keep_header headers vary_set [] (120 ∷ []) ≡ false)
        ⊎ (headers.get_all after.req_header (120 ∷ []) ≡ headers.get_all varied (120 ∷ [])))
request_filter-strips_example =
    request_filter-strips headers protobuf pingora services session after false ctx_after (120 ∷ [])
      filtered refl tt

upstream_peer-after_filter_example :
    (meta : GrpcMeta headers protobuf pingora) × (load_balancer : ℕ) × (ctx_after.grpc_meta
      ≡ some meta)
    × (meta.service_data.load_balancer ≡ some load_balancer)
    × (upstream_peer headers protobuf pingora ctx_after ≡ (elim (pingora.select load_balancer) [
      | some backend ↦ elim (pingora.as_inet backend) [
        | some inet ↦ some (Result.ok inet)
        | none ↦ none
      ]
      | none ↦ some (Result.err (http_status 502))
    ]))
    × (((caching headers protobuf pingora meta ≡ none) × (ctx_after.do_cache ≡ false))
        ⊎ ((c : CacheSpec) × (ttl : ℕ) × (buffer : Text) × (caching headers protobuf pingora meta
              ≡ some c)
            × (c.descriptor.cache_ttl ≡ pos ttl)
            × (after.retry_buffer ≡ some buffer)
            × (is_some (
                  cache_key_callback headers protobuf pingora hasher
                    (request_cache_filter headers protobuf pingora after ctx_after)
                    ctx_after)
                ≡ is_some (pingora.contents buffer))
            × (cache_hit_filter headers protobuf pingora 3000000000 ctx_after
                ≡ some (ltb (as_secs 3000000000) ttl))))
upstream_peer-after_filter_example =
    upstream_peer-after_filter headers protobuf pingora hasher services session after false
      ctx_after 3000000000 filtered (omega arith)

upstream_response_trailer_filter-IsOk_example :
    ((upstream_response_trailer_filter headers protobuf pingora trailers after).cache_enabled
      ≡ true)
    ↔ ((after.cache_enabled ≡ true) × IsOk headers trailers)
upstream_response_trailer_filter-IsOk_example =
    upstream_response_trailer_filter-IsOk headers protobuf pingora trailers after

-- The same request with another body.
abbrev other_body : Session headers protobuf pingora
other_body = record {
  raw_path = path;
  req_header = after.req_header;
  incoming = [];
  retry_buffer = some (0 ∷ 2 ∷ []);
  cache_enabled = true;
}

cache_key_callback-ignores_body_example :
    cache_key_callback headers protobuf pingora hasher after ctx_after
    ≡ cache_key_callback headers protobuf pingora hasher other_body ctx_after
cache_key_callback-ignores_body_example =
    cache_key_callback-ignores_body headers protobuf pingora hasher after other_body ctx_after
      ctx_after meta meta _ _ (0 ∷ 1 ∷ []) (0 ∷ 2 ∷ []) refl refl refl refl refl refl refl refl
