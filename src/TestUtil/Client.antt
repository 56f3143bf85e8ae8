-- ===== src/TestUtil/Client.antt =====
-- grcache-shared/src/test/grpc_client.rs: the request that `grpc_request` sends. The connection and
-- the response are those of the h2 crate.
use grcache.Prelude.{ℕ, zero, suc, ◌/◌, ◌%◌, ◌^◌, List, [], ◌∷◌, ◌++◌, Text, length}
use grcache.Proxy.{slash}

pub record Request : Type 0 where
  pub method : Text
  pub uri : Text
  pub headers : List (Text × Text)
  pub body : Text

-- The last `n` bytes of a number, the highest first.
unfoldable pub be_bytes : ℕ → ℕ → Text
be_bytes zero x = []
be_bytes (suc n) x = x / 256 ^ n % 256 ∷ be_bytes n x

-- `message.len() as u32`, and `put_u32`
abbrev pub put_u32 : ℕ → Text
put_u32 x = be_bytes 4 (x % 2 ^ 32)

unfoldable pub frame : Text → Text
frame message = 0 ∷ (put_u32 (length message) ++ message)

-- `/{}/{}`
abbrev pub uri_of : Text → Text → Text
uri_of service method = slash ∷ (service ++ slash ∷ method)

-- "POST"
abbrev pub post : Text
post = 80 ∷ 79 ∷ 83 ∷ 84 ∷ []

-- "content-type" with "application/grpc", and "host" with "localhost"
abbrev pub request_headers : List (Text × Text)
request_headers =
    (
      99 ∷ 111 ∷ 110 ∷ 116 ∷ 101 ∷ 110 ∷ 116 ∷ 45 ∷ 116 ∷ 121 ∷ 112 ∷ 101 ∷ [],
      97 ∷ 112 ∷ 112 ∷ 108 ∷ 105 ∷ 99 ∷ 97 ∷ 116 ∷ 105 ∷ 111 ∷ 110 ∷ 47 ∷ 103 ∷ 114 ∷ 112 ∷ 99 ∷ [],
    )
    ∷ (104 ∷ 111 ∷ 115 ∷ 116 ∷ [], 108 ∷ 111 ∷ 99 ∷ 97 ∷ 108 ∷ 104 ∷ 111 ∷ 115 ∷ 116 ∷ [])
    ∷ []

abbrev pub grpc_request : Text → Text → Text → Request
grpc_request service method message = record {
  method = post;
  uri = uri_of service method;
  headers = request_headers;
  body = frame message;
}
