-- ===== src/TestUtil/MockStorage.antt =====
-- grcache-proxy/src/test_util/mock_storage.rs: a storage without entries. Its operations take keys,
-- metas and spans that it does not read, and are left out here; `none` is a panic.
use grcache.Prelude.{ℕ, Bool, Option, none, some, Text}
use grcache.Service.{Result}

-- Pingora's error, and what `lookup` returns of an entry.
module _ (Error CacheMeta HitHandler : Type 0) where
  pub data MockMissHandler : Type 0 where
    mock_miss_handler : MockMissHandler

  abbrev pub write_body : Text → Bool → MockMissHandler → Result {0, 0} Unit Error
  write_body bytes eof handler = Result.ok tt

  abbrev pub finish : MockMissHandler → Result ℕ Error
  finish handler = Result.ok 1000

  abbrev pub lookup : Option (Result (Option (CacheMeta × HitHandler)) Error)
  lookup = some (Result.ok none)

  abbrev pub get_miss_handler : Option (Result MockMissHandler Error)
  get_miss_handler = some (Result.ok mock_miss_handler)

  abbrev pub purge : Option (Result Bool Error)
  purge = none

  abbrev pub update_meta : Option (Result Bool Error)
  update_meta = none
