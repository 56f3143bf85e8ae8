-- ===== src/DescriptorSet/Tasks.antt =====
-- The tasks that grcache-proxy/src/service_store.rs spawns for services with a descriptor source.
use grcache.Prelude.{◌≡◌, refl, Option, List, Text, text_eq}
use grcache.Prelude.Map.{Map}
use grcache.Crd.{DescriptorSetSource}
use grcache.Service.{Protobuf, Result, ServiceSpec, ValidationError, build}
use grcache.Store.{Task, ServiceData, finish_task}
use grcache.DescriptorSet.{Sources, dummy_panic_context, from_source, load, run_task, Fetches}

module _ (p : Protobuf) (c : Sources) {Handle : Type 0} where
  open p use {FileDescriptorSet, parse_from_bytes}

  -- What a task has built its spec from.
  abbrev pub Builds : Task Handle → ServiceSpec p → Type 0
  Builds t spec =
      (buf : Text) × (descriptor_set : FileDescriptorSet) × (errors : List ValidationError)
      × Fetches p c (dummy_panic_context p c) t.source buf
      × (parse_from_bytes buf ≡ Result.ok descriptor_set)
      × (build p descriptor_set t.service ≡ Result.ok (spec, errors))

  -- A task whose source is a bucket leaves the published services as they are: it panics, since the
  -- context that it is given has no bucket.
  pub finish_task-bucket :
      (t : Task Handle) (name hash : Text)
      (services : Map Text (ServiceData (ServiceSpec p) Handle))
      → t.source ≡ DescriptorSetSource.bucket name hash
      → finish_task (t, run_task p c t) services ≡ services
  unfolding run_task from_source load finish_task
  finish_task-bucket t name hash services e = rw (e, run_task, from_source, load, finish_task) refl
