-- ===== src/Crd.antt =====
-- grcache-shared/src/config/crd.rs: the `GrcacheService` resource. Its metadata is the kube crate's;
-- what the code reads of it is the reference of the object.
use grcache.Prelude.{
  ℕ, ◌≡◌, ◌↔◌, Bool, true, ◌&&◌, Option, Text, ◌==◌, text_eq, option_eq, Eq, arith, eq_iff,
}

pub data Upstream : Type 0 where
  dns : (url : Text) → (port : ℕ) → Upstream

pub data DescriptorSetSource : Type 0 where
  file : (path : Text) → DescriptorSetSource
  bucket : (name : Text) → (hash : Text) → DescriptorSetSource
  inline : (encoded : Text) → DescriptorSetSource

-- `default_grpc_port`
abbrev pub default_grpc_port : ℕ
default_grpc_port = 50051

pub record GrcacheServiceSpec : Type 0 where
  pub cluster : Text
  pub upstream_name : Option Text
  pub upstream : Upstream
  pub service_name : Text
  pub descriptor_set_source : Option DescriptorSetSource

-- `kube::runtime::reflector::ObjectRef`, by the fields that the code reads; two references are
-- compared by them.
pub record ObjectRef : Type 0 where
  pub name : Text
  pub namespace : Option Text

abbrev pub object_ref_beq : ObjectRef → ObjectRef → Bool
object_ref_beq a b = a.name == b.name && a.namespace == b.namespace

pub object_ref_beq_iff : (a b : ObjectRef) → (object_ref_beq a b ≡ true) ↔ (a ≡ b)
object_ref_beq_iff a b = ground (arith, eq_iff a.name b.name, eq_iff a.namespace b.namespace)

instance abbrev pub object_ref_eq : Eq ObjectRef
object_ref_eq = record { beq = object_ref_beq; beq_iff = object_ref_beq_iff }

pub record GrcacheService (Metadata : Type 0) : Type 0 where
  pub metadata : Metadata
  pub spec : GrcacheServiceSpec
  pub open spec use *
