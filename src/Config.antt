-- ===== src/Config.antt =====
-- grcache-shared/src/config/mod.rs: the configuration file. How it is read is serde's.
use grcache.Prelude.{ℕ, Bool, Option, Text, List}

pub data TracingExporterConfig : Type 0 where
  otlp : TracingExporterConfig

pub record TracingConfig : Type 0 where
  pub datadog_propagator : Bool
  pub opentelemetry_propagator : Bool
  pub exporter : TracingExporterConfig

-- The headers are a set.
pub record ProxyConfig : Type 0 where
  pub propagation_headers : List Text

-- `default_redis_port`, where the file has no port
abbrev pub default_redis_port : ℕ
default_redis_port = 6379

pub data CacheBackend : Type 0 where
  redis_replicas : (hostname : Text) → (port : ℕ) → CacheBackend

pub record KubernetesConfig : Type 0 where
  pub enable : Bool

pub record ConfigFile : Type 0 where
  pub kubernetes : KubernetesConfig
  pub cache_backend : CacheBackend
  pub proxy : ProxyConfig
  pub tracing : Option TracingConfig

-- Of an S3 bucket: the prefix of the environment variables that describe it.
pub data BucketConfig : Type 0 where
  env : (prefix : Text) → BucketConfig

pub data ProtobufDescriptorSetConfig : Type 0 where
  file : (path : Text) → ProtobufDescriptorSetConfig
  bucket : (name : Text) → (hash : Text) → ProtobufDescriptorSetConfig

pub data EvictionEventConfig : Type 0 where
