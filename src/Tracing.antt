-- ===== src/Tracing.antt =====
-- grcache-proxy/src/tracing.rs, and `early_request_filter` of grcache-proxy/src/proxy/mod.rs: the trace
-- that the span of a request continues. The opentelemetry crates are the parameter `Telemetry`; `none`
-- is a panic. The spans that end and their export are left out.
use grcache.Prelude.{
  ◌≡◌, refl, ap, arith, Bool, Option, none, some, List, [], ◌∷◌, ◌++◌, Text, if◌then◌else◌,
  Bool-cases, Option-cases, inl, inr,
}
use mathlib.Core.Option.{some-injective}
use mathlib.Core.Path.{subst}
use grcache.Config.{TracingConfig}
use grcache.Store.{◌>>=◌}

pub data Propagator : Type 0 where
  trace_context : Propagator
  datadog : Propagator

-- What the code uses of the opentelemetry crates, as they document it.
pub record Telemetry : Type 1 where
  pub HeaderMap : Type 0
  pub SpanContext : Type 0
  pub Context : Type 0
  pub Span : Type 0
  pub Exporter : Type 0
  pub TracerProvider : Type 0
  -- the provider with the resource of a service name and with a batch exporter
  pub build_provider : Text → Exporter → TracerProvider
  -- whether the provider shuts down without an error
  pub shuts_down : TracerProvider → Bool
  pub new_context : Context
  pub remote_span_context : Context → Option SpanContext
  pub with_remote_span_context : SpanContext → Context → Context
  -- the span context that the headers of a propagator carry
  pub carried : Propagator → HeaderMap → Option SpanContext
  -- of the span `request`, of kind server
  pub start_with_context : Context → Span
  pub remote_span_context-new : remote_span_context new_context ≡ none
  pub remote_span_context-with :
      (sc : SpanContext) (ctx : Context)
      → remote_span_context (with_remote_span_context sc ctx) ≡ some sc

-- The propagators that `init` collects.
abbrev pub propagators_of : TracingConfig → List Propagator
propagators_of config =
    (if config.opentelemetry_propagator then trace_context ∷ [] else [])
    ++ (if config.datadog_propagator then datadog ∷ [] else [])

-- "grcache-proxy", of `get_resource`
abbrev pub service_name : Text
service_name =
    b'g' ∷ b'r' ∷ b'c' ∷ b'a' ∷ b'c' ∷ b'h' ∷ b'e' ∷ b'-' ∷ b'p' ∷ b'r' ∷ b'o' ∷ b'x' ∷ b'y' ∷ []

module _ (o : Telemetry) where
  open o use {
    HeaderMap, SpanContext, Context, Span, Exporter, TracerProvider, build_provider, shuts_down,
    new_context, remote_span_context, with_remote_span_context, carried, start_with_context,
  }

  -- The propagators of the global composite, and the global provider, which `Tracing` keeps too. Without
  -- `init` there are none.
  pub record Global : Type 0 where
    pub text_map_propagator : List Propagator
    pub tracer_provider : Option TracerProvider

  abbrev pub uninitialised : Global
  uninitialised = record { text_map_propagator = []; tracer_provider = none }

  -- `Tracing::init`, with what the build of the exporter returns.
  unfoldable pub init : Option Exporter → TracingConfig → Option Global
  init built config = do
    exporter ← built
    some (record {
      text_map_propagator = propagators_of config;
      tracer_provider = some (build_provider service_name exporter);
    })

  -- `Tracing::shutdown`, whether it returns: it panics on an error.
  unfoldable pub shutdown : TracerProvider → Bool
  shutdown tracer_provider = shuts_down tracer_provider

  -- `extract_with_context` of a propagator
  abbrev pub extract_with_context : Propagator → HeaderMap → Context → Context
  extract_with_context propagator headers ctx = elim (carried propagator headers) [
    | some sc ↦ with_remote_span_context sc ctx
    | none ↦ ctx
  ]

  -- The composite, over its propagators in their order.
  unfoldable pub extract : List Propagator → HeaderMap → Context → Context
  extract [] headers ctx = ctx
  extract (propagator ∷ l) headers ctx =
      extract l headers (extract_with_context propagator headers ctx)

  unfoldable pub extract_context_from_headers : Global → HeaderMap → Context
  extract_context_from_headers global headers =
      extract global.text_map_propagator headers new_context

  -- The span of the context of the request.
  unfoldable pub early_request_filter : Global → HeaderMap → Span
  early_request_filter global headers =
      start_with_context (extract_context_from_headers global headers)

  abbrev enabled : Bool → Option SpanContext → Option SpanContext
  enabled on sc = if on then sc else none

  abbrev or_else : Option SpanContext → Option SpanContext → Option SpanContext
  or_else (some sc) other = some sc
  or_else none other = other

  or_else-none : (x : Option SpanContext) → or_else x none ≡ x
  or_else-none (some sc) = refl
  or_else-none none = refl

  remote-extract_with_context :
      (propagator : Propagator) (headers : HeaderMap) (ctx : Context)
      → remote_span_context (extract_with_context propagator headers ctx)
        ≡ or_else (carried propagator headers) (remote_span_context ctx)
  remote-extract_with_context propagator headers ctx =
      elim (Option-cases (carried propagator headers)) [
        | inl e ↦ rw (e, extract_with_context) refl
        | inr (sc, e) ↦ rw (e, extract_with_context) (o.remote_span_context-with sc ctx)
      ]

  remote-extract :
      (config : TracingConfig) (headers : HeaderMap)
      → remote_span_context (extract (propagators_of config) headers new_context)
        ≡ or_else
            (enabled config.datadog_propagator (carried datadog headers))
            (enabled config.opentelemetry_propagator (carried trace_context headers))
  unfolding extract
  remote-extract config headers = elim (Bool-cases config.opentelemetry_propagator) [
    | inl a ↦ elim (Bool-cases config.datadog_propagator) [
      | inl b ↦
          rw
            (
              a, b, remote-extract_with_context, remote-extract_with_context,
              o.remote_span_context-new,
            )
            (ap (or_else (carried datadog headers)) (or_else-none (carried trace_context headers)))
      | inr b ↦
          rw (a, b, remote-extract_with_context, o.remote_span_context-new)
            (or_else-none (carried trace_context headers))
    ]
    | inr a ↦ elim (Bool-cases config.datadog_propagator) [
      | inl b ↦ rw (a, b, remote-extract_with_context, o.remote_span_context-new) refl
      | inr b ↦ rw (a, b, o.remote_span_context-new) refl
    ]
  ]

  -- Without `init`, no trace is continued. After it, the span of a request continues the trace of its
  -- datadog headers, if these are configured and carry one, and else that of its opentelemetry headers,
  -- if these are configured and carry one, and else none.
  remote_span_context-init :
      (built : Option Exporter) (config : TracingConfig) (global : Global) (headers : HeaderMap)
      → init built config ≡ some global
      → (remote_span_context (extract_context_from_headers uninitialised headers) ≡ none)
        × (remote_span_context (extract_context_from_headers global headers)
            ≡ or_else
                (enabled config.datadog_propagator (carried datadog headers))
                (enabled config.opentelemetry_propagator (carried trace_context headers)))
  unfolding init extract extract_context_from_headers
  remote_span_context-init none config global headers e = absurd (ground arith)
  remote_span_context-init (some exporter) config global headers e = (
    o.remote_span_context-new,
    subst
        (λ g.
          remote_span_context (extract_context_from_headers g headers)
          ≡ or_else (enabled config.datadog_propagator (carried datadog headers))
              (enabled config.opentelemetry_propagator (carried trace_context headers)))
        (some-injective _ _ e) (remote-extract config headers),
  )
