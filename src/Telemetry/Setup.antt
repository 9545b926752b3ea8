-- ===== src/Telemetry/Setup.antt =====
-- internal/telemetry/telemetry.go: Setup and the end of a Provider. The SDK is a parameter; a tracer
-- provider is what it is built of, and the process globals of otel are the state.
pub mod Installed
use image_forge.Prelude.{
  Bool, true, false, ◌||◌, Option, none, some, List, [], ◌∷◌, ◌++◌, Text, codes, text_eq,
  trim_space, if◌then◌else◌,
}
use image_forge.Errors.{canceled, Error, wrap, is, Result, ok, err}
use image_forge.Config.Telemetry.{Tracing}
use image_forge.Telemetry.Endpoint.{Net, Otlp, new_exporter}

abbrev pub scope_name : Text
scope_name = codes "imageforge"

-- A resource `R`, and an exporter `X` if there is one.
pub record TracerProvider (F R X : Type 0) : Type 0 where
  pub resource : R
  pub sample_ratio : F
  pub exporter : Option X

-- The globals of otel.
pub record Globals (F R X : Type 0) : Type 0 where
  pub tracer_provider : Option (TracerProvider F R X)
  -- trace context and baggage
  pub propagating : Bool
  pub errors_logged : Bool

-- `Provider`
pub record Provider (F R X : Type 0) : Type 0 where
  pub tp : Option (TracerProvider F R X)
  pub exporting : Bool

-- Tests on floats, and the merging of attributes with the default resource.
pub record Sdk (F R : Type 0) : Type 0 where
  pub le_zero : F → Bool
  pub gt_one : F → Bool
  pub one : F
  pub merge : List (Text × Text) → Result R

named : Text → Text → List (Text × Text)
unfolding text_eq
named key value = if text_eq value [] then [] else (key, value) ∷ []

-- The attributes of `Setup`, under the names of the semantic conventions.
unfoldable pub resource_attrs : {F : Type 0} → Tracing F → List (Text × Text)
unfolding named text_eq
resource_attrs cfg =
    (codes "service.name", if text_eq cfg.service_name [] then scope_name else cfg.service_name)
      ∷ named (codes "service.version") cfg.service_version
    ++ named (codes "deployment.environment.name") cfg.environment

module _ {F R X U : Type 0} (sdk : Sdk F R) (net : Net U) (otlp : Otlp X) where
  unfoldable pub ratio : F → F
  ratio r = if sdk.le_zero r || sdk.gt_one r then sdk.one else r

  installed : Tracing F → R → Option X → Bool → Globals F R X × Result (Provider F R X)
  unfolding ratio
  installed cfg res exporter exporting =
      let tp : TracerProvider F R X = record {
        resource = res;
        sample_ratio = ratio cfg.sample_ratio;
        exporter = exporter;
      } in
      (
        record { tracer_provider = some tp; propagating = true; errors_logged = true },
        ok (record { tp = some tp; exporting = exporting }),
      )

  exported : Tracing F → R → Result X → Globals F R X → Globals F R X × Result (Provider F R X)
  unfolding installed
  exported cfg res (err e) g = (g, err e)
  exported cfg res (ok x) g = installed cfg res (some x) true

  merged : Tracing F → Result R → Globals F R X → Globals F R X × Result (Provider F R X)
  unfolding installed exported text_eq trim_space new_exporter
  merged cfg (err e) g = (g, err (wrap (codes "telemetry: build the resource: ") e []))
  merged cfg (ok res) g =
      let endpoint = trim_space cfg.endpoint in
      if text_eq endpoint []
      then installed cfg res none false
      else exported cfg res (new_exporter net otlp endpoint cfg.insecure) g

  -- `Setup`
  unfoldable pub setup : Tracing F → Globals F R X → Globals F R X × Result (Provider F R X)
  unfolding merged resource_attrs
  setup cfg g =
      if cfg.disabled
      then (g, ok (record { tp = none; exporting = false }))
      else merged cfg (sdk.merge (resource_attrs cfg)) g

flushed : Option Error → Option Error
flushed none = none
flushed (some e) = if is e canceled then none else some (wrap (codes "telemetry: shutdown: ") e [])

module _ {F R X : Type 0} where
  -- `Provider.Exporting`
  unfoldable pub is_exporting : Option (Provider F R X) → Bool
  is_exporting none = false
  is_exporting (some p) = p.exporting

  -- `Provider.Shutdown`, over the tracer provider's.
  unfoldable pub shutdown :
      {W : Type 0}
      → (TracerProvider F R X → W → W × Option Error)
      → Option (Provider F R X)
      → W
      → W × Option Error
  unfolding flushed
  shutdown stop none w = (w, none)
  shutdown stop (some p) w = elim p.tp [
    | none ↦ (w, none)
    | some tp ↦ let (w', failure) = stop tp w in (w', flushed failure)
  ]
