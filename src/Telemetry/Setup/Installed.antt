-- ===== src/Telemetry/Setup/Installed.antt =====
-- What Setup leaves behind.
use image_forge.Prelude.{◌≡◌, ◌≢◌, true, false, none, some, [], trim_space}
use image_forge.Errors.{Error, Result, ok, err}
use image_forge.Config.Telemetry.{Tracing}
use image_forge.Telemetry.Endpoint.{Net, Otlp, exporter_options}
use image_forge.Telemetry.Endpoint.Accepted.{HasForm}
use image_forge.Telemetry.Setup.{TracerProvider, Globals, Provider, Sdk, resource_attrs}

module _ {F R X U : Type 0} (sdk : Sdk F R) (net : Net U) (otlp : Otlp X) where
  -- A tracer provider for the resource of the configuration, whose ratio is neither zero or less nor
  -- above one. A ratio that is not a number is neither, and is kept.
  pub record IsUsable (cfg : Tracing F) (tp : TracerProvider F R X) : Type 0 where
    pub resource_merged : sdk.merge (resource_attrs cfg) ≡ ok tp.resource
    pub not_le_zero : sdk.le_zero tp.sample_ratio ≡ false
    pub not_gt_one : sdk.gt_one tp.sample_ratio ≡ false

  abbrev pub installing : TracerProvider F R X → Globals F R X
  installing tp = record { tracer_provider = some tp; propagating = true; errors_logged = true }

  -- How a call of `Setup` can end.
  pub data Outcome (cfg : Tracing F) (g : Globals F R X)
      : Globals F R X → Result (Provider F R X) → Type 0 where
    off : cfg.disabled ≡ true → Outcome cfg g g (ok (record { tp = none; exporting = false }))
    refused : (e : Error) → Outcome cfg g g (err e)
    recording :
        (tp : TracerProvider F R X)
        → IsUsable cfg tp
        → tp.exporter ≡ none
        → trim_space cfg.endpoint ≡ []
        → Outcome cfg g (installing tp) (ok (record { tp = some tp; exporting = false }))
    sending :
        (tp : TracerProvider F R X) (x : X)
        → IsUsable cfg tp
        → tp.exporter ≡ some x
        → trim_space cfg.endpoint ≢ []
        → HasForm net (trim_space cfg.endpoint)
        → otlp (exporter_options net (trim_space cfg.endpoint) cfg.insecure) ≡ ok x
        → Outcome cfg g (installing tp) (ok (record { tp = some tp; exporting = true }))
