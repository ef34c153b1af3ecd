-- ===== src/Metrics.antt =====
-- internal/metrics/metrics.go, as far as other parts move its metrics: a metric is the list of the
-- calls made on it, the newest first. The HTTP middleware and the Prometheus registry are left out.
use dcm_kcli_provider.Prelude.{String, List, ◌∷◌}
use dcm_kcli_provider.Prelude.Result.{Result, ok, err}

-- A call on the gauge `ResourcesManaged`, with its label.
pub data GaugeCall : Type 0 where
  inc dec : String → GaugeCall

-- An increment of the counter `KwebRequestsTotal`, by operation and result.
pub record KwebRequest : Type 0 where
  pub operation : String
  pub result : String

unfoldable pub record_kweb {ℓ κ} :
    {E : Type ℓ} {A : Type κ} → String → Result E A → List KwebRequest → List KwebRequest
record_kweb operation (ok _) log = record { operation = operation; result = "success" } ∷ log
record_kweb operation (err _) log = record { operation = operation; result = "error" } ∷ log
