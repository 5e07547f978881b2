-- ===== src/Server/Metrics.antt =====
-- metricsRegistry of api/internal/server/metrics.go. The registry of
-- github.com/prometheus/client_golang is an interface; a collector is what the code makes it of.
pub mod Promises
pub mod Counts
pub mod Laws
use railway.Base.{ℕ, Bool, List, [], ◌∷◌, Option, none, some}
use railway.Text.{Text, codes}
use railway.Server.Defs.{MetricCall, inc_mint, inc_callback, inc_retry, set_dlq_depth}

-- prometheus.NewCounterVec and prometheus.NewGauge: a name, a help text, and the names of the labels.
pub data Collector : Type 0 where
  counter_vec : Text → Text → List Text → Collector
  gauge : Text → Text → Collector

abbrev pub collector_name : Collector → Text
collector_name (counter_vec name help labels) = name
collector_name (gauge name help) = name

-- `must_register` panics where it is `none`. `inc` is WithLabelValues(value).Inc() on a registered
-- vector with one label, and `set` is Set on a registered gauge. `counter` and `level` are what a
-- gathering shows; `has` tells whether a collector is registered.
pub record Prometheus : Type 1 where
  pub Registry : Type 0
  pub new_registry : Registry
  pub must_register : List Collector → Registry → Option Registry
  pub has : Collector → Registry → Bool
  pub inc : Collector → Text → Registry → Registry
  pub set : Collector → ℕ → Registry → Registry
  pub counter : Text → Text → Registry → ℕ
  pub level : Text → Registry → ℕ

pub record MetricsRegistry (prom : Prometheus) : Type 0 where
  pub registry : prom.Registry
  pub mint_intents_total : Collector
  pub callbacks_total : Collector
  pub retry_attempts_total : Collector
  pub dlq_depth : Collector

abbrev pub mint : Collector
mint =
    counter_vec (codes "fiatrails_mint_intents_total")
      (codes "Total number of mint intent submissions") (codes "status" ∷ [])

abbrev pub callbacks : Collector
callbacks =
    counter_vec (codes "fiatrails_callbacks_total")
      (codes "Total number of M-PESA callbacks processed") (codes "status" ∷ [])

abbrev pub retries : Collector
retries =
    counter_vec (codes "fiatrails_retry_attempts_total")
      (codes "Retry attempts for callback execution") (codes "result" ∷ [])

abbrev pub dlq : Collector
dlq = gauge (codes "fiatrails_dlq_depth") (codes "Number of items in the DLQ")

module _ (prom : Prometheus) where
  abbrev pub made_of : Option prom.Registry → Option (MetricsRegistry prom)
  made_of none = none
  made_of (some r) = some (record {
    registry = r;
    mint_intents_total = mint;
    callbacks_total = callbacks;
    retry_attempts_total = retries;
    dlq_depth = dlq;
  })

  unfoldable pub new_metrics_registry : Option (MetricsRegistry prom)
  new_metrics_registry =
      made_of (prom.must_register (mint ∷ callbacks ∷ retries ∷ dlq ∷ []) prom.new_registry)

  -- incMint, incCallback, incRetry and setDLQDepth.
  unfoldable pub apply_call : MetricCall → MetricsRegistry prom → MetricsRegistry prom
  apply_call (inc_mint status) m = record m {
    registry = prom.inc m.mint_intents_total status m.registry;
  }
  apply_call (inc_callback status) m = record m {
    registry = prom.inc m.callbacks_total status m.registry;
  }
  apply_call (inc_retry result) m = record m {
    registry = prom.inc m.retry_attempts_total result m.registry;
  }
  apply_call (set_dlq_depth depth) m = record m { registry = prom.set m.dlq_depth depth m.registry }

  -- The registry after the calls of a state, the newest first.
  unfoldable pub apply_calls : List MetricCall → MetricsRegistry prom → MetricsRegistry prom
  apply_calls [] m = m
  apply_calls (c ∷ cs) m = apply_call c (apply_calls cs m)
