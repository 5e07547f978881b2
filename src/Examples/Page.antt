-- ===== src/Examples/Page.antt =====
-- The metrics of a registry that keeps a function for its counters and one for its gauges.
use railway.Base.{ℕ, ◌+◌, ◌≡◌, refl, true, ◌&&◌, List, [], ◌∷◌, none, some, if◌then◌else◌}
use railway.Text.{Text, codes, text_eq}
use railway.Server.Defs.{MetricCall, inc_mint, inc_retry, set_dlq_depth}
use railway.Server.Metrics.{
  Collector, collector_name, Prometheus, MetricsRegistry, new_metrics_registry, apply_calls,
}
use railway.Server.Metrics.Promises.{are_named, AllHas, IsPrometheus}
use railway.Server.Metrics.Counts.{mints_with, callbacks_with, retries_with, depth_after}
use railway.Server.Metrics.Laws.{apply_calls_lem}

abbrev Counts : Type 0
Counts = (Text → Text → ℕ) × (Text → ℕ)

abbrev prom : Prometheus
prom = record {
  Registry = Counts;
  new_registry = (λ name x. 0, λ name. 0);
  must_register = λ cs r. if are_named cs then some r else none;
  has = λ c r. true;
  inc = λ c value r. (
    λ name x. (if text_eq (collector_name c) name && text_eq value x then 1 else 0) + r.0 name x,
    r.1,
  );
  set = λ c n r. (r.0, λ name. if text_eq (collector_name c) name then n else r.1 name);
  counter = λ name x r. r.0 name x;
  level = λ name r. r.1 name;
}

all_has : (cs : List Collector) → AllHas prom cs prom.new_registry
all_has [] = tt
all_has (c ∷ cs) = (refl, all_has cs)

prom-IsPrometheus : IsPrometheus prom
prom-IsPrometheus = record {
  registers =
      λ cs named. (prom.new_registry, rw named, all_has cs, λ name value. refl, λ name. refl);
  has-inc = λ c d value r. refl;
  has-set = λ c d n r. refl;
  counter-inc = λ name help label value other x r h. refl;
  counter-set = λ other x c n r. refl;
  level-inc = λ other c value r. refl;
  level-set = λ name help other n r h. refl;
}

abbrev calls : List MetricCall
calls =
    inc_mint (codes "created")
    ∷ set_dlq_depth 2
    ∷ inc_mint (codes "cached")
    ∷ inc_retry (codes "failed")
    ∷ inc_mint (codes "created")
    ∷ set_dlq_depth 1
    ∷ []

created_twice : mints_with (codes "created") calls ≡ 2
unfolding codes text_eq
created_twice = refl

apply_calls_lem_example :
    (m : MetricsRegistry prom) × (new_metrics_registry prom ≡ some m)
    × (prom.counter
          (codes "fiatrails_mint_intents_total")
          (codes "created")
          (apply_calls prom calls m).registry
        ≡ mints_with (codes "created") calls)
    × (prom.counter
          (codes "fiatrails_callbacks_total")
          (codes "created")
          (apply_calls prom calls m).registry
        ≡ callbacks_with (codes "created") calls)
    × (prom.counter
          (codes "fiatrails_retry_attempts_total")
          (codes "created")
          (apply_calls prom calls m).registry
        ≡ retries_with (codes "created") calls)
    × (prom.level (codes "fiatrails_dlq_depth") (apply_calls prom calls m).registry
        ≡ depth_after calls)
apply_calls_lem_example = apply_calls_lem prom prom-IsPrometheus calls (codes "created")
