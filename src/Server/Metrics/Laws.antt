-- ===== src/Server/Metrics/Laws.antt =====
-- What the metrics page shows.
use railway.Base.{ℕ, ◌+◌, ◌≡◌, refl, true, List, [], ◌∷◌, some, ap, ◌∙◌, arith}
use railway.Text.{Text, codes, text_eq, text_eq_refl}
use railway.Server.Defs.{MetricCall, inc_mint, inc_callback, inc_retry, set_dlq_depth}
use railway.Server.Metrics.Promises.{is_named, are_named, AllHas, IsPrometheus}
use railway.Server.Metrics.{
  Collector, collector_name, Prometheus, MetricsRegistry, mint, callbacks, retries, dlq, made_of,
  new_metrics_registry, apply_call, apply_calls,
}
use railway.Server.Metrics.Counts.{
  mints_with, callbacks_with, retries_with, depth_after, weight, total, total-mint, total-callbacks,
  total-retries,
}

collectors-are_named : are_named (mint ∷ callbacks ∷ retries ∷ dlq ∷ []) ≡ true
unfolding is_named codes text_eq
collectors-are_named = refl

abbrev collectors : List Collector
collectors = mint ∷ callbacks ∷ retries ∷ dlq ∷ []

module _ (prom : Prometheus) (lawful : IsPrometheus prom) where
  AllHas-inc :
      (cs : List Collector) (d : Collector) (value : Text) (r : prom.Registry)
      → AllHas prom cs r
      → AllHas prom cs (prom.inc d value r)
  AllHas-inc [] d value r all = tt
  AllHas-inc (c ∷ cs) d value r (h, all) =
      (lawful.has-inc c d value r ∙ h, AllHas-inc cs d value r all)

  AllHas-set :
      (cs : List Collector) (d : Collector) (n : ℕ) (r : prom.Registry)
      → AllHas prom cs r
      → AllHas prom cs (prom.set d n r)
  AllHas-set [] d n r all = tt
  AllHas-set (c ∷ cs) d n r (h, all) = (lawful.has-set c d n r ∙ h, AllHas-set cs d n r all)

  -- A call, on the registry itself.
  abbrev applied : MetricCall → prom.Registry → prom.Registry
  applied (inc_mint value) r = prom.inc mint value r
  applied (inc_callback value) r = prom.inc callbacks value r
  applied (inc_retry value) r = prom.inc retries value r
  applied (set_dlq_depth n) r = prom.set dlq n r

  abbrev all_applied : List MetricCall → prom.Registry → prom.Registry
  all_applied [] r = r
  all_applied (c ∷ cs) r = applied c (all_applied cs r)

  abbrev started : prom.Registry → MetricsRegistry prom
  started r = record {
    registry = r;
    mint_intents_total = mint;
    callbacks_total = callbacks;
    retry_attempts_total = retries;
    dlq_depth = dlq;
  }

  apply_call-started :
      (c : MetricCall) (r : prom.Registry) → apply_call prom c (started r) ≡ started (applied c r)
  unfolding apply_call
  apply_call-started (inc_mint value) r = refl
  apply_call-started (inc_callback value) r = refl
  apply_call-started (inc_retry value) r = refl
  apply_call-started (set_dlq_depth n) r = refl

  apply_calls-started :
      (cs : List MetricCall) (r : prom.Registry)
      → apply_calls prom cs (started r) ≡ started (all_applied cs r)
  unfolding apply_calls
  apply_calls-started [] r = refl
  apply_calls-started (c ∷ cs) r =
      ap (apply_call prom c) (apply_calls-started cs r) ∙ apply_call-started c (all_applied cs r)

  AllHas-applied :
      (c : MetricCall) (r : prom.Registry)
      → AllHas prom collectors r
      → AllHas prom collectors (applied c r)
  AllHas-applied (inc_mint value) r all = AllHas-inc collectors mint value r all
  AllHas-applied (inc_callback value) r all = AllHas-inc collectors callbacks value r all
  AllHas-applied (inc_retry value) r all = AllHas-inc collectors retries value r all
  AllHas-applied (set_dlq_depth n) r all = AllHas-set collectors dlq n r all

  AllHas-all_applied :
      (cs : List MetricCall) (r : prom.Registry)
      → AllHas prom collectors r
      → AllHas prom collectors (all_applied cs r)
  AllHas-all_applied [] r all = all
  AllHas-all_applied (c ∷ cs) r all = AllHas-applied c _ (AllHas-all_applied cs r all)

  counter-applied :
      (c : MetricCall) (name x : Text) (r : prom.Registry)
      → AllHas prom collectors r
      → prom.counter name x (applied c r) ≡ weight name x c + prom.counter name x r
  counter-applied (inc_mint value) name x r (m, (c, (t, rest))) =
      lawful.counter-inc _ _ _ value name x r m
  counter-applied (inc_callback value) name x r (m, (c, (t, rest))) =
      lawful.counter-inc _ _ _ value name x r c
  counter-applied (inc_retry value) name x r (m, (c, (t, rest))) =
      lawful.counter-inc _ _ _ value name x r t
  counter-applied (set_dlq_depth n) name x r all = omega (arith, lawful.counter-set name x dlq n r)

  counter-all_applied :
      (cs : List MetricCall) (name x : Text) (r : prom.Registry)
      → AllHas prom collectors r
      → prom.counter name x r ≡ 0
      → prom.counter name x (all_applied cs r) ≡ total name x cs
  counter-all_applied [] name x r all none_yet = none_yet
  counter-all_applied (c ∷ cs) name x r all none_yet =
      counter-applied c name x (all_applied cs r) (AllHas-all_applied cs r all)
      ∙ ap (λ n. weight name x c + n) (counter-all_applied cs name x r all none_yet)

  level-all_applied :
      (cs : List MetricCall) (r : prom.Registry)
      → AllHas prom collectors r
      → prom.level (collector_name dlq) r ≡ 0
      → prom.level (collector_name dlq) (all_applied cs r) ≡ depth_after cs
  level-all_applied [] r all none_yet = none_yet
  level-all_applied (inc_mint value ∷ cs) r all none_yet =
      lawful.level-inc _ _ value _ ∙ level-all_applied cs r all none_yet
  level-all_applied (inc_callback value ∷ cs) r all none_yet =
      lawful.level-inc _ _ value _ ∙ level-all_applied cs r all none_yet
  level-all_applied (inc_retry value ∷ cs) r all none_yet =
      lawful.level-inc _ _ value _ ∙ level-all_applied cs r all none_yet
  level-all_applied (set_dlq_depth n ∷ cs) r all none_yet =
      let (_, (_, (_, (has, _)))) = AllHas-all_applied cs r all in
      lawful.level-set _ _ (collector_name dlq) n _ has ∙ rw (text_eq_refl (collector_name dlq))

  -- The registration of the collectors does not panic. After any calls, each counter shows, for each
  -- value of its label, how many calls had that value, and the gauge shows the depth that was set last.
  pub apply_calls_lem :
      (calls : List MetricCall) (x : Text)
      → (m : MetricsRegistry prom) × (new_metrics_registry prom ≡ some m)
        × (prom.counter (codes "fiatrails_mint_intents_total") x (apply_calls prom calls m).registry
            ≡ mints_with x calls)
        × (prom.counter (codes "fiatrails_callbacks_total") x (apply_calls prom calls m).registry
            ≡ callbacks_with x calls)
        × (prom.counter
              (codes "fiatrails_retry_attempts_total")
              x
              (apply_calls prom calls m).registry
            ≡ retries_with x calls)
        × (prom.level (codes "fiatrails_dlq_depth") (apply_calls prom calls m).registry
            ≡ depth_after calls)
  unfolding new_metrics_registry
  apply_calls_lem calls x =
      let (r, made, all, counters, levels) = lawful.registers collectors collectors-are_named in
      let e = apply_calls-started calls r in
      (
        started r,
        ap (made_of prom) made,
        rw e (counter-all_applied calls _ x r all (counters _ x) ∙ total-mint x calls),
        rw e (counter-all_applied calls _ x r all (counters _ x) ∙ total-callbacks x calls),
        rw e (counter-all_applied calls _ x r all (counters _ x) ∙ total-retries x calls),
        rw e (level-all_applied calls r all (levels _)),
      )
