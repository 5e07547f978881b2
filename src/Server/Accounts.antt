-- ===== src/Server/Accounts.antt =====
-- The metrics of api/internal/server/metrics.go as an account of the calls on the chain.
use railway.Base.{ℕ, ◌+◌, ◌≡◌, refl, ◌∙◌, ap, sym, List, [], ◌∷◌, ◌++◌, arith, if◌then◌else◌}
use railway.Text.{Text, codes, text_eq}
use railway.Escrow.{SubmitIntentRequest}
use railway.Server.Defs.{
  MetricCall, inc_mint, inc_callback, inc_retry, set_dlq_depth, Parts, State, count_metric,
}
use mathlib.Core.List.{append_assoc}

-- A call of the escrow client.
pub data ChainCall : Type 0 where
  submits : SubmitIntentRequest → ChainCall
  executes : Text → ChainCall

abbrev pub submits_in : List ChainCall → ℕ
submits_in [] = 0
submits_in (submits req ∷ cs) = 1 + submits_in cs
submits_in (executes intent ∷ cs) = submits_in cs

abbrev pub executes_in : List ChainCall → ℕ
executes_in [] = 0
executes_in (submits req ∷ cs) = executes_in cs
executes_in (executes intent ∷ cs) = 1 + executes_in cs

-- The mint requests that the metrics count with another result than "cached".
abbrev pub uncached_mints : List MetricCall → ℕ
uncached_mints [] = 0
uncached_mints (inc_mint result ∷ ms) =
    (if text_eq result (codes "cached") then 0 else 1) + uncached_mints ms
uncached_mints (inc_callback result ∷ ms) = uncached_mints ms
uncached_mints (inc_retry result ∷ ms) = uncached_mints ms
uncached_mints (set_dlq_depth n ∷ ms) = uncached_mints ms

-- The attempts that the metrics count, with whatever result.
abbrev pub attempts : List MetricCall → ℕ
attempts [] = 0
attempts (inc_mint result ∷ ms) = attempts ms
attempts (inc_callback result ∷ ms) = attempts ms
attempts (inc_retry result ∷ ms) = 1 + attempts ms
attempts (set_dlq_depth n ∷ ms) = attempts ms

submits_in-append : (cs ds : List ChainCall) → submits_in (cs ++ ds) ≡ submits_in cs + submits_in ds
submits_in-append [] ds = omega arith
submits_in-append (submits req ∷ cs) ds = omega (arith, submits_in-append cs ds)
submits_in-append (executes intent ∷ cs) ds = submits_in-append cs ds

executes_in-append :
    (cs ds : List ChainCall) → executes_in (cs ++ ds) ≡ executes_in cs + executes_in ds
executes_in-append [] ds = omega arith
executes_in-append (submits req ∷ cs) ds = executes_in-append cs ds
executes_in-append (executes intent ∷ cs) ds = omega (arith, executes_in-append cs ds)

uncached_mints-append :
    (ms ns : List MetricCall) → uncached_mints (ms ++ ns) ≡ uncached_mints ms + uncached_mints ns
uncached_mints-append [] ns = omega arith
uncached_mints-append (inc_mint result ∷ ms) ns = omega (arith, uncached_mints-append ms ns)
uncached_mints-append (inc_callback result ∷ ms) ns = uncached_mints-append ms ns
uncached_mints-append (inc_retry result ∷ ms) ns = uncached_mints-append ms ns
uncached_mints-append (set_dlq_depth n ∷ ms) ns = uncached_mints-append ms ns

attempts-append : (ms ns : List MetricCall) → attempts (ms ++ ns) ≡ attempts ms + attempts ns
attempts-append [] ns = omega arith
attempts-append (inc_mint result ∷ ms) ns = attempts-append ms ns
attempts-append (inc_callback result ∷ ms) ns = attempts-append ms ns
attempts-append (inc_retry result ∷ ms) ns = omega (arith, attempts-append ms ns)
attempts-append (set_dlq_depth n ∷ ms) ns = attempts-append ms ns

module _ (p : Parts) where
  abbrev perform : ChainCall → p.client.Chain → p.client.Chain
  perform (submits req) chain = (p.client.submit_intent req chain).1
  perform (executes intent) chain = (p.client.execute_mint intent chain).1

  -- The chain after calls, the newest first.
  abbrev pub replay : List ChainCall → p.client.Chain → p.client.Chain
  replay [] chain = chain
  replay (c ∷ cs) chain = perform c (replay cs chain)

  replay-append :
      (cs ds : List ChainCall) (chain : p.client.Chain)
      → replay (cs ++ ds) chain ≡ replay cs (replay ds chain)
  replay-append [] ds chain = refl
  replay-append (c ∷ cs) ds chain = ap (perform c) (replay-append cs ds chain)

  -- Between two states: the calls on the chain and the calls on the metrics, and that the metrics
  -- count each SubmitIntent as one mint request that is not cached, and each ExecuteMint as one
  -- attempt.
  pub record IsAccounted (s t : State p) : Type 0 where
    pub calls : List ChainCall
    pub counted : List MetricCall
    pub chain_eq : t.chain ≡ replay calls s.chain
    pub metrics_eq : t.metrics ≡ counted ++ s.metrics
    pub submits_eq : submits_in calls ≡ uncached_mints counted
    pub executes_eq : executes_in calls ≡ attempts counted

  -- Nothing is called and nothing is counted.
  pub unchanged : (s t : State p) → t.chain ≡ s.chain → t.metrics ≡ s.metrics → IsAccounted s t
  unchanged s t chain metrics = record {
    calls = [];
    counted = [];
    chain_eq = chain;
    metrics_eq = metrics;
    submits_eq = refl;
    executes_eq = refl;
  }

  pub followed : (s t u : State p) → IsAccounted s t → IsAccounted t u → IsAccounted s u
  followed s t u a b = record {
    calls = b.calls ++ a.calls;
    counted = b.counted ++ a.counted;
    chain_eq =
        b.chain_eq ∙ ap (replay b.calls) a.chain_eq ∙ sym (replay-append b.calls a.calls s.chain);
    metrics_eq =
        b.metrics_eq
        ∙ ap (◌++◌ b.counted) a.metrics_eq
        ∙ sym (append_assoc b.counted a.counted s.metrics);
    submits_eq = omega (
      arith,
      submits_in-append b.calls a.calls,
      uncached_mints-append b.counted a.counted,
      a.submits_eq,
      b.submits_eq,
    );
    executes_eq = omega (
      arith,
      executes_in-append b.calls a.calls,
      attempts-append b.counted a.counted,
      a.executes_eq,
      b.executes_eq,
    );
  }

  -- A call on the metrics that counts neither.
  pub noted :
      (c : MetricCall) (s : State p)
      → uncached_mints (c ∷ []) ≡ 0
      → attempts (c ∷ []) ≡ 0
      → IsAccounted s (count_metric c s)
  noted c s h k = record {
    calls = [];
    counted = c ∷ [];
    chain_eq = refl;
    metrics_eq = refl;
    submits_eq = omega (arith, h);
    executes_eq = omega (arith, k);
  }
