-- ===== src/Server/Metrics/Counts.antt =====
-- What the counters and the gauge of api/internal/server/metrics.go are of a sequence of calls.
use railway.Base.{ℕ, ◌+◌, ◌≡◌, refl, false, ◌&&◌, List, [], ◌∷◌, arith, if◌then◌else◌}
use railway.Text.{Text, codes, text_eq, text_eq_refl}
use railway.Server.Defs.{MetricCall, inc_mint, inc_callback, inc_retry, set_dlq_depth}
use railway.Server.Metrics.{collector_name, mint, callbacks, retries}

abbrev pub mints_with : Text → List MetricCall → ℕ
mints_with x [] = 0
mints_with x (inc_mint value ∷ cs) = (if text_eq value x then 1 else 0) + mints_with x cs
mints_with x (_ ∷ cs) = mints_with x cs

abbrev pub callbacks_with : Text → List MetricCall → ℕ
callbacks_with x [] = 0
callbacks_with x (inc_callback value ∷ cs) =
    (if text_eq value x then 1 else 0) + callbacks_with x cs
callbacks_with x (_ ∷ cs) = callbacks_with x cs

abbrev pub retries_with : Text → List MetricCall → ℕ
retries_with x [] = 0
retries_with x (inc_retry value ∷ cs) = (if text_eq value x then 1 else 0) + retries_with x cs
retries_with x (_ ∷ cs) = retries_with x cs

-- The depth that was set last; the newest call comes first.
abbrev pub depth_after : List MetricCall → ℕ
depth_after [] = 0
depth_after (set_dlq_depth n ∷ cs) = n
depth_after (_ ∷ cs) = depth_after cs

mint-ne-callbacks : text_eq (collector_name mint) (collector_name callbacks) ≡ false
unfolding codes text_eq
mint-ne-callbacks = refl

mint-ne-retries : text_eq (collector_name mint) (collector_name retries) ≡ false
unfolding codes text_eq
mint-ne-retries = refl

callbacks-ne-retries : text_eq (collector_name callbacks) (collector_name retries) ≡ false
unfolding codes text_eq
callbacks-ne-retries = refl

callbacks-ne-mint : text_eq (collector_name callbacks) (collector_name mint) ≡ false
unfolding codes text_eq
callbacks-ne-mint = refl

retries-ne-mint : text_eq (collector_name retries) (collector_name mint) ≡ false
unfolding codes text_eq
retries-ne-mint = refl

retries-ne-callbacks : text_eq (collector_name retries) (collector_name callbacks) ≡ false
unfolding codes text_eq
retries-ne-callbacks = refl

-- What a call adds to the counter with this name and value.
abbrev pub weight : Text → Text → MetricCall → ℕ
weight name x (inc_mint value) =
    if text_eq (collector_name mint) name && text_eq value x then 1 else 0
weight name x (inc_callback value) =
    if text_eq (collector_name callbacks) name && text_eq value x then 1 else 0
weight name x (inc_retry value) =
    if text_eq (collector_name retries) name && text_eq value x then 1 else 0
weight name x (set_dlq_depth n) = 0

abbrev pub total : Text → Text → List MetricCall → ℕ
total name x [] = 0
total name x (c ∷ cs) = weight name x c + total name x cs

pub total-mint :
    (x : Text) (cs : List MetricCall) → total (collector_name mint) x cs ≡ mints_with x cs
total-mint x [] = refl
total-mint x (inc_mint value ∷ cs) = rw (text_eq_refl (collector_name mint), total-mint x cs)
total-mint x (inc_callback value ∷ cs) = rw callbacks-ne-mint (omega (arith, total-mint x cs))
total-mint x (inc_retry value ∷ cs) = rw retries-ne-mint (omega (arith, total-mint x cs))
total-mint x (set_dlq_depth n ∷ cs) = omega (arith, total-mint x cs)

pub total-callbacks :
    (x : Text) (cs : List MetricCall) → total (collector_name callbacks) x cs ≡ callbacks_with x cs
total-callbacks x [] = refl
total-callbacks x (inc_mint value ∷ cs) = rw mint-ne-callbacks (omega (arith, total-callbacks x cs))
total-callbacks x (inc_callback value ∷ cs) =
    rw (text_eq_refl (collector_name callbacks), total-callbacks x cs)
total-callbacks x (inc_retry value ∷ cs) =
    rw retries-ne-callbacks (omega (arith, total-callbacks x cs))
total-callbacks x (set_dlq_depth n ∷ cs) = omega (arith, total-callbacks x cs)

pub total-retries :
    (x : Text) (cs : List MetricCall) → total (collector_name retries) x cs ≡ retries_with x cs
total-retries x [] = refl
total-retries x (inc_mint value ∷ cs) = rw mint-ne-retries (omega (arith, total-retries x cs))
total-retries x (inc_callback value ∷ cs) =
    rw callbacks-ne-retries (omega (arith, total-retries x cs))
total-retries x (inc_retry value ∷ cs) =
    rw (text_eq_refl (collector_name retries), total-retries x cs)
total-retries x (set_dlq_depth n ∷ cs) = omega (arith, total-retries x cs)
