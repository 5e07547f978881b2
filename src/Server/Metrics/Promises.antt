-- ===== src/Server/Metrics/Promises.antt =====
-- What the code relies on of the registry of Prometheus.
use railway.Base.{
  ℕ, ◌+◌, ◌==◌, leb, ◌≡◌, Bool, true, false, ◌&&◌, ◌||◌, not, List, [], ◌∷◌, some, if◌then◌else◌,
}
use railway.Text.{Text, text_eq}
use railway.Server.Metrics.{Collector, counter_vec, gauge, collector_name, Prometheus}

-- Small letters and underscores, of which Prometheus takes any for a name, up to two leading ones.
unfoldable is_plain : Text → Bool
is_plain [] = true
is_plain (c ∷ s) = (c == b'_' || leb b'a' c && leb c b'z') && is_plain s

unfoldable pub is_named : Collector → Bool
unfolding is_plain
is_named (counter_vec (c ∷ name) help (l ∷ [])) = leb b'a' c && is_plain (c ∷ name) && is_plain l
is_named (gauge (c ∷ name) help) = leb b'a' c && is_plain (c ∷ name)
is_named _ = false

abbrev is_new : Text → List Collector → Bool
is_new name [] = true
is_new name (c ∷ cs) = not (text_eq name (collector_name c)) && is_new name cs

-- Plain names, and no name twice.
abbrev pub are_named : List Collector → Bool
are_named [] = true
are_named (c ∷ cs) = is_named c && is_new (collector_name c) cs && are_named cs

abbrev pub AllHas : (prom : Prometheus) → List Collector → prom.Registry → Type 0
AllHas prom [] r = Unit
AllHas prom (c ∷ cs) r = (prom.has c r ≡ true) × AllHas prom cs r

-- What the code relies on. A new registry takes collectors with plain names, none of them twice, and
-- has then counted nothing. A registered vector with one label counts under its name and the label's
-- value, and a registered gauge has its last value.
pub record IsPrometheus (prom : Prometheus) : Type 0 where
  pub registers :
      (cs : List Collector)
      → are_named cs ≡ true
      → (r : prom.Registry) × (prom.must_register cs prom.new_registry ≡ some r)
        × AllHas prom cs r
        × ((name value : Text) → prom.counter name value r ≡ 0)
        × ((name : Text) → prom.level name r ≡ 0)
  pub has-inc :
      (c d : Collector) (value : Text) (r : prom.Registry)
      → prom.has c (prom.inc d value r) ≡ prom.has c r
  pub has-set :
      (c d : Collector) (n : ℕ) (r : prom.Registry) → prom.has c (prom.set d n r) ≡ prom.has c r
  pub counter-inc :
      (name help label value other x : Text) (r : prom.Registry)
      → prom.has (counter_vec name help (label ∷ [])) r ≡ true
      → prom.counter other x (prom.inc (counter_vec name help (label ∷ [])) value r)
        ≡ (if text_eq name other && text_eq value x then 1 else 0) + prom.counter other x r
  pub counter-set :
      (other x : Text) (c : Collector) (n : ℕ) (r : prom.Registry)
      → prom.counter other x (prom.set c n r) ≡ prom.counter other x r
  pub level-inc :
      (other : Text) (c : Collector) (value : Text) (r : prom.Registry)
      → prom.level other (prom.inc c value r) ≡ prom.level other r
  pub level-set :
      (name help other : Text) (n : ℕ) (r : prom.Registry)
      → prom.has (gauge name help) r ≡ true
      → prom.level other (prom.set (gauge name help) n r)
        ≡ (if text_eq name other then n else prom.level other r)
