-- ===== src/Health.antt =====
-- The health score: backend/workers/health_score_worker.py. The score of a charger is the entry of
-- its id in a dictionary, which stands for the column health_score of chargers.
pub mod Bounds
use charge_pulse.Prelude.{
  ℕ, ◌+◌, ◌-◌, ◌*◌, ◌==◌, leb, String, Bool, true, false, Option, none, some, List, [], ◌∷◌, ◌&&◌,
  select, map, length, is_some, str_eq, Dict, insert, if◌then◌else◌,
}
use charge_pulse.Prelude.Result.{Result, ok, err, type_error, ◌>>=◌}
use charge_pulse.Database.{Charger, Session}
use charge_pulse.Incidents.Rules.{Numbers}
use charge_pulse.Features.{Floats, is_completed, present}
use charge_pulse.Features.Worker.{FeatureRow}

-- a row of the view charger_uptime_hourly, as far as it is read
pub record UptimeRow : Type 0 where
  pub bucket : ℕ
  pub cp_id : String
  pub org_id : ℕ
  pub available_count : ℕ
  pub faulted_count : ℕ

-- the tables that a score is computed from
pub record HealthInputs (F : Type 0) : Type 0 where
  pub vectors : List (FeatureRow F)
  pub sessions : List Session
  pub uptime : List UptimeRow

-- COUNT(*) FILTER (WHERE is_anomaly)
abbrev pub is_anomalous : {F : Type 0} → FeatureRow F → Bool
is_anomalous r = elim r.is_anomaly [ none ↦ false | some b ↦ b ]

-- features[n], where SQL counts from 1
unfoldable pub element : {A : Type 0} → ℕ → List A → Option A
element n [] = none
element n (x ∷ xs) = if n == 1 then some x else element (n - 1) xs

abbrev pub sum_of : List ℕ → ℕ
sum_of [] = 0
sum_of (n ∷ ns) = n + sum_of ns

-- seven days, in microseconds
abbrev pub seven_days : ℕ
seven_days = 7 * 86400000000

-- A part of the score. PostgreSQL gives the SUM of a bigint column as a numeric, which asyncpg reads as a Decimal:
-- a quotient of two such sums, times 100, is a Decimal, and a float does not multiply it.
pub data Component (F : Type 0) : Type 0 where
  float : F → Component F
  quotient : ℕ → ℕ → Component F

-- the UPDATE, and the `except` that logs an error and goes on to the next charger
abbrev pub write_health : {F : Type 0} → String → Result F → Dict F → Dict F
write_health cp_id (ok score) scores = insert cp_id score scores
write_health cp_id (err e) scores = scores

module _ (nu : Numbers) (fl : Floats nu) where
  open nu use {F, decimal, less, equal}

  -- Python's `min(100.0, x)` and `max(0.0, x)`, which keep the first where the comparison fails
  abbrev min_100 : F → F
  min_100 x = if less x (decimal 1000 1) then x else decimal 1000 1

  abbrev max_0 : F → F
  max_0 x = if less (decimal 0 1) x then x else decimal 0 1

  -- `a / b if b else 1.0`
  abbrev share : ℕ → ℕ → F
  share a b = if b == 0 then decimal 10 1 else fl.ratio a b

  -- AVG, and `or 0.0`
  abbrev average : List F → F
  average [] = decimal 0 1
  average (x ∷ xs) =
      if equal (fl.mean (x ∷ xs)) (decimal 0 1) then decimal 0 1 else fl.mean (x ∷ xs)

  unfoldable pub anomaly_component : List (FeatureRow F) → F
  unfolding select
  anomaly_component rows =
      if length rows == 0
      then decimal 1000 1
      else fl.times
          (fl.minus (decimal 10 1) (fl.ratio (length (select is_anomalous rows)) (length rows)))
          (decimal 100 0)

  unfoldable pub completion_component : List Session → F
  unfolding select
  completion_component rows =
      fl.times
        (share (length (select is_completed rows))
          (length (select (λ s. is_some s.stop_reason) rows)))
        (decimal 100 0)

  unfoldable pub uptime_component : List UptimeRow → Component F
  uptime_component rows =
      let avail = sum_of (map (λ r. r.available_count) rows) in
      let faulted = sum_of (map (λ r. r.faulted_count) rows) in
      if avail + faulted == 0
      then Component.float (fl.times (decimal 10 1) (decimal 100 0))
      else Component.quotient avail (avail + faulted)

  -- a float times a component
  abbrev times_component : F → Component F → Result F
  times_component x (Component.float y) = ok (fl.times x y)
  times_component x (Component.quotient a b) = err type_error

  unfoldable pub hb_component : List (FeatureRow F) → F
  unfolding present element
  hb_component rows = max_0 (
      fl.minus (decimal 1000 1)
        (min_100 (average (present (map (λ r. element 21 r.features) rows)))))

  -- `compute_health`
  unfoldable pub compute_health : ℕ → HealthInputs F → String → Result F
  unfolding select anomaly_component completion_component uptime_component hb_component
  compute_health now t cp_id =
      let cutoff = now - seven_days in
      let vectors = select (λ r. str_eq r.cp_id cp_id && leb cutoff r.time) t.vectors in
      let sessions = select (λ s. str_eq s.cp_id cp_id && leb cutoff s.started_at) t.sessions in
      let uptime = select (λ r. str_eq r.cp_id cp_id && leb cutoff r.bucket) t.uptime in
      do
        weighted ← times_component (decimal 3 1) (uptime_component uptime)
        ok (
            max_0 (
              min_100 (
                fl.plus
                  (fl.plus
                    (fl.plus (fl.times (decimal 3 1) (anomaly_component vectors))
                      (fl.times (decimal 2 1) (completion_component sessions)))
                    weighted)
                  (fl.times (decimal 2 1) (hb_component vectors)))))

  -- `run_once`: the loop over the chargers, at the clock's readings
  unfoldable pub run_once : (ℕ → ℕ) → HealthInputs F → List Charger → Dict F → Dict F
  unfolding compute_health insert
  run_once clock t [] scores = scores
  run_once clock t (c ∷ rest) scores =
      run_once clock t rest
        (write_health c.cp_id (compute_health (clock (length rest)) t c.cp_id) scores)
