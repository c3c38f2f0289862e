-- ===== src/Features.antt =====
-- The features of a window: backend/ml/features.py. A time is a number of microseconds since 1970, and
-- the lengths of time are kept exact until a feature is made of them. A payload is read as the handlers of the
-- gateway wrote it: `_decode` gives back what was stored.
mod Inputs
pub mod Durations
pub mod Counts
pub mod Worker
pub mod Stored
pub mod Windows
pub mod Reruns
unfoldable pub use Inputs.*
use charge_pulse.Prelude.{
  ℕ, zero, suc, ◌+◌, ◌-◌, ◌*◌, ◌/◌, ◌%◌, max, ◌==◌, ltb, leb, ℤ, String, Bool, true, false, Option,
  none, some, List, [], ◌∷◌, ◌++◌, ◌&&◌, ◌||◌, not, any, select, map, length, lookup, insert, Dict,
  truthy, get_or, contains, str_eq, if◌then◌else◌,
}
use charge_pulse.Database.{Session, OcppEvent}
use charge_pulse.Database.Events.{EventType, text, meters, Payload}
use charge_pulse.Gateway.Profiles.{SampledValue, MeterValue}
use charge_pulse.Incidents.Rules.{Numbers, Feature, number, Features}

module _ (nu : Numbers) (fl : Floats nu) where
  open nu use {F, decimal, less, equal}

  abbrev zero_f : F
  zero_f = decimal 0 1

  abbrev count : ℕ → F
  count n = decimal n 0

  abbrev or_zero : (List F → F) → List F → F
  or_zero f [] = zero_f
  or_zero f (x ∷ xs) = f (x ∷ xs)

  -- where there are two values at least
  abbrev deviation : List F → F
  deviation (x ∷ y ∷ xs) = fl.std (x ∷ y ∷ xs)
  deviation _ = zero_f

  unfoldable pub session_features : List Session → List F
  unfolding select present truthy
  session_features sessions =
      let completed = length (select is_completed sessions) in
      let failed = length (select is_failed sessions) in
      count (length sessions)
      ∷ count completed
      ∷ count failed
      ∷ or_zero fl.mean (map fl.minutes (present (map (λ s. s.duration_us) sessions)))
      ∷ or_zero fl.mean (map fl.kwh (present (map (λ s. s.energy_wh) sessions)))
      ∷ (if ltb 0 (completed + failed)
          then fl.ratio completed (completed + failed)
          else decimal 10 1)
      ∷ []

  -- the body of the innermost loop, before what the later samples add
  unfoldable pub add_sample : SampledValue → Samples F → Samples F
  unfolding truthy contains
  add_sample sv s =
      let meas = get_or (truthy sv.measurand) "Energy.Active.Import.Register" in
      elim sv.value [
        | none ↦ s
        | some value ↦ elim (fl.parse value) [
          | none ↦ s
          | some val ↦
              if contains "Power.Active" meas
              then record s {
                powers =
                    (if elim sv.unit [ none ↦ false | some u ↦ str_eq u "W" ]
                      then fl.divide val (decimal 10000 1)
                      else val)
                    ∷ s.powers;
              }
              else if str_eq meas "Voltage"
              then record s { voltages = val ∷ s.voltages }
              else if contains "Current" meas
              then record s { currents = val ∷ s.currents }
              else s
        ]
      ]

  unfoldable pub add_samples : List SampledValue → Samples F → Samples F
  unfolding add_sample
  add_samples [] s = s
  add_samples (sv ∷ rest) s = add_sample sv (add_samples rest s)

  unfoldable pub add_meter_values : List MeterValue → Samples F → Samples F
  unfolding add_samples
  add_meter_values [] s = s
  add_meter_values (mv ∷ rest) s = add_samples mv.sampled_value (add_meter_values rest s)

  unfoldable pub samples_of : List OcppEvent → Samples F
  unfolding add_meter_values lookup
  samples_of [] = record { powers = []; voltages = []; currents = [] }
  samples_of (e ∷ es) =
      let rest = samples_of es in
      if is_meter e
      then elim (lookup "meter_value" e.payload) [
        | some (meters ms) ↦ add_meter_values ms rest
        | _ ↦ rest
      ]
      else rest

  unfoldable pub power_features : List OcppEvent → List F
  unfolding samples_of
  power_features events =
      let s = samples_of events in
      let avg_power = or_zero fl.mean s.powers in
      let max_v = or_zero fl.maximum s.voltages in
      let avg_i = or_zero fl.mean s.currents in
      let apparent =
        if not (equal max_v zero_f) && not (equal avg_i zero_f)
        then fl.times max_v avg_i
        else zero_f in
      avg_power
      ∷ deviation s.powers
      ∷ max_v
      ∷ or_zero fl.minimum s.voltages
      ∷ avg_i
      ∷ (if less zero_f apparent
          then fl.divide (fl.times avg_power (decimal 10000 1)) apparent
          else decimal 10 1)
      ∷ []

  unfoldable pub status_features : ℕ → ℕ → List OcppEvent → List F
  unfolding select sort_events durations_by_status error_codes distinct lookup
  status_features window_start window_end events =
      let status_events = select is_status events in
      let window = max 1000000 (window_end - window_start) in
      let d = durations_of window_start window_end status_events in
      let codes = error_codes (sort_events status_events) in
      count (length status_events)
      ∷ fl.ratio (time_in "Faulted" d) window
      ∷ fl.ratio (time_in "Available" d) window
      ∷ fl.ratio (time_in "Unavailable" d) window
      ∷ count (length codes)
      ∷ count (length (distinct codes))
      ∷ []

  -- `total_seconds()` of a gap
  abbrev seconds : ℕ → F
  seconds n = fl.ratio n 1000000

  -- `max(gaps) if gaps else 0.0`
  abbrev pub longest : List ℕ → F
  longest [] = zero_f
  longest (n ∷ ns) = seconds (max_of (n ∷ ns))

  unfoldable pub connectivity_features : List OcppEvent → List F
  unfolding select sort_events gaps max_of
  connectivity_features events =
      let hb = sort_events (select is_heartbeat events) in
      count (length hb)
      ∷ longest (gaps hb)
      ∷ deviation (map seconds (gaps hb))
      ∷ count (length (select is_reconnect events))
      ∷ []

  -- timedelta's halves are whole microseconds, since a window is a number of whole minutes
  unfoldable pub temporal_features : ℕ → ℕ → List F
  unfolding hour_of weekday_of
  temporal_features window_start window_end =
      let mid = window_start + (window_end - window_start) / 2 in
      fl.sine (hour_of mid) 24 ∷ fl.sine (weekday_of mid) 7 ∷ []

  -- `extract`: the values of the vector
  unfoldable pub extract : ℕ → ℕ → List OcppEvent → List Session → List F
  unfolding session_features power_features status_features connectivity_features temporal_features
  extract window_start window_end events sessions =
      session_features sessions
      ++ power_features events
      ++ status_features window_start window_end events
      ++ connectivity_features events
      ++ temporal_features window_start window_end

-- FEATURE_NAMES
abbrev pub feature_names : List String
feature_names =
    "sessions_started" ∷ "sessions_completed" ∷ "sessions_failed" ∷ "avg_session_duration_min"
    ∷ "avg_energy_delivered_kwh" ∷ "session_completion_rate" ∷ "avg_power_kw" ∷ "std_power_kw"
    ∷ "max_voltage_v" ∷ "min_voltage_v" ∷ "avg_current_a" ∷ "power_factor" ∷ "status_transitions"
    ∷ "time_in_faulted_pct" ∷ "time_in_available_pct" ∷ "time_in_unavailable_pct"
    ∷ "error_code_count" ∷ "unique_error_codes" ∷ "heartbeat_count" ∷ "heartbeat_gap_max_sec"
    ∷ "heartbeat_gap_std_sec" ∷ "ws_reconnections" ∷ "hour_of_day_sin" ∷ "day_of_week_sin" ∷ []

-- `zip` of the names and the values
unfoldable pub zip_names : {F : Type 0} → List String → List F → Features F
zip_names (n ∷ ns) (x ∷ xs) = (n, number x) ∷ zip_names ns xs
zip_names _ _ = []

unfoldable pub to_dict : {F : Type 0} → List F → Features F
unfolding zip_names
to_dict values = zip_names feature_names values
