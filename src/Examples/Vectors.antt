-- ===== src/Examples/Vectors.antt =====
-- Feature vectors, health scores and the figures of a fleet.
use charge_pulse.Prelude.{
  ◌++◌, ℕ, zero, suc, ◌+◌, ◌-◌, ◌*◌, ◌/◌, ◌≤◌, max, false, none, some, List, [], ◌∷◌, ◌≡◌, refl,
  arith, lookup, true, All, Memᴰ, any, select, length, map, str_eq,
}
use charge_pulse.Database.{OcppEvent, Db, empty_db}
use charge_pulse.Database.Events.{EventType, Payload, text}
use charge_pulse.Incidents.{Incident}
use charge_pulse.Incidents.Rules.{evaluate}
use charge_pulse.Features.{Floats, time_in, durations_of, sort_events, extract, to_dict}
use charge_pulse.Features.Durations.{status_at, ticks, durations-ticks, time_in-bounds}
use charge_pulse.Features.Counts.{is_named, evaluate-quiet}
use charge_pulse.Features.Worker.{FeatureRow, FeatureStore, window_end_of, run_once}
use charge_pulse.Features.Windows.{IsUnique, run_once-IsUnique}
use charge_pulse.Features.Reruns.{IsLate, run_once_again}
use charge_pulse.Health
use charge_pulse.Health.{HealthInputs, UptimeRow, seven_days, sum_of}
use charge_pulse.Health.Bounds.{IsWritten, run_once-IsWritten}
use charge_pulse.Fleet.{Overview, overview, is_grouped, vendor_row}
use charge_pulse.Fleet.Figures.{overview_lem}
use charge_pulse.Fleet.Vendors.{incidents_of, vendor_row_lem}
use charge_pulse.Examples.{charger}
use charge_pulse.Examples.Workers.{nu, incident}

-- hundredths, with the first value for the mean
abbrev pub fl : Floats nu
fl = record {
  ratio = λ a b. elim a [ zero ↦ 0 | suc k ↦ 100 * suc k / b ];
  plus = λ x y. x + y;
  minus = λ x y. x - y;
  times = λ x y. x * y / 100;
  divide = λ x y. 100 * x / y;
  minutes = λ d. 0;
  kwh = λ n. n / 10;
  parse = λ s. none;
  mean = λ xs. elim xs [ [] ↦ 0 | x ∷ rest ↦ x ];
  std = λ xs. 0;
  maximum = λ xs. elim xs [ [] ↦ 0 | x ∷ rest ↦ x ];
  minimum = λ xs. elim xs [ [] ↦ 0 | x ∷ rest ↦ x ];
  sine = λ a b. 0;
}

abbrev event : EventType → ℕ → Payload → OcppEvent
event event_type time payload = record {
  time = time;
  cp_id = "CP-1";
  org_id = 1;
  event_type = event_type;
  connector_id = none;
  payload = payload;
  raw_frame = none;
}

-- a fault and its end, in the wrong order
abbrev reports : List OcppEvent
reports =
    event EventType.status 1600000000 (("status", text "Available") ∷ [])
    ∷ event EventType.status 1200000000 (("status", text "Faulted") ∷ [])
    ∷ []

durations-ticks_example :
    time_in "Faulted" (durations_of 900000000 1800000000 reports)
    ≡ ticks
        (λ t. str_eq (status_at t "Available" (sort_events reports)) "Faulted")
        900000000
        900000000
durations-ticks_example =
    durations-ticks "Faulted" 900000000 1800000000 reports (omega arith)
      ((omega arith, omega arith), ((omega arith, omega arith), tt))

time_in-bounds_example :
    time_in "Faulted" (durations_of 900000000 1800000000 reports)
      + time_in "Available" (durations_of 900000000 1800000000 reports)
      + time_in "Unavailable" (durations_of 900000000 1800000000 reports)
    ≤ 900000000
time_in-bounds_example =
    time_in-bounds 900000000 1800000000 reports (omega arith)
      ((omega arith, omega arith), ((omega arith, omega arith), tt))

-- one heartbeat
abbrev beats : List OcppEvent
beats = event EventType.heartbeat 1000000000 [] ∷ []

evaluate-quiet_example :
    (any
        (is_named "heartbeat_missing")
        (evaluate nu (to_dict (extract nu fl 900000000 1800000000 beats [])))
      ≡ false)
    × (any
          (is_named "faulted_state")
          (evaluate nu (to_dict (extract nu fl 900000000 1800000000 beats [])))
        ≡ false)
unfolding select
evaluate-quiet_example =
    evaluate-quiet nu fl 900000000 1800000000 beats [] refl (λ b h. refl) (omega arith) refl

abbrev db : Db
db = record empty_db { chargers = charger "CP-1" 1 ∷ []; ocpp_events = beats }

abbrev store : FeatureStore ℕ
store = record { vectors = []; entries = [] }

run_once-IsUnique_example :
    (IsUnique (run_once nu fl db 15 1830000000 store))
    × ((r : FeatureRow ℕ) × (Memᴰ r (run_once nu fl db 15 1830000000 store).vectors)
        × (r.cp_id ≡ "CP-1")
        × (r.time ≡ window_end_of 15 1830000000))
unfolding select window_end_of
run_once-IsUnique_example =
    run_once-IsUnique nu fl db 15 1830000000 store (event EventType.heartbeat 1000000000 [])
      (λ cp_id t. omega arith) (Memᴰ.head refl) (omega arith) (omega arith)

-- a transaction of another charger in the window, which is recorded when the window is over
abbrev later : List OcppEvent
later = record (event EventType.tx_start 1200000000 []) { cp_id = "CP-2" } ∷ []

abbrev db_later : Db
db_later = record db { ocpp_events = event EventType.heartbeat 1000000000 [] ∷ later }

run_once_again_example :
    (extra : List (FeatureRow ℕ)) × ((run_once nu fl db_later 15 2100000000
        (run_once nu fl db 15 1830000000 store)).vectors
      ≡ (run_once nu fl db 15 1830000000 store).vectors ++ extra)
    × All
        (IsLate (window_end_of 15 1830000000 - 15 * 60000000) (window_end_of 15 1830000000) later)
        extra
unfolding window_end_of
run_once_again_example =
    run_once_again nu fl db db_later later 15 1830000000 2100000000 store refl refl

-- an hour with three reports of a fault
abbrev hours : List UptimeRow
hours =
    record {
      bucket = 800000000000;
      cp_id = "CP-1";
      org_id = 1;
      available_count = 0;
      faulted_count = 3;
    }
    ∷ []

abbrev inputs : HealthInputs ℕ
inputs = record { vectors = []; sessions = []; uptime = hours }

-- the charger of these hours keeps its old score
run_once-IsWritten_example : IsWritten nu true (lookup "CP-1" (("CP-1", 42) ∷ [])) (
    lookup "CP-1" (
      Health.run_once nu fl
        (λ n. 900000000000)
        inputs
        (charger "CP-1" 1 ∷ charger "CP-2" 2 ∷ [])
        (("CP-1", 42) ∷ [])))
unfolding any
run_once-IsWritten_example =
    run_once-IsWritten nu fl (λ n. 900000000000) inputs (charger "CP-1" 1 ∷ charger "CP-2" 2 ∷ [])
      (("CP-1", 42) ∷ []) "CP-1" true refl (λ n. refl)

overview_lem_example :
    (o : Overview ℕ) × (overview nu fl 900000000000 1
        (charger "CP-1" 1 ∷ [])
        []
        (incident 1 1 ∷ [])
        []
        hours
      ≡ o)
    × (o.online + o.offline + o.faulted ≤ o.total_chargers)
    × (o.critical_incidents ≤ o.open_incidents)
    × (o.avg_uptime_7d ≡ 10000)
unfolding select
overview_lem_example =
    overview_lem nu fl 900000000000 1 (charger "CP-1" 1 ∷ []) [] (incident 1 1 ∷ []) [] hours
      (λ x xs h. rw h.0.1 refl) ((refl, omega arith), tt) (omega arith)

-- two incidents of one charger
abbrev incidents : List (Incident ℕ)
incidents = incident 1 1 ∷ incident 2 1 ∷ []

vendor_row_lem_example :
    ((vendor_row 1 (some "Delta") none (charger "CP-1" 1 ∷ []) incidents).charger_count
      ≡ sum_of (
          map
            (λ c. max 1 (length (incidents_of incidents c)))
            (select (is_grouped 1 (some "Delta") none) (charger "CP-1" 1 ∷ []))))
    × (length (select (is_grouped 1 (some "Delta") none) (charger "CP-1" 1 ∷ []))
        ≤ (vendor_row 1 (some "Delta") none (charger "CP-1" 1 ∷ []) incidents).charger_count)
    × ((vendor_row 1 (some "Delta") none (charger "CP-1" 1 ∷ []) incidents).incidents
        ≡ sum_of (
            map
              (λ c. length (incidents_of incidents c))
              (select (is_grouped 1 (some "Delta") none) (charger "CP-1" 1 ∷ []))))
    × ((vendor_row 1 (some "Delta") none (charger "CP-1" 1 ∷ []) incidents).incidents
        ≤ (vendor_row 1 (some "Delta") none (charger "CP-1" 1 ∷ []) incidents).divisor)
vendor_row_lem_example = vendor_row_lem 1 (some "Delta") none (charger "CP-1" 1 ∷ []) incidents
