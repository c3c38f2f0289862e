-- ===== src/Examples/Transactions.antt =====
-- Transactions of OCPP 2.0.1.
use charge_pulse.Prelude.{
  ℕ, ◌*◌, ◌==◌, String, Option, none, some, List, [], ◌∷◌, ◌≡◌, refl, arith, lookup, if◌then◌else◌,
  str_eq,
}
use charge_pulse.Gateway.Profiles.{MeterValue, generic}
use charge_pulse.Gateway.Router.Sessions.{Completed}
use charge_pulse.Gateway.V201.{ChargePoint, TransactionEvent, on_transaction_event, energy_int}
use charge_pulse.Gateway.V201.Energy.{Floats}
use charge_pulse.Gateway.V201.Transactions.{Returns, started_ended}
use charge_pulse.Examples.{iso, clock, w}

-- floats that are whole numbers
abbrev fl : Floats
fl = record {
  F = ℕ;
  float = λ s. if str_eq s "1000" then some 1000 else if str_eq s "1.5" then some 1 else none;
  zero_float = 0;
  is_zero = λ x. x == 0;
  thousand_times = λ x. 1000 * x;
  to_int = λ x. x;
  repr = λ x. "0.0";
}

abbrev cp : ChargePoint
cp = record {
  id = "CP-1";
  org_id = 1;
  heartbeat_interval = 300;
  vendor_profile = generic;
  connected_at = 50;
  last_heartbeat = 50;
  tx_map = [];
}

abbrev energy_reading : String → String → List MeterValue
energy_reading value unit =
    record {
      timestamp = none;
      sampled_value =
          record {
            value = some value;
            measurand = some "Energy.Active.Import.Register";
            phase = none;
            unit = some unit;
            unit_of_measure = none;
          }
          ∷ [];
    }
    ∷ []

abbrev event : String → Option (Option ℕ) → List MeterValue → TransactionEvent
event event_type evse meter_value = record {
  event_type = event_type;
  timestamp = "2026-01-05T10:00:00Z";
  trigger_reason = "CablePluggedIn";
  transaction_id = some "tx-9";
  stopped_reason = none;
  evse = evse;
  id_token = some "tag";
  meter_value = meter_value;
}

abbrev started : TransactionEvent
started = event "Started" (some (some 2)) (energy_reading "1000" "Wh")

abbrev ended : TransactionEvent
ended = event "Ended" none (energy_reading "1.5" "kWh")

started_ended_example : Returns (on_transaction_event fl iso started clock cp w) λ cp' w' r.
    Returns (on_transaction_event fl iso ended clock cp' w') λ cp'' w'' r'.
      Completed "CP-1" 2 (energy_int fl started.meter_value) (energy_int fl ended.meter_value) w w''
      × (lookup "tx-9" cp''.tx_map ≡ none)
started_ended_example =
    started_ended fl iso started ended 2 clock clock cp w refl refl refl refl
      (omega arith, (omega arith, omega arith)) (omega arith)
