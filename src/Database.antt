-- ===== src/Database.antt =====
-- The tables of backend/init.sql that the modelled code reads and writes. A table is the list of its
-- rows in the order of insertion. A UUID is a number, a time is a number of microseconds.
pub mod Events
use charge_pulse.Prelude.{ℕ, ℤ, String, Bool, Option, List, []}
use charge_pulse.Database.Events.{Payload, EventType}

-- the CHECK constraint of chargers.status
pub data Status : Type 0 where
  online offline faulted unknown : Status

-- chargers. Not here: health_score, commissioned_at, updated_at. The coordinates are kept as text.
pub record Charger : Type 0 where
  pub cp_id : String
  pub org_id : ℕ
  pub display_name : Option String
  pub vendor : Option String
  pub model : Option String
  pub firmware_version : Option String
  pub serial_number : Option String
  pub connector_count : ℕ
  pub location : Option (String × String)
  pub address : Option String
  pub city : Option String
  pub state : Option String
  pub pincode : Option String
  pub status : Status
  pub last_boot_at : Option ℕ
  pub last_heartbeat_at : Option ℕ
  pub last_session_at : Option ℕ
  pub created_at : ℕ

-- charger_sessions. `energy_wh` is energy_kwh in watt-hours, `duration_us` is duration_min in
-- microseconds. transaction_id is never written.
pub record Session : Type 0 where
  pub id : ℕ
  pub time : ℕ
  pub cp_id : String
  pub org_id : ℕ
  pub connector_id : ℕ
  pub id_tag : String
  pub meter_start : ℕ
  pub meter_stop : Option ℕ
  pub energy_wh : Option ℕ
  pub duration_us : Option ℤ
  pub stop_reason : Option String
  pub started_at : ℕ
  pub stopped_at : Option ℕ

-- ocpp_events
pub record OcppEvent : Type 0 where
  pub time : ℕ
  pub cp_id : String
  pub org_id : ℕ
  pub event_type : EventType
  pub connector_id : Option ℕ
  pub payload : Payload
  pub raw_frame : Option Payload

-- the CHECK constraint of organisations.plan
pub data Plan : Type 0 where
  starter pro enterprise : Plan

-- organisations
pub record Organisation : Type 0 where
  pub id : ℕ
  pub name : String
  pub email : String
  pub plan : Plan
  pub max_chargers : ℕ
  pub is_active : Bool
  pub created_at : ℕ

-- `next_session_id` is the state of the BIGSERIAL sequence of charger_sessions.id.
pub record Db : Type 0 where
  pub organisations : List Organisation
  pub chargers : List Charger
  pub sessions : List Session
  pub ocpp_events : List OcppEvent
  pub next_session_id : ℕ

abbrev pub empty_db : Db
empty_db = record {
  organisations = [];
  chargers = [];
  sessions = [];
  ocpp_events = [];
  next_session_id = 1;
}
