-- ===== src/Examples.antt =====
-- Runs of the theorems at concrete inputs, and the data that they share.
pub mod Connections
pub mod Sessions
pub mod Watch
pub mod Transactions
pub mod Tenants
pub mod Workers
pub mod Logins
pub mod Vectors
pub mod Operations
pub mod Trainings
use charge_pulse.Prelude.{
  ℕ, ◌+◌, String, Option, none, some, List, [], ◌∷◌, if◌then◌else◌, str_eq, true, false, ◌≡◌, ◌≢◌,
  eq_iff, sym, ◌∙◌,
}
use charge_pulse.Database.{Charger, Session, Db, Organisation, faulted, starter, empty_db}
use charge_pulse.Gateway.Router.{World}
use charge_pulse.Gateway.Profiles.{generic}
use charge_pulse.Gateway.V16
use charge_pulse.Gateway.Server.{Handler}

-- `datetime.fromisoformat` on the texts of the examples
abbrev pub iso : String → Option ℕ
iso s =
    if str_eq s "2026-01-05T10:00:00+00:00"
    then some 1000000000
    else if str_eq s "2026-01-05T11:00:00+00:00"
    then some 4600000000
    else none

abbrev pub clock : ℕ → ℕ
clock k = 5000000000 + k

abbrev pub charger : String → ℕ → Charger
charger cp_id org_id = record {
  cp_id = cp_id;
  org_id = org_id;
  display_name = none;
  vendor = some "Delta";
  model = none;
  firmware_version = none;
  serial_number = none;
  connector_count = 2;
  location = none;
  address = none;
  city = none;
  state = none;
  pincode = none;
  status = faulted;
  last_boot_at = none;
  last_heartbeat_at = none;
  last_session_at = none;
  created_at = 7;
}

-- an open session
abbrev pub session : ℕ → String → Session
session id cp_id = record {
  id = id;
  time = 900;
  cp_id = cp_id;
  org_id = 1;
  connector_id = 1;
  id_tag = "tag";
  meter_start = 100;
  meter_stop = none;
  energy_wh = none;
  duration_us = none;
  stop_reason = none;
  started_at = 900;
  stopped_at = none;
}

abbrev pub organisation : Organisation
organisation = record {
  id = 1;
  name = "Org";
  email = "org@example.in";
  plan = starter;
  max_chargers = 3;
  is_active = true;
  created_at = 7;
}

abbrev pub w : World
w = record {
  db = record {
    organisations = organisation ∷ [];
    chargers = charger "CP-1" 1 ∷ charger "CP-2" 2 ∷ [];
    sessions = session 1 "CP-2" ∷ session 4 "CP-1" ∷ [];
    ocpp_events = [];
    next_session_id = 5;
  };
  xadds = [];
}

abbrev pub cp : V16.ChargePoint
cp = record {
  id = "CP-1";
  org_id = 1;
  heartbeat_interval = 300;
  vendor_profile = generic;
  connected_at = 50;
  last_heartbeat = 50;
}

abbrev pub handler : ℕ → String → ℕ → Handler
handler conn id heard = record {
  conn = conn;
  id = id;
  org_id = 1;
  v201 = false;
  last_heartbeat = heard;
}

-- two texts that a run of the test tells apart
pub differ : (s t : String) → str_eq s t ≡ false → s ≢ t
differ s t h e =
    let same : str_eq s t ≡ true = (eq_iff s t).1 e in let clash : false ≡ true = sym h ∙ same in cc
