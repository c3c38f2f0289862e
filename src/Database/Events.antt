-- ===== src/Database/Events.antt =====
-- The payloads of events: `dict[str, Any]` as the handlers build them.
use charge_pulse.Prelude.{ℕ, String, Option, none, some, List}
use charge_pulse.Gateway.Profiles.{MeterValue}

pub data EventType : Type 0 where
  boot heartbeat status meter tx_start tx_stop authorize data_transfer : EventType
  diagnostics_status firmware_status notify_event disconnect : EventType

-- A value in a payload. `json` is a JSON value of the charger's that is passed on unread.
pub data Value : Type 0 where
  null : Value
  int : ℕ → Value
  text : String → Value
  meters : List MeterValue → Value
  json : String → Value

abbrev pub Payload : Type 0
Payload = List (String × Value)

-- `None` or a text
abbrev pub opt_text : Option String → Value
opt_text none = null
opt_text (some s) = text s

-- `None` or a number
abbrev pub opt_int : Option ℕ → Value
opt_int none = null
opt_int (some n) = int n
