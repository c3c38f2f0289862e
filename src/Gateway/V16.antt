-- ===== src/Gateway/V16.antt =====
-- `ChargePulseCP16`: backend/gateway/handler_v16.py. A handler is a function from the request, the
-- connection's state and the world to both and the response. `clock k` is the k-th reading of the
-- clock that the handler makes. `fromisoformat` is `datetime.fromisoformat`, with `none` for the
-- ValueError.
pub mod Archive
pub mod Frame
pub mod Sessions
pub mod Status
use charge_pulse.Prelude.{ℕ, String, Option, none, some, List, [], ◌∷◌, get_or, if◌then◌else◌, ◌==◌}
use charge_pulse.Prelude.Result.{Result, ok, err}
use charge_pulse.Database.Events.{EventType, Payload, int, text, meters, opt_text, opt_int}
use charge_pulse.Gateway.Profiles.{
  VendorProfile, MeterValue, resolve, normalize_status, normalize_error_code,
  normalize_meter_values, get_heartbeat_interval,
}
use charge_pulse.Gateway.Timestamps.{parse_ts}
use charge_pulse.Gateway.Router.{
  World, publish, record_session_start, record_session_stop, upsert_charger_on_boot,
  update_heartbeat, update_status,
}

pub record ChargePoint : Type 0 where
  pub id : String
  pub org_id : ℕ
  pub heartbeat_interval : ℕ
  pub vendor_profile : VendorProfile
  pub connected_at : ℕ
  pub last_heartbeat : ℕ

-- `__init__`
unfoldable pub new : String → ℕ → ℕ → ℕ → ChargePoint
new cp_id org_id heartbeat_interval now = record {
  id = cp_id;
  org_id = org_id;
  heartbeat_interval = heartbeat_interval;
  vendor_profile = resolve none;
  connected_at = now;
  last_heartbeat = now;
}

-- The requests with a handler. An optional field that is missing is `none`.
pub data Request : Type 0 where
  boot_notification : String → String → Option String → Option String → Request
  heartbeat : Request
  status_notification : ℕ → String → String → Option String → Option String → Request
  meter_values : ℕ → List MeterValue → Option ℕ → Request
  start_transaction : ℕ → String → ℕ → String → Request
  stop_transaction : ℕ → String → ℕ → Option String → Request
  authorize : String → Request
  data_transfer : String → Option String → Option String → Request
  diagnostics_status : String → Request
  firmware_status : String → Request

pub data Response : Type 0 where
  boot_accepted : ℕ → ℕ → Response
  heartbeat_at : ℕ → Response
  transaction_accepted : ℕ → Response
  stop_accepted authorize_accepted data_accepted : Response
  status_ack meter_ack diagnostics_ack firmware_ack : Response

-- `n or d`
abbrev pub or_int : ℕ → ℕ → ℕ
or_int n d = if n == 0 then d else n

-- `self.router.publish(cp_id=self.id, org_id=self.org_id, …)`
abbrev pub publish_for : ChargePoint → EventType → Payload → Option ℕ → Option ℕ → ℕ → World → World
publish_for cp event_type payload connector_id ts now =
    publish cp.id cp.org_id event_type payload connector_id none ts now

abbrev pub Outcome : Type 0
Outcome = Result (ChargePoint × World × Response)

unfoldable pub on_boot :
    String → String → Option String → Option String → (ℕ → ℕ) → ChargePoint → World → Outcome
on_boot vendor model firmware serial clock cp w =
    let boot_at = clock 0 in
    let profile = resolve (some vendor) in
    let upserted =
      upsert_charger_on_boot cp.id (some vendor) (some model) firmware serial boot_at w in
    let payload : Payload =
      ("vendor", text vendor)
      ∷ ("model", text model)
      ∷ ("firmware", opt_text firmware)
      ∷ ("serial", opt_text serial)
      ∷ [] in
    ok (
      record cp { vendor_profile = profile },
      publish_for cp EventType.boot payload none (some boot_at) (clock 1) upserted,
      boot_accepted (clock 1) (or_int (get_heartbeat_interval profile) cp.heartbeat_interval),
    )

unfoldable pub on_heartbeat : (ℕ → ℕ) → ChargePoint → World → Outcome
on_heartbeat clock cp w =
    let ts = clock 0 in
    ok (
      record cp { last_heartbeat = ts },
      publish_for cp EventType.heartbeat [] none (some ts) (clock 1) (update_heartbeat cp.id ts w),
      heartbeat_at ts,
    )

unfoldable pub on_status :
    ℕ → String → String → Option String → Option String → (ℕ → ℕ) → ChargePoint → World → Outcome
on_status connector_id error_code status info vendor_error_code clock cp w =
    let normalized_status = normalize_status cp.vendor_profile status in
    let normalized_error = normalize_error_code cp.vendor_profile (some error_code) in
    let payload : Payload =
      ("status", text normalized_status)
      ∷ ("error_code", text normalized_error)
      ∷ ("info", opt_text info)
      ∷ ("vendor_error_code", opt_text vendor_error_code)
      ∷ ("raw_status", text status)
      ∷ [] in
    ok (
      cp,
      publish_for cp EventType.status payload (some connector_id) none (clock 0)
          (update_status cp.id normalized_status normalized_error w),
      status_ack,
    )

unfoldable pub on_meter_values :
    ℕ → List MeterValue → Option ℕ → (ℕ → ℕ) → ChargePoint → World → Outcome
on_meter_values connector_id meter_value transaction_id clock cp w =
    let normalized = normalize_meter_values cp.vendor_profile meter_value in
    let payload : Payload =
      ("transaction_id", opt_int transaction_id) ∷ ("meter_value", meters normalized) ∷ [] in
    ok (cp, publish_for cp EventType.meter payload (some connector_id) none (clock 0) w, meter_ack)

unfoldable pub on_stop_transaction :
    (String → Option ℕ) → ℕ → String → ℕ → Option String → (ℕ → ℕ) → ChargePoint → World → Outcome
on_stop_transaction fromisoformat meter_stop timestamp transaction_id stop_reason clock cp w =
    let reason = get_or stop_reason "Unknown" in
    let stopped_at = get_or (parse_ts fromisoformat (some timestamp)) (clock 0) in
    let stopped = record_session_stop cp.id transaction_id meter_stop stopped_at (some reason) w in
    let payload : Payload =
      ("transaction_id", int transaction_id)
      ∷ ("meter_stop", int meter_stop)
      ∷ ("timestamp", text timestamp)
      ∷ ("reason", text reason)
      ∷ [] in
    ok (
      cp,
      publish_for cp EventType.tx_stop payload none (some stopped_at) (clock 1) stopped,
      stop_accepted,
    )

unfoldable pub on_start_transaction :
    (String → Option ℕ) → ℕ → String → ℕ → String → (ℕ → ℕ) → ChargePoint → World → Outcome
on_start_transaction fromisoformat connector_id id_tag meter_start timestamp clock cp w =
    let started_at = get_or (parse_ts fromisoformat (some timestamp)) (clock 0) in
    elim (record_session_start cp.id cp.org_id (some connector_id) id_tag meter_start started_at
      w) [
        | err e ↦ err e
        | ok (started, tx_id) ↦ ok (
          cp,
          publish_for cp EventType.tx_start
              (("transaction_id", int tx_id)
                ∷ ("id_tag", text id_tag)
                ∷ ("meter_start", int meter_start)
                ∷ ("timestamp", text timestamp)
                ∷ [])
              (some connector_id) (some started_at) (clock 1) started,
          transaction_accepted tx_id,
        )
      ]

unfoldable pub on_authorize : String → (ℕ → ℕ) → ChargePoint → World → Outcome
on_authorize id_tag clock cp w = ok (
  cp,
  publish_for cp EventType.authorize (("id_tag", text id_tag) ∷ []) none none (clock 0) w,
  authorize_accepted,
)

unfoldable pub on_data_transfer :
    String → Option String → Option String → (ℕ → ℕ) → ChargePoint → World → Outcome
on_data_transfer vendor_id message_id content clock cp w =
    let payload : Payload =
      ("vendor_id", text vendor_id)
      ∷ ("message_id", opt_text message_id)
      ∷ ("data", opt_text content)
      ∷ [] in
    ok (cp, publish_for cp EventType.data_transfer payload none none (clock 0) w, data_accepted)

unfoldable pub on_diagnostics_status : String → (ℕ → ℕ) → ChargePoint → World → Outcome
on_diagnostics_status status clock cp w = ok (
  cp,
  publish_for cp EventType.diagnostics_status (("status", text status) ∷ []) none none (clock 0) w,
  diagnostics_ack,
)

unfoldable pub on_firmware_status : String → (ℕ → ℕ) → ChargePoint → World → Outcome
on_firmware_status status clock cp w = ok (
  cp,
  publish_for cp EventType.firmware_status (("status", text status) ∷ []) none none (clock 0) w,
  firmware_ack,
)

-- the routing of a request to its `@on` handler
unfoldable pub handle : (String → Option ℕ) → Request → (ℕ → ℕ) → ChargePoint → World → Outcome
handle fromisoformat (boot_notification vendor model firmware serial) =
    on_boot vendor model firmware serial
handle fromisoformat heartbeat = on_heartbeat
handle fromisoformat (status_notification connector_id error_code status info vendor_error_code) =
    on_status connector_id error_code status info vendor_error_code
handle fromisoformat (meter_values connector_id meter_value transaction_id) =
    on_meter_values connector_id meter_value transaction_id
handle fromisoformat (start_transaction connector_id id_tag meter_start timestamp) =
    on_start_transaction fromisoformat connector_id id_tag meter_start timestamp
handle fromisoformat (stop_transaction meter_stop timestamp transaction_id reason) =
    on_stop_transaction fromisoformat meter_stop timestamp transaction_id reason
handle fromisoformat (authorize id_tag) = on_authorize id_tag
handle fromisoformat (data_transfer vendor_id message_id content) =
    on_data_transfer vendor_id message_id content
handle fromisoformat (diagnostics_status status) = on_diagnostics_status status
handle fromisoformat (firmware_status status) = on_firmware_status status
