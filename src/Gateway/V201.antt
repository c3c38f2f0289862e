-- ===== src/Gateway/V201.antt =====
-- `ChargePulseCP201`: backend/gateway/handler_v201.py, in the shape of `V16`. The charger's floats are
-- those of `Floats`.
pub mod Energy
pub mod Transactions
use charge_pulse.Prelude.{
  ℕ, ◌+◌, ◌==◌, String, Bool, Option, none, some, List, [], ◌∷◌, get_or, if◌then◌else◌, truthy,
  str_eq, Dict, lookup, insert, remove,
}
use charge_pulse.Prelude.Result.{Result, ok, err}
use charge_pulse.Database.Events.{
  EventType, Payload, Value, null, int, text, meters, json, opt_text, opt_int,
}
use charge_pulse.Gateway.Profiles.{
  VendorProfile, MeterValue, resolve, normalize_status, normalize_meter_values,
  get_heartbeat_interval,
}
use charge_pulse.Gateway.Timestamps.{parse_ts}
use charge_pulse.Gateway.Router.{
  World, publish, record_session_start, record_session_stop, upsert_charger_on_boot,
  update_heartbeat, update_status, is_faulted,
}
use charge_pulse.Gateway.V201.Energy.{Floats, first_energy_wh}

pub record ChargePoint : Type 0 where
  pub id : String
  pub org_id : ℕ
  pub heartbeat_interval : ℕ
  pub vendor_profile : VendorProfile
  pub connected_at : ℕ
  pub last_heartbeat : ℕ
  pub tx_map : Dict ℕ

-- `__init__`
unfoldable pub new : String → ℕ → ℕ → ℕ → ChargePoint
new cp_id org_id heartbeat_interval now = record {
  id = cp_id;
  org_id = org_id;
  heartbeat_interval = heartbeat_interval;
  vendor_profile = resolve none;
  connected_at = now;
  last_heartbeat = now;
  tx_map = [];
}

-- A TransactionEvent. `evse` is the connector id of the `evse` object, `none` where there is no such
-- object; `id_token` is the token's text; `transaction_id` is the text in `transaction_info`.
pub record TransactionEvent : Type 0 where
  pub event_type : String
  pub timestamp : String
  pub trigger_reason : String
  pub transaction_id : Option String
  pub stopped_reason : Option String
  pub evse : Option (Option ℕ)
  pub id_token : Option String
  pub meter_value : List MeterValue

pub data Response : Type 0 where
  boot_accepted : ℕ → ℕ → Response
  heartbeat_at : ℕ → Response
  transaction_ack status_ack meter_ack notify_ack firmware_ack : Response
  authorize_accepted data_accepted : Response

abbrev pub Outcome : Type 0
Outcome = Result (ChargePoint × World × Response)

abbrev protocol : String × Value
protocol = ("protocol", text "ocpp2.0.1")

-- `self.router.publish(cp_id=self.id, org_id=self.org_id, …)`
abbrev pub publish_for : ChargePoint → EventType → Payload → Option ℕ → Option ℕ → ℕ → World → World
publish_for cp event_type payload connector_id ts now =
    publish cp.id cp.org_id event_type payload connector_id none ts now

abbrev pub or_int : ℕ → ℕ → ℕ
or_int n d = if n == 0 then d else n

unfoldable pub on_boot :
    Option String
    → Option String
    → Option String
    → Option String
    → String
    → (ℕ → ℕ)
    → ChargePoint
    → World
    → Outcome
on_boot vendor model firmware serial reason clock cp w =
    let profile = resolve vendor in
    let boot_at = clock 0 in
    let upserted = upsert_charger_on_boot cp.id vendor model firmware serial boot_at w in
    let payload : Payload =
      ("vendor", opt_text vendor)
      ∷ ("model", opt_text model)
      ∷ ("firmware", opt_text firmware)
      ∷ ("serial", opt_text serial)
      ∷ ("reason", text reason)
      ∷ protocol
      ∷ [] in
    ok (
      record cp { vendor_profile = profile },
      publish_for cp EventType.boot payload none (some boot_at) (clock 1) upserted,
      boot_accepted (clock 1) (or_int (get_heartbeat_interval profile) cp.heartbeat_interval),
    )

unfoldable pub on_heartbeat : (ℕ → ℕ) → ChargePoint → World → Outcome
on_heartbeat clock cp w =
    let ts = clock 0 in
    ok (
      record cp { last_heartbeat = ts },
      publish_for cp EventType.heartbeat [] none (some ts) (clock 1) (update_heartbeat cp.id ts w),
      heartbeat_at ts,
    )

unfoldable pub on_status :
    (String → Option ℕ) → String → String → ℕ → ℕ → (ℕ → ℕ) → ChargePoint → World → Outcome
on_status fromisoformat timestamp connector_status evse_id connector_id clock cp w =
    let normalized = normalize_status cp.vendor_profile connector_status in
    let error_code = if is_faulted normalized then "Faulted" else "NoError" in
    let payload : Payload =
      ("status", text normalized)
      ∷ ("error_code", text error_code)
      ∷ ("evse_id", int evse_id)
      ∷ ("raw_status", text connector_status)
      ∷ protocol
      ∷ [] in
    let ts = get_or (parse_ts fromisoformat (some timestamp)) (clock 0) in
    ok (
      cp,
      publish_for cp EventType.status payload (some connector_id) (some ts) (clock 1)
          (update_status cp.id normalized error_code w),
      status_ack,
    )

unfoldable pub on_meter_values : ℕ → List MeterValue → (ℕ → ℕ) → ChargePoint → World → Outcome
on_meter_values evse_id meter_value clock cp w =
    let normalized = normalize_meter_values cp.vendor_profile meter_value in
    let payload : Payload =
      ("meter_value", meters normalized) ∷ ("evse_id", int evse_id) ∷ protocol ∷ [] in
    ok (cp, publish_for cp EventType.meter payload (some evse_id) none (clock 0) w, meter_ack)

unfoldable pub on_authorize :
    Option String → Option String → (ℕ → ℕ) → ChargePoint → World → Outcome
on_authorize id_token kind clock cp w =
    let payload : Payload =
      ("id_token", opt_text id_token) ∷ ("type", opt_text kind) ∷ protocol ∷ [] in
    ok (cp, publish_for cp EventType.authorize payload none none (clock 0) w, authorize_accepted)

-- the loop over `event_data`; `clock` is read twice in each round
unfoldable pub notify :
    (String → Option ℕ) → String → List String → (ℕ → ℕ) → ChargePoint → World → World
notify fromisoformat generated_at [] clock cp w = w
notify fromisoformat generated_at (ev ∷ event_data) clock cp w =
    let ts = get_or (parse_ts fromisoformat (some generated_at)) (clock 0) in
    notify fromisoformat generated_at event_data (λ k. clock (k + 2)) cp
      (publish_for cp EventType.notify_event (("event", json ev) ∷ protocol ∷ []) none (some ts)
        (clock 1) w)

unfoldable pub on_notify_event :
    (String → Option ℕ) → String → List String → (ℕ → ℕ) → ChargePoint → World → Outcome
unfolding notify
on_notify_event fromisoformat generated_at event_data clock cp w =
    ok (cp, notify fromisoformat generated_at event_data clock cp w, notify_ack)

unfoldable pub on_data_transfer :
    String → Option String → Option String → (ℕ → ℕ) → ChargePoint → World → Outcome
on_data_transfer vendor_id message_id content clock cp w =
    let payload : Payload =
      ("vendor_id", text vendor_id)
      ∷ ("message_id", opt_text message_id)
      ∷ ("data", opt_text content)
      ∷ protocol
      ∷ [] in
    ok (cp, publish_for cp EventType.data_transfer payload none none (clock 0) w, data_accepted)

unfoldable pub on_firmware_status : String → (ℕ → ℕ) → ChargePoint → World → Outcome
on_firmware_status s clock cp w =
    let payload : Payload = ("status", text s) ∷ protocol ∷ [] in
    ok (cp, publish_for cp EventType.firmware_status payload none none (clock 0) w, firmware_ack)

-- `evse.get("connector_id") if evse else 1`
abbrev pub connector_of : TransactionEvent → Option ℕ
connector_of ev = elim ev.evse [ none ↦ some 1 | some c ↦ c ]

-- the three branches of `on_transaction_event`, and its fall-through
module _ (fl : Floats) where
  open fl use {to_int, is_zero, repr}

  -- `_first_energy_wh(meter_value) or 0`, as a number and as the value in a payload
  unfoldable pub energy_int : List MeterValue → ℕ
  energy_int meter_value = elim (first_energy_wh fl meter_value) [
    | none ↦ 0
    | some x ↦ if is_zero x then 0 else to_int x
  ]

  unfoldable pub energy_json : List MeterValue → Value
  energy_json meter_value = elim (first_energy_wh fl meter_value) [
    | none ↦ int 0
    | some x ↦ if is_zero x then int 0 else json (repr x)
  ]

  unfoldable pub on_started : TransactionEvent → ℕ → (ℕ → ℕ) → ChargePoint → World → Outcome
  unfolding energy_int energy_json
  on_started ev ts clock cp w =
      let connector_id = connector_of ev in
      let id_tag = get_or ev.id_token "anon" in
      elim (record_session_start cp.id cp.org_id connector_id id_tag (energy_int ev.meter_value) ts
        w) [
          | err e ↦ err e
          | ok (started, tx_id) ↦ ok (
            record cp { tx_map = insert (get_or ev.transaction_id "") tx_id cp.tx_map },
            publish_for cp EventType.tx_start
                (("transaction_id", int tx_id)
                  ∷ ("id_tag", text id_tag)
                  ∷ ("meter_start", energy_json ev.meter_value)
                  ∷ ("trigger_reason", text ev.trigger_reason)
                  ∷ protocol
                  ∷ [])
                connector_id (some ts) (clock 1) started,
            transaction_ack,
          )
        ]

  unfoldable pub on_updated : TransactionEvent → ℕ → (ℕ → ℕ) → ChargePoint → World → Outcome
  on_updated ev ts clock cp w =
      let connector_id = connector_of ev in
      let payload : Payload =
        ("transaction_id", opt_int (lookup (get_or ev.transaction_id "") cp.tx_map))
        ∷ ("meter_value", meters ev.meter_value)
        ∷ ("trigger_reason", text ev.trigger_reason)
        ∷ protocol
        ∷ [] in
      ok (
        cp,
        publish_for cp EventType.meter payload connector_id (some ts) (clock 1) w,
        transaction_ack,
      )

  unfoldable pub on_ended : TransactionEvent → ℕ → (ℕ → ℕ) → ChargePoint → World → Outcome
  unfolding energy_int energy_json
  on_ended ev ts clock cp w =
      let tx = get_or ev.transaction_id "" in
      let tx_id = get_or (lookup tx cp.tx_map) 0 in
      let stop_reason = get_or (truthy ev.stopped_reason) "EVDisconnected" in
      let payload : Payload =
        ("transaction_id", int tx_id)
        ∷ ("meter_stop", energy_json ev.meter_value)
        ∷ ("reason", text stop_reason)
        ∷ ("trigger_reason", text ev.trigger_reason)
        ∷ protocol
        ∷ [] in
      ok (
        record cp { tx_map = remove tx cp.tx_map },
        publish_for cp EventType.tx_stop payload none (some ts) (clock 1)
            (record_session_stop cp.id tx_id (energy_int ev.meter_value) ts (some stop_reason) w),
        transaction_ack,
      )

  unfoldable pub on_transaction_event :
      (String → Option ℕ) → TransactionEvent → (ℕ → ℕ) → ChargePoint → World → Outcome
  on_transaction_event fromisoformat ev clock cp w =
      let ts = get_or (parse_ts fromisoformat (some ev.timestamp)) (clock 0) in
      if str_eq ev.event_type "Started"
      then on_started ev ts clock cp w
      else if str_eq ev.event_type "Updated"
      then on_updated ev ts clock cp w
      else if str_eq ev.event_type "Ended"
      then on_ended ev ts clock cp w
      else ok (cp, w, transaction_ack)
