-- ===== src/Gateway/V16/Archive.antt =====
-- Every request of an OCPP 1.6 charger is answered and recorded once.
use mathlib.Core.List.{append-nil, append_assoc, map-append}
use charge_pulse.Prelude.{
  All-snoc, ℕ, ◌-◌, ◌^◌, ◌≤◌, String, Option, none, some, All, List, [], ◌∷◌, ◌++◌, map, refl, sym,
  ap, ◌∙◌, ◌≡◌,
}
use charge_pulse.Database.{OcppEvent}
use charge_pulse.Prelude.Result.{ok, err}
use charge_pulse.Database.Events.{EventType}
use charge_pulse.Gateway.Router.{
  StreamEntry, World, stream_maxlen, upsert_charger_on_boot, update_heartbeat, update_status,
  record_session_start, record_session_stop,
}
use charge_pulse.Gateway.Router.Archive.{
  IsArchived, RecordsOne, RecordsOne-IsArchived, publish-RecordsOne,
}
use charge_pulse.Gateway.Router.Streams.{IsTrimmed, added_to, HoldsNewest, IsArchived-HoldsNewest}
use charge_pulse.Gateway.V16.{
  ChargePoint, Request, Response, Outcome, boot_notification, heartbeat, status_notification,
  meter_values, start_transaction, stop_transaction, authorize, data_transfer, diagnostics_status,
  firmware_status, on_boot, on_heartbeat, on_status, on_meter_values, on_start_transaction,
  on_stop_transaction, on_authorize, on_data_transfer, on_diagnostics_status, on_firmware_status,
  handle,
}

-- the handler returns, and what it returns has the property
abbrev pub Returns : Outcome → (ChargePoint → World → Response → Type 0) → Type 0
Returns (ok (cp, w, r)) P = P cp w r
Returns (err e) P = ⊥

pub Returns-mono :
    (P Q : ChargePoint → World → Response → Type 0)
    → ((cp : ChargePoint) (w : World) (r : Response) → P cp w r → Q cp w r)
    → (o : Outcome) → Returns o P
    → Returns o Q
Returns-mono P Q f (ok (cp, w, r)) h = f cp w r h
Returns-mono P Q f (err e) h = h

-- the event type that a request is recorded under
abbrev pub type_of : Request → EventType
type_of (boot_notification vendor model firmware serial) = EventType.boot
type_of heartbeat = EventType.heartbeat
type_of (status_notification connector_id error_code s info vendor_error_code) = EventType.status
type_of (meter_values connector_id meter_value transaction_id) = EventType.meter
type_of (start_transaction connector_id id_tag meter_start timestamp) = EventType.tx_start
type_of (stop_transaction meter_stop timestamp transaction_id reason) = EventType.tx_stop
type_of (authorize id_tag) = EventType.authorize
type_of (data_transfer vendor_id message_id content) = EventType.data_transfer
type_of (diagnostics_status s) = EventType.diagnostics_status
type_of (firmware_status s) = EventType.firmware_status

-- the connector that a request is recorded for
abbrev pub connector_of : Request → Option ℕ
connector_of (status_notification connector_id error_code s info vendor_error_code) =
    some connector_id
connector_of (meter_values connector_id meter_value transaction_id) = some connector_id
connector_of (start_transaction connector_id id_tag meter_start timestamp) = some connector_id
connector_of _ = none

-- the largest value of an INT column
abbrev pub int_max : ℕ
int_max = 2 ^ 31 - 1

abbrev pub IsInt : Option ℕ → Type 0
IsInt none = Unit
IsInt (some n) = n ≤ int_max

-- the reading of the meter that a request stores
abbrev pub reading_of : Request → Option ℕ
reading_of (start_transaction connector_id id_tag meter_start timestamp) = some meter_start
reading_of (stop_transaction meter_stop timestamp transaction_id reason) = some meter_stop
reading_of _ = none

-- the numbers of the request fit the columns they are stored in
abbrev pub IsStorable : Request × (ℕ → ℕ) → Type 0
IsStorable (req, clock) = IsInt (connector_of req) × IsInt (reading_of req)

-- No handler of OCPP 1.6 raises, where the database takes the row. Each request adds one row to ocpp_events and one
-- entry to the charger's stream, which say the same: the charger and the organisation of the
-- connection, and the event type of the request.
pub handle-RecordsOne :
    (fromisoformat : String → Option ℕ) (req : Request) (clock : ℕ → ℕ) (cp : ChargePoint)
    (w : World)
    → Returns
        (handle fromisoformat req clock cp w)
        λ cp' w' r. RecordsOne cp.id cp.org_id (type_of req) (connector_of req) w w'
unfolding handle on_boot on_heartbeat on_status on_meter_values on_start_transaction
    on_stop_transaction on_authorize on_data_transfer on_diagnostics_status on_firmware_status
    upsert_charger_on_boot update_heartbeat update_status record_session_start record_session_stop
handle-RecordsOne f (boot_notification vendor model firmware serial) clock cp w =
    publish-RecordsOne _ _ _ _ _ _ _ _ _ refl refl
handle-RecordsOne f (status_notification connector_id error_code s info vendor_error_code) clock cp
      w =
    publish-RecordsOne _ _ _ _ _ _ _ _ _ refl refl
handle-RecordsOne f _ clock cp w = publish-RecordsOne _ _ _ _ _ _ _ _ _ refl refl

-- The state after a request: a handler that raises is answered with an error, and what it did stays.
after : Outcome → ChargePoint × World → ChargePoint × World
after (ok (cp, w, r)) s = (cp, w)
after (err e) s = s

-- the requests of one connection, in turn, each with its readings of the clock
pub serve :
    (String → Option ℕ) → List (Request × (ℕ → ℕ)) → ChargePoint × World → ChargePoint × World
unfolding after
serve fromisoformat [] s = s
serve fromisoformat ((req, clock) ∷ rest) (cp, w) =
    serve fromisoformat rest (after (handle fromisoformat req clock cp w) (cp, w))

abbrev pub types_of : List (Request × (ℕ → ℕ)) → List EventType
types_of [] = []
types_of ((req, clock) ∷ rest) = type_of req ∷ types_of rest

abbrev pub event_types : World → List EventType
event_types w = map (λ (e : OcppEvent). e.event_type) w.db.ocpp_events

-- every row's connector fits its column
abbrev pub HasInts : World → Type 0
HasInts w = All (λ e. IsInt e.connector_id) w.db.ocpp_events

record Serves (types : List EventType) (w w' : World) : Type 0 where
  archived : IsArchived w → IsArchived w'
  recorded : event_types w' ≡ event_types w ++ types
  ints : HasInts w → HasInts w'

after-Serves :
    (cp_id : String) (org_id : ℕ) (t : EventType) (connector_id : Option ℕ) (o : Outcome)
    (cp : ChargePoint) (w : World)
    → IsInt connector_id
    → Returns o (λ cp' w' r. RecordsOne cp_id org_id t connector_id w w')
    → Serves (t ∷ []) w (after o (cp, w)).1
unfolding after
after-Serves cp_id org_id t connector_id (ok (cp', w', r)) cp w small h = record {
  archived = RecordsOne-IsArchived h;
  recorded =
      ap (map (λ (e : OcppEvent). e.event_type)) h.in_table
      ∙ (map-append (λ (e : OcppEvent). e.event_type) w.db.ocpp_events (h.event ∷ [])
          ∙ ap (λ x. event_types w ++ x ∷ []) h.of_type);
  ints = λ k.
      rw h.in_table
        (All-snoc (λ e. IsInt e.connector_id) w.db.ocpp_events h.event k (rw h.of_connector small));
}
after-Serves cp_id org_id t connector_id (err e) cp w small h = absurd h

serve-Serves :
    (fromisoformat : String → Option ℕ) (reqs : List (Request × (ℕ → ℕ))) (s : ChargePoint × World)
    → All IsStorable reqs
    → Serves (types_of reqs) s.1 (serve fromisoformat reqs s).1
unfolding serve
serve-Serves f [] s small = record {
  archived = λ h. h;
  recorded = sym (append-nil (event_types s.1));
  ints = λ h. h;
}
serve-Serves f ((req, clock) ∷ rest) (cp, w) small =
    let one =
      after-Serves cp.id cp.org_id (type_of req) (connector_of req) (handle f req clock cp w) cp w
        small.0.0 (handle-RecordsOne f req clock cp w) in
    let more = serve-Serves f rest (after (handle f req clock cp w) (cp, w)) small.1 in
    record {
      archived = λ h. more.archived (one.archived h);
      recorded =
          more.recorded
          ∙ (ap (λ l. l ++ types_of rest) one.recorded
              ∙ append_assoc (event_types w) (type_of req ∷ []) (types_of rest));
      ints = λ h. more.ints (one.ints h);
    }

-- Over the life of a connection, for requests whose connectors and meter readings fit the INT columns they are stored
-- in: if what was added to the streams was what the table of events held, and the connectors there fit, both are so at
-- the end, and the events recorded are those of the requests, one for each and in their order. A stream that Redis
-- trims to an approximate maximum of `stream_maxlen` entries then holds the newest rows of its charger, in order:
-- all of them, or at least `stream_maxlen`.
pub serve_records :
    (fromisoformat : String → Option ℕ) (reqs : List (Request × (ℕ → ℕ))) (s : ChargePoint × World)
    (name : String) (kept : List StreamEntry)
    → IsArchived s.1
    → HasInts s.1
    → All IsStorable reqs
    → IsTrimmed stream_maxlen (added_to name (serve fromisoformat reqs s).1) kept
    → IsArchived (serve fromisoformat reqs s).1
      × HasInts (serve fromisoformat reqs s).1
      × (event_types (serve fromisoformat reqs s).1 ≡ event_types s.1 ++ types_of reqs)
      × HoldsNewest name (serve fromisoformat reqs s).1 kept
serve_records f reqs s name kept h ints small trimmed =
    let r = serve-Serves f reqs s small in
    (
      r.archived h,
      r.ints ints,
      r.recorded,
      IsArchived-HoldsNewest name (serve f reqs s).1 kept (r.archived h) trimmed,
    )
