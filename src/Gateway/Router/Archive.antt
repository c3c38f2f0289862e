-- ===== src/Gateway/Router/Archive.antt =====
-- The rows of ocpp_events and the entries of the streams.
use mathlib.Core.List.{map-append}
use charge_pulse.Prelude.{ℕ, true, String, Option, [], ◌∷◌, ◌++◌, map, ◌≡◌, refl, ap, ap₂, get_or}
use charge_pulse.Database.{OcppEvent}
use charge_pulse.Database.Events.{EventType, Payload}
use charge_pulse.Gateway.Router.{
  StreamEntry, World, publish, ocpp_stream, frame_or_null, stream_maxlen,
}

-- the entry that stands for a row
abbrev pub entry_of : OcppEvent → StreamEntry
entry_of e = record {
  stream = ocpp_stream e.cp_id;
  cp_id = e.cp_id;
  org_id = e.org_id;
  event_type = e.event_type;
  connector_id = e.connector_id;
  ts = e.time;
  payload = e.payload;
  maxlen = stream_maxlen;
  approximate = true;
}

-- what was added to the streams is what the table holds, in the same order
abbrev pub IsArchived : World → Type 0
IsArchived w = w.xadds ≡ map entry_of w.db.ocpp_events

-- From `w` to `w'` one event is recorded, in the table and in the stream of the charger.
pub record RecordsOne (cp_id : String) (org_id : ℕ) (t : EventType) (connector_id : Option ℕ)
    (w w' : World) : Type 0 where
  pub event : OcppEvent
  pub of_charger : event.cp_id ≡ cp_id
  pub of_org : event.org_id ≡ org_id
  pub of_type : event.event_type ≡ t
  pub of_connector : event.connector_id ≡ connector_id
  pub in_table : w'.db.ocpp_events ≡ w.db.ocpp_events ++ event ∷ []
  pub in_stream : w'.xadds ≡ w.xadds ++ entry_of event ∷ []

-- What is recorded keeps the streams and the table in step.
pub RecordsOne-IsArchived :
    {cp_id : String} {org_id : ℕ} {t : EventType} {connector_id : Option ℕ} {w w' : World}
    → RecordsOne cp_id org_id t connector_id w w'
    → IsArchived w
    → IsArchived w'
RecordsOne-IsArchived {w = w} r h =
    rw (r.in_stream, r.in_table, map-append entry_of w.db.ocpp_events (r.event ∷ []))
      (ap (λ l. l ++ entry_of r.event ∷ []) h)

-- `publish` after steps that record nothing
pub publish-RecordsOne :
    (cp_id : String) (org_id : ℕ) (t : EventType) (payload : Payload) (connector_id : Option ℕ)
    (raw_frame : Option Payload) (ts : Option ℕ) (now : ℕ) {w : World} (w' : World)
    → w'.db.ocpp_events ≡ w.db.ocpp_events
    → w'.xadds ≡ w.xadds
    → RecordsOne cp_id org_id t connector_id w
        (publish cp_id org_id t payload connector_id raw_frame ts now w')
unfolding publish
publish-RecordsOne cp_id org_id t payload connector_id raw_frame ts now w' h k = record {
  event = record {
    time = get_or ts now;
    cp_id = cp_id;
    org_id = org_id;
    event_type = t;
    connector_id = connector_id;
    payload = payload;
    raw_frame = frame_or_null raw_frame;
  };
  of_charger = refl;
  of_org = refl;
  of_type = refl;
  of_connector = refl;
  in_table = ap₂ ◌++◌ h refl;
  in_stream = ap₂ ◌++◌ k refl;
}
