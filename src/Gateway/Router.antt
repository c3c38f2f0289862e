-- ===== src/Gateway/Router.antt =====
-- `MessageRouter`: backend/gateway/message_router.py. A method is a function on the `World`: the
-- database and the log of the additions to the Redis streams, oldest first. The argument `now` is
-- the reading of the clock that a method makes. A transaction of the database or a command of Redis
-- that fails for a reason of their own is not modelled.
pub mod Archive
pub mod Frame
pub mod Sessions
pub mod Streams
pub mod Status
use Prim.Native.String.{◌++◌ as str_append}
use charge_pulse.Prelude.{
  ℕ, ◌-◌, ◌%◌, ◌^◌, ◌==◌, ◌&&◌, not, Bool, true, String, Option, none, some, List, [], ◌∷◌, ◌++◌,
  codes, codes_eq, lower, get_or, coalesce, is_some, str_eq, if◌then◌else◌, update_where, sub_ℕ,
  suc,
}
use charge_pulse.Prelude.Result.{Result, ok, err, not_null_violation}
use charge_pulse.Database.{Charger, Session, OcppEvent, Db, online, offline, faulted}
use charge_pulse.Database.Events.{EventType, Payload}

abbrev pub stream_maxlen : ℕ
stream_maxlen = 100000

-- An `xadd`, with its entry and how it trims the stream. The fields are kept as values: the code writes them as texts by
-- `str`, `isoformat` and `json.dumps`, and a missing connector as the empty text.
pub record StreamEntry : Type 0 where
  pub stream : String
  pub cp_id : String
  pub org_id : ℕ
  pub event_type : EventType
  pub connector_id : Option ℕ
  pub ts : ℕ
  pub payload : Payload
  pub maxlen : ℕ
  pub approximate : Bool

-- The database, and the log of what was added to the streams. What a stream still holds of it, Redis decides.
pub record World : Type 0 where
  pub db : Db
  pub xadds : List StreamEntry

abbrev pub ocpp_stream : String → String
ocpp_stream cp_id = str_append "stream:ocpp:" cp_id

-- an empty dict is stored as null
frame_or_null : Option Payload → Option Payload
frame_or_null none = none
frame_or_null (some []) = none
frame_or_null (some (x ∷ xs)) = some (x ∷ xs)

unfoldable pub publish :
    String → ℕ → EventType → Payload → Option ℕ → Option Payload → Option ℕ → ℕ → World → World
unfolding frame_or_null
publish cp_id org_id event_type payload connector_id raw_frame ts now w =
    let at = get_or ts now in
    let row : OcppEvent = record {
      time = at;
      cp_id = cp_id;
      org_id = org_id;
      event_type = event_type;
      connector_id = connector_id;
      payload = payload;
      raw_frame = frame_or_null raw_frame;
    } in
    let entry : StreamEntry = record {
      stream = ocpp_stream cp_id;
      cp_id = cp_id;
      org_id = org_id;
      event_type = event_type;
      connector_id = connector_id;
      ts = at;
      payload = payload;
      maxlen = stream_maxlen;
      approximate = true;
    } in
    record {
      db = record w.db { ocpp_events = w.db.ocpp_events ++ row ∷ [] };
      xadds = w.xadds ++ entry ∷ [];
    }

-- `WHERE cp_id = $n` on chargers
abbrev pub is_charger : String → Charger → Bool
is_charger cp_id c = str_eq c.cp_id cp_id

-- UPDATE chargers SET … WHERE cp_id = $n
unfoldable pub update_charger : String → (Charger → Charger) → World → World
update_charger cp_id f w = record w {
  db = record w.db { chargers = update_where (is_charger cp_id) f w.db.chargers };
}

-- transaction ids are the row ids, cut to 31 bits
abbrev pub tx_modulus : ℕ
tx_modulus = 2 ^ 31

-- INSERT INTO charger_sessions … RETURNING id. A null connector violates the column's NOT NULL.
insert_session : String → ℕ → Option ℕ → String → ℕ → ℕ → World → Result World
insert_session cp_id org_id none id_tag meter_start started_at w = err not_null_violation
insert_session cp_id org_id (some connector_id) id_tag meter_start started_at w =
    let row : Session = record {
      id = w.db.next_session_id;
      time = started_at;
      cp_id = cp_id;
      org_id = org_id;
      connector_id = connector_id;
      id_tag = id_tag;
      meter_start = meter_start;
      meter_stop = none;
      energy_wh = none;
      duration_us = none;
      stop_reason = none;
      started_at = started_at;
      stopped_at = none;
    } in
    ok (record w {
      db = record w.db {
        sessions = w.db.sessions ++ row ∷ [];
        next_session_id = suc w.db.next_session_id;
      };
    })

-- The new world and the transaction id. `row["id"]` is what the sequence gave.
unfoldable pub record_session_start :
    String → ℕ → Option ℕ → String → ℕ → ℕ → World → Result (World × ℕ)
unfolding insert_session update_charger
record_session_start cp_id org_id connector_id id_tag meter_start started_at w =
    elim (insert_session cp_id org_id connector_id id_tag meter_start started_at w) [
      | err e ↦ err e
      | ok w' ↦ ok (
        update_charger cp_id (λ c. record c { last_session_at = some started_at }) w',
        w.db.next_session_id % tx_modulus,
      )
    ]

-- the WHERE clause of the update: the open session of the charger with the cut id
abbrev pub is_open_tx : String → ℕ → Session → Bool
is_open_tx cp_id transaction_id s =
    str_eq s.cp_id cp_id && s.id % tx_modulus == transaction_id && not (is_some s.stopped_at)

-- the SET clause; GREATEST($1 - meter_start, 0) is the truncated difference
unfoldable pub close_session : ℕ → ℕ → Option String → Session → Session
close_session meter_stop stopped_at stop_reason s = record s {
  meter_stop = some meter_stop;
  stopped_at = some stopped_at;
  stop_reason = stop_reason;
  duration_us = some (sub_ℕ stopped_at s.started_at);
  energy_wh = some (meter_stop - s.meter_start);
}

unfoldable pub record_session_stop : String → ℕ → ℕ → ℕ → Option String → World → World
unfolding close_session
record_session_stop cp_id transaction_id meter_stop stopped_at stop_reason w = record w {
  db = record w.db {
    sessions =
        update_where (is_open_tx cp_id transaction_id)
          (close_session meter_stop stopped_at stop_reason) w.db.sessions;
  };
}

unfoldable pub upsert_charger_on_boot :
    String → Option String → Option String → Option String → Option String → ℕ → World → World
unfolding update_charger
upsert_charger_on_boot cp_id vendor model firmware serial boot_at = update_charger cp_id λ c.
    record c {
      vendor = coalesce vendor c.vendor;
      model = coalesce model c.model;
      firmware_version = coalesce firmware c.firmware_version;
      serial_number = coalesce serial c.serial_number;
      last_boot_at = some boot_at;
      status = online;
    }

unfoldable pub update_heartbeat : String → ℕ → World → World
unfolding update_charger
update_heartbeat cp_id ts =
    update_charger cp_id λ c. record c { last_heartbeat_at = some ts; status = online }

-- `s.lower() == "faulted"`
unfoldable pub is_faulted : String → Bool
unfolding lower codes_eq
is_faulted s = codes_eq (lower s) (codes "faulted")

unfoldable pub update_status : String → String → String → World → World
unfolding update_charger
update_status cp_id normalized_status error_code =
    let new_status = if is_faulted normalized_status then faulted else online in
    update_charger cp_id λ c. record c { status = new_status }

unfoldable pub mark_offline : String → World → World
unfolding update_charger
mark_offline cp_id = update_charger cp_id λ c. record c { status = offline }

find_org : String → List Charger → Option ℕ
find_org cp_id [] = none
find_org cp_id (c ∷ rest) = if is_charger cp_id c then some c.org_id else find_org cp_id rest

unfoldable pub lookup_org : String → World → Option ℕ
unfolding find_org
lookup_org cp_id w = find_org cp_id w.db.chargers
