-- ===== src/Chargers/Reads.antt =====
-- What a tenant reads of one charger: `get_charger`, `get_telemetry` and `get_sessions` of
-- backend/app/chargers/service.py. ORDER BY is the database's, and an argument.
use charge_pulse.Prelude.{
  ℕ, ◌==◌, leb, String, Bool, true, Option, none, some, List, ◌&&◌, any, first, select, take,
  length, str_eq, if◌then◌else◌,
}
use charge_pulse.Prelude.Result.{Result, ok, err, http}
use charge_pulse.Database.{Charger, Session, OcppEvent, Db}
use charge_pulse.Incidents.{Incident}
use charge_pulse.Chargers.{is_owned, page_of}

-- ($2 IS NULL OR t >= $2) AND ($3 IS NULL OR t <= $3)
abbrev pub is_between : Option ℕ → Option ℕ → ℕ → Bool
is_between frm to t =
    elim frm [ none ↦ true | some a ↦ leb a t ] && elim to [ none ↦ true | some b ↦ leb t b ]

pub record ChargerDetail (F : Type 0) : Type 0 where
  pub charger : Charger
  pub recent_incidents : List (Incident F)
  pub current_anomaly_score : Option F

-- `get_charger`; `newest` is ORDER BY detected_at DESC, and `anomaly` the score of the last vector
unfoldable pub get_charger :
    {F : Type 0}
    → (List (Incident F) → List (Incident F))
    → (String → Option F)
    → ℕ
    → String
    → List (Incident F)
    → Db
    → Result (ChargerDetail F)
unfolding first select
get_charger newest anomaly org_id cp_id incidents db =
    elim (first (is_owned org_id cp_id) db.chargers) [
      | none ↦ err (http 404 "charger not found")
      | some c ↦ ok (record {
        charger = c;
        recent_incidents =
            take 10 (newest (select (λ i. str_eq i.cp_id cp_id && i.org_id == org_id) incidents));
        current_anomaly_score = anomaly cp_id;
      })
    ]

-- `get_telemetry`; `has_type` is the test of $4
unfoldable pub get_telemetry :
    (List OcppEvent → List OcppEvent)
    → (OcppEvent → Bool)
    → ℕ
    → String
    → Option ℕ
    → Option ℕ
    → ℕ
    → Db
    → Result (List OcppEvent)
unfolding any select
get_telemetry newest has_type org_id cp_id frm to limit db =
    if any (is_owned org_id cp_id) db.chargers
    then ok (
        take limit (
          newest (
            select (λ e. str_eq e.cp_id cp_id && is_between frm to e.time && has_type e)
              db.ocpp_events)))
    else err (http 404 "charger not found")

pub record SessionList : Type 0 where
  pub sessions : List Session
  pub total : ℕ

abbrev pub is_session_of : String → Option ℕ → Option ℕ → Session → Bool
is_session_of cp_id frm to s = str_eq s.cp_id cp_id && is_between frm to s.started_at

unfoldable pub get_sessions :
    (List Session → List Session)
    → ℕ
    → String
    → Option ℕ
    → Option ℕ
    → ℕ
    → ℕ
    → Db
    → Result SessionList
unfolding any select page_of
get_sessions newest org_id cp_id frm to page limit db =
    if any (is_owned org_id cp_id) db.chargers
    then ok (record {
      sessions = page_of page limit (newest (select (is_session_of cp_id frm to) db.sessions));
      total = length (select (is_session_of cp_id frm to) db.sessions);
    })
    else err (http 404 "charger not found")
