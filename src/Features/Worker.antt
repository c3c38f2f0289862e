-- ===== src/Features/Worker.antt =====
-- The feature worker: backend/workers/feature_worker.py. The rows of two tables that a query reads
-- without ORDER BY are in the order of insertion. No database error of its own is met.
use Prim.Native.String.{◌++◌ as str_append}
use charge_pulse.Prelude.{
  ℕ, ◌-◌, ◌*◌, ◌/◌, ◌%◌, ◌==◌, ltb, leb, String, Bool, Option, none, true, false, List, [], ◌∷◌,
  ◌++◌, ◌&&◌, any, select, map, str_eq, if◌then◌else◌,
}
use charge_pulse.Database.{Session, OcppEvent, Db}
use charge_pulse.Incidents.Rules.{Numbers, Features}
use charge_pulse.Features.{Floats, sort_events, extract, to_dict}

-- a row of feature_vectors
pub record FeatureRow (F : Type 0) : Type 0 where
  pub time : ℕ
  pub cp_id : String
  pub org_id : ℕ
  pub features : List F
  pub anomaly_score : Option F
  pub is_anomaly : Option Bool

-- an XADD to `stream:features:{cp_id}`: its entry, and how it trims the stream
pub record FeatureEntry (F : Type 0) : Type 0 where
  pub stream : String
  pub cp_id : String
  pub org_id : ℕ
  pub window_end : ℕ
  pub features : Features F
  pub maxlen : ℕ
  pub approximate : Bool

pub record FeatureStore (F : Type 0) : Type 0 where
  pub vectors : List (FeatureRow F)
  pub entries : List (FeatureEntry F)

-- `not rows`
abbrev pub is_empty : {A : Type 0} → List A → Bool
is_empty [] = true
is_empty (x ∷ xs) = false

-- time >= $1 AND time < $2
abbrev pub is_within : ℕ → ℕ → ℕ → Bool
is_within window_start window_end t = leb window_start t && ltb t window_end

abbrev pub events_of : String → ℕ → ℕ → List OcppEvent → List OcppEvent
events_of cp_id window_start window_end events =
    select (λ e. str_eq e.cp_id cp_id && is_within window_start window_end e.time) events

abbrev pub sessions_of : String → ℕ → ℕ → List Session → List Session
sessions_of cp_id window_start window_end sessions =
    select (λ s. str_eq s.cp_id cp_id && is_within window_start window_end s.started_at) sessions

-- cp_id=$1 AND time=$2
abbrev pub is_vector : {F : Type 0} → String → ℕ → FeatureRow F → Bool
is_vector cp_id t r = str_eq r.cp_id cp_id && r.time == t

-- SELECT DISTINCT cp_id, org_id
abbrev pub same_pair : String × ℕ → String × ℕ → Bool
same_pair a b = str_eq a.0 b.0 && a.1 == b.1

unfoldable pub distinct_pairs : List (String × ℕ) → List (String × ℕ)
unfolding any
distinct_pairs [] = []
distinct_pairs (p ∷ ps) =
    let rest = distinct_pairs ps in if any (same_pair p) rest then rest else p ∷ rest

unfoldable pub active_chargers : ℕ → ℕ → List OcppEvent → List (String × ℕ)
unfolding distinct_pairs select
active_chargers window_start window_end events =
    distinct_pairs (
      map (λ e. (e.cp_id, e.org_id))
        (select (λ e. is_within window_start window_end e.time) events))

-- the last boundary that has passed, by the minute of the hour
unfoldable pub window_end_of : ℕ → ℕ → ℕ
window_end_of window_minutes now =
    (now / 60000000 - now / 60000000 % 60 % window_minutes) * 60000000

module _ (nu : Numbers) (fl : Floats nu) where
  -- the INSERT and the XADD
  unfoldable pub store_vector : String → ℕ → ℕ → List nu.F → FeatureStore nu.F → FeatureStore nu.F
  store_vector cp_id org_id window_end values s = record {
    vectors =
        s.vectors
        ++ record {
          time = window_end;
          cp_id = cp_id;
          org_id = org_id;
          features = values;
          anomaly_score = none;
          is_anomaly = none;
        }
          ∷ [];
    entries =
        s.entries
        ++ record {
          stream = str_append "stream:features:" cp_id;
          cp_id = cp_id;
          org_id = org_id;
          window_end = window_end;
          features = to_dict values;
          maxlen = 10000;
          approximate = true;
        }
          ∷ [];
  }

  unfoldable pub compute_window : Db → String → ℕ → ℕ → ℕ → FeatureStore nu.F → FeatureStore nu.F
  unfolding select
  compute_window db cp_id org_id window_start window_end s =
      let event_rows = sort_events (events_of cp_id window_start window_end db.ocpp_events) in
      let session_rows = sessions_of cp_id window_start window_end db.sessions in
      if is_empty event_rows && is_empty session_rows
      then s
      else store_vector cp_id org_id window_end
          (extract nu fl window_start window_end event_rows session_rows) s

  -- the loop of `run_once`
  unfoldable pub compute_all :
      Db → ℕ → ℕ → List (String × ℕ) → FeatureStore nu.F → FeatureStore nu.F
  unfolding any
  compute_all db window_start window_end [] s = s
  compute_all db window_start window_end ((cp_id, org_id) ∷ rest) s =
      compute_all db window_start window_end rest (
        if any (is_vector cp_id window_end) s.vectors
        then s
        else compute_window db cp_id org_id window_start window_end s)

  unfoldable pub run_once : Db → ℕ → ℕ → FeatureStore nu.F → FeatureStore nu.F
  run_once db window_minutes now s =
      let window_end = window_end_of window_minutes now in
      let window_start = window_end - window_minutes * 60000000 in
      compute_all db window_start window_end
        (active_chargers window_start window_end db.ocpp_events) s
