-- ===== src/Incidents.antt =====
-- Incidents: the inference worker (backend/workers/inference_worker.py), the requests on incidents
-- (backend/app/incidents/service.py) and what they share, the table of incidents and the log of what was added to
-- its streams.
-- An anomaly score is a value of `F`, the interpreter's floats. `clock n` is the database's time when
-- the incident with the number `n` is inserted, in microseconds.
pub mod Rules
pub mod Service
pub mod Patches
pub mod Announced
pub mod Dedup
use Prim.Native.String.{◌++◌ as str_append}
use charge_pulse.Prelude.{
  ℕ, ◌+◌, ◌*◌, ◌/◌, ◌==◌, ltb, String, Bool, true, false, Option, none, some, List, [], ◌∷◌, ◌++◌,
  ◌&&◌, any, select, length, update_where, not, ◌||◌, str_eq, if◌then◌else◌, is_some, get_or,
  coalesce,
}
use charge_pulse.Prelude.Result.{Result, ok, err, http, ◌>>=◌}
use charge_pulse.Chargers.{page_of}
use charge_pulse.Incidents.Rules.{Numbers, Rule, Features, evaluate}

-- a row of `incidents`
pub record Incident (F : Type 0) : Type 0 where
  pub id : ℕ
  pub cp_id : String
  pub org_id : ℕ
  pub severity : String
  pub failure_type : Option String
  pub title : String
  pub description : Option String
  pub anomaly_score : Option F
  pub auto_detected : Bool
  pub detected_at : ℕ
  pub acknowledged_at : Option ℕ
  pub resolved_at : Option ℕ
  pub resolution_notes : Option String
  pub confirmed_failure_type : Option String

-- an XADD to `stream:incidents:{cp_id}`: its entry, and how it trims the stream
pub record IncidentEntry : Type 0 where
  pub stream : String
  pub incident_id : ℕ
  pub cp_id : String
  pub org_id : ℕ
  pub severity : String
  pub failure_type : String
  pub title : String
  pub detected_at : ℕ
  pub maxlen : ℕ
  pub approximate : Bool

pub record Board (F : Type 0) : Type 0 where
  pub incidents : List (Incident F)
  pub entries : List IncidentEntry
  pub next_id : ℕ

-- `now.replace(microsecond=0)`
unfoldable pub whole_second : ℕ → ℕ
whole_second now = now / 1000000 * 1000000

module _ {F : Type 0} where
  -- the arguments of the XADD; `failure_type or ""`
  unfoldable pub entry_of : Incident F → IncidentEntry
  entry_of i = record {
    stream = str_append "stream:incidents:" i.cp_id;
    incident_id = i.id;
    cp_id = i.cp_id;
    org_id = i.org_id;
    severity = i.severity;
    failure_type = get_or i.failure_type "";
    title = i.title;
    detected_at = i.detected_at;
    maxlen = 10000;
    approximate = true;
  }

  -- INSERT INTO incidents … RETURNING, and the XADD
  unfoldable pub raise_incident :
      (ℕ → ℕ) → String → ℕ → String → String → String → String → Option F → Board F → Board F
  unfolding entry_of
  raise_incident clock cp_id org_id severity failure_type title description score b =
      let i : Incident F = record {
        id = b.next_id;
        cp_id = cp_id;
        org_id = org_id;
        severity = severity;
        failure_type = some failure_type;
        title = title;
        description = some description;
        anomaly_score = score;
        auto_detected = true;
        detected_at = clock b.next_id;
        acknowledged_at = none;
        resolved_at = none;
        resolution_notes = none;
        confirmed_failure_type = none;
      } in
      record {
        incidents = b.incidents ++ i ∷ [];
        entries = b.entries ++ entry_of i ∷ [];
        next_id = b.next_id + 1;
      }

  -- the WHERE clause of the search for a duplicate
  abbrev pub is_duplicate : String → String → ℕ → Incident F → Bool
  is_duplicate cp_id failure_type since i =
      str_eq i.cp_id cp_id
      && elim i.failure_type [ none ↦ false | some t ↦ str_eq t failure_type ]
      && not (is_some i.resolved_at)
      && ltb since i.detected_at

  -- one turn of the loop over the rules that fired
  unfoldable pub report_rule :
      (ℕ → ℕ) → ℕ → String → ℕ → String → Option F → Rule F → Board F → Board F
  unfolding any raise_incident whole_second
  report_rule clock now cp_id org_id window_end score rule b =
      if any (is_duplicate cp_id rule.failure_type (whole_second now)) b.incidents
      then b
      else raise_incident clock cp_id org_id rule.severity rule.failure_type rule.title
          (str_append "Rule '"
            (str_append rule.name (str_append "' fired on window ending " window_end)))
          score b

  unfoldable pub report_rules :
      (ℕ → ℕ) → ℕ → String → ℕ → String → Option F → List (Rule F) → Board F → Board F
  unfolding report_rule
  report_rules clock now cp_id org_id window_end score [] b = b
  report_rules clock now cp_id org_id window_end score (rule ∷ fired) b =
      report_rules clock now cp_id org_id window_end score fired
        (report_rule clock now cp_id org_id window_end score rule b)

-- A message of `stream:features:{cp_id}`, with what the handler meets on the way: `features` is `none`
-- where json.loads raises; `scored` is the score and the verdict of the model, `none` where the charger has no
-- model, the window is short or the scoring raises; `now` is the clock's reading.
pub record Arrival (F : Type 0) : Type 0 where
  pub msg_id : String
  pub features : Option (Features F)
  pub org_id : ℕ
  pub window_end : Option String
  pub scored : Option (F × Bool)
  pub now : ℕ

abbrev pub score_of : {F : Type 0} → Option (F × Bool) → Option F
score_of none = none
score_of (some (score, is_anomaly)) = some score

-- `fixed4` is the format `:.4f`
module _ (nu : Numbers) (fixed4 : nu.F → String) (clock : ℕ → ℕ) where
  -- the incident of the model, where no rule fired
  unfoldable pub report_model :
      String → ℕ → String → Option (nu.F × Bool) → List (Rule nu.F) → Board nu.F → Board nu.F
  unfolding raise_incident
  report_model cp_id org_id window_end (some (score, true)) [] b =
      raise_incident clock cp_id org_id "medium" "unknown" "Anomalous behaviour detected"
        (str_append "LSTM autoencoder anomaly_score="
          (str_append (fixed4 score) (str_append " > threshold on window ending " window_end)))
        (some score) b
  report_model cp_id org_id window_end scored fired b = b

  -- `handle_message`, `none` where it raises
  unfoldable pub handle_message : String → Arrival nu.F → Board nu.F → Option (Board nu.F)
  unfolding evaluate report_model report_rules
  handle_message cp_id m b = elim m.features [
    | none ↦ none
    | some features ↦
        let fired = evaluate nu features in
        let window_end = get_or m.window_end "None" in
        some (
          report_rules clock m.now cp_id m.org_id window_end (score_of m.scored) fired
            (report_model cp_id m.org_id window_end m.scored fired b))
  ]

  -- the loop of `main` over the messages of one stream: each is acknowledged, also where it raises
  unfoldable pub consume : String → List (Arrival nu.F) → Board nu.F → Board nu.F × List String
  unfolding handle_message
  consume cp_id [] b = (b, [])
  consume cp_id (m ∷ rest) b =
      let (after, acks) = consume cp_id rest (get_or (handle_message cp_id m b) b) in
      (after, m.msg_id ∷ acks)
