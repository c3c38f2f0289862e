-- ===== src/Examples/Workers.antt =====
-- The inference worker, requests on incidents, and alerts.
use charge_pulse.Prelude.{
  ℕ, zero, suc, ◌*◌, ◌<◌, ◌==◌, ltb, leb, String, true, Option, none, some, [], ◌∷◌, ◌≡◌, refl,
  arith, length, select, lookup,
}
use charge_pulse.Incidents.Rules.{
  Numbers, Rule, Features, number, rules, evaluate, reading, both, eq_zero, gt,
}
use charge_pulse.Incidents.{Incident, Board, Arrival, handle_message, consume, whole_second}
use charge_pulse.Incidents.Announced.{Appends, IsOpenOf, consume_lem}
use charge_pulse.Incidents.Dedup.{handle_message_reopens}
use charge_pulse.Examples.{clock}

-- numbers in hundredths
abbrev pub nu : Numbers
nu = record {
  F = ℕ;
  decimal = λ m k. elim k [ zero ↦ 100 * m | suc k' ↦ elim k' [ zero ↦ 10 * m | suc k'' ↦ m ] ];
  less = λ x y. ltb x y;
  at_most = λ x y. leb x y;
  equal = λ x y. x == y;
}

abbrev fixed4 : ℕ → String
fixed4 x = "0.9000"

-- an open incident
abbrev pub incident : ℕ → ℕ → Incident ℕ
incident id org_id = record {
  id = id;
  cp_id = "CP-1";
  org_id = org_id;
  severity = "high";
  failure_type = some "communication_loss";
  title = "Charger stopped responding";
  description = none;
  anomaly_score = none;
  auto_detected = true;
  detected_at = 4000000000;
  acknowledged_at = none;
  resolved_at = none;
  resolution_notes = none;
  confirmed_failure_type = none;
}

abbrev board : Board ℕ
board = record { incidents = incident 1 1 ∷ incident 2 2 ∷ []; entries = []; next_id = 3 }

-- a heartbeat gap of 400 seconds, and sessions that went well
abbrev features : Features ℕ
features =
    ("heartbeat_gap_max_sec", number 40000)
    ∷ ("sessions_started", number 500)
    ∷ ("session_completion_rate", number 100)
    ∷ []

abbrev arrival : Option (Features ℕ) → Arrival ℕ
arrival fs = record {
  msg_id = "1-0";
  features = fs;
  org_id = 1;
  window_end = none;
  scored = some (90, true);
  now = 5000000000;
}

abbrev missing : Rule ℕ
missing = record {
  name = "heartbeat_missing";
  severity = "high";
  failure_type = "communication_loss";
  title = "Charger stopped responding";
  condition = gt nu "heartbeat_gap_max_sec" (nu.decimal 300 0);
}

fires : evaluate nu features ≡ missing ∷ []
unfolding evaluate rules reading both eq_zero lookup select
fires = refl

-- the open incident of the same charger and type is not found
handle_message_reopens_example :
    (after : Board ℕ) × (handle_message nu fixed4 clock "CP-1" (arrival (some features)) board
      ≡ some after)
    × (2 < length after.incidents)
unfolding whole_second
handle_message_reopens_example =
    handle_message_reopens nu fixed4 clock "CP-1" (arrival (some features)) features missing []
      board refl fires (omega arith, (omega arith, tt))

consume_lem_example :
    (Appends
      (IsOpenOf "CP-1")
      board
      (consume nu fixed4 clock "CP-1" (arrival none ∷ arrival (some features) ∷ []) board).0)
    × ((consume nu fixed4 clock "CP-1" (arrival none ∷ arrival (some features) ∷ []) board).1
        ≡ "1-0" ∷ "1-0" ∷ [])
consume_lem_example =
    consume_lem nu fixed4 clock "CP-1" (arrival none ∷ arrival (some features) ∷ []) board
