-- ===== src/Incidents/Rules.antt =====
-- The rule engine: backend/ml/rules.py.
use charge_pulse.Prelude.{
  ℕ, String, Bool, false, Option, none, some, List, [], ◌∷◌, get_or, if◌then◌else◌, Dict, lookup,
  select,
}

-- The interpreter's numbers as the rules use them: `decimal m k` is the literal m · 10⁻ᵏ.
pub record Numbers : Type 1 where
  pub F : Type 0
  pub decimal : ℕ → ℕ → F
  pub less : F → F → Bool
  pub at_most : F → F → Bool
  pub equal : F → F → Bool

-- a value of the feature vector: a number, or one that comparing with a number raises on
pub data Feature (F : Type 0) : Type 0 where
  number : F → Feature F
  other : Feature F

abbrev pub Features : Type 0 → Type 0
Features F = Dict (Feature F)

-- a condition: `none` where it raises a TypeError
abbrev pub Condition : Type 0 → Type 0
Condition F = Features F → Option Bool

pub record Rule (F : Type 0) : Type 0 where
  pub name : String
  pub severity : String
  pub failure_type : String
  pub title : String
  pub condition : Condition F

module _ (nu : Numbers) where
  open nu use {F, decimal, less, at_most, equal}

  -- `test(f.get(field, default))`
  unfoldable pub reading : String → F → (F → Bool) → Condition F
  unfolding lookup
  reading field default test f = elim (get_or (lookup field f) (number default)) [
    | number x ↦ some (test x)
    | other ↦ none
  ]

  -- `a and b`: `b` is evaluated where `a` holds
  unfoldable pub both : Condition F → Condition F → Condition F
  both a b f = elim (a f) [ none ↦ none | some x ↦ if x then b f else some false ]

  abbrev pub gt : String → F → Condition F
  gt field threshold = reading field (decimal 0 0) (λ x. less threshold x)

  abbrev pub ge : String → F → Condition F
  ge field threshold = reading field (decimal 0 0) (λ x. at_most threshold x)

  -- an equality with a number raises on no value
  unfoldable pub eq_zero : String → Condition F
  unfolding lookup
  eq_zero field f = elim (get_or (lookup field f) (number (decimal 0 0))) [
    | number x ↦ some (equal x (decimal 0 0))
    | other ↦ some false
  ]

  -- `RULES`
  unfoldable pub rules : List (Rule F)
  unfolding reading both eq_zero
  rules =
      record {
        name = "heartbeat_missing";
        severity = "high";
        failure_type = "communication_loss";
        title = "Charger stopped responding";
        condition = gt "heartbeat_gap_max_sec" (decimal 300 0);
      }
      ∷ record {
        name = "faulted_state";
        severity = "critical";
        failure_type = "connector_fault";
        title = "Charger in faulted state";
        condition = gt "time_in_faulted_pct" (decimal 10 2);
      }
      ∷ record {
        name = "voltage_low";
        severity = "high";
        failure_type = "power_supply";
        title = "Low voltage detected";
        condition =
            both (gt "min_voltage_v" (decimal 0 0))
              (reading "min_voltage_v" (decimal 0 0) (λ x. less x (decimal 200 0)));
      }
      ∷ record {
        name = "voltage_high";
        severity = "high";
        failure_type = "power_supply";
        title = "High voltage spike detected";
        condition = gt "max_voltage_v" (decimal 260 0);
      }
      ∷ record {
        name = "session_failures_spike";
        severity = "medium";
        failure_type = "connector_fault";
        title = "High session failure rate";
        condition =
            both (reading "session_completion_rate" (decimal 10 1) (λ x. less x (decimal 70 2)))
              (ge "sessions_started" (decimal 3 0));
      }
      ∷ record {
        name = "power_instability";
        severity = "medium";
        failure_type = "power_supply";
        title = "Unstable power delivery";
        condition = both (gt "std_power_kw" (decimal 50 1)) (gt "avg_power_kw" (decimal 10 1));
      }
      ∷ record {
        name = "frequent_reboots";
        severity = "high";
        failure_type = "firmware_crash";
        title = "Charger rebooting repeatedly";
        condition = ge "ws_reconnections" (decimal 3 0);
      }
      ∷ record {
        name = "zero_sessions_during_peak";
        severity = "low";
        failure_type = "unknown";
        title = "No sessions during peak hours";
        condition = both (eq_zero "sessions_started") (gt "hour_of_day_sin" (decimal 5 1));
      }
      ∷ []

  -- `evaluate`: the rules that fire, in order; one that raises does not
  unfoldable pub evaluate : Features F → List (Rule F)
  unfolding rules select
  evaluate features = select (λ r. get_or (r.condition features) false) rules
