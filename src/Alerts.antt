-- ===== src/Alerts.antt =====
-- Alerts: the alert worker (backend/workers/alert_worker.py) and the dispatcher
-- (backend/app/alerts/dispatcher.py). The five transports are network calls, and parameters.
pub mod Recipients
pub mod Configs
pub mod Delivered
use charge_pulse.Prelude.{
  ℕ, ◌==◌, leb, String, Bool, true, false, Option, none, some, List, [], ◌∷◌, ◌&&◌, map, select,
  get_or, if◌then◌else◌, Dict, lookup, str_eq,
}
use charge_pulse.Database.{Charger}
use charge_pulse.Gateway.Router.{is_charger}
use charge_pulse.Incidents.{Incident, IncidentEntry, Board}

-- a row of `alert_configs`
pub record AlertConfig : Type 0 where
  pub id : ℕ
  pub org_id : ℕ
  pub channel : String
  pub endpoint : String
  pub label : Option String
  pub severity_min : String
  pub is_active : Bool
  pub created_at : ℕ

-- `_SEVERITY_RANK`
abbrev pub severity_rank : Dict ℕ
severity_rank = ("low", 1) ∷ ("medium", 2) ∷ ("high", 3) ∷ ("critical", 4) ∷ []

-- `_SEVERITY_RANK.get(severity, 0)`
unfoldable pub rank_of : String → ℕ
unfolding lookup
rank_of severity = get_or (lookup severity severity_rank) 0

-- a call of `dispatch`
pub record Delivery (F : Type 0) : Type 0 where
  pub config : AlertConfig
  pub incident : Incident F
  pub charger : Charger

-- the senders of the dispatcher: `none` where one raises
pub record Transports (F : Type 0) : Type 0 where
  pub send_email : Delivery F → Option Bool
  pub send_sms : Delivery F → Option Bool
  pub send_whatsapp : Delivery F → Option Bool
  pub send_webhook : Delivery F → Option Bool
  pub send_slack : Delivery F → Option Bool

unfoldable pub find_charger : String → List Charger → Option Charger
find_charger cp_id [] = none
find_charger cp_id (c ∷ rest) = if is_charger cp_id c then some c else find_charger cp_id rest

-- WHERE org_id = $1 AND is_active = true
abbrev pub is_configured : ℕ → AlertConfig → Bool
is_configured org_id c = c.org_id == org_id && c.is_active

-- not the test of the `continue`
abbrev pub reaches : String → AlertConfig → Bool
reaches severity c = leb (rank_of c.severity_min) (rank_of severity)

module _ {F : Type 0} where
  -- `dispatch`: an exception of a sender and an unknown channel are failures
  unfoldable pub dispatch : Transports F → Delivery F → Bool
  dispatch tr d =
      let channel = d.config.channel in
      if str_eq channel "email"
      then get_or (tr.send_email d) false
      else if str_eq channel "sms"
      then get_or (tr.send_sms d) false
      else if str_eq channel "whatsapp"
      then get_or (tr.send_whatsapp d) false
      else if str_eq channel "webhook"
      then get_or (tr.send_webhook d) false
      else if str_eq channel "slack"
      then get_or (tr.send_slack d) false
      else false

  unfoldable pub find_incident_row : ℕ → List (Incident F) → Option (Incident F)
  find_incident_row incident_id [] = none
  find_incident_row incident_id (i ∷ rest) =
      if i.id == incident_id then some i else find_incident_row incident_id rest

  -- `handle`: the calls of `dispatch`, in order
  unfoldable pub handle :
      List Charger → List AlertConfig → Board F → IncidentEntry → List (Delivery F)
  unfolding select find_incident_row find_charger
  handle chargers alert_configs b e = elim (find_incident_row e.incident_id b.incidents) [
    | none ↦ []
    | some incident ↦ elim (find_charger e.cp_id chargers) [
      | none ↦ []
      | some charger ↦
          map (λ c. record { config = c; incident = incident; charger = charger })
            (select (reaches e.severity) (select (is_configured e.org_id) alert_configs))
    ]
  ]
