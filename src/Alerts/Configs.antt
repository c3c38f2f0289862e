-- ===== src/Alerts/Configs.antt =====
-- The requests on alert configurations: backend/app/alerts/service.py and schemas.py.
use charge_pulse.Prelude.{
  ℕ, ◌+◌, ◌%◌, ◌==◌, leb, String, Bool, true, Option, none, some, List, [], ◌∷◌, ◌++◌, ◌&&◌, ◌||◌,
  not, any, first, select, update_where, length, is_some, get_or, coalesce, codes, str_eq,
  if◌then◌else◌,
}
use charge_pulse.Prelude.Result.{Result, ok, err, http}
use charge_pulse.Alerts.{AlertConfig}

pub record AlertConfigCreate : Type 0 where
  pub channel : String
  pub endpoint : String
  pub label : Option String
  pub severity_min : String

pub record AlertConfigUpdate : Type 0 where
  pub endpoint : Option String
  pub label : Option String
  pub severity_min : Option String
  pub is_active : Option Bool

-- the patterns of the fields
abbrev pub channels : List String
channels = "sms" ∷ "whatsapp" ∷ "email" ∷ "webhook" ∷ "slack" ∷ []

abbrev pub severities : List String
severities = "low" ∷ "medium" ∷ "high" ∷ "critical" ∷ []

-- what FastAPI lets through to the service, and answers with 422 otherwise
unfoldable pub is_valid_create : AlertConfigCreate → Bool
unfolding any
is_valid_create req =
    any (str_eq req.channel) channels
    && any (str_eq req.severity_min) severities
    && leb 1 (length (codes req.endpoint))
    && leb (length (codes req.endpoint)) 500

-- the table, and the source of its ids
pub record Configs : Type 0 where
  pub rows : List AlertConfig
  pub next_id : ℕ

-- WHERE id=$1 AND org_id=$2
abbrev pub is_config : ℕ → ℕ → AlertConfig → Bool
is_config config_id org_id c = c.id == config_id && c.org_id == org_id

-- `list_configs`; `order` is ORDER BY created_at
unfoldable pub list_configs : (List AlertConfig → List AlertConfig) → ℕ → Configs → List AlertConfig
unfolding select
list_configs order org_id t = order (select (λ c. c.org_id == org_id) t.rows)

unfoldable pub create_config : ℕ → ℕ → AlertConfigCreate → Configs → AlertConfig × Configs
create_config now org_id req t =
    let row : AlertConfig = record {
      id = t.next_id;
      org_id = org_id;
      channel = req.channel;
      endpoint = req.endpoint;
      label = req.label;
      severity_min = req.severity_min;
      is_active = true;
      created_at = now;
    } in
    (row, record { rows = t.rows ++ row ∷ []; next_id = t.next_id + 1 })

-- the SET clause
abbrev pub apply_update : AlertConfigUpdate → AlertConfig → AlertConfig
apply_update req c = record c {
  endpoint = get_or req.endpoint c.endpoint;
  label = coalesce req.label c.label;
  severity_min = get_or req.severity_min c.severity_min;
  is_active = get_or req.is_active c.is_active;
}

-- `not updates` is false
abbrev pub has_updates : AlertConfigUpdate → Bool
has_updates req =
    is_some req.endpoint || is_some req.label || is_some req.severity_min || is_some req.is_active

-- `update_config`, with the table after it
unfoldable pub update_config : ℕ → ℕ → AlertConfigUpdate → Configs → Result (AlertConfig × Configs)
unfolding first update_where
update_config org_id config_id req t = elim (first (is_config config_id org_id) t.rows) [
  | none ↦ err (http 404 "config not found")
  | some c ↦
      if has_updates req
      then ok (
        apply_update req c,
        record t { rows = update_where (is_config config_id org_id) (apply_update req) t.rows },
      )
      else ok (c, t)
]

-- `delete_config`: the status of the DELETE ends with the number of rows, and the test reads its last digit
unfoldable pub delete_config : ℕ → ℕ → Configs → Result Configs
unfolding select
delete_config org_id config_id t =
    if length (select (is_config config_id org_id) t.rows) % 10 == 0
    then err (http 404 "config not found")
    else ok (record t { rows = select (λ c. not (is_config config_id org_id c)) t.rows })
