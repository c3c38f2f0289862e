-- ===== src/Fleet.antt =====
-- The figures of an organisation's fleet: backend/app/fleet/service.py (`overview`) and
-- backend/app/analytics/service.py (`vendor_comparison`). The health scores are those of the health worker.
pub mod Figures
pub mod Vendors
use charge_pulse.Prelude.{
  ℕ, ◌+◌, ◌-◌, ◌*◌, ◌/◌, ◌==◌, ltb, leb, String, Bool, true, false, Option, none, some, List, [],
  ◌∷◌, ◌++◌, ◌&&◌, not, select, map, length, is_some, get_or, str_eq, Dict, lookup, if◌then◌else◌,
}
use charge_pulse.Database.{Charger, Session, Status, online, offline, faulted, unknown}
use charge_pulse.Incidents.{Incident}
use charge_pulse.Incidents.Rules.{Numbers}
use charge_pulse.Features.{Floats, present}
use charge_pulse.Health.{UptimeRow, seven_days, sum_of}

pub record Overview (F : Type 0) : Type 0 where
  pub total_chargers : ℕ
  pub online : ℕ
  pub offline : ℕ
  pub faulted : ℕ
  pub avg_health_score : F
  pub avg_uptime_7d : F
  pub open_incidents : ℕ
  pub critical_incidents : ℕ
  pub sessions_today : ℕ
  pub energy_today_wh : ℕ

abbrev pub is_online : Charger → Bool
is_online c = elim c.status [ Status.online ↦ true | _ ↦ false ]

abbrev pub is_offline : Charger → Bool
is_offline c = elim c.status [ Status.offline ↦ true | _ ↦ false ]

abbrev pub is_faulty : Charger → Bool
is_faulty c = elim c.status [ Status.faulted ↦ true | _ ↦ false ]

-- resolved_at IS NULL, and AND severity = 'critical'
abbrev pub is_unresolved : {F : Type 0} → Incident F → Bool
is_unresolved i = not (is_some i.resolved_at)

abbrev pub is_critical : {F : Type 0} → Incident F → Bool
is_critical i = is_unresolved i && str_eq i.severity "critical"

-- the start of the day
abbrev pub today : ℕ → ℕ
today now = now / 86400000000 * 86400000000

module _ (nu : Numbers) (fl : Floats nu) where
  open nu use {F, decimal, equal}

  -- COALESCE(AVG(…), d)
  abbrev avg_or : F → List F → F
  avg_or d [] = d
  avg_or d (x ∷ xs) = fl.mean (x ∷ xs)

  -- `x or d`
  abbrev or_default : F → F → F
  or_default x d = if equal x (decimal 0 1) then d else x

  -- available / NULLIF(available + faulted, 0)
  abbrev pub ratio_of : UptimeRow → Option F
  ratio_of r =
      let total = r.available_count + r.faulted_count in
      if total == 0 then none else some (fl.ratio r.available_count total)

  unfoldable pub uptime_of : List UptimeRow → F
  unfolding present
  uptime_of rows =
      or_default (fl.times (avg_or (decimal 10 1) (present (map ratio_of rows))) (decimal 100 0))
        (decimal 1000 1)

  unfoldable pub overview :
      ℕ → ℕ → List Charger → Dict F → List (Incident F) → List Session → List UptimeRow → Overview F
  unfolding select present lookup
  overview now org_id all_chargers scores all_incidents all_sessions all_uptime =
      let chargers = select (λ c. c.org_id == org_id) all_chargers in
      let incidents = select (λ i. i.org_id == org_id) all_incidents in
      let sessions =
        select (λ s. s.org_id == org_id && leb (today now) s.started_at) all_sessions in
      record {
        total_chargers = length chargers;
        online = length (select is_online chargers);
        offline = length (select is_offline chargers);
        faulted = length (select is_faulty chargers);
        avg_health_score =
            or_default
              (avg_or (decimal 100 0)
                (map (λ c. get_or (lookup c.cp_id scores) (decimal 1000 1)) chargers))
              (decimal 100 0);
        avg_uptime_7d =
            uptime_of
              (select (λ r. r.org_id == org_id && leb (now - seven_days) r.bucket) all_uptime);
        open_incidents = length (select is_unresolved incidents);
        critical_incidents = length (select is_critical incidents);
        sessions_today = length sessions;
        energy_today_wh = sum_of (present (map (λ s. s.energy_wh) sessions));
      }

-- chargers c LEFT JOIN incidents i ON i.cp_id = c.cp_id: a charger without an incident has one row
abbrev pub joined_rows :
    {F : Type 0} → Charger → List (Incident F) → List (Charger × Option (Incident F))
joined_rows c [] = (c, none) ∷ []
joined_rows c (i ∷ is) = (c, some i) ∷ map (λ j. (c, some j)) is

unfoldable pub left_join :
    {F : Type 0} → List Charger → List (Incident F) → List (Charger × Option (Incident F))
unfolding select
left_join [] incidents = []
left_join (c ∷ rest) incidents =
    joined_rows c (select (λ i. str_eq i.cp_id c.cp_id) incidents) ++ left_join rest incidents

abbrev pub same_text : Option String → Option String → Bool
same_text none none = true
same_text (some s) (some t) = str_eq s t
same_text _ _ = false

-- the group of a vendor and a model, in the organisation
abbrev pub is_grouped : ℕ → Option String → Option String → Charger → Bool
is_grouped org_id vendor model c =
    c.org_id == org_id && same_text c.vendor vendor && same_text c.model model

-- the figures of a group of `vendor_comparison`: COUNT(*), and the parts of incident_rate
pub record VendorRow : Type 0 where
  pub charger_count : ℕ
  pub incidents : ℕ
  pub divisor : ℕ

unfoldable pub vendor_row :
    {F : Type 0} → ℕ → Option String → Option String → List Charger → List (Incident F) → VendorRow
unfolding select left_join
vendor_row org_id vendor model chargers incidents =
    let rows = select (λ r. is_grouped org_id vendor model r.0) (left_join chargers incidents) in
    record {
      charger_count = length rows;
      incidents = length (select (λ r. is_some r.1) rows);
      divisor = if leb 1 (length rows) then length rows else 1;
    }
