-- ===== src/Incidents/Service.antt =====
-- The requests on incidents: backend/app/incidents/service.py.
use charge_pulse.Prelude.{
  ℕ, ◌==◌, String, Bool, true, false, Option, none, some, List, [], ◌∷◌, ◌&&◌, ◌||◌, not, select,
  length, update_where, str_eq, if◌then◌else◌, is_some, coalesce,
}
use charge_pulse.Prelude.Result.{Result, ok, err, http, ◌>>=◌}
use charge_pulse.Chargers.{page_of}
use charge_pulse.Incidents.{Incident, Board}

-- a request's changes, `IncidentPatch`
pub record IncidentPatch : Type 0 where
  pub acknowledged_at : Option ℕ
  pub resolved_at : Option ℕ
  pub resolution_notes : Option String
  pub confirmed_failure_type : Option String

-- a filter of `list_incidents`: the empty text is no filter
abbrev pub has_text : Option String → String → Bool
has_text none t = true
has_text (some f) t = str_eq f "" || str_eq t f

abbrev pub has_updates : IncidentPatch → Bool
has_updates patch =
    is_some patch.acknowledged_at
    || is_some patch.resolved_at
    || is_some patch.resolution_notes
    || is_some patch.confirmed_failure_type

module _ {F : Type 0} where
  abbrev pub is_incident : ℕ → ℕ → Incident F → Bool
  is_incident org_id incident_id i = i.id == incident_id && i.org_id == org_id

  abbrev pub is_listed :
      ℕ → Option String → Option String → Option Bool → Option String → Incident F → Bool
  is_listed org_id severity failure_type resolved cp_id i =
      i.org_id == org_id
      && has_text severity i.severity
      && elim failure_type [
        | none ↦ true
        | some f ↦ str_eq f "" || elim i.failure_type [ none ↦ false | some t ↦ str_eq t f ]
      ]
      && elim resolved [
        | none ↦ true
        | some true ↦ is_some i.resolved_at
        | some false ↦ not (is_some i.resolved_at)
      ]
      && has_text cp_id i.cp_id

  -- `list_incidents`; `order` is ORDER BY detected_at DESC, as the database does it
  unfoldable pub list_incidents :
      (List (Incident F) → List (Incident F))
      → ℕ
      → Option String
      → Option String
      → Option Bool
      → Option String
      → ℕ
      → ℕ
      → Board F
      → List (Incident F) × ℕ
  unfolding select page_of
  list_incidents order org_id severity failure_type resolved cp_id page limit b =
      let rows = select (is_listed org_id severity failure_type resolved cp_id) b.incidents in
      (page_of page limit (order rows), length rows)

  unfoldable pub find_incident : ℕ → ℕ → List (Incident F) → Result (Incident F)
  find_incident org_id incident_id [] = err (http 404 "incident not found")
  find_incident org_id incident_id (i ∷ rest) =
      if is_incident org_id incident_id i then ok i else find_incident org_id incident_id rest

  unfoldable pub get_incident : ℕ → ℕ → Board F → Result (Incident F)
  unfolding find_incident
  get_incident org_id incident_id b = find_incident org_id incident_id b.incidents

  -- the assignments of the UPDATE: a field that is `None` in the request is not among them
  unfoldable pub apply_patch : IncidentPatch → Incident F → Incident F
  apply_patch patch i = record i {
    acknowledged_at = coalesce patch.acknowledged_at i.acknowledged_at;
    resolved_at = coalesce patch.resolved_at i.resolved_at;
    resolution_notes = coalesce patch.resolution_notes i.resolution_notes;
    confirmed_failure_type = coalesce patch.confirmed_failure_type i.confirmed_failure_type;
  }

  -- `patch_incident`: the row after it, and the table
  unfoldable pub patch_incident : ℕ → ℕ → IncidentPatch → Board F → Result (Incident F × Board F)
  unfolding get_incident apply_patch update_where
  patch_incident org_id incident_id patch b =
      if has_updates patch
      then (let after : Board F = record b {
        incidents = update_where (is_incident org_id incident_id) (apply_patch patch) b.incidents;
      } in
          get_incident org_id incident_id after >>= λ i. ok (i, after))
      else (get_incident org_id incident_id b >>= λ i. ok (i, b))
