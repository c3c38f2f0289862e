-- ===== src/Alerts/Recipients.antt =====
-- Who is alerted.
use charge_pulse.Prelude.{
  ℕ, ◌≤◌, String, true, List, [], ◌∷◌, ◌≡◌, refl, arith, map, select, All, Option-cases, inl, inr,
}
use charge_pulse.Database.{Charger}
use charge_pulse.Incidents.{Incident, IncidentEntry, Board}
use charge_pulse.Alerts.{
  AlertConfig, rank_of, Delivery, find_incident_row, find_charger, is_configured, reaches, handle,
}

module _ {F : Type 0} where
  delivery : Incident F → Charger → AlertConfig → Delivery F
  delivery incident charger c = record { config = c; incident = incident; charger = charger }

  -- the alerts of a lower severity are those of a higher one that reach their configuration
  select-reaches :
      (s s' : String) (i : Incident F) (ch : Charger) (cs : List AlertConfig)
      → rank_of s ≤ rank_of s'
      → map (delivery i ch) (select (reaches s) cs)
        ≡ select (λ d. reaches s d.config) (map (delivery i ch) (select (reaches s') cs))
  unfolding select delivery
  select-reaches s s' i ch [] h = refl
  select-reaches s s' i ch (c ∷ cs) h = ground (arith, select-reaches s s' i ch cs h)

  -- An entry of a lower severity alerts a part of those that the same entry alerts with a higher
  -- severity: exactly the configurations whose threshold it reaches, in the same order.
  pub handle-monotone :
      (chargers : List Charger) (alert_configs : List AlertConfig) (b : Board F) (e : IncidentEntry)
      (s s' : String)
      → rank_of s ≤ rank_of s'
      → handle chargers alert_configs b (record e { severity = s })
        ≡ select
            (λ d. reaches s d.config)
            (handle chargers alert_configs b (record e { severity = s' }))
  unfolding handle select delivery
  handle-monotone chargers alert_configs b e s s' h =
      elim (Option-cases (find_incident_row e.incident_id b.incidents)) [
        | inl q ↦ rw (q, handle) refl
        | inr (i, q) ↦ elim (Option-cases (find_charger e.cp_id chargers)) [
          | inl p ↦ rw (q, handle) (rw (p, handle) refl)
          | inr (ch, p) ↦
              rw (q, handle)
                (rw (p, handle)
                  (select-reaches s s' i ch (select (is_configured e.org_id) alert_configs) h))
        ]
      ]

  -- the alert is for an active configuration of the organisation, whose threshold the severity reaches
  abbrev pub IsDue : ℕ → String → Delivery F → Type 0
  IsDue org_id severity d =
      (d.config.org_id ≡ org_id)
      × (d.config.is_active ≡ true)
      × (rank_of d.config.severity_min ≤ rank_of severity)

  select-IsDue :
      (org_id : ℕ) (severity : String) (i : Incident F) (ch : Charger) (cs : List AlertConfig)
      → All
          (IsDue org_id severity)
          (map (delivery i ch) (select (reaches severity) (select (is_configured org_id) cs)))
  unfolding select delivery
  select-IsDue org_id severity i ch [] = tt
  select-IsDue org_id severity i ch (c ∷ cs) = ground (arith, select-IsDue org_id severity i ch cs)

  -- Every alert of an entry goes to an active configuration of the entry's organisation whose
  -- threshold the entry's severity reaches.
  pub handle-IsDue :
      (chargers : List Charger) (alert_configs : List AlertConfig) (b : Board F) (e : IncidentEntry)
      → All (IsDue e.org_id e.severity) (handle chargers alert_configs b e)
  unfolding handle delivery
  handle-IsDue chargers alert_configs b e =
      elim (Option-cases (find_incident_row e.incident_id b.incidents)) [
        | inl q ↦ rw (q, All) tt
        | inr (i, q) ↦ elim (Option-cases (find_charger e.cp_id chargers)) [
          | inl p ↦ rw (q, All) (rw (p, All) tt)
          | inr (ch, p) ↦
              rw (q, All) (rw (p, All) (select-IsDue e.org_id e.severity i ch alert_configs))
        ]
      ]
