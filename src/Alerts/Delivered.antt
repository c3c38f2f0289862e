-- ===== src/Alerts/Delivered.antt =====
-- From a request on the configurations to the alerts: the service and the alert worker together.
use charge_pulse.Prelude.{
  ℕ, ◌==◌, ==_iff, ◌≤◌, ◌<◌, String, Bool, true, false, Option, some, List, [], ◌∷◌, ◌++◌, ◌≡◌, ◌≢◌,
  refl, sym, ap, ◌∙◌, arith, not, All, map, select, select-append, select-others, length,
  Bool-cases, Option-cases, inl, inr,
}
use charge_pulse.Prelude.Result.{ok, err, http}
use charge_pulse.Database.{Charger}
use charge_pulse.Incidents.{Incident, IncidentEntry, Board, entry_of, raise_incident}
use charge_pulse.Alerts.{
  AlertConfig, rank_of, Delivery, find_incident_row, find_charger, is_configured, reaches, handle,
}
use charge_pulse.Alerts.Configs.{
  AlertConfigCreate, Configs, is_config, create_config, delete_config,
}

map-append : {A B : Type 0} (f : A → B) (xs ys : List A) → map f (xs ++ ys) ≡ map f xs ++ map f ys
map-append f [] ys = refl
map-append f (x ∷ xs) ys = ap (λ l. f x ∷ l) (map-append f xs ys)

module _ {F : Type 0} where
  -- every id in use is below the next one
  abbrev pub IsFresh : Board F → Type 0
  IsFresh b = All (λ i. i.id < b.next_id) b.incidents

  find_incident_row_new :
      (is : List (Incident F)) (i : Incident F)
      → All (λ j. j.id < i.id) is
      → find_incident_row i.id (is ++ i ∷ []) ≡ some i
  unfolding find_incident_row
  find_incident_row_new [] i h = ground arith
  find_incident_row_new (j ∷ is) i h = ground (arith, h.0, find_incident_row_new is i h.1)

  -- the alerts where the incident and the charger are known
  alerts : List AlertConfig → Incident F → Charger → String → ℕ → List (Delivery F)
  alerts rows i ch severity org_id =
      map (λ c. record { config = c; incident = i; charger = ch })
        (select (reaches severity) (select (is_configured org_id) rows))

  handle_known :
      (chargers : List Charger) (rows : List AlertConfig) (b : Board F) (e : IncidentEntry)
      (i : Incident F) (ch : Charger)
      → find_incident_row e.incident_id b.incidents ≡ some i
      → find_charger e.cp_id chargers ≡ some ch
      → handle chargers rows b e ≡ alerts rows i ch e.severity e.org_id
  unfolding handle alerts
  handle_known chargers rows b e i ch h k = rw (h, handle) (rw (k, handle) refl)

  alerts-append :
      (rows : List AlertConfig) (c : AlertConfig) (i : Incident F) (ch : Charger)
      (severity : String) (org_id : ℕ)
      → is_configured org_id c ≡ true
      → reaches severity c ≡ true
      → alerts (rows ++ c ∷ []) i ch severity org_id
        ≡ alerts rows i ch severity org_id ++ record { config = c; incident = i; charger = ch } ∷ []
  unfolding alerts select
  alerts-append rows c i ch severity org_id h k =
      rw (select-append (is_configured org_id) rows (c ∷ [])) (
        rw h (
          rw (select-append (reaches severity) (select (is_configured org_id) rows) (c ∷ [])) (
            rw k (
              map-append _ (select (reaches severity) (select (is_configured org_id) rows))
                (c ∷ [])))))

  -- A new configuration is alerted of the next incident: the configuration is created, the worker raises
  -- an incident of the organisation for a charger that is known, of a severity that the configuration's threshold
  -- allows, and the alert worker, on the entry that announces it, dispatches what it would have dispatched without the
  -- configuration, and one alert more, to the configuration. The board's ids are below the next one.
  pub create_config-alerts :
      (clock : ℕ → ℕ) (chargers : List Charger) (charger : Charger) (now org_id : ℕ)
      (req : AlertConfigCreate) (t : Configs)
      (cp_id severity failure_type title description : String) (score : Option F) (b : Board F)
      → IsFresh b
      → find_charger cp_id chargers ≡ some charger
      → rank_of req.severity_min ≤ rank_of severity
      → (i : Incident F) × ((raise_incident clock cp_id org_id severity failure_type title
            description score b).incidents
          ≡ b.incidents ++ i ∷ [])
        × ((raise_incident clock cp_id org_id severity failure_type title description score
              b).entries
            ≡ b.entries ++ entry_of i ∷ [])
        × (handle chargers
              (create_config now org_id req t).1.rows
              (raise_incident clock cp_id org_id severity failure_type title description score b)
              (entry_of i)
            ≡ handle chargers t.rows
                (raise_incident clock cp_id org_id severity failure_type title description score b)
                (entry_of i)
              ++ record {
                config = (create_config now org_id req t).0;
                incident = i;
                charger = charger;
              }
                ∷ [])
  unfolding raise_incident create_config entry_of
  create_config-alerts clock chargers charger now org_id req t cp_id severity failure_type title
        description score b fresh known allowed =
      let b' = raise_incident clock cp_id org_id severity failure_type title description score b in
      let (row, t') = create_config now org_id req t in
      let i : Incident F = _ in
      let there : find_incident_row b.next_id b'.incidents ≡ some i =
        find_incident_row_new b.incidents i fresh in
      (
        i,
        refl,
        refl,
        handle_known chargers t'.rows b' (entry_of i) i charger there known
            ∙ (alerts-append t.rows row i charger severity org_id (ground arith)
                  (ground (arith, allowed))
                ∙ ap (λ l. l ++ record { config = row; incident = i; charger = charger } ∷ [])
                    (sym (handle_known chargers t.rows b' (entry_of i) i charger there known))),
      )

module _ {A : Type 0} where
  select-gone : (p : A → Bool) (xs : List A) → select p (select (λ x. not (p x)) xs) ≡ []
  unfolding select
  select-gone p [] = refl
  select-gone p (x ∷ xs) = ground (arith, select-gone p xs)

  All-select : (P : A → Type 0) (p : A → Bool) (xs : List A) → All P xs → All P (select p xs)
  unfolding select
  All-select P p [] h = tt
  All-select P p (x ∷ xs) h = elim (Bool-cases (p x)) [
    | inl e ↦ rw e (h.0, All-select P p xs h.1)
    | inr e ↦ rw e (All-select P p xs h.1)
  ]

  All-kept : (p : A → Bool) (xs : List A) → All (λ x. p x ≡ false) (select (λ x. not (p x)) xs)
  unfolding select
  All-kept p [] = tt
  All-kept p (x ∷ xs) = elim (Bool-cases (p x)) [
    | inl e ↦ rw e (All-kept p xs)
    | inr e ↦ rw e (e, All-kept p xs)
  ]

is_config_other :
    (config_id org_id other : ℕ) (c : AlertConfig)
    → (c.org_id == other) ≡ true
    → other ≢ org_id
    → is_config config_id org_id c ≡ false
is_config_other config_id org_id other c h different = elim (Bool-cases (c.org_id == org_id)) [
  | inl e ↦ elim (different (sym ((==_iff c.org_id other).0 h) ∙ (==_iff c.org_id org_id).0 e)) [ ]
  | inr e ↦ rw e (ground arith)
]

module _ {F : Type 0} where
  All-alerts :
      (P : AlertConfig → Type 0) (rows : List AlertConfig) (i : Incident F) (ch : Charger)
      → All P rows
      → All
          (λ (d : Delivery F). P d.config)
          (map (λ c. record { config = c; incident = i; charger = ch }) rows)
  All-alerts P [] i ch h = tt
  All-alerts P (c ∷ rows) i ch h = (h.0, All-alerts P rows i ch h.1)

  -- who is alerted is in the table
  handle-All :
      (P : AlertConfig → Type 0) (chargers : List Charger) (rows : List AlertConfig) (b : Board F)
      (e : IncidentEntry)
      → All P rows
      → All (λ (d : Delivery F). P d.config) (handle chargers rows b e)
  unfolding handle
  handle-All P chargers rows b e h =
      elim (Option-cases (find_incident_row e.incident_id b.incidents)) [
        | inl q ↦ rw (q, All) tt
        | inr (i, q) ↦ elim (Option-cases (find_charger e.cp_id chargers)) [
          | inl p ↦ rw (q, All) (rw (p, All) tt)
          | inr (ch, p) ↦
              rw (q, All)
                (rw (p, All)
                  (All-alerts P _ i ch (
                    All-select P (reaches e.severity) _
                      (All-select P (is_configured e.org_id) rows h))))
        ]
      ]

  -- A configuration that is deleted is alerted no more, of no incident. The configurations of every other
  -- organisation stay, and a second request answers 404. The id is the table's key: one row has it.
  pub delete_config-alerts :
      (chargers : List Charger) (b : Board F) (e : IncidentEntry) (org_id config_id : ℕ)
      (t : Configs)
      → length (select (is_config config_id org_id) t.rows) ≡ 1
      → (t' : Configs) × (delete_config org_id config_id t ≡ ok t')
        × (All
            (λ (d : Delivery F). is_config config_id org_id d.config ≡ false)
            (handle chargers t'.rows b e))
        × ((other : ℕ)
            → other ≢ org_id
            → select (λ c. c.org_id == other) t'.rows ≡ select (λ c. c.org_id == other) t.rows)
        × (delete_config org_id config_id t' ≡ err (http 404 "config not found"))
  unfolding delete_config
  delete_config-alerts chargers b e org_id config_id t one =
      let t' : Configs = record t {
        rows = select (λ c. not (is_config config_id org_id c)) t.rows;
      } in
      (
        t',
        rw one refl,
        handle-All _ chargers t'.rows b e (All-kept (is_config config_id org_id) t.rows),
        λ other different.
            select-others (is_config config_id org_id) (λ c. c.org_id == other) t.rows
              (λ c h. is_config_other config_id org_id other c h different),
        rw (select-gone (is_config config_id org_id) t.rows) refl,
      )
