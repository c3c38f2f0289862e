-- ===== src/Fleet/Vendors.antt =====
-- What the comparison of vendors counts.
use charge_pulse.Prelude.{
  ℕ, suc, ◌+◌, ◌≤◌, max, String, Bool, Option, some, List, [], ◌∷◌, ◌≡◌, refl, ap, ap₂, ◌∙◌, arith,
  select, select-append, map, length, length-append, is_some, str_eq, if◌then◌else◌, Bool-cases,
  inl, inr,
}
use charge_pulse.Database.{Charger}
use charge_pulse.Incidents.{Incident}
use charge_pulse.Health.{sum_of}
use charge_pulse.Fleet.{joined_rows, left_join, is_grouped, vendor_row}

module _ {F : Type 0} where
  -- the incidents of a charger
  abbrev pub incidents_of : List (Incident F) → Charger → List (Incident F)
  incidents_of incidents c = select (λ i. str_eq i.cp_id c.cp_id) incidents

  module _ (g : Charger → Bool) where
    paired :
        (c : Charger) (is : List (Incident F))
        → (length
              (select (λ (r : Charger × Option (Incident F)). g r.0) (map (λ i. (c, some i)) is))
            ≡ (if g c then length is else 0))
          × (length (
                select
                  (λ (r : Charger × Option (Incident F)). is_some r.1)
                  (select
                    (λ (r : Charger × Option (Incident F)). g r.0)
                    (map (λ i. (c, some i)) is)))
              ≡ (if g c then length is else 0))
    unfolding select
    paired c [] = (ground arith, ground arith)
    paired c (i ∷ is) =
        let h = paired c is in
        elim (Bool-cases (g c)) [
          | inl e ↦ rw e (ap suc (rw e at h.0), ap suc (rw e at h.1))
          | inr e ↦ rw e (rw e at h.0, rw e at h.1)
        ]

    joined_counts :
        (c : Charger) (is : List (Incident F))
        → (length (select (λ r. g r.0) (joined_rows c is)) ≡ (if g c then max 1 (length is) else 0))
          × (length (select (λ r. is_some r.1) (select (λ r. g r.0) (joined_rows c is)))
              ≡ (if g c then length is else 0))
    unfolding select
    joined_counts c [] = elim (Bool-cases (g c)) [
      | inl e ↦ rw e (refl, refl)
      | inr e ↦ rw e (refl, refl)
    ]
    joined_counts c (i ∷ is) =
        let h = paired c is in
        elim (Bool-cases (g c)) [
          | inl e ↦ rw e (omega (arith, rw e at h.0), ap suc (rw e at h.1))
          | inr e ↦ rw e (rw e at h.0, rw e at h.1)
        ]

    all_joined :
        (chargers : List Charger) (incidents : List (Incident F))
        → (length (select (λ r. g r.0) (left_join chargers incidents))
            ≡ sum_of (map (λ c. max 1 (length (incidents_of incidents c))) (select g chargers)))
          × (length (select (λ r. is_some r.1) (select (λ r. g r.0) (left_join chargers incidents)))
              ≡ sum_of (map (λ c. length (incidents_of incidents c)) (select g chargers)))
    unfolding left_join select
    all_joined [] incidents = (refl, refl)
    all_joined (c ∷ chargers) incidents =
        let own = incidents_of incidents c in
        let h = joined_counts c own in
        let k = all_joined chargers incidents in
        let kept = select (λ (r : Charger × Option (Incident F)). g r.0) (joined_rows c own) in
        let rows =
          select (λ (r : Charger × Option (Incident F)). g r.0) (left_join chargers incidents) in
        let total = length-append kept rows ∙ ap₂ (λ x y. x + y) h.0 k.0 in
        let found =
          length-append (select (λ (r : Charger × Option (Incident F)). is_some r.1) kept)
            (select (λ (r : Charger × Option (Incident F)). is_some r.1) rows)
          ∙ ap₂ (λ x y. x + y) h.1 k.1 in
        rw
          (select-append (λ (r : Charger × Option (Incident F)). g r.0) (joined_rows c own)
            (left_join chargers incidents))
          (rw (select-append (λ (r : Charger × Option (Incident F)). is_some r.1) kept rows)
            (elim (Bool-cases (g c)) [
              | inl e ↦ rw e (rw e at total, rw e at found)
              | inr e ↦ rw e (omega (arith, rw e at total), omega (arith, rw e at found))
            ]))

  sums :
      (incidents : List (Incident F)) (cs : List Charger)
      → (length cs ≤ sum_of (map (λ c. max 1 (length (incidents_of incidents c))) cs))
        × (sum_of (map (λ c. length (incidents_of incidents c)) cs)
            ≤ sum_of (map (λ c. max 1 (length (incidents_of incidents c))) cs))
  sums incidents [] = (omega arith, omega arith)
  sums incidents (c ∷ cs) = let h = sums incidents cs in (omega (arith, h.0), omega (arith, h.1))

  -- The comparison of vendors counts rows of a join: a charger of the group with n incidents counts as n
  -- chargers, and as one where it has none. So the count is at least the number of the group's chargers, and the
  -- incident rate, the group's incidents divided by the count, never exceeds 1.
  pub vendor_row_lem :
      (org_id : ℕ) (vendor model : Option String) (chargers : List Charger)
      (incidents : List (Incident F))
      → ((vendor_row org_id vendor model chargers incidents).charger_count
          ≡ sum_of (
              map
                (λ c. max 1 (length (incidents_of incidents c)))
                (select (is_grouped org_id vendor model) chargers)))
        × (length (select (is_grouped org_id vendor model) chargers)
            ≤ (vendor_row org_id vendor model chargers incidents).charger_count)
        × ((vendor_row org_id vendor model chargers incidents).incidents
            ≡ sum_of (
                map
                  (λ c. length (incidents_of incidents c))
                  (select (is_grouped org_id vendor model) chargers)))
        × ((vendor_row org_id vendor model chargers incidents).incidents
            ≤ (vendor_row org_id vendor model chargers incidents).divisor)
  unfolding vendor_row
  vendor_row_lem org_id vendor model chargers incidents =
      let h = all_joined (is_grouped org_id vendor model) chargers incidents in
      let k = sums incidents (select (is_grouped org_id vendor model) chargers) in
      (h.0, omega (arith, h.0, k.0), h.1, ground (arith, h.0, h.1, k.1))
