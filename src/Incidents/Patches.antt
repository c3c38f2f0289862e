-- ===== src/Incidents/Patches.antt =====
-- What a patch of an incident changes.
use charge_pulse.Prelude.{
  ℕ, ◌==◌, Bool, false, List, [], ◌∷◌, ◌≡◌, ◌≢◌, refl, sym, ap, ◌∙◌, arith, update_where, select,
  Bool-cases, inl, inr,
}
use charge_pulse.Prelude.Result.{Result, ok, err, ◌>>=◌, bind-eq-ok}
use charge_pulse.Gateway.Router.Frame.{select-update_where}
use charge_pulse.Incidents.{Incident, Board}
use charge_pulse.Incidents.Service.{
  IncidentPatch, is_incident, find_incident, get_incident, apply_patch, has_updates, patch_incident,
}

module _ {F : Type 0} where
  -- the table after the UPDATE
  unfoldable pub patched : ℕ → ℕ → IncidentPatch → Board F → Board F
  patched org_id incident_id patch b = record b {
    incidents = update_where (is_incident org_id incident_id) (apply_patch patch) b.incidents;
  }

  find-update_where :
      (org_id incident_id : ℕ) (patch : IncidentPatch) (is : List (Incident F))
      → find_incident org_id incident_id
          (update_where (is_incident org_id incident_id) (apply_patch patch) is)
        ≡ (find_incident org_id incident_id is >>= λ i. ok (apply_patch patch i))
  unfolding find_incident update_where apply_patch
  find-update_where org_id incident_id patch [] = refl
  find-update_where org_id incident_id patch (i ∷ is) =
      elim (Bool-cases (is_incident org_id incident_id i)) [
        | inl e ↦ rw e (rw e refl)
        | inr e ↦ rw e (rw e (find-update_where org_id incident_id patch is))
      ]

  -- a patch without fields assigns nothing
  apply_patch_none :
      (patch : IncidentPatch) (i : Incident F) → has_updates patch ≡ false → apply_patch patch i ≡ i
  unfolding apply_patch
  apply_patch_none patch i e = ground arith

  update_where_none :
      (p : Incident F → Bool) (patch : IncidentPatch) (is : List (Incident F))
      → has_updates patch ≡ false
      → update_where p (apply_patch patch) is ≡ is
  unfolding update_where
  update_where_none p patch [] e = refl
  update_where_none p patch (i ∷ is) e =
      ground (arith, apply_patch_none patch i e, update_where_none p patch is e)

  abbrev pub pair : Incident F → Board F → Incident F × Board F
  pair i b = (i, b)

  bind_map :
      (m : Result (Incident F)) (f : Incident F → Incident F) (b : Board F)
      → ((m >>= λ i. ok (f i)) >>= λ j. ok (pair j b)) ≡ (m >>= λ i. ok (pair (f i) b))
  bind_map (ok i) f b = refl
  bind_map (err e) f b = refl

  bind_same :
      (m : Result (Incident F)) (f : Incident F → Incident F) (b b' : Board F)
      → ((i : Incident F) → f i ≡ i)
      → b' ≡ b
      → (m >>= λ i. ok (pair i b)) ≡ (m >>= λ i. ok (pair (f i) b'))
  bind_same (ok i) f b b' h e = rw (h i) (rw e refl)
  bind_same (err q) f b b' h e = refl

  ok_board : {i j : Incident F} {b b' : Board F} → ok (pair i b) ≡ ok (pair j b') → b ≡ b'
  ok_board e = cc

  -- A patch, also one without fields, is the lookup of the incident in the organisation and an
  -- assignment to its row: it fails with 404 where the lookup fails, and else it returns the row with the assigned
  -- fields.
  pub patch_incident_lem :
      (org_id incident_id : ℕ) (patch : IncidentPatch) (b : Board F)
      → patch_incident org_id incident_id patch b ≡ (
          get_incident org_id incident_id b >>= λ i.
          ok (pair (apply_patch patch i) (patched org_id incident_id patch b)))
  unfolding patch_incident get_incident patched
  patch_incident_lem org_id incident_id patch b = elim (Bool-cases (has_updates patch)) [
    | inl e ↦ rw e (
        rw (find-update_where org_id incident_id patch b.incidents) (
          bind_map (find_incident org_id incident_id b.incidents) (apply_patch patch)
            (patched org_id incident_id patch b)))
    | inr e ↦ rw e (
        bind_same (get_incident org_id incident_id b) (apply_patch patch) b
          (patched org_id incident_id patch b) (λ i. apply_patch_none patch i e)
          (ap (λ l. record b { incidents = l })
            (update_where_none (is_incident org_id incident_id) patch b.incidents e)))
  ]

  -- An organisation's patch leaves the incidents of every other organisation, and the stream, as they were.
  pub patch_incident_other :
      (org_id incident_id other : ℕ) (patch : IncidentPatch) (b : Board F) (i : Incident F)
      (b' : Board F)
      → org_id ≢ other
      → patch_incident org_id incident_id patch b ≡ ok (i, b')
      → (select (λ j. j.org_id == other) b'.incidents ≡ select (λ j. j.org_id == other) b.incidents)
        × (b'.entries ≡ b.entries)
  unfolding patched apply_patch
  patch_incident_other org_id incident_id other patch b i b' ne e =
      let (j, found, q) =
        bind-eq-ok (get_incident org_id incident_id b) _
          (sym (patch_incident_lem org_id incident_id patch b) ∙ e) in
      let e' = ok_board q in
      (
        rw (← e') (
            select-update_where (λ j. j.org_id == other) (is_incident org_id incident_id)
              (apply_patch patch)
              (λ j own. let no : (j.org_id == other) ≡ false = ground (arith, ne, own) in (no, no))
              b.incidents),
        rw (← e') refl,
      )
