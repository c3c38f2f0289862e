-- ===== src/Models/Retrain.antt =====
-- Which model is active after a turn of the nightly retraining.
use mathlib.Core.List.{append-nil}
use charge_pulse.Prelude.{
  ◌+◌, ◌<◌, ◌==◌, String, true, false, none, some, List, [], ◌∷◌, ◌++◌, ◌≡◌, refl, ap, ap₂, ◌∙◌,
  arith, not, All, All-mono, map, select, select-append, update_where, eq_refl, ==_iff,
  if◌then◌else◌, Bool-cases, Option-cases, inl, inr,
}
use charge_pulse.Incidents.Rules.{Numbers}
use charge_pulse.Models.{
  Model, Trained, ModelTable, is_detector, has_model_id, activate, max_version, latest, model_of,
  register_model, is_active_detector, current_val_loss, maybe_demote, retrain,
}
use charge_pulse.Models.Versions.{
  off, All-select, All-passes, latest-All, max_version-All, latest-snoc, latest-off, detectors-off,
  none_active, one_active, update_none, select_none_id, update-append, All-off,
}

module _ {F : Type 0} where
  -- the rows of the charger after the training has written
  registered_rows :
      (cp_id : String) (r : Trained F) (t : ModelTable F)
      → select (is_detector cp_id) (register_model cp_id r t).rows
        ≡ map off (select (is_detector cp_id) t.rows) ++ model_of cp_id r t ∷ []
  unfolding register_model
  registered_rows cp_id r t =
      select-append (is_detector cp_id) (update_where (is_detector cp_id) (activate false) t.rows) _
      ∙ ap₂ (λ x y. x ++ y) (detectors-off cp_id t.rows) (rw (eq_refl cp_id) refl)

  register-active :
      (cp_id : String) (r : Trained F) (t : ModelTable F)
      → select (is_active_detector cp_id) (register_model cp_id r t).rows ≡ model_of cp_id r t ∷ []
  unfolding register_model
  register-active cp_id r t =
      select-append (is_active_detector cp_id)
        (update_where (is_detector cp_id) (activate false) t.rows) _
      ∙ ap₂ (λ x y. x ++ y) (none_active cp_id t.rows) (rw (eq_refl cp_id) refl)

  All-map-off :
      (P : Model F → Type 0) (xs : List (Model F))
      → ((m : Model F) → P m → P (off m))
      → All P xs
      → All P (map off xs)
  All-map-off P [] f h = tt
  All-map-off P (x ∷ xs) f h = (f x h.0, All-map-off P xs f h.1)

  -- the new model is the latest, and the one before it is the latest of the old ones
  latest_new :
      (cp_id : String) (r : Trained F) (t : ModelTable F)
      → latest (select (is_detector cp_id) (register_model cp_id r t).rows)
        ≡ some (model_of cp_id r t)
  unfolding off
  latest_new cp_id r t =
      let ds = select (is_detector cp_id) t.rows in
      ap latest (registered_rows cp_id r t)
      ∙ latest-snoc (map off ds) (model_of cp_id r t) (
          All-map-off (λ m. m.version < max_version ds + 1) ds (λ m h. h)
            (All-mono (λ m h. omega (arith, h)) ds (max_version-All ds)))

  latest_old :
      (cp_id : String) (r : Trained F) (t : ModelTable F)
      → All (λ m. m.id < t.next_id) t.rows
      → latest (
          select
            (λ m. not (has_model_id t.next_id m))
            (select (is_detector cp_id) (register_model cp_id r t).rows))
        ≡ elim (latest (select (is_detector cp_id) t.rows)) [ none ↦ none | some m ↦ some (off m) ]
  unfolding off select
  latest_old cp_id r t fresh =
      let ds = select (is_detector cp_id) t.rows in
      let below =
        All-map-off (λ m. m.id < t.next_id) ds (λ m h. h)
          (All-select (λ m. m.id < t.next_id) (is_detector cp_id) t.rows fresh) in
      ap (λ l. latest (select (λ (m : Model F). not (has_model_id t.next_id m)) l))
        (registered_rows cp_id r t)
      ∙ (ap latest (
            select-append (λ (m : Model F). not (has_model_id t.next_id m)) (map off ds)
              (model_of cp_id r t ∷ [])
            ∙ ap₂ (λ x y. x ++ y) (select_none_id t.next_id (map off ds) below)
                (rw ((==_iff t.next_id t.next_id).1 refl) refl)
            ∙ append-nil (map off ds))
          ∙ latest-off ds)

  -- the rows after the two statements of the demotion
  demoted :
      (cp_id : String) (r : Trained F) (t : ModelTable F) (old : Model F)
      → All (λ m. m.id < t.next_id) t.rows
      → latest (select (is_detector cp_id) t.rows) ≡ some old
      → select (has_model_id old.id) t.rows ≡ old ∷ []
      → select (is_active_detector cp_id) (
          update_where (has_model_id old.id) (activate true) (
            update_where (has_model_id t.next_id) (activate false) (register_model cp_id r t).rows))
        ≡ activate true old ∷ []
  unfolding register_model update_where select
  demoted cp_id r t old fresh newest alone =
      let rows = update_where (is_detector cp_id) (activate false) t.rows in
      let new = model_of cp_id r t in
      let older : old.id < t.next_id =
        latest-All (λ m. m.id < t.next_id) _ old
          (All-select (λ m. m.id < t.next_id) (is_detector cp_id) t.rows fresh) newest in
      let own : is_detector cp_id old ≡ true =
        latest-All (λ m. is_detector cp_id m ≡ true) _ old (All-passes (is_detector cp_id) t.rows)
          newest in
      let first_update : update_where (has_model_id t.next_id) (activate false) (rows ++ new ∷ [])
          ≡ rows ++ activate false new ∷ [] =
        update-append (has_model_id t.next_id) (activate false) rows (new ∷ [])
        ∙ ap₂ (λ x y. x ++ y)
            (update_none t.next_id (activate false) rows
              (All-off (λ m. m.id < t.next_id) cp_id t.rows (λ m h. h) fresh))
            (rw ((==_iff t.next_id t.next_id).1 refl) refl) in
      let kept : select (is_active_detector cp_id)
            (update_where (has_model_id old.id) (activate true) rows)
          ≡ activate true old ∷ [] =
        one_active cp_id old.id t.rows
        ∙ (ap (λ l. map (activate true) (select (is_detector cp_id) l)) alone ∙ rw own refl) in
      let other : (t.next_id == old.id) ≡ false = ground (arith, older) in
      let last : select (is_active_detector cp_id)
            (update_where (has_model_id old.id) (activate true) (activate false new ∷ []))
          ≡ [] =
        rw other (rw (eq_refl cp_id) refl) in
      rw first_update (
        rw (update-append (has_model_id old.id) (activate true) rows (activate false new ∷ [])) (
          select-append (is_active_detector cp_id)
            (update_where (has_model_id old.id) (activate true) rows) _
          ∙ ap₂ (λ x y. x ++ y) kept last))

module _ (nu : Numbers) where
  -- what is active after the turn
  abbrev pub active_after : String → Trained nu.F → ModelTable nu.F → List (Model nu.F)
  active_after cp_id r t =
      let kept = model_of cp_id r t ∷ [] in
      elim (current_val_loss cp_id t) [
        | none ↦ kept
        | some prev_val ↦
            if nu.less r.val_mse prev_val
            then kept
            else elim (latest (select (is_detector cp_id) t.rows)) [
              | none ↦ kept
              | some old ↦ activate true old ∷ []
            ]
      ]

  -- After a turn whose training succeeds the charger has exactly one active model. It is the new one where
  -- the active model had no loss to compare, where the new loss is less, or where there was no model. In every other case
  -- it is the newest of the older models, whether or not that is the one that was active. Ids are below the next one, and
  -- the newest older model is alone with its id.
  pub retrain-active :
      (cp_id : String) (r : Trained nu.F) (t : ModelTable nu.F)
      → All (λ m. m.id < t.next_id) t.rows
      → ((old : Model nu.F)
          → latest (select (is_detector cp_id) t.rows) ≡ some old
          → select (has_model_id old.id) t.rows ≡ old ∷ [])
      → select (is_active_detector cp_id) (retrain nu cp_id (some r) t).rows
        ≡ active_after cp_id r t
  unfolding retrain maybe_demote off
  retrain-active cp_id r t fresh alone = elim (Option-cases (current_val_loss cp_id t)) [
    | inl e ↦ rw (e, active_after) (register-active cp_id r t)
    | inr (prev_val, e) ↦
        rw (e, active_after)
          (rw (latest_new cp_id r t, maybe_demote)
            (rw (latest_old cp_id r t fresh, maybe_demote)
              (elim (Option-cases (latest (select (is_detector cp_id) t.rows))) [
                | inl q ↦
                    rw (q, active_after, maybe_demote)
                      (register-active cp_id r t ∙ elim (Bool-cases (nu.less r.val_mse prev_val)) [
                        | inl k ↦ rw k refl
                        | inr k ↦ rw k refl
                      ])
                | inr (old, q) ↦
                    rw (q, active_after, maybe_demote)
                      (elim (Bool-cases (nu.less r.val_mse prev_val)) [
                        | inl k ↦ rw k (register-active cp_id r t)
                        | inr k ↦ rw k (demoted cp_id r t old fresh q (alone old q))
                      ])
              ])))
  ]
