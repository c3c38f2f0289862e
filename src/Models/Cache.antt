-- ===== src/Models/Cache.antt =====
-- The cache is transparent.
use charge_pulse.Prelude.{
  ℕ, ◌==◌, ==_iff, String, Option, none, some, ◌≡◌, refl, sym, ap, ◌∙◌, select, str_eq, eq_iff,
  lookup, insert, lookup-insert, Bool-cases, Option-cases, inl, inr,
}
use charge_pulse.Models.{
  Model, ModelTable, is_active_detector, latest, Cache, load_row, load_active_model,
}

same_pair :
    {Scorer : Type 0} {v w : ℕ} {s s' : Scorer}
    → ◌≡◌ {A = Option (ℕ × Scorer)} (some (v, s)) (some (w, s'))
    → s ≡ s'
same_pair e = cc

same_row : {F : Type 0} {m n : Model F} → some m ≡ some n → m ≡ n
same_row e = cc

module _ {F Scorer : Type 0} (load : String → Option Scorer) where
  -- what the cache holds for a charger is what the file of every row of that version holds
  abbrev pub IsCoherent : ModelTable F → Cache Scorer → Type 0
  IsCoherent t cache =
      (cp_id : String) (version : ℕ) (s : Scorer) (row : Model F)
      → lookup cp_id cache ≡ some (version, s)
      → latest (select (is_active_detector cp_id) t.rows) ≡ some row
      → row.version ≡ version
      → load row.model_path ≡ some s

  -- the model that the table names, read from its file
  abbrev pub active_scorer : ModelTable F → String → Option Scorer
  active_scorer t cp_id = elim (latest (select (is_active_detector cp_id) t.rows)) [
    | none ↦ none
    | some row ↦ load row.model_path
  ]

  insert-IsCoherent :
      (t : ModelTable F) (cp_id : String) (cache : Cache Scorer) (row : Model F) (s : Scorer)
      → latest (select (is_active_detector cp_id) t.rows) ≡ some row
      → load row.model_path ≡ some s
      → IsCoherent t cache
      → IsCoherent t (insert cp_id (row.version, s) cache)
  insert-IsCoherent t cp_id cache row s e l coherent other version found row' there active same =
      elim (Bool-cases (str_eq cp_id other)) [
        | inl k ↦
            let found' : some (row.version, s) ≡ some (version, found) =
              rw k at (sym (lookup-insert cp_id other (row.version, s) cache) ∙ there) in
            let active' : some row ≡ some row' =
              sym e
              ∙ (ap (λ c. latest (select (is_active_detector c) t.rows)) ((eq_iff cp_id other).0 k)
                  ∙ active) in
            ap (λ (m : Model F). load m.model_path) (sym (same_row active'))
            ∙ (l ∙ ap some (same_pair found'))
        | inr k ↦
            coherent other version found row'
              (rw k at (sym (lookup-insert cp_id other (row.version, s) cache) ∙ there)) active same
      ]

  loaded-IsCoherent :
      (t : ModelTable F) (cp_id : String) (cache : Cache Scorer) (row : Model F)
      → latest (select (is_active_detector cp_id) t.rows) ≡ some row
      → IsCoherent t cache
      → (o : Option Scorer) → load row.model_path ≡ o
      → (p : Option Scorer × Cache Scorer) × (p ≡ elim o [
        | none ↦ (none, cache)
        | some s ↦ (some s, insert cp_id (row.version, s) cache)
      ])
        × (p.0 ≡ o)
        × IsCoherent t p.1
  loaded-IsCoherent t cp_id cache row e coherent none l = ((none, cache), refl, refl, coherent)
  loaded-IsCoherent t cp_id cache row e coherent (some s) l = (
    (some s, insert cp_id (row.version, s) cache),
    refl,
    refl,
    insert-IsCoherent t cp_id cache row s e l coherent,
  )

  load_row-IsCoherent :
      (t : ModelTable F) (cp_id : String) (cache : Cache Scorer) (row : Model F)
      → latest (select (is_active_detector cp_id) t.rows) ≡ some row
      → IsCoherent t cache
      → ((load_row load row cp_id cache).0 ≡ load row.model_path)
        × IsCoherent t (load_row load row cp_id cache).1
  unfolding load_row
  load_row-IsCoherent t cp_id cache row e coherent =
      let (p, q, value, after) =
        loaded-IsCoherent t cp_id cache row e coherent (load row.model_path) refl in
      elim (Option-cases (lookup cp_id cache)) [
        | inl n ↦ rw (n, load_row) (rw (← q) (value, after))
        | inr ((version, s), n) ↦ elim (Bool-cases (version == row.version)) [
          | inl k ↦
              rw (n, load_row)
                (rw k (
                  sym (coherent cp_id version s row n e (sym ((==_iff version row.version).0 k))),
                  coherent,
                ))
          | inr k ↦ rw (n, load_row) (rw k (rw (← q) (value, after)))
        ]
      ]

  -- The cache is transparent: from a coherent cache, `load_active_model` answers with the scorer that the
  -- file of the active model of the highest version holds, and leaves a coherent cache.
  pub load_active_model-IsCoherent :
      (t : ModelTable F) (cp_id : String) (cache : Cache Scorer)
      → IsCoherent t cache
      → ((load_active_model load t cp_id cache).0 ≡ active_scorer t cp_id)
        × IsCoherent t (load_active_model load t cp_id cache).1
  unfolding load_active_model
  load_active_model-IsCoherent t cp_id cache coherent =
      elim (Option-cases (latest (select (is_active_detector cp_id) t.rows))) [
        | inl e ↦ rw (e, load_active_model, active_scorer) (refl, coherent)
        | inr (row, e) ↦
            rw (e, load_active_model, active_scorer)
              (load_row-IsCoherent t cp_id cache row e coherent)
      ]
