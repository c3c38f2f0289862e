-- ===== src/Models.antt =====
-- The models of the chargers: the rows that backend/ml/training/train_anomaly.py writes, the scheduler
-- backend/workers/training_scheduler.py, and the cache of backend/ml/inference.py. The training itself is a library's:
-- its outcome is an argument.
pub mod Versions
pub mod Retrain
pub mod Cache
pub mod Training
pub mod Samples
pub mod Stopping
pub mod Scoring
pub mod Latest
use charge_pulse.Prelude.{
  ℕ, ◌+◌, ◌-◌, ◌*◌, ◌==◌, ltb, leb, max, String, Bool, true, false, Option, none, some, List, [],
  ◌∷◌, ◌++◌, ◌&&◌, not, any, select, map, update_where, str_eq, is_some, Dict, lookup, insert,
  if◌then◌else◌,
}
use charge_pulse.Incidents.Rules.{Numbers}
use charge_pulse.Features.{distinct}
use charge_pulse.Features.Worker.{FeatureRow}

-- a row of ml_models; `val_mse` is that of the metrics, `none` where reading it raises or they are missing
pub record Model (F : Type 0) : Type 0 where
  pub id : ℕ
  pub cp_id : Option String
  pub model_type : String
  pub version : ℕ
  pub training_samples : ℕ
  pub val_mse : Option F
  pub model_path : String
  pub is_active : Bool
  pub created_at : ℕ

-- what a training that succeeds writes
pub record Trained (F : Type 0) : Type 0 where
  pub val_mse : F
  pub samples : ℕ
  pub model_path : String
  pub created_at : ℕ

pub record ModelTable (F : Type 0) : Type 0 where
  pub rows : List (Model F)
  pub next_id : ℕ

module _ {F : Type 0} where
  -- WHERE cp_id = $1 AND model_type = 'anomaly_detector'
  abbrev pub is_detector : String → Model F → Bool
  is_detector cp_id m =
      elim m.cp_id [ none ↦ false | some c ↦ str_eq c cp_id ]
      && str_eq m.model_type "anomaly_detector"

  abbrev pub has_model_id : ℕ → Model F → Bool
  has_model_id id m = m.id == id

  abbrev pub activate : Bool → Model F → Model F
  activate b m = record m { is_active = b }

  -- COALESCE(MAX(version), 0)
  unfoldable pub max_version : List (Model F) → ℕ
  max_version [] = 0
  max_version (m ∷ ms) = max m.version (max_version ms)

  -- ORDER BY version DESC LIMIT 1
  unfoldable pub latest : List (Model F) → Option (Model F)
  latest [] = none
  latest (m ∷ ms) = elim (latest ms) [
    | none ↦ some m
    | some n ↦ if ltb m.version n.version then some n else some m
  ]

  -- the row that a training inserts
  abbrev pub model_of : String → Trained F → ModelTable F → Model F
  model_of cp_id r t = record {
    id = t.next_id;
    cp_id = some cp_id;
    model_type = "anomaly_detector";
    version = max_version (select (is_detector cp_id) t.rows) + 1;
    training_samples = r.samples;
    val_mse = some r.val_mse;
    model_path = r.model_path;
    is_active = true;
    created_at = r.created_at;
  }

  -- the two statements at the end of `train`
  unfoldable pub register_model : String → Trained F → ModelTable F → ModelTable F
  unfolding update_where select max_version
  register_model cp_id r t = record {
    rows = update_where (is_detector cp_id) (activate false) t.rows ++ model_of cp_id r t ∷ [];
    next_id = t.next_id + 1;
  }

  abbrev pub is_active_detector : String → Model F → Bool
  is_active_detector cp_id m = is_detector cp_id m && m.is_active

  unfoldable pub current_val_loss : String → ModelTable F → Option F
  unfolding select latest
  current_val_loss cp_id t = elim (latest (select (is_active_detector cp_id) t.rows)) [
    | none ↦ none
    | some m ↦ m.val_mse
  ]

  -- `_candidates_for_retrain`: 14 days of data, and no model of the last 7 days
  unfoldable pub candidates_for_retrain : ℕ → List (FeatureRow F) → ModelTable F → List String
  unfolding select any distinct
  candidates_for_retrain now vectors t =
      let cutoff_data = now - 14 * 86400000000 in
      let cutoff_retrain = now - 7 * 86400000000 in
      select
        (λ cp_id.
          any (λ v. str_eq v.cp_id cp_id && leb v.time cutoff_data) vectors
          && not (any (λ m. is_detector cp_id m && leb cutoff_retrain m.created_at) t.rows))
        (distinct (map (λ v. v.cp_id) vectors))

module _ (nu : Numbers) where
  -- `_maybe_demote_worse_model`
  unfoldable pub maybe_demote : String → Option nu.F → ModelTable nu.F → ModelTable nu.F
  unfolding select latest update_where
  maybe_demote cp_id none t = t
  maybe_demote cp_id (some prev_val) t =
      let detectors = select (is_detector cp_id) t.rows in
      elim (latest detectors) [
        | none ↦ t
        | some new_row ↦ elim (latest (select (λ m. not (has_model_id new_row.id m)) detectors)) [
          | none ↦ t
          | some old_row ↦ elim new_row.val_mse [
            | none ↦ t
            | some new_val ↦ if nu.less new_val prev_val then t else record t {
              rows =
                  update_where (has_model_id old_row.id) (activate true)
                    (update_where (has_model_id new_row.id) (activate false) t.rows);
            }
          ]
        ]
      ]

  -- a turn of the loop of `nightly_retrain`; `none` is a training that fails before it writes
  unfoldable pub retrain : String → Option (Trained nu.F) → ModelTable nu.F → ModelTable nu.F
  unfolding current_val_loss register_model maybe_demote
  retrain cp_id none t = t
  retrain cp_id (some r) t =
      maybe_demote cp_id (current_val_loss cp_id t) (register_model cp_id r t)

  -- the loop over the candidates; `outcome` is what the training of a charger gives
  unfoldable pub retrain_all :
      (String → Option (Trained nu.F)) → List String → ModelTable nu.F → ModelTable nu.F
  unfolding retrain
  retrain_all outcome [] t = t
  retrain_all outcome (cp_id ∷ rest) t = retrain_all outcome rest (retrain cp_id (outcome cp_id) t)

  unfoldable pub nightly_retrain :
      ℕ
      → List (FeatureRow nu.F)
      → (String → Option (Trained nu.F))
      → ModelTable nu.F
      → ModelTable nu.F
  unfolding candidates_for_retrain retrain_all
  nightly_retrain now vectors outcome t =
      retrain_all outcome (candidates_for_retrain now vectors t) t

-- `_cache`: a scorer with the version that it was loaded for
abbrev pub Cache : Type 0 → Type 0
Cache Scorer = Dict (ℕ × Scorer)

module _ {F Scorer : Type 0} where
  -- `load_active_model` where there is a row; `load` is the file of a path as torch loads it, `none` where the file
  -- is missing
  unfoldable pub load_row :
      (String → Option Scorer) → Model F → String → Cache Scorer → Option Scorer × Cache Scorer
  unfolding lookup insert
  load_row load row cp_id cache =
      let loaded : Option Scorer × Cache Scorer = elim (load row.model_path) [
        | none ↦ (none, cache)
        | some s ↦ (some s, insert cp_id (row.version, s) cache)
      ] in
      elim (lookup cp_id cache) [
        | none ↦ loaded
        | some cached ↦ if cached.0 == row.version then (some cached.1, cache) else loaded
      ]

  unfoldable pub load_active_model :
      (String → Option Scorer) → ModelTable F → String → Cache Scorer → Option Scorer × Cache Scorer
  unfolding select latest load_row
  load_active_model load t cp_id cache = elim (latest (select (is_active_detector cp_id) t.rows)) [
    | none ↦ (none, cache)
    | some row ↦ load_row load row cp_id cache
  ]
