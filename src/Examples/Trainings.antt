-- ===== src/Examples/Trainings.antt =====
-- A training and a score.
use charge_pulse.Prelude.{
  ℕ, ◌≤◌, ◌<◌, ◌≡◌, refl, Bool, true, none, some, List, [], ◌∷◌, ◌++◌, ◌⊎◌, length, All, take, drop,
  map, ◌-◌, select,
}
use charge_pulse.Features.Worker.{FeatureRow, FeatureStore}
use charge_pulse.Models.Training.{split_samples, run_epochs, fresh}
use charge_pulse.Models.Samples.{count_from, split_samples-bounds}
use charge_pulse.Models.Stopping.{IsStopped, run_epochs-IsStopped}
use charge_pulse.Models.Scoring.{repeat, matrix_of, score_latest_window}
use charge_pulse.Models.Latest.{score_latest_window-shape}
use charge_pulse.Examples.Workers.{nu}
use charge_pulse.Examples.Vectors.{fl}

-- 120 vectors
abbrev matrix : List ℕ
matrix = repeat 120 7

split_samples-bounds_example :
    ((length matrix < 106) × (split_samples matrix ≡ none))
    ⊎ ((training : List (List ℕ)) × (validation : List (List ℕ)) × (split_samples matrix
          ≡ some (training, validation))
        × (8 ≤ length training)
        × (3 ≤ length validation)
        × (training ++ validation
            ≡ map (λ i. take 96 (drop i matrix)) (count_from 0 (length matrix - 95)))
        × All (λ w. length w ≡ 96) training
        × All (λ w. length w ≡ 96) validation)
split_samples-bounds_example = split_samples-bounds matrix

run_epochs-IsStopped_example :
    IsStopped nu fl
      (fresh nu fl 1000000)
      (30 ∷ 20 ∷ 25 ∷ [])
      (run_epochs nu fl (30 ∷ 20 ∷ 25 ∷ []) (fresh nu fl 1000000))
run_epochs-IsStopped_example = run_epochs-IsStopped nu fl (30 ∷ 20 ∷ 25 ∷ []) 1000000

abbrev row : ℕ → ℕ → FeatureRow ℕ
row time x = record {
  time = time;
  cp_id = "CP-1";
  org_id = 1;
  features = x ∷ [];
  anomaly_score = none;
  is_anomaly = none;
}

-- newest first
abbrev vectors : FeatureStore ℕ
vectors = record { vectors = row 1800000000 2 ∷ row 900000000 1 ∷ []; entries = [] }

abbrev verdict : List (List ℕ) → ℕ × Bool
verdict m = (90, true)

score_latest_window-shape_example :
    ((1 ≤ 1)
      × (length (matrix_of 3 vectors.vectors) ≡ 3)
      × ((front : List (List ℕ)) × (matrix_of 3 vectors.vectors ≡ front ++ (2 ∷ []) ∷ []))
      × (score_latest_window (λ l. l) verdict 3 "CP-1" vectors
          ≡ some (record { anomaly_score = 90; is_anomaly = true; scored_at = 1800000000 })))
    ⊎ ((row 900000000 1 ∷ [] ≡ []) × (score_latest_window (λ l. l) verdict 3 "CP-1" vectors ≡ none))
unfolding select
score_latest_window-shape_example =
    score_latest_window-shape (λ l. l) verdict 3 "CP-1" vectors (row 1800000000 2)
      (row 900000000 1 ∷ []) refl
