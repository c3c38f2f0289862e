-- ===== src/Models/Scoring.antt =====
-- The score of a charger's latest vectors: `score_latest_window` and `write_score` of
-- backend/ml/inference.py. `newest` is ORDER BY time DESC, and `score` is the scorer's call of torch.
use charge_pulse.Prelude.{
  ℕ, zero, suc, ◌-◌, String, Bool, Option, none, some, List, [], ◌∷◌, ◌++◌, length, take, map,
  select, update_where, str_eq,
}
use charge_pulse.Features.Worker.{FeatureRow, FeatureStore, is_vector}

-- the scorer's result, with the time of the last row
pub record Score (F : Type 0) : Type 0 where
  pub anomaly_score : F
  pub is_anomaly : Bool
  pub scored_at : ℕ

unfoldable pub repeat : {A : Type 0} → ℕ → A → List A
repeat zero x = []
repeat (suc n) x = x ∷ repeat n x

unfoldable pub reverse_onto : {A : Type 0} → List A → List A → List A
reverse_onto [] acc = acc
reverse_onto (x ∷ xs) acc = reverse_onto xs (x ∷ acc)

-- the earliest row in front, as often as rows are missing
unfoldable pub padded : {A : Type 0} → ℕ → List A → List A
unfolding repeat
padded seq_len [] = []
padded seq_len (x ∷ xs) = repeat (seq_len - length (x ∷ xs)) x ++ x ∷ xs

module _ {F : Type 0} where
  -- the newest rows of the charger, newest first
  abbrev pub latest_rows :
      (List (FeatureRow F) → List (FeatureRow F))
      → ℕ
      → String
      → FeatureStore F
      → List (FeatureRow F)
  latest_rows newest seq_len cp_id s =
      take seq_len (newest (select (λ r. str_eq r.cp_id cp_id) s.vectors))

  -- the matrix of the rows, from the earliest on
  abbrev pub matrix_of : ℕ → List (FeatureRow F) → List (List F)
  matrix_of seq_len rows = padded seq_len (map (λ r. r.features) (reverse_onto rows []))

  unfoldable pub score_latest_window :
      (List (FeatureRow F) → List (FeatureRow F))
      → (List (List F) → F × Bool)
      → ℕ
      → String
      → FeatureStore F
      → Option (Score F)
  unfolding select padded reverse_onto
  score_latest_window newest score seq_len cp_id s = elim (latest_rows newest seq_len cp_id s) [
    | [] ↦ none
    | r ∷ rows ↦ elim rows [
      | [] ↦ none
      | r' ∷ rows' ↦
          let result = score (matrix_of seq_len (r ∷ r' ∷ rows')) in
          some (record { anomaly_score = result.0; is_anomaly = result.1; scored_at = r.time })
    ]
  ]

  -- the SET clause
  abbrev pub with_score : F → Bool → FeatureRow F → FeatureRow F
  with_score anomaly_score is_anomaly r = record r {
    anomaly_score = some anomaly_score;
    is_anomaly = some is_anomaly;
  }

  unfoldable pub write_score : String → Score F → FeatureStore F → FeatureStore F
  unfolding update_where
  write_score cp_id r s = record s {
    vectors =
        update_where (is_vector cp_id r.scored_at) (with_score r.anomaly_score r.is_anomaly)
          s.vectors;
  }
