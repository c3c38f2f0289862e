-- ===== src/Models/Latest.antt =====
-- What the scorer is given.
use mathlib.Core.List.{append_assoc}
use charge_pulse.Prelude.{
  ℕ, zero, suc, ◌+◌, ◌-◌, ◌≤◌, String, Bool, none, some, List, [], ◌∷◌, ◌++◌, ◌≡◌, refl, sym, ap,
  ◌∙◌, ◌⊎◌, inl, inr, arith, length, length-append, take, map, select, str_eq,
}
use charge_pulse.Features.Worker.{FeatureRow, FeatureStore}
use charge_pulse.Models.Scoring.{
  repeat, reverse_onto, padded, latest_rows, matrix_of, score_latest_window,
}

module _ {A : Type 0} where
  repeat-length : (n : ℕ) (x : A) → length (repeat n x) ≡ n
  unfolding repeat
  repeat-length zero x = refl
  repeat-length (suc n) x = ap suc (repeat-length n x)

  reverse_onto-length : (xs acc : List A) → length (reverse_onto xs acc) ≡ length xs + length acc
  unfolding reverse_onto
  reverse_onto-length [] acc = omega arith
  reverse_onto-length (x ∷ xs) acc = omega (arith, reverse_onto-length xs (x ∷ acc))

  -- the first row comes last
  reverse_onto-append :
      (xs acc : List A) (x : A) → reverse_onto xs (acc ++ x ∷ []) ≡ reverse_onto xs acc ++ x ∷ []
  unfolding reverse_onto
  reverse_onto-append [] acc x = refl
  reverse_onto-append (y ∷ xs) acc x = reverse_onto-append xs (y ∷ acc) x

  take_most : (n : ℕ) (xs : List A) → length (take n xs) ≤ n
  take_most zero xs = omega arith
  take_most (suc n) [] = omega arith
  take_most (suc n) (x ∷ xs) = omega (arith, take_most n xs)

  padded-length : (n : ℕ) (xs : List A) → 1 ≤ length xs → length xs ≤ n → length (padded n xs) ≡ n
  unfolding padded
  padded-length n [] h k = elim h [ ]
  padded-length n (x ∷ xs) h k =
      let a = length-append (repeat (n - length (x ∷ xs)) x) (x ∷ xs) in
      omega (arith, a, repeat-length (n - length (x ∷ xs)) x, k)

  padded-append :
      (n : ℕ) (xs : List A) (x : A) → (front : List A) × (padded n (xs ++ x ∷ []) ≡ front ++ x ∷ [])
  unfolding padded
  padded-append n [] x = (repeat (n - 1) x, refl)
  padded-append n (y ∷ xs) x = (
    repeat (n - length (y ∷ xs ++ x ∷ [])) y ++ y ∷ xs,
    sym (append_assoc (repeat (n - length (y ∷ xs ++ x ∷ [])) y) (y ∷ xs) (x ∷ [])),
  )

module _ {A B : Type 0} (f : A → B) where
  length-map : (xs : List A) → length (map f xs) ≡ length xs
  length-map [] = refl
  length-map (x ∷ xs) = ap suc (length-map xs)

  map_snoc : (xs : List A) (x : A) → map f (xs ++ x ∷ []) ≡ map f xs ++ f x ∷ []
  map_snoc [] x = refl
  map_snoc (y ∷ xs) x = ap (λ l. f y ∷ l) (map_snoc xs x)

module _ {F : Type 0} where
  -- A charger with two vectors or more is scored, and the scorer sees
  -- a window of exactly `seq_len` rows, whose last row is the newest vector; the result carries that vector's time. With
  -- a single vector there is no score.
  pub score_latest_window-shape :
      (newest : List (FeatureRow F) → List (FeatureRow F)) (score : List (List F) → F × Bool)
      (seq_len : ℕ) (cp_id : String) (s : FeatureStore F) (r : FeatureRow F)
      (rows : List (FeatureRow F))
      → latest_rows newest seq_len cp_id s ≡ r ∷ rows
      → ((1 ≤ length rows)
          × (length (matrix_of seq_len (r ∷ rows)) ≡ seq_len)
          × ((front : List (List F)) × (matrix_of seq_len (r ∷ rows) ≡ front ++ r.features ∷ []))
          × (score_latest_window newest score seq_len cp_id s
              ≡ some (record {
                anomaly_score = (score (matrix_of seq_len (r ∷ rows))).0;
                is_anomaly = (score (matrix_of seq_len (r ∷ rows))).1;
                scored_at = r.time;
              })))
        ⊎ ((rows ≡ []) × (score_latest_window newest score seq_len cp_id s ≡ none))
  unfolding score_latest_window reverse_onto
  score_latest_window-shape newest score seq_len cp_id s r [] e =
      inr (refl, rw (e, score_latest_window) refl)
  score_latest_window-shape newest score seq_len cp_id s r (r' ∷ rows) e =
      let all = r ∷ r' ∷ rows in
      let few : length all ≤ seq_len =
        rw (ap length e) at
          (take_most seq_len (newest (select (λ v. str_eq v.cp_id cp_id) s.vectors))) in
      let n = length-map (λ (v : FeatureRow F). v.features) (reverse_onto all []) in
      let m = reverse_onto-length all [] in
      let turned : map (λ (v : FeatureRow F). v.features) (reverse_onto all [])
          ≡ map (λ (v : FeatureRow F). v.features) (reverse_onto (r' ∷ rows) [])
            ++ r.features ∷ [] =
        ap (map (λ (v : FeatureRow F). v.features)) (reverse_onto-append (r' ∷ rows) [] r)
        ∙ map_snoc _ (reverse_onto (r' ∷ rows) []) r in
      let (front, last) =
        padded-append seq_len (map (λ (v : FeatureRow F). v.features) (reverse_onto (r' ∷ rows) []))
          r.features in
      inl (
        omega arith,
        padded-length seq_len _ (omega (arith, n, m)) (omega (arith, n, m, few)),
        (front, ap (padded seq_len) turned ∙ last),
        rw (e, score_latest_window) refl,
      )
