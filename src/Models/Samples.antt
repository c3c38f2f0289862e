-- ===== src/Models/Samples.antt =====
-- The samples of a training.
use charge_pulse.Prelude.{
  ℕ, zero, suc, ◌+◌, ◌-◌, ◌*◌, ◌/◌, ◌≤◌, ◌<◌, ltb, false, none, some, List, [], ◌∷◌, ◌≡◌, refl, ap,
  arith, ◌⊎◌, inl, inr, length, take, drop, All, Bool-cases, ◌++◌, map, ◌∙◌, take-append-drop,
  drop-drop,
}
use charge_pulse.Models.Training.{windows_from, windowize, split_samples}

-- the numbers from `start` on, `n` of them
abbrev pub count_from : ℕ → ℕ → List ℕ
count_from start zero = []
count_from start (suc n) = start ∷ count_from (suc start) n

module _ {A : Type 0} where
  take-length : (n : ℕ) (xs : List A) → n ≤ length xs → length (take n xs) ≡ n
  take-length zero xs h = refl
  take-length (suc n) [] h = elim h [ ]
  take-length (suc n) (x ∷ xs) h = ap suc (take-length n xs (omega (arith, h)))

  drop-length : (n : ℕ) (xs : List A) → length (drop n xs) ≡ length xs - n
  drop-length zero xs = omega arith
  drop-length (suc n) [] = omega arith
  drop-length (suc n) (x ∷ xs) = omega (arith, drop-length n xs)

  windows_from-All :
      (width n : ℕ) (xs : List A)
      → width + n ≤ length xs + 1
      → All (λ w. length w ≡ width) (windows_from width n xs)
  unfolding windows_from
  windows_from-All width zero xs h = tt
  windows_from-All width (suc n) xs h = (
    take-length width xs (omega (arith, h)),
    windows_from-All width n (drop 1 xs) (omega (arith, h, drop-length 1 xs)),
  )

  windows_from-length : (width n : ℕ) (xs : List A) → length (windows_from width n xs) ≡ n
  unfolding windows_from
  windows_from-length width zero xs = refl
  windows_from-length width (suc n) xs = ap suc (windows_from-length width n (drop 1 xs))

  windows_from-map :
      (width start n : ℕ) (xs : List A)
      → windows_from width n (drop start xs)
        ≡ map (λ i. take width (drop i xs)) (count_from start n)
  unfolding windows_from
  windows_from-map width start zero xs = refl
  windows_from-map width start (suc n) xs =
      ap (λ l. take width (drop start xs) ∷ l)
        (ap (windows_from width n)
            (drop-drop start 1 xs ∙ ap (λ i. drop i xs) {y = suc start} (omega arith))
          ∙ windows_from-map width (suc start) n xs)

  All-take : (P : A → Type 0) (n : ℕ) (xs : List A) → All P xs → All P (take n xs)
  All-take P zero xs h = tt
  All-take P (suc n) [] h = tt
  All-take P (suc n) (x ∷ xs) h = (h.0, All-take P n xs h.1)

  All-drop : (P : A → Type 0) (n : ℕ) (xs : List A) → All P xs → All P (drop n xs)
  All-drop P zero xs h = h
  All-drop P (suc n) [] h = tt
  All-drop P (suc n) (x ∷ xs) h = All-drop P n xs h.1

module _ {A : Type 0} where
  -- A training has samples to learn from and samples to validate with, all of one shape: with n vectors, at least
  -- 106, those of training followed by those of validation are the n - 95 windows of 96 consecutive vectors, the
  -- window at place i being that of the vectors from i on, each of 96 vectors, and there are at least 8 of the former
  -- and 3 of the latter; with fewer vectors the training raises.
  pub split_samples-bounds :
      (matrix : List A)
      → ((length matrix < 106) × (split_samples matrix ≡ none))
        ⊎ ((training : List (List A)) × (validation : List (List A)) × (split_samples matrix
              ≡ some (training, validation))
            × (8 ≤ length training)
            × (3 ≤ length validation)
            × (training ++ validation
                ≡ map (λ i. take 96 (drop i matrix)) (count_from 0 (length matrix - 95)))
            × All (λ w. length w ≡ 96) training
            × All (λ w. length w ≡ 96) validation)
  unfolding split_samples windowize
  split_samples-bounds matrix = elim (Bool-cases (ltb (length matrix) 106)) [
    | inl e ↦ inl (ground (arith, e), rw e refl)
    | inr e ↦
        let long : 106 ≤ length matrix = ground (arith, e) in
        let windows = windows_from 96 (length matrix - 96 + 1) matrix in
        let wide : ltb (length matrix) 96 ≡ false = ground (arith, long) in
        let n = windows_from-length 96 (length matrix - 96 + 1) matrix in
        let split = length windows * 4 / 5 in
        let shape = windows_from-All 96 (length matrix - 96 + 1) matrix (omega (arith, long)) in
        let a = take-length split windows (omega arith) in
        let b = drop-length split windows in
        let places : windows
            ≡ map (λ i. take 96 (drop i matrix)) (count_from 0 (length matrix - 95)) =
          windows_from-map 96 0 (length matrix - 96 + 1) matrix
          ∙ ap (λ k. map (λ i. take 96 (drop i matrix)) (count_from 0 k)) (omega (arith, long)) in
        inr (
          take split windows,
          drop split windows,
          rw e (rw wide refl),
          omega (arith, a, n, long),
          omega (arith, b, n, long),
          take-append-drop split windows ∙ places,
          All-take (λ w. length w ≡ 96) split windows shape,
          All-drop (λ w. length w ≡ 96) split windows shape,
        )
  ]
