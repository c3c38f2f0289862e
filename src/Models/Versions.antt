-- ===== src/Models/Versions.antt =====
-- The rows of a charger's models, switched off and on.
use charge_pulse.Prelude.{
  ℕ, ◌≤◌, ◌<◌, ltb, String, Bool, true, false, none, some, List, [], ◌∷◌, ◌++◌, ◌≡◌, refl, ap, ap₂,
  arith, not, All, All-mono, map, select, update_where, if◌then◌else◌, Bool-cases, Option-cases,
  inl, inr,
}
use charge_pulse.Models.{
  Model, is_detector, has_model_id, activate, max_version, latest, is_active_detector,
}

module _ {F : Type 0} where
  unfoldable pub off : Model F → Model F
  off = activate false

  pub All-select :
      (P : Model F → Type 0) (p : Model F → Bool) (xs : List (Model F))
      → All P xs
      → All P (select p xs)
  unfolding select
  All-select P p [] h = tt
  All-select P p (x ∷ xs) h = elim (Bool-cases (p x)) [
    | inl e ↦ rw e (h.0, All-select P p xs h.1)
    | inr e ↦ rw e (All-select P p xs h.1)
  ]

  pub All-passes : (p : Model F → Bool) (xs : List (Model F)) → All (λ x. p x ≡ true) (select p xs)
  unfolding select
  All-passes p [] = tt
  All-passes p (x ∷ xs) = elim (Bool-cases (p x)) [
    | inl e ↦ rw e (e, All-passes p xs)
    | inr e ↦ rw e (All-passes p xs)
  ]

  pub same_model : {m n : Model F} → some m ≡ some n → m ≡ n
  same_model e = cc

  pub latest-All :
      (P : Model F → Type 0) (xs : List (Model F)) (m : Model F)
      → All P xs
      → latest xs ≡ some m
      → P m
  unfolding latest
  latest-All P [] m h e = cc
  latest-All P (x ∷ xs) m h e = elim (Option-cases (latest xs)) [
    | inl q ↦ rw (← same_model (rw q at e)) h.0
    | inr (n, q) ↦ elim (Bool-cases (ltb x.version n.version)) [
      | inl k ↦ rw (← same_model (rw k at (rw q at e))) (latest-All P xs n h.1 q)
      | inr k ↦ rw (← same_model (rw k at (rw q at e))) h.0
    ]
  ]

  pub max_version-All : (xs : List (Model F)) → All (λ m. m.version ≤ max_version xs) xs
  unfolding max_version
  max_version-All [] = tt
  max_version-All (x ∷ xs) =
      (omega arith, All-mono (λ m h. omega (arith, h)) xs (max_version-All xs))

  pub latest-snoc :
      (xs : List (Model F)) (n : Model F)
      → All (λ m. m.version < n.version) xs
      → latest (xs ++ n ∷ []) ≡ some n
  unfolding latest
  latest-snoc [] n h = refl
  latest-snoc (x ∷ xs) n h = rw (latest-snoc xs n h.1) (ground (arith, h.0))

  pub latest-off :
      (xs : List (Model F))
      → latest (map off xs) ≡ elim (latest xs) [ none ↦ none | some m ↦ some (off m) ]
  unfolding latest off
  latest-off [] = refl
  latest-off (x ∷ xs) =
      rw (latest-off xs)
        (elim (Option-cases (latest xs)) [ inl q ↦ rw q refl | inr (n, q) ↦ rw q (ground arith) ])

  pub detectors-off :
      (cp_id : String) (xs : List (Model F))
      → select (is_detector cp_id) (update_where (is_detector cp_id) (activate false) xs)
        ≡ map off (select (is_detector cp_id) xs)
  unfolding select update_where off
  detectors-off cp_id [] = refl
  detectors-off cp_id (x ∷ xs) = elim (Bool-cases (is_detector cp_id x)) [
    | inl e ↦ rw e (rw e (ap (λ l. off x ∷ l) (detectors-off cp_id xs)))
    | inr e ↦ rw e (rw e (detectors-off cp_id xs))
  ]

  pub none_active :
      (cp_id : String) (xs : List (Model F))
      → select (is_active_detector cp_id) (update_where (is_detector cp_id) (activate false) xs)
        ≡ []
  unfolding select update_where
  none_active cp_id [] = refl
  none_active cp_id (x ∷ xs) = elim (Bool-cases (is_detector cp_id x)) [
    | inl e ↦ rw e (rw e (none_active cp_id xs))
    | inr e ↦ rw e (rw e (none_active cp_id xs))
  ]

  pub one_active :
      (cp_id : String) (i : ℕ) (xs : List (Model F))
      → select (is_active_detector cp_id) (
          update_where
            (has_model_id i)
            (activate true)
            (update_where (is_detector cp_id) (activate false) xs))
        ≡ map (activate true) (select (is_detector cp_id) (select (has_model_id i) xs))
  unfolding select update_where
  one_active cp_id i [] = refl
  one_active cp_id i (x ∷ xs) = elim (Bool-cases (is_detector cp_id x)) [
    | inl e ↦ elim (Bool-cases (has_model_id i x)) [
      | inl k ↦ rw e (rw k (rw e (ap (λ l. activate true x ∷ l) (one_active cp_id i xs))))
      | inr k ↦ rw e (rw k (rw e (one_active cp_id i xs)))
    ]
    | inr e ↦ elim (Bool-cases (has_model_id i x)) [
      | inl k ↦ rw e (rw k (rw e (one_active cp_id i xs)))
      | inr k ↦ rw e (rw k (rw e (one_active cp_id i xs)))
    ]
  ]

  -- an update of a row that is not there
  pub update_none :
      (i : ℕ) (f : Model F → Model F) (xs : List (Model F))
      → All (λ m. m.id < i) xs
      → update_where (has_model_id i) f xs ≡ xs
  unfolding update_where
  update_none i f [] h = refl
  update_none i f (x ∷ xs) h = ap₂ (λ y l. y ∷ l) (ground (arith, h.0)) (update_none i f xs h.1)

  pub select_none_id :
      (i : ℕ) (xs : List (Model F))
      → All (λ m. m.id < i) xs
      → select (λ m. not (has_model_id i m)) xs ≡ xs
  unfolding select
  select_none_id i [] h = refl
  select_none_id i (x ∷ xs) h = ground (arith, h.0, select_none_id i xs h.1)

  pub update-append :
      (p : Model F → Bool) (f : Model F → Model F) (xs ys : List (Model F))
      → update_where p f (xs ++ ys) ≡ update_where p f xs ++ update_where p f ys
  unfolding update_where
  update-append p f [] ys = refl
  update-append p f (x ∷ xs) ys = ap (λ l. (if p x then f x else x) ∷ l) (update-append p f xs ys)

  pub All-off :
      (P : Model F → Type 0) (cp_id : String) (xs : List (Model F))
      → ((m : Model F) → P m → P (activate false m))
      → All P xs
      → All P (update_where (is_detector cp_id) (activate false) xs)
  unfolding update_where
  All-off P cp_id [] f h = tt
  All-off P cp_id (x ∷ xs) f h = elim (Bool-cases (is_detector cp_id x)) [
    | inl e ↦ rw e (f x h.0, All-off P cp_id xs f h.1)
    | inr e ↦ rw e (h.0, All-off P cp_id xs f h.1)
  ]
