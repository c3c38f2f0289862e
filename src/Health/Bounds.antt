-- ===== src/Health/Bounds.antt =====
-- Which scores a run writes, and their range.
use charge_pulse.Prelude.{
  ℕ, ◌+◌, ◌-◌, ◌==◌, leb, String, Bool, true, false, Option, some, List, [], ◌∷◌, ◌≡◌, refl, ◌∙◌,
  ◌⊎◌, inl, inr, arith, not, ◌&&◌, any, select, map, length, Bool-cases, str_eq, eq_iff, eq_refl,
  Dict, lookup, lookup-insert,
}
use charge_pulse.Prelude.Result.{Result, ok, err, type_error}
use charge_pulse.Database.{Charger}
use charge_pulse.Gateway.Router.{is_charger}
use charge_pulse.Incidents.Rules.{Numbers}
use charge_pulse.Features.{Floats}
use charge_pulse.Health.{
  UptimeRow, HealthInputs, sum_of, seven_days, uptime_component, compute_health, write_health,
  run_once, max_0, min_100,
}

module _ (nu : Numbers) where
  open nu use {F, decimal, less}

  -- 0.0, 100.0, or between them
  abbrev pub IsScore : F → Type 0
  IsScore x =
      (x ≡ decimal 0 1)
      ⊎ ((x ≡ decimal 1000 1) ⊎ ((less (decimal 0 1) x ≡ true) × (less x (decimal 1000 1) ≡ true)))

  clamped : (fl : Floats nu) (x : F) → IsScore (max_0 nu fl (min_100 nu fl x))
  clamped fl x = elim (Bool-cases (less x (decimal 1000 1))) [
    | inl e ↦ elim (Bool-cases (less (decimal 0 1) x)) [
      | inl k ↦ rw e (rw k (inr (inr (k, e))))
      | inr k ↦ rw e (rw k (inl refl))
    ]
    | inr e ↦ elim (Bool-cases (less (decimal 0 1) (decimal 1000 1))) [
      | inl k ↦ rw e (rw k (inr (inl refl)))
      | inr k ↦ rw e (rw k (inl refl))
    ]
  ]

  -- what a run makes of the entry of a charger: it is kept, or it is a score
  abbrev pub IsWritten : Bool → Option F → Option F → Type 0
  IsWritten true before after = after ≡ before
  IsWritten false before after = (x : F) × (after ≡ some x) × IsScore x

  IsWritten-again :
      (counted : Bool) (first second third : Option F)
      → IsWritten counted first second
      → IsWritten counted second third
      → IsWritten counted first third
  IsWritten-again true first second third h k = k ∙ h
  IsWritten-again false first second third h k = k

-- the charger has an hour of the last seven days that counts a status as available or as faulted
abbrev pub is_counted : {F : Type 0} → ℕ → HealthInputs F → String → Bool
is_counted now t cp_id =
    any
      (λ r.
        (str_eq r.cp_id cp_id && leb (now - seven_days) r.bucket)
        && not (r.available_count + r.faulted_count == 0))
      t.uptime

sums_lem :
    (p : UptimeRow → Bool) (rows : List UptimeRow)
    → (sum_of (map (λ r. r.available_count) (select p rows))
          + sum_of (map (λ r. r.faulted_count) (select p rows))
        == 0)
      ≡ not (any (λ r. p r && not (r.available_count + r.faulted_count == 0)) rows)
unfolding select any
sums_lem p [] = refl
sums_lem p (r ∷ rows) = elim (Bool-cases (p r)) [
  | inl e ↦ rw e (ground (arith, sums_lem p rows))
  | inr e ↦ rw e (sums_lem p rows)
]

module _ (nu : Numbers) (fl : Floats nu) where
  open nu use {F}

  -- where a status is counted no score is computed
  compute_health-counted :
      (now : ℕ) (t : HealthInputs F) (cp_id : String)
      → is_counted now t cp_id ≡ true
      → compute_health nu fl now t cp_id ≡ err type_error
  unfolding compute_health uptime_component
  compute_health-counted now t cp_id h =
      rw (sums_lem (λ r. str_eq r.cp_id cp_id && leb (now - seven_days) r.bucket) t.uptime)
        (rw h refl)

  -- the call returns a score
  abbrev Scores : Result F → Type 0
  Scores (ok x) = IsScore nu x
  Scores (err e) = ⊥

  Scores-ok : (r : Result F) → Scores r → (x : F) × (r ≡ ok x) × IsScore nu x
  Scores-ok (ok x) h = (x, refl, h)
  Scores-ok (err e) h = absurd h

  compute_health-IsScore :
      (now : ℕ) (t : HealthInputs F) (cp_id : String)
      → is_counted now t cp_id ≡ false
      → Scores (compute_health nu fl now t cp_id)
  unfolding compute_health uptime_component
  compute_health-IsScore now t cp_id h =
      rw (sums_lem (λ r. str_eq r.cp_id cp_id && leb (now - seven_days) r.bucket) t.uptime)
        (rw h (clamped nu fl _))

  -- the step for one charger leaves the entries of the others
  write_health_other :
      (k cp_id : String) (r : Result F) (scores : Dict F)
      → str_eq k cp_id ≡ false
      → lookup cp_id (write_health k r scores) ≡ lookup cp_id scores
  write_health_other k cp_id (ok x) scores h = lookup-insert k cp_id x scores ∙ rw h refl
  write_health_other k cp_id (err e) scores h = refl

  -- the step for the charger itself
  write_health_own :
      (now : ℕ) (t : HealthInputs F) (k cp_id : String) (scores : Dict F) (counted : Bool)
      → str_eq k cp_id ≡ true
      → is_counted now t cp_id ≡ counted
      → IsWritten nu counted
          (lookup cp_id scores)
          (lookup cp_id (write_health k (compute_health nu fl now t k) scores))
  write_health_own now t k cp_id scores true own h =
      rw ((eq_iff k cp_id).0 own) (rw (compute_health-counted now t cp_id h) refl)
  write_health_own now t k cp_id scores false own h =
      let (x, computed, score) =
        Scores-ok (compute_health nu fl now t cp_id) (compute_health-IsScore now t cp_id h) in
      (
        x,
        rw ((eq_iff k cp_id).0 own)
            (rw computed (lookup-insert cp_id cp_id x scores ∙ rw (eq_refl cp_id) refl)),
        score,
      )

  -- an entry that is as it shall be stays so
  run_once-keeps :
      (clock : ℕ → ℕ) (t : HealthInputs F) (chargers : List Charger) (before : Option F)
      (scores : Dict F) (cp_id : String) (counted : Bool)
      → ((n : ℕ) → is_counted (clock n) t cp_id ≡ counted)
      → IsWritten nu counted before (lookup cp_id scores)
      → IsWritten nu counted before (lookup cp_id (run_once nu fl clock t chargers scores))
  unfolding run_once
  run_once-keeps clock t [] before scores cp_id counted h w = w
  run_once-keeps clock t (c ∷ rest) before scores cp_id counted h w =
      run_once-keeps clock t rest before _ cp_id counted h
        (elim (Bool-cases (str_eq c.cp_id cp_id)) [
          | inl e ↦ IsWritten-again nu counted before (lookup cp_id scores) _ w (
              write_health_own (clock (length rest)) t c.cp_id cp_id scores counted e
                (h (length rest)))
          | inr e ↦ rw (write_health_other c.cp_id cp_id _ scores e) w
        ])

  -- A run writes the score of a charger only where no status was counted for it. If an hour of its last seven days
  -- counts a report of the status available or faulted, at every reading of the clock, the charger keeps the score
  -- that it had, or has none. If none does, at every reading, it has a score, which is 0.0, 100.0, or above the one and
  -- below the other. The charger is in the table. No law of the floats is supposed.
  pub run_once-IsWritten :
      (clock : ℕ → ℕ) (t : HealthInputs F) (chargers : List Charger) (scores : Dict F)
      (cp_id : String) (counted : Bool)
      → any (is_charger cp_id) chargers ≡ true
      → ((n : ℕ) → is_counted (clock n) t cp_id ≡ counted)
      → IsWritten nu counted
          (lookup cp_id scores)
          (lookup cp_id (run_once nu fl clock t chargers scores))
  unfolding run_once any
  run_once-IsWritten clock t [] scores cp_id counted there h = cc
  run_once-IsWritten clock t (c ∷ rest) scores cp_id counted there h =
      elim (Bool-cases (str_eq c.cp_id cp_id)) [
        | inl e ↦ run_once-keeps clock t rest (lookup cp_id scores) _ cp_id counted h (
            write_health_own (clock (length rest)) t c.cp_id cp_id scores counted e
              (h (length rest)))
        | inr e ↦
            rw
              (← write_health_other c.cp_id cp_id
                (compute_health nu fl (clock (length rest)) t c.cp_id) scores e)
              (run_once-IsWritten clock t rest
                (write_health c.cp_id (compute_health nu fl (clock (length rest)) t c.cp_id) scores)
                cp_id counted (rw e at there) h)
      ]
