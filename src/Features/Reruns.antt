-- ===== src/Features/Reruns.antt =====
-- Several runs of the worker in one window.
use mathlib.Core.List.{append-nil, append_assoc}
use charge_pulse.Prelude.{
  All-snoc, ℕ, ◌-◌, ◌*◌, ◌≤◌, ◌<◌, String, Bool, true, false, Memᴰ, any, sym, Bool-cases, inl, inr,
  str_eq, eq_iff, ◌&&◌, List, [], ◌∷◌, ◌++◌, ◌≡◌, refl, ap, ◌∙◌, arith, All, select, select-append,
  map,
}
use charge_pulse.Database.{OcppEvent, Db}
use charge_pulse.Incidents.Rules.{Numbers}
use charge_pulse.Features.{Floats}
use charge_pulse.Features.Worker.{
  FeatureRow, FeatureStore, is_vector, store_vector, compute_all, is_within, distinct_pairs,
  active_chargers, window_end_of, run_once,
}
use charge_pulse.Features.Stored.{
  HasEvent, HasVector, stored-HasVector, compute_all-keeps, active-HasEvent, already,
  compute_all-HasVector,
}
use charge_pulse.Features.Windows.{event-HasVector, distinct-HasVector}

module _ (nu : Numbers) (fl : Floats nu) where
  later_none :
      (window_start window_end : ℕ) (later : List OcppEvent)
      → All (λ e. window_end ≤ e.time) later
      → select (λ e. is_within window_start window_end e.time) later ≡ []
  unfolding select
  later_none window_start window_end [] h = refl
  later_none window_start window_end (e ∷ later) h =
      ground (arith, h.0, later_none window_start window_end later h.1)

  active_later :
      (window_start window_end : ℕ) (events later : List OcppEvent)
      → All (λ e. window_end ≤ e.time) later
      → active_chargers window_start window_end (events ++ later)
        ≡ active_chargers window_start window_end events
  unfolding active_chargers
  active_later window_start window_end events later h =
      ap (λ l. distinct_pairs (map (λ (e : OcppEvent). (e.cp_id, e.org_id)) l))
        (select-append _ events later
          ∙ ap
              (λ l.
                select (λ (e : OcppEvent). is_within window_start window_end e.time) events ++ l)
              (later_none window_start window_end later h)
          ∙ append-nil _)

  -- A second run in the same window changes nothing, where the events that were added to the table between the
  -- runs have times that are not before the end of the window.
  pub run_once_twice :
      (db db' : Db) (later : List OcppEvent) (window_minutes now now' : ℕ) (s : FeatureStore nu.F)
      → window_end_of window_minutes now' ≡ window_end_of window_minutes now
      → db'.ocpp_events ≡ db.ocpp_events ++ later
      → All (λ e. window_end_of window_minutes now ≤ e.time) later
      → run_once nu fl db' window_minutes now' (run_once nu fl db window_minutes now s)
        ≡ run_once nu fl db window_minutes now s
  unfolding run_once
  run_once_twice db db' later window_minutes now now' s same grown after =
      let window_end = window_end_of window_minutes now in
      let window_start = window_end - window_minutes * 60000000 in
      let chargers : active_chargers window_start window_end db'.ocpp_events
          ≡ active_chargers window_start window_end db.ocpp_events =
        ap (active_chargers window_start window_end) grown
        ∙ active_later window_start window_end db.ocpp_events later after in
      rw same (
        rw chargers (
          already nu fl db' window_start window_end
            (active_chargers window_start window_end db.ocpp_events)
            (run_once nu fl db window_minutes now s)
            (compute_all-HasVector nu fl db window_start window_end _ s
              (active-HasEvent window_start window_end db.ocpp_events))))

any-Memᴰ :
    {A : Type 0} (p : A → Bool) (xs : List A)
    → any p xs ≡ true
    → (x : A) × (Memᴰ x xs) × (p x ≡ true)
unfolding any
any-Memᴰ p [] h = cc
any-Memᴰ p (x ∷ xs) h = elim (Bool-cases (p x)) [
  | inl e ↦ (x, Memᴰ.head refl, e)
  | inr e ↦ let (y, there, passes) = any-Memᴰ p xs (rw e at h) in (y, Memᴰ.tail there, passes)
]

any-front :
    {A : Type 0} (p : A → Bool) (xs ys : List A)
    → any p xs ≡ false
    → any p (xs ++ ys) ≡ true
    → any p ys ≡ true
unfolding any
any-front p [] ys h k = k
any-front p (x ∷ xs) ys h k = ground (arith, h, k, any-front p xs ys)

-- a vector of the window, of a charger with an event in the window among the given ones
abbrev pub IsLate : {F : Type 0} → ℕ → ℕ → List OcppEvent → FeatureRow F → Type 0
IsLate window_start window_end later r =
    (r.time ≡ window_end)
    × ((e : OcppEvent) × (Memᴰ e later)
        × (e.cp_id ≡ r.cp_id)
        × (window_start ≤ e.time)
        × (e.time < window_end))

-- after a run the chargers with an event in the window have their vector
run_once-HasVector :
    (nu : Numbers) (fl : Floats nu) (db : Db) (window_start window_end : ℕ) (s : FeatureStore nu.F)
    (p : String × ℕ)
    → HasEvent window_start window_end db.ocpp_events p
    → HasVector window_end
        (compute_all nu fl db window_start window_end
          (active_chargers window_start window_end db.ocpp_events)
          s)
        p
unfolding active_chargers
run_once-HasVector nu fl db window_start window_end s p h =
    let (e, there, passes) = any-Memᴰ _ db.ocpp_events h in
    let same : e.cp_id ≡ p.0 = ground (arith, passes, eq_iff e.cp_id p.0) in
    let after : window_start ≤ e.time = ground (arith, passes) in
    let before : e.time < window_end = ground (arith, passes) in
    let s' =
      compute_all nu fl db window_start window_end
        (active_chargers window_start window_end db.ocpp_events) s in
    rw (← same) (
      event-HasVector window_end window_start window_end db.ocpp_events s' e there after before (
        distinct-HasVector window_end _ s' (
          compute_all-HasVector nu fl db window_start window_end _ s
            (active-HasEvent window_start window_end db.ocpp_events))))

module _ {F : Type 0} (window_start window_end : ℕ) (before later : List OcppEvent) where
  -- every charger with an event in the window among the earlier ones has its vector
  abbrev HasAll : FeatureStore F → Type 0
  HasAll s = (p : String × ℕ) → HasEvent window_start window_end before p → HasVector window_end s p

  -- the vectors that were added to the given ones are late
  abbrev AddsLate : List (FeatureRow F) → List (FeatureRow F) → Type 0
  AddsLate rows vectors =
      (extra : List (FeatureRow F)) × (vectors ≡ rows ++ extra)
      × All (IsLate window_start window_end later) extra

  AddsLate-snoc :
      (rows vectors : List (FeatureRow F)) (r : FeatureRow F)
      → AddsLate rows vectors
      → IsLate window_start window_end later r
      → AddsLate rows (vectors ++ r ∷ [])
  AddsLate-snoc rows vectors r (extra, e, late) h = (
    extra ++ r ∷ [],
    ap (λ l. l ++ r ∷ []) e ∙ append_assoc rows extra (r ∷ []),
    All-snoc (IsLate window_start window_end later) extra r late h,
  )

  -- a charger without a vector has its event among the later ones
  fresh_late :
      (p : String × ℕ) (s : FeatureStore F)
      → HasAll s
      → any (is_vector p.0 window_end) s.vectors ≡ false
      → HasEvent window_start window_end (before ++ later) p
      → (e : OcppEvent) × (Memᴰ e later)
        × (e.cp_id ≡ p.0)
        × (window_start ≤ e.time)
        × (e.time < window_end)
  fresh_late p s all fresh h =
      let test =
        λ (e : OcppEvent). str_eq e.cp_id p.0 && is_within window_start window_end e.time in
      let missing : any test before ≡ false = elim (Bool-cases (any test before)) [
        | inl e ↦ let k : any (is_vector p.0 window_end) s.vectors ≡ true = all p e in cc
        | inr e ↦ e
      ] in
      let (e, there, passes) = any-Memᴰ test later (any-front test before later missing h) in
      (
        e,
        there,
        ground (arith, passes, eq_iff e.cp_id p.0),
        ground (arith, passes),
        ground (arith, passes),
      )

module _ (nu : Numbers) (fl : Floats nu) where
  -- A second run in the same window keeps every vector as it is, also where events of the window have been added to the
  -- table since; the vectors that it adds are of the window's end, and of chargers with an event in the window among
  -- those that were added.
  pub run_once_again :
      (db db' : Db) (later : List OcppEvent) (window_minutes now now' : ℕ) (s : FeatureStore nu.F)
      → window_end_of window_minutes now' ≡ window_end_of window_minutes now
      → db'.ocpp_events ≡ db.ocpp_events ++ later
      → (extra : List (FeatureRow nu.F)) × ((run_once nu fl db' window_minutes now'
            (run_once nu fl db window_minutes now s)).vectors
          ≡ (run_once nu fl db window_minutes now s).vectors ++ extra)
        × All
            (IsLate
              (window_end_of window_minutes now - window_minutes * 60000000)
              (window_end_of window_minutes now)
              later)
            extra
  unfolding run_once store_vector
  run_once_again db db' later window_minutes now now' s same grown =
      let window_end = window_end_of window_minutes now in
      let window_start = window_end - window_minutes * 60000000 in
      let s1 = run_once nu fl db window_minutes now s in
      let all : HasAll window_start window_end db.ocpp_events later s1 =
        λ p h. run_once-HasVector nu fl db window_start window_end s p h in
      rw same (
        (compute_all-keeps nu fl db' window_start window_end
          (λ x.
            HasAll window_start window_end db.ocpp_events later x
            × AddsLate window_start window_end db.ocpp_events later s1.vectors x.vectors)
          (λ c o x fresh ev k. (
            λ p h. stored-HasVector nu fl db' window_start window_end p c o x (k.0 p h),
            AddsLate-snoc window_start window_end db.ocpp_events later s1.vectors x.vectors _ k.1 (
              refl,
              fresh_late window_start window_end db.ocpp_events later (c, o) x k.0 fresh
                  (rw grown at ev),
            ),
          ))
          (active_chargers window_start window_end db'.ocpp_events) s1
          (active-HasEvent window_start window_end db'.ocpp_events)
          (all, ([], sym (append-nil s1.vectors), tt))).1)
