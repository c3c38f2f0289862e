-- ===== src/Features/Windows.antt =====
-- One vector for each charger and window.
use native.Mathlib.Nat.{mod-lt}
use charge_pulse.Prelude.{
  ℕ, ◌+◌, ◌-◌, ◌*◌, ◌/◌, ◌%◌, ◌==◌, ◌≤◌, ◌<◌, String, Bool, true, false, List, [], ◌∷◌, ◌++◌, ◌≡◌,
  refl, arith, Memᴰ, ◌&&◌, All, any, select, select-append, map, length, length-append, str_eq,
  eq_iff, Bool-cases, inl, inr,
}
use charge_pulse.Database.{OcppEvent, Db}
use charge_pulse.Incidents.Rules.{Numbers}
use charge_pulse.Features.{Floats}
use charge_pulse.Features.Worker.{
  FeatureRow, FeatureStore, is_within, is_vector, same_pair, distinct_pairs, active_chargers,
  window_end_of, store_vector, run_once,
}
use charge_pulse.Features.Stored.{
  HasVector, active-HasEvent, compute_all-HasVector, compute_all-keeps, select_none,
}

-- The window that a run takes has ended, and not longer ago than its own length: so the windows of
-- runs that follow each other at that distance miss no time. For lengths of at least a minute.
pub window_end_of-bounds :
    (window_minutes now : ℕ)
    → 0 < window_minutes
    → (window_end_of window_minutes now ≤ now)
      × (now < window_end_of window_minutes now + window_minutes * 60000000)
unfolding window_end_of
window_end_of-bounds window_minutes now h =
    let r = mod-lt (now / 60000000 % 60) h in (omega arith, omega (arith, r))

-- no charger has two vectors of one time
abbrev pub IsUnique : {F : Type 0} → FeatureStore F → Type 0
IsUnique s =
    (cp_id : String) (t : ℕ)
    → length (select (λ r. str_eq r.cp_id cp_id && r.time == t) s.vectors) ≤ 1

-- the row of the charger and the time, which `any` has found
any-row :
    {F : Type 0} (cp_id : String) (t : ℕ) (rows : List (FeatureRow F))
    → any (is_vector cp_id t) rows ≡ true
    → (r : FeatureRow F) × (Memᴰ r rows) × (r.cp_id ≡ cp_id) × (r.time ≡ t)
unfolding any
any-row cp_id t [] h = cc
any-row cp_id t (r ∷ rows) h = elim (Bool-cases (is_vector cp_id t r)) [
  | inl e ↦ (r, Memᴰ.head refl, ground (arith, e, eq_iff r.cp_id cp_id), ground (arith, e))
  | inr e ↦
      let (x, there, own, at) = any-row cp_id t rows (rw e at h) in (x, Memᴰ.tail there, own, at)
]

same_pair-any :
    {F : Type 0} (t : ℕ) (p : String × ℕ) (ps : List (String × ℕ)) (s : FeatureStore F)
    → any (same_pair p) ps ≡ true
    → All (HasVector t s) ps
    → HasVector t s p
unfolding any
same_pair-any t p [] s h all = cc
same_pair-any t p (q ∷ ps) s h all = elim (Bool-cases (same_pair p q)) [
  | inl e ↦ let same : p.0 ≡ q.0 = ground (arith, e, eq_iff p.0 q.0) in rw same all.0
  | inr e ↦ same_pair-any t p ps s (rw e at h) all.1
]

pub distinct-HasVector :
    {F : Type 0} (t : ℕ) (ps : List (String × ℕ)) (s : FeatureStore F)
    → All (HasVector t s) (distinct_pairs ps)
    → All (HasVector t s) ps
unfolding distinct_pairs
distinct-HasVector t [] s h = tt
distinct-HasVector t (p ∷ ps) s h = elim (Bool-cases (any (same_pair p) (distinct_pairs ps))) [
  | inl e ↦
      let rest : All (HasVector t s) (distinct_pairs ps) = rw e at h in
      (same_pair-any t p (distinct_pairs ps) s e rest, distinct-HasVector t ps s rest)
  | inr e ↦
      let all : All (HasVector t s) (p ∷ distinct_pairs ps) = rw e at h in
      (all.0, distinct-HasVector t ps s all.1)
]

-- an event of the window is among those that the worker selects
pub event-HasVector :
    {F : Type 0} (t window_start window_end : ℕ) (events : List OcppEvent) (s : FeatureStore F)
    (e : OcppEvent)
    → Memᴰ e events
    → window_start ≤ e.time
    → e.time < window_end
    → All (HasVector t s) (
        map
          (λ e. (e.cp_id, e.org_id))
          (select (λ e. is_within window_start window_end e.time) events))
    → HasVector t s (e.cp_id, e.org_id)
unfolding select
event-HasVector t window_start window_end [] s e m after before h = elim m [ ]
event-HasVector t window_start window_end (e ∷ events) s e' (Memᴰ.head own) after before h =
    let inside : is_within window_start window_end e.time ≡ true =
      rw (← own) (ground (arith, after, before)) in
    rw own ((rw inside at h).0)
event-HasVector t window_start window_end (x ∷ events) s e (Memᴰ.tail m) after before h =
    elim (Bool-cases (is_within window_start window_end x.time)) [
      | inl k ↦ event-HasVector t window_start window_end events s e m after before (rw k at h).1
      | inr k ↦ event-HasVector t window_start window_end events s e m after before (rw k at h)
    ]

select-length_append :
    {F : Type 0} (p : FeatureRow F → Bool) (rows : List (FeatureRow F)) (row : FeatureRow F)
    → length (select p rows) ≤ 1
    → (p row ≡ true → any p rows ≡ false)
    → length (select p (rows ++ row ∷ [])) ≤ 1
unfolding select
select-length_append p rows row h none_yet =
    rw (select-append p rows (row ∷ [])) (elim (Bool-cases (p row)) [
      | inl e ↦ rw e (rw (select_none p rows (none_yet e)) (omega arith))
      | inr e ↦ rw e (omega (arith, length-append (select p rows) [], h))
    ])

is_vector-key :
    {F : Type 0} (cp_id other : String) (t u : ℕ) (rows : List (FeatureRow F))
    → str_eq other cp_id && u == t ≡ true
    → any (is_vector other u) rows ≡ false
    → any (is_vector cp_id t) rows ≡ false
is_vector-key cp_id other t u rows h k =
    let e : other ≡ cp_id = ground (arith, h, eq_iff other cp_id) in
    let q : u ≡ t = ground (arith, h) in rw (← e) (rw (← q) k)

module _ (nu : Numbers) (fl : Floats nu) where
  stored-IsUnique :
      (cp_id : String) (org_id window_end : ℕ) (values : List nu.F) (s : FeatureStore nu.F)
      → any (is_vector cp_id window_end) s.vectors ≡ false
      → IsUnique s
      → IsUnique (store_vector nu fl cp_id org_id window_end values s)
  unfolding store_vector
  stored-IsUnique cp_id org_id window_end values s fresh h c t =
      select-length_append (is_vector c t) s.vectors _ (h c t)
        (λ e. is_vector-key c cp_id t window_end s.vectors e fresh)

  -- A run of the worker leaves every charger that has an event in the table with a time in the run's window with a
  -- row of the time at which the window ends, and keeps it so that no two rows have one charger and one time.
  pub run_once-IsUnique :
      (db : Db) (window_minutes now : ℕ) (s : FeatureStore nu.F) (e : OcppEvent)
      → IsUnique s
      → Memᴰ e db.ocpp_events
      → window_end_of window_minutes now - window_minutes * 60000000 ≤ e.time
      → e.time < window_end_of window_minutes now
      → (IsUnique (run_once nu fl db window_minutes now s))
        × ((r : FeatureRow nu.F) × (Memᴰ r (run_once nu fl db window_minutes now s).vectors)
            × (r.cp_id ≡ e.cp_id)
            × (r.time ≡ window_end_of window_minutes now))
  unfolding run_once active_chargers
  run_once-IsUnique db window_minutes now s e h there after before =
      let window_end = window_end_of window_minutes now in
      let window_start = window_end - window_minutes * 60000000 in
      let s' = run_once nu fl db window_minutes now s in
      let events = active-HasEvent window_start window_end db.ocpp_events in
      (
        compute_all-keeps nu fl db window_start window_end IsUnique
            (λ c o x fresh ev k. stored-IsUnique c o window_end _ x fresh k) _ s events h,
        any-row e.cp_id window_end s'.vectors (
            event-HasVector window_end window_start window_end db.ocpp_events s' e there after
              before
              (distinct-HasVector window_end _ s'
                (compute_all-HasVector nu fl db window_start window_end _ s events))),
      )
