-- ===== src/Features/Counts.antt =====
-- The counters of a vector, and the rules that read a vector of the extraction.
use charge_pulse.Prelude.{
  ℕ, suc, ◌+◌, ◌-◌, ◌≤◌, max, String, Bool, true, false, Option, none, some, List, [], ◌∷◌, ◌≡◌,
  refl, ap, ◌∙◌, arith, All, any, select, map, length, not, ◌||◌, ◌&&◌, str_eq, eq_iff, truthy,
  Bool-cases, inl, inr, get_or, lookup, insert,
}
use charge_pulse.Database.{Session, OcppEvent}
use charge_pulse.Incidents.Rules.{Numbers, Rule, rules, reading, evaluate}
use charge_pulse.Features.{
  Floats, is_status, is_heartbeat, is_completed, is_failed, is_error, insert_event, sort_events,
  text_at, error_codes, distinct, gaps, max_of, durations_by_status, durations_of, time_in, longest,
  extract, session_features, power_features, status_features, connectivity_features,
  temporal_features, to_dict, zip_names,
}
use charge_pulse.Features.Durations.{IsAscending, IsAscending-le, IsIn, sort_events-IsAscending}

module _ {ℓ} {A : Type ℓ} where
  any-select : (p q : A → Bool) (xs : List A) → any p (select q xs) ≡ any (λ x. p x && q x) xs
  unfolding any select
  any-select p q [] = refl
  any-select p q (x ∷ xs) = ground (arith, any-select p q xs)

  select-length : (p : A → Bool) (xs : List A) → length (select p xs) ≤ length xs
  unfolding select
  select-length p [] = omega arith
  select-length p (x ∷ xs) = ground (arith, select-length p xs)

abbrev pub is_named : String → {F : Type 0} → Rule F → Bool
is_named name r = str_eq r.name name

too_many : {n : ℕ} → suc (suc n) ≤ 1 → ⊥
too_many h = omega (arith, h)

or_false : (b : Bool) → (b || false) ≡ b
or_false true = refl
or_false false = refl

gaps_few : (es : List OcppEvent) → length es ≤ 1 → gaps (sort_events es) ≡ []
unfolding gaps sort_events insert_event
gaps_few [] h = refl
gaps_few (e ∷ []) h = refl
gaps_few (e ∷ f ∷ es) h = elim (too_many h) [ ]

module _ (nu : Numbers) (fl : Floats nu) where
  open nu use {F, decimal, less}

  heartbeat_fires :
      (window_start window_end : ℕ) (events : List OcppEvent) (sessions : List Session)
      → any
          (is_named "heartbeat_missing")
          (evaluate nu (to_dict (extract nu fl window_start window_end events sessions)))
        ≡ less (decimal 300 0) (longest nu fl (gaps (sort_events (select is_heartbeat events))))
  unfolding evaluate rules reading extract session_features power_features status_features
      connectivity_features temporal_features to_dict zip_names lookup any
  heartbeat_fires window_start window_end events sessions =
      any-select (is_named "heartbeat_missing")
        (λ r.
          get_or (r.condition (to_dict (extract nu fl window_start window_end events sessions)))
            false)
        (rules nu)
      ∙ or_false _

  faulted_fires :
      (window_start window_end : ℕ) (events : List OcppEvent) (sessions : List Session)
      → any
          (is_named "faulted_state")
          (evaluate nu (to_dict (extract nu fl window_start window_end events sessions)))
        ≡ less (decimal 10 2) (
            fl.ratio
              (time_in "Faulted" (durations_of window_start window_end (select is_status events)))
              (max 1000000 (window_end - window_start)))
  unfolding evaluate rules reading extract session_features power_features status_features
      connectivity_features temporal_features to_dict zip_names lookup any
  faulted_fires window_start window_end events sessions =
      any-select (is_named "faulted_state")
        (λ r.
          get_or (r.condition (to_dict (extract nu fl window_start window_end events sessions)))
            false)
        (rules nu)
      ∙ or_false _

  -- Silence is no alarm: on the vector of a window with one heartbeat at most and no report of a
  -- status, the rules "heartbeat_missing" and "faulted_state" do not fire, also where the charger had reported a fault
  -- before the window. Floats: 300 < 0.0 is false, and 0.10 < 0 / b is false for every positive b.
  pub evaluate-quiet :
      (window_start window_end : ℕ) (events : List OcppEvent) (sessions : List Session)
      → less (decimal 300 0) (decimal 0 1) ≡ false
      → ((b : ℕ) → 1 ≤ b → less (decimal 10 2) (fl.ratio 0 b) ≡ false)
      → length (select is_heartbeat events) ≤ 1
      → select is_status events ≡ []
      → (any
            (is_named "heartbeat_missing")
            (evaluate nu (to_dict (extract nu fl window_start window_end events sessions)))
          ≡ false)
        × (any
              (is_named "faulted_state")
              (evaluate nu (to_dict (extract nu fl window_start window_end events sessions)))
            ≡ false)
  unfolding durations_by_status sort_events lookup insert
  evaluate-quiet window_start window_end events sessions no_gap no_share few none_reported = (
    heartbeat_fires window_start window_end events sessions
        ∙ rw (gaps_few (select is_heartbeat events) few) no_gap,
    faulted_fires window_start window_end events sessions
        ∙ rw none_reported (no_share (max 1000000 (window_end - window_start)) (omega arith)),
  )

distinct-length : (ss : List String) → length (distinct ss) ≤ length ss
unfolding distinct any
distinct-length [] = omega arith
distinct-length (s ∷ ss) = ground (arith, distinct-length ss)

insert_event-length :
    (e : OcppEvent) (es : List OcppEvent) → length (insert_event e es) ≡ suc (length es)
unfolding insert_event
insert_event-length e [] = refl
insert_event-length e (x ∷ xs) = ground (arith, insert_event-length e xs)

sort_events-length : (es : List OcppEvent) → length (sort_events es) ≡ length es
unfolding sort_events
sort_events-length [] = refl
sort_events-length (e ∷ es) =
    insert_event-length e (sort_events es) ∙ ap suc (sort_events-length es)

map-length {ℓ κ} :
    {A : Type ℓ} {B : Type κ} (f : A → B) (xs : List A) → length (map f xs) ≡ length xs
map-length f [] = refl
map-length f (x ∷ xs) = ap suc (map-length f xs)

error_codes-length : (es : List OcppEvent) → length (error_codes es) ≤ length es
unfolding error_codes
error_codes-length es =
    let texts = map (λ (e : OcppEvent). text_at "error_code" "NoError" e.payload) es in
    omega (
      arith,
      select-length is_error texts,
      map-length (λ (e : OcppEvent). text_at "error_code" "NoError" e.payload) es,
    )

completed_not_failed :
    (o : Option String)
    → elim o [ none ↦ false | some r ↦ str_eq r "EVDisconnected" ] ≡ true
    → elim (truthy o) [ none ↦ false | some r ↦ not (str_eq r "EVDisconnected") ] ≡ false
unfolding truthy
completed_not_failed none h = cc
completed_not_failed (some r) h = rw ((eq_iff r "EVDisconnected").0 h) refl

completed_failed : (s : Session) → is_completed s ≡ true → is_failed s ≡ false
unfolding truthy
completed_failed s h = completed_not_failed s.stop_reason h

outcomes :
    (ss : List Session) → length (select is_completed ss) + length (select is_failed ss) ≤ length ss
unfolding select
outcomes [] = omega arith
outcomes (s ∷ ss) = elim (Bool-cases (is_completed s)) [
  | inl e ↦ rw e (rw (completed_failed s e) (omega (arith, outcomes ss)))
  | inr e ↦ elim (Bool-cases (is_failed s)) [
    | inl k ↦ rw e (rw k (omega (arith, outcomes ss)))
    | inr k ↦ rw e (rw k (omega (arith, outcomes ss)))
  ]
]

-- each gap is within what is left of the window
max_of-gaps :
    (from until : ℕ) (es : List OcppEvent)
    → IsAscending from until es
    → max_of (gaps es) ≤ until - from
unfolding max_of gaps
max_of-gaps from until [] h = omega arith
max_of-gaps from until (e ∷ []) h = omega arith
max_of-gaps from until (e ∷ f ∷ es) h = omega (
  arith,
  h.0,
  h.1.0,
  IsAscending-le f.time until es h.1.1,
  max_of-gaps f.time until (f ∷ es) (omega arith, h.1.1),
)

-- The counters of a vector: there are no more different error codes than error codes, no more of these
-- than status reports, no more completed and failed sessions together than started ones, and the longest gap between
-- heartbeats is no longer than the window, where the heartbeats lie in it.
pub counts-bounds :
    (window_start window_end : ℕ) (events : List OcppEvent) (sessions : List Session)
    → window_start ≤ window_end
    → All (IsIn window_start window_end) (select is_heartbeat events)
    → (length (distinct (error_codes (sort_events (select is_status events))))
        ≤ length (error_codes (sort_events (select is_status events))))
      × (length (error_codes (sort_events (select is_status events)))
          ≤ length (select is_status events))
      × (length (select is_completed sessions) + length (select is_failed sessions)
          ≤ length sessions)
      × (max_of (gaps (sort_events (select is_heartbeat events))) ≤ window_end - window_start)
counts-bounds window_start window_end events sessions le inside = (
  distinct-length _,
  omega (
    arith,
    error_codes-length (sort_events (select is_status events)),
    sort_events-length (select is_status events),
  ),
  outcomes sessions,
  max_of-gaps window_start window_end _
      (sort_events-IsAscending window_start window_end _ le inside),
)
