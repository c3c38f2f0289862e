-- ===== src/Features/Stored.antt =====
-- What a run of the worker stores.
use charge_pulse.Prelude.{
  ℕ, String, Bool, true, false, List, [], ◌∷◌, ◌++◌, ◌≡◌, refl, arith, ◌&&◌, All, any, select, map,
  str_eq, eq_refl, All-mono, any_last, if◌then◌else◌, Bool-cases, inl, inr,
}
use charge_pulse.Database.{OcppEvent, Db}
use charge_pulse.Incidents.Rules.{Numbers}
use charge_pulse.Features.{Floats, insert_event, sort_events, extract}
use charge_pulse.Features.Worker.{
  FeatureStore, is_within, is_empty, events_of, sessions_of, is_vector, same_pair, distinct_pairs,
  active_chargers, store_vector, compute_window, compute_all,
}

module _ {A : Type 0} where
  pub any-grows : (p : A → Bool) (xs ys : List A) → any p xs ≡ true → any p (xs ++ ys) ≡ true
  unfolding any
  any-grows p [] ys h = cc
  any-grows p (x ∷ xs) ys h = ground (arith, any-grows p xs ys)

  select-any : (p : A → Bool) (xs : List A) → any p xs ≡ true → is_empty (select p xs) ≡ false
  unfolding any select
  select-any p [] h = cc
  select-any p (x ∷ xs) h = ground (arith, select-any p xs)

  pub select_none : (p : A → Bool) (xs : List A) → any p xs ≡ false → select p xs ≡ []
  unfolding any select
  select_none p [] h = refl
  select_none p (x ∷ xs) h = ground (arith, select_none p xs)

insert_event-is_empty : (e : OcppEvent) (xs : List OcppEvent) → is_empty (insert_event e xs) ≡ false
unfolding insert_event
insert_event-is_empty e [] = refl
insert_event-is_empty e (x ∷ xs) = ground arith

sort_events-is_empty :
    (es : List OcppEvent) → is_empty es ≡ false → is_empty (sort_events es) ≡ false
unfolding sort_events
sort_events-is_empty [] h = h
sort_events-is_empty (e ∷ es) h = insert_event-is_empty e (sort_events es)

-- the charger has an event in the window
abbrev pub HasEvent : ℕ → ℕ → List OcppEvent → String × ℕ → Type 0
HasEvent window_start window_end events p =
    any (λ e. str_eq e.cp_id p.0 && is_within window_start window_end e.time) events ≡ true

-- the charger has a vector of the window
abbrev pub HasVector : {F : Type 0} → ℕ → FeatureStore F → String × ℕ → Type 0
HasVector window_end s p = any (is_vector p.0 window_end) s.vectors ≡ true

distinct-All :
    (P : String × ℕ → Type 0) (ps : List (String × ℕ)) → All P ps → All P (distinct_pairs ps)
unfolding distinct_pairs
distinct-All P [] h = tt
distinct-All P (p ∷ ps) h = elim (Bool-cases (any (same_pair p) (distinct_pairs ps))) [
  | inl e ↦ rw e (distinct-All P ps h.1)
  | inr e ↦ rw e (h.0, distinct-All P ps h.1)
]

HasEvent-cons :
    (window_start window_end : ℕ) (e : OcppEvent) (events : List OcppEvent) (p : String × ℕ)
    → HasEvent window_start window_end events p
    → HasEvent window_start window_end (e ∷ events) p
unfolding any
HasEvent-cons window_start window_end e events p h = ground (arith, h)

selected-HasEvent :
    (window_start window_end : ℕ) (events : List OcppEvent)
    → All (HasEvent window_start window_end events) (
        map
          (λ e. (e.cp_id, e.org_id))
          (select (λ e. is_within window_start window_end e.time) events))
unfolding select any
selected-HasEvent window_start window_end [] = tt
selected-HasEvent window_start window_end (e ∷ events) =
    let rest =
      All-mono (HasEvent-cons window_start window_end e events) _
        (selected-HasEvent window_start window_end events) in
    elim (Bool-cases (is_within window_start window_end e.time)) [
      | inl h ↦ rw h (rw (eq_refl e.cp_id) (rw h refl), rest)
      | inr h ↦ rw h rest
    ]

pub active-HasEvent :
    (window_start window_end : ℕ) (events : List OcppEvent)
    → All (HasEvent window_start window_end events) (active_chargers window_start window_end events)
unfolding active_chargers
active-HasEvent window_start window_end events =
    distinct-All _ _ (selected-HasEvent window_start window_end events)

module _ (nu : Numbers) (fl : Floats nu) (db : Db) (window_start window_end : ℕ) where
  -- the store with the charger's vector
  abbrev pub stored : String → ℕ → FeatureStore nu.F → FeatureStore nu.F
  stored cp_id org_id s =
      store_vector nu fl cp_id org_id window_end
        (extract nu fl window_start window_end
          (sort_events (events_of cp_id window_start window_end db.ocpp_events))
          (sessions_of cp_id window_start window_end db.sessions))
        s

  pub compute_window_stores :
      (cp_id : String) (org_id : ℕ) (s : FeatureStore nu.F)
      → HasEvent window_start window_end db.ocpp_events (cp_id, org_id)
      → compute_window nu fl db cp_id org_id window_start window_end s ≡ stored cp_id org_id s
  unfolding compute_window
  compute_window_stores cp_id org_id s h =
      let k =
        sort_events-is_empty (events_of cp_id window_start window_end db.ocpp_events)
          (select-any _ db.ocpp_events h) in
      rw k refl

  -- a property of the store that storing a new vector keeps
  pub compute_all-keeps :
      (P : FeatureStore nu.F → Type 0)
      → ((cp_id : String) (org_id : ℕ) (s : FeatureStore nu.F)
          → any (is_vector cp_id window_end) s.vectors ≡ false
          → HasEvent window_start window_end db.ocpp_events (cp_id, org_id)
          → P s
          → P (stored cp_id org_id s))
      → (chargers : List (String × ℕ)) (s : FeatureStore nu.F)
      → All (HasEvent window_start window_end db.ocpp_events) chargers
      → P s
      → P (compute_all nu fl db window_start window_end chargers s)
  unfolding compute_all
  compute_all-keeps P step [] s events h = h
  compute_all-keeps P step ((cp_id, org_id) ∷ rest) s events h =
      compute_all-keeps P step rest _ events.1
        (elim (Bool-cases (any (is_vector cp_id window_end) s.vectors)) [
          | inl e ↦ rw e h
          | inr e ↦ rw e (
              rw (compute_window_stores cp_id org_id s events.0) (step cp_id org_id s e events.0 h))
        ])

  pub already :
      (chargers : List (String × ℕ)) (s : FeatureStore nu.F)
      → All (HasVector window_end s) chargers
      → compute_all nu fl db window_start window_end chargers s ≡ s
  unfolding compute_all
  already [] s h = refl
  already ((cp_id, org_id) ∷ rest) s h = rw h.0 (already rest s h.1)

  pub stored-HasVector :
      (p : String × ℕ) (cp_id : String) (org_id : ℕ) (s : FeatureStore nu.F)
      → HasVector window_end s p
      → HasVector window_end (stored cp_id org_id s) p
  unfolding store_vector
  stored-HasVector p cp_id org_id s h = any-grows (is_vector p.0 window_end) s.vectors _ h

  stored-own :
      (cp_id : String) (org_id : ℕ) (s : FeatureStore nu.F)
      → HasVector window_end (stored cp_id org_id s) (cp_id, org_id)
  unfolding store_vector
  stored-own cp_id org_id s =
      any_last (is_vector cp_id window_end) s.vectors _ (rw (eq_refl cp_id) (ground arith))

  pub compute_all-HasVector :
      (chargers : List (String × ℕ)) (s : FeatureStore nu.F)
      → All (HasEvent window_start window_end db.ocpp_events) chargers
      → All
          (HasVector window_end (compute_all nu fl db window_start window_end chargers s))
          chargers
  unfolding compute_all
  compute_all-HasVector [] s h = tt
  compute_all-HasVector ((cp_id, org_id) ∷ rest) s h =
      let s' : FeatureStore nu.F =
        if any (is_vector cp_id window_end) s.vectors
        then s
        else compute_window nu fl db cp_id org_id window_start window_end s in
      (
        compute_all-keeps (λ x. HasVector window_end x (cp_id, org_id))
            (λ c o x q ev k. stored-HasVector (cp_id, org_id) c o x k) rest s' h.1
            (elim (Bool-cases (any (is_vector cp_id window_end) s.vectors)) [
              | inl e ↦ rw e e
              | inr e ↦
                  rw e (rw (compute_window_stores cp_id org_id s h.0) (stored-own cp_id org_id s))
            ]),
        compute_all-HasVector rest s' h.1,
      )
