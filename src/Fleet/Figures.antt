-- ===== src/Fleet/Figures.antt =====
-- What the figures of the fleet say of it.
use charge_pulse.Prelude.{
  ℕ, ◌+◌, ◌-◌, ◌≤◌, ◌==◌, leb, Bool, true, false, List, [], ◌∷◌, ◌≡◌, refl, ap, arith, ◌&&◌, All,
  select, map, length, str_eq, if◌then◌else◌, Bool-cases, inl, inr, Dict,
}
use charge_pulse.Database.{Charger, Session, Status, online, offline, faulted, unknown}
use charge_pulse.Incidents.{Incident}
use charge_pulse.Incidents.Rules.{Numbers}
use charge_pulse.Features.{Floats, present}
use charge_pulse.Health.{UptimeRow, seven_days}
use charge_pulse.Fleet.{
  Overview, overview, is_online, is_offline, is_faulty, is_unresolved, ratio_of, uptime_of,
}

one_state :
    (c : Charger)
    → (if is_online c then 1 else 0)
        + (if is_offline c then 1 else 0)
        + (if is_faulty c then 1 else 0)
      ≤ 1
one_state c = go c.status
  where
    go :
        (s : Status)
        → (if elim s [ Status.online ↦ true | _ ↦ false ] then 1 else 0)
            + (if elim s [ Status.offline ↦ true | _ ↦ false ] then 1 else 0)
            + (if elim s [ Status.faulted ↦ true | _ ↦ false ] then 1 else 0)
          ≤ 1
    go online = omega arith
    go offline = omega arith
    go faulted = omega arith
    go unknown = omega arith

module _ {ℓ} {A : Type ℓ} where
  length-cons :
      (p : A → Bool) (x : A) (xs : List A)
      → length (select p (x ∷ xs)) ≡ (if p x then 1 else 0) + length (select p xs)
  unfolding select
  length-cons p x xs = ground arith

  select-implies :
      (p q : A → Bool) (xs : List A) → length (select (λ x. p x && q x) xs) ≤ length (select p xs)
  unfolding select
  select-implies p q [] = omega arith
  select-implies p q (x ∷ xs) = ground (arith, select-implies p q xs)

states :
    (cs : List Charger)
    → length (select is_online cs) + length (select is_offline cs) + length (select is_faulty cs)
      ≤ length cs
unfolding select
states [] = omega arith
states (c ∷ cs) = omega (
  arith,
  one_state c,
  states cs,
  length-cons is_online c cs,
  length-cons is_offline c cs,
  length-cons is_faulty c cs,
)

-- an hour with reports of faults and none of availability
abbrev pub IsDown : UptimeRow → Type 0
IsDown r = (r.available_count ≡ 0) × (1 ≤ r.faulted_count)

none_listed : 1 ≤ 0 → ⊥
none_listed h = omega (arith, h)

reported :
    (r : UptimeRow) → 1 ≤ r.faulted_count → (r.available_count + r.faulted_count == 0) ≡ false
reported r h = ground (arith, h)

module _ (nu : Numbers) (fl : Floats nu) where
  open nu use {F, decimal, equal}

  -- the quotients of numerator 0
  abbrev pub IsZero : F → Type 0
  IsZero x = (n : ℕ) × (x ≡ fl.ratio 0 n)

  down :
      (rows : List UptimeRow) → All IsDown rows → All IsZero (present (map (ratio_of nu fl) rows))
  unfolding present
  down [] h = tt
  down (r ∷ rows) h = elim (Bool-cases (r.available_count + r.faulted_count == 0)) [
    | inl e ↦ rw e (down rows h.1)
    | inr e ↦ rw e (
      (
        r.available_count + r.faulted_count,
        ap (λ a. fl.ratio a (r.available_count + r.faulted_count)) h.0.0,
      ),
      down rows h.1,
    )
  ]

  uptime_down :
      (rows : List UptimeRow)
      → ((x : F) (xs : List F)
          → All IsZero (x ∷ xs)
          → equal (fl.times (fl.mean (x ∷ xs)) (decimal 100 0)) (decimal 0 1) ≡ true)
      → All IsDown rows
      → 1 ≤ length rows
      → uptime_of nu fl rows ≡ decimal 1000 1
  unfolding uptime_of present
  uptime_down [] zero_mean h one = elim (none_listed one) [ ]
  uptime_down (r ∷ rows) zero_mean h one =
      let e : (r.available_count + r.faulted_count == 0) ≡ false = reported r h.0.1 in
      let all = down (r ∷ rows) h in
      rw e (rw (zero_mean _ (present (map (ratio_of nu fl) rows)) (rw e at all)) refl)

  -- The figures of an organisation are consistent, and its uptime hides an outage. The chargers that are
  -- online, offline and faulted are together no more than all of them, and there are no more critical incidents than open
  -- ones. But where the
  -- last seven days have a row of the view, and each such row counts faults and no availability, the uptime shown is 100.0. Floats: the mean of quotients of numerator 0, times 100, is equal to 0.0.
  pub overview_lem :
      (now org_id : ℕ) (chargers : List Charger) (scores : Dict F) (incidents : List (Incident F))
      (sessions : List Session) (rows : List UptimeRow)
      → ((x : F) (xs : List F)
          → All IsZero (x ∷ xs)
          → equal (fl.times (fl.mean (x ∷ xs)) (decimal 100 0)) (decimal 0 1) ≡ true)
      → All IsDown (select (λ r. r.org_id == org_id && leb (now - seven_days) r.bucket) rows)
      → 1 ≤ length (select (λ r. r.org_id == org_id && leb (now - seven_days) r.bucket) rows)
      → (o : Overview F) × (overview nu fl now org_id chargers scores incidents sessions rows ≡ o)
        × (o.online + o.offline + o.faulted ≤ o.total_chargers)
        × (o.critical_incidents ≤ o.open_incidents)
        × (o.avg_uptime_7d ≡ decimal 1000 1)
  unfolding overview
  overview_lem now org_id chargers scores incidents sessions rows zero_mean none_up some_row = (
    _,
    refl,
    states (select (λ c. c.org_id == org_id) chargers),
    select-implies is_unresolved (λ i. str_eq i.severity "critical")
        (select (λ i. i.org_id == org_id) incidents),
    uptime_down _ zero_mean none_up some_row,
  )
