-- ===== src/Gateway/Router/Status.antt =====
-- The status column of a charger after an update.
use charge_pulse.Prelude.{
  String, List, [], ◌∷◌, ◌≡◌, refl, update_where, select, Bool-cases, inl, inr, All,
}
use charge_pulse.Database.{Charger, Status, offline}
use charge_pulse.Gateway.Router.{World, is_charger, mark_offline}

-- the rows of the charger have the state
abbrev pub HasStatus : String → Status → World → Type 0
HasStatus cp_id s w = All (λ c. c.status ≡ s) (select (is_charger cp_id) w.db.chargers)

pub update_where-HasStatus :
    (cp_id : String) (f : Charger → Charger) (s : Status)
    → ((c : Charger) → (f c).status ≡ s)
    → ((c : Charger) → (f c).cp_id ≡ c.cp_id)
    → (cs : List Charger)
    → All (λ c. c.status ≡ s) (select (is_charger cp_id) (update_where (is_charger cp_id) f cs))
unfolding update_where select
update_where-HasStatus cp_id f s h k [] = tt
update_where-HasStatus cp_id f s h k (c ∷ cs) = elim (Bool-cases (is_charger cp_id c)) [
  | inl e ↦ rw e (rw (k c) (rw e (h c, update_where-HasStatus cp_id f s h k cs)))
  | inr e ↦ rw e (rw e (update_where-HasStatus cp_id f s h k cs))
]

pub mark_offline-HasStatus :
    (cp_id : String) (w : World) → HasStatus cp_id offline (mark_offline cp_id w)
unfolding mark_offline
mark_offline-HasStatus cp_id w =
    update_where-HasStatus cp_id (λ c. record c { status = offline }) offline (λ c. refl)
      (λ c. refl) w.db.chargers
