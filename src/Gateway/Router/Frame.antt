-- ===== src/Gateway/Router/Frame.antt =====
-- What a method for one charger leaves as it was: the rows of every other charger.
use charge_pulse.Prelude.{
  ℕ, String, Bool, true, false, Option, some, List, [], ◌∷◌, ◌++◌, ◌≡◌, refl, ◌∙◌, ap, arith,
  select, update_where, select-append, str_eq, eq_iff, eq_refl, if◌then◌else◌, Bool-cases, inl, inr,
  ◌≢◌,
}
use mathlib.Core.Path.{subst}
use mathlib.Core.List.{append-nil}
use charge_pulse.Prelude.Result.{Result, ok}
use charge_pulse.Database.{Charger, Session, OcppEvent}
use charge_pulse.Database.Events.{EventType, Payload}
use charge_pulse.Gateway.Router.{
  World, publish, record_session_stop, close_session, record_session_start, is_charger,
  update_charger, is_open_tx,
}

abbrev pub is_session_of : String → Session → Bool
is_session_of j s = str_eq s.cp_id j

abbrev pub is_event_of : String → OcppEvent → Bool
is_event_of j e = str_eq e.cp_id j

-- the rows of charger `j` are the same in both worlds
pub record SameRows (j : String) (w w' : World) : Type 0 where
  pub chargers : select (is_charger j) w'.db.chargers ≡ select (is_charger j) w.db.chargers
  pub sessions : select (is_session_of j) w'.db.sessions ≡ select (is_session_of j) w.db.sessions
  pub events : select (is_event_of j) w'.db.ocpp_events ≡ select (is_event_of j) w.db.ocpp_events

pub SameRows-trans : {j : String} {u v w : World} → SameRows j u v → SameRows j v w → SameRows j u w
SameRows-trans a b = record {
  chargers = b.chargers ∙ a.chargers;
  sessions = b.sessions ∙ a.sessions;
  events = b.events ∙ a.events;
}

-- An update of rows that the selection does not take, where it takes none of the results either.
module _ {ℓ} {A : Type ℓ} where
  pub select-update_where :
      (p q : A → Bool) (f : A → A)
      → ((x : A) → q x ≡ true → (p x ≡ false) × (p (f x) ≡ false))
      → (xs : List A) → select p (update_where q f xs) ≡ select p xs
  unfolding select update_where
  select-update_where p q f h [] = refl
  select-update_where p q f h (x ∷ xs) = elim (Bool-cases (q x)) [
    | inl e ↦ rw e (rw ((h x e).0, (h x e).1) (select-update_where p q f h xs))
    | inr e ↦ rw e (ap (λ r. if p x then x ∷ r else r) (select-update_where p q f h xs))
  ]

  pub select_none :
      (p : A → Bool) (xs : List A) (x : A) → p x ≡ false → select p (xs ++ x ∷ []) ≡ select p xs
  unfolding select
  select_none p xs x h = select-append p xs (x ∷ []) ∙ rw h (append-nil _)

-- two ids that differ
pub other : (s i j : String) → i ≢ j → str_eq s i ≡ true → str_eq s j ≡ false
other s i j ne e = ground (arith, eq_iff s i, eq_iff s j, ne)

pub update_charger-SameRows :
    (i j : String) (f : Charger → Charger) (w : World)
    → ((c : Charger) → (f c).cp_id ≡ c.cp_id)
    → i ≢ j
    → SameRows j w (update_charger i f w)
unfolding update_charger
update_charger-SameRows i j f w keeps ne = record {
  chargers =
      select-update_where (is_charger j) (is_charger i) f
        (λ c e. (other c.cp_id i j ne e, rw (keeps c) (other c.cp_id i j ne e))) w.db.chargers;
  sessions = refl;
  events = refl;
}

-- what `publish` for `i` leaves of `j`
pub publish-SameRows :
    (i j : String) (org_id : ℕ) (t : EventType) (payload : Payload) (connector_id : Option ℕ)
    (raw_frame : Option Payload) (ts : Option ℕ) (now : ℕ) (w : World)
    → i ≢ j
    → SameRows j w (publish i org_id t payload connector_id raw_frame ts now w)
unfolding publish
publish-SameRows i j org_id t payload connector_id raw_frame ts now w ne = record {
  chargers = refl;
  sessions = refl;
  events = select_none (is_event_of j) w.db.ocpp_events _ (other i i j ne (eq_refl i));
}

pub record_session_stop-SameRows :
    (i j : String) (transaction_id meter_stop stopped_at : ℕ) (reason : Option String) (w : World)
    → i ≢ j
    → SameRows j w (record_session_stop i transaction_id meter_stop stopped_at reason w)
unfolding record_session_stop
record_session_stop-SameRows i j transaction_id meter_stop stopped_at reason w ne = record {
  chargers = refl;
  sessions =
      select-update_where (is_session_of j) (is_open_tx i transaction_id)
        (close_session meter_stop stopped_at reason)
        (λ s e. let d = other s.cp_id i j ne (ground arith) in (d, d)) w.db.sessions;
  events = refl;
}

ok_world : {u v : World} {m n : ℕ} → ◌≡◌ {A = Result (World × ℕ)} (ok (u, m)) (ok (v, n)) → u ≡ v
ok_world e = cc

-- the world after a session of charger `i` has been started
pub record_session_start-SameRows :
    (i j : String) (org_id connector_id : ℕ) (id_tag : String) (meter_start started_at : ℕ)
    (w : World) {w' : World} {tx_id : ℕ}
    → i ≢ j
    → record_session_start i org_id (some connector_id) id_tag meter_start started_at w
      ≡ ok (w', tx_id)
    → SameRows j w w'
unfolding record_session_start
record_session_start-SameRows i j org_id connector_id id_tag meter_start started_at w ne e =
    subst (SameRows j w) (ok_world e) (record {
      chargers =
          (update_charger-SameRows i j (λ c. record c { last_session_at = some started_at }) w
            (λ c. refl) ne).chargers;
      sessions = select_none (is_session_of j) w.db.sessions _ (other i i j ne (eq_refl i));
      events = refl;
    })
