-- ===== src/Gateway/Router/Sessions.antt =====
-- The numbering of the rows of charger_sessions, and what a stop finds by it.
use charge_pulse.Prelude.{
  ℕ, suc, ◌≤◌, ◌<◌, ◌%◌, ◌-◌, String, Bool, true, false, Option, some, none, List, [], ◌∷◌, ◌++◌,
  ◌≡◌, ◌≢◌, ◌∙◌, refl, ap, eq_iff, arith, update_where, if◌then◌else◌,
}
use charge_pulse.Database.{Session}
use charge_pulse.Gateway.Router.{World, is_open_tx, close_session, record_session_stop, tx_modulus}

-- the ids ascend from `lo`, and stay below the next one of the sequence
abbrev pub Numbered : ℕ → List Session → ℕ → Type 0
Numbered lo [] next = lo ≤ next
Numbered lo (s ∷ ss) next = (lo ≤ s.id) × Numbered (suc s.id) ss next

abbrev pub IsNumbered : World → Type 0
IsNumbered w = Numbered 0 w.db.sessions w.db.next_session_id

Numbered-le : (lo next : ℕ) (ys : List Session) → Numbered lo ys next → lo ≤ next
Numbered-le lo next [] h = h
Numbered-le lo next (y ∷ ys) h = let r = Numbered-le (suc y.id) next ys h.1 in omega arith

-- the first id is at least `lo`, and the next one is above it
Numbered-bounds :
    (lo next : ℕ) (xs : List Session) (s : Session) (ys : List Session)
    → Numbered lo (xs ++ s ∷ ys) next
    → (lo ≤ s.id) × (s.id < next)
Numbered-bounds lo next [] s ys h = (h.0, Numbered-le (suc s.id) next ys h.1)
Numbered-bounds lo next (x ∷ xs) s ys h =
    let r = Numbered-bounds (suc x.id) next xs s ys h.1 in (omega arith, r.1)

-- a new row takes the next id
pub Numbered-append :
    (lo next : ℕ) (xs : List Session) (row : Session)
    → row.id ≡ next
    → Numbered lo xs next
    → Numbered lo (xs ++ row ∷ []) (suc next)
Numbered-append lo next [] row e h = (omega arith, omega arith)
Numbered-append lo next (x ∷ xs) row e h = (h.0, Numbered-append (suc x.id) next xs row e h.1)

id_if : (b : Bool) (s x : Session) → s.id ≡ x.id → (if b then s else x).id ≡ x.id
id_if true s x e = e
id_if false s x e = refl

-- an update that leaves the ids
pub Numbered-update_where :
    (p : Session → Bool) (f : Session → Session)
    → ((s : Session) → (f s).id ≡ s.id)
    → (lo next : ℕ) (xs : List Session) → Numbered lo xs next
    → Numbered lo (update_where p f xs) next
unfolding update_where
Numbered-update_where p f keeps lo next [] h = h
Numbered-update_where p f keeps lo next (x ∷ xs) h =
    rw (id_if (p x) (f x) x (keeps x)) (h.0, Numbered-update_where p f keeps (suc x.id) next xs h.1)

misses :
    (cp_id : String) (tx : ℕ) (y : Session)
    → y.id < tx_modulus
    → y.id ≢ tx
    → is_open_tx cp_id tx y ≡ false
misses cp_id tx y lt ne = ground arith

hits :
    (cp_id : String) (s : Session)
    → s.cp_id ≡ cp_id
    → s.stopped_at ≡ none
    → s.id < tx_modulus
    → is_open_tx cp_id s.id s ≡ true
hits cp_id s of_cp open_still lt = ground (arith, eq_iff s.cp_id cp_id)

module _ (cp_id : String) (meter_stop stopped_at : ℕ) (reason : Option String) (next : ℕ)
    (fits : next ≤ tx_modulus) where
  -- rows with larger ids are not those of the transaction
  skips :
      (tx lo : ℕ) (ys : List Session)
      → tx < lo
      → Numbered lo ys next
      → update_where (is_open_tx cp_id tx) (close_session meter_stop stopped_at reason) ys ≡ ys
  unfolding update_where
  skips tx lo [] lt h = refl
  skips tx lo (y ∷ ys) lt h =
      let bound = Numbered-le (suc y.id) next ys h.1 in
      rw (misses cp_id tx y (omega arith) (omega arith))
        (ap (λ l. y ∷ l) (skips tx (suc y.id) ys (omega arith) h.1))

  finds :
      (lo : ℕ) (xs : List Session) (s : Session) (ys : List Session)
      → s.cp_id ≡ cp_id
      → s.stopped_at ≡ none
      → Numbered lo (xs ++ s ∷ ys) next
      → update_where
          (is_open_tx cp_id s.id)
          (close_session meter_stop stopped_at reason)
          (xs ++ s ∷ ys)
        ≡ xs ++ close_session meter_stop stopped_at reason s ∷ ys
  unfolding update_where
  finds lo [] s ys of_cp open_still h =
      let bound = Numbered-le (suc s.id) next ys h.1 in
      rw (hits cp_id s of_cp open_still (omega arith)) (
        ap (λ l. close_session meter_stop stopped_at reason s ∷ l)
          (skips s.id (suc s.id) ys (omega arith) h.1))
  finds lo (x ∷ xs) s ys of_cp open_still h =
      let bound = Numbered-bounds (suc x.id) next xs s ys h.1 in
      rw (misses cp_id s.id x (omega arith) (omega arith))
        (ap (λ l. x ∷ l) (finds (suc x.id) xs s ys of_cp open_still h.1))

-- Where the ids of the sessions ascend below the next one and that is at most 2^31, a stop with the
-- id of an open session of the charger closes that session and changes no other row.
pub record_session_stop-exact :
    (w : World) (xs : List Session) (s : Session) (ys : List Session) (meter_stop stopped_at : ℕ)
    (reason : Option String)
    → w.db.sessions ≡ xs ++ s ∷ ys
    → s.stopped_at ≡ none
    → IsNumbered w
    → w.db.next_session_id ≤ tx_modulus
    → (record_session_stop s.cp_id s.id meter_stop stopped_at reason w).db.sessions
      ≡ xs ++ close_session meter_stop stopped_at reason s ∷ ys
unfolding record_session_stop
record_session_stop-exact w xs s ys meter_stop stopped_at reason e open_still numbered fits =
    ap (update_where (is_open_tx s.cp_id s.id) (close_session meter_stop stopped_at reason)) e
    ∙ finds s.cp_id meter_stop stopped_at reason w.db.next_session_id fits 0 xs s ys refl open_still
        (rw e at numbered)

-- Where the ids ascend above `tx`, a stop with `tx` changes no row.
pub record_session_stop_skips :
    (w : World) (cp_id : String) (tx meter_stop stopped_at : ℕ) (reason : Option String)
    → Numbered (suc tx) w.db.sessions w.db.next_session_id
    → w.db.next_session_id ≤ tx_modulus
    → (record_session_stop cp_id tx meter_stop stopped_at reason w).db.sessions ≡ w.db.sessions
unfolding record_session_stop
record_session_stop_skips w cp_id tx meter_stop stopped_at reason numbered fits =
    skips cp_id meter_stop stopped_at reason w.db.next_session_id fits tx (suc tx) w.db.sessions
      (omega arith) numbered

-- A started session that a stop has closed.
pub record Completed (cp_id : String) (connector_id meter_start meter_stop : ℕ) (w w' : World)
    : Type 0 where
  pub session : Session
  pub of_charger : session.cp_id ≡ cp_id
  pub of_connector : session.connector_id ≡ connector_id
  pub stopped : session.meter_stop ≡ some meter_stop
  pub energy : session.energy_wh ≡ some (meter_stop - meter_start)
  pub added : w'.db.sessions ≡ w.db.sessions ++ session ∷ []

-- the row that a start inserts
unfoldable pub session_row : World → String → ℕ → ℕ → String → ℕ → ℕ → Session
session_row w cp_id org_id connector_id id_tag meter_start started_at = record {
  id = w.db.next_session_id;
  time = started_at;
  cp_id = cp_id;
  org_id = org_id;
  connector_id = connector_id;
  id_tag = id_tag;
  meter_start = meter_start;
  meter_stop = none;
  energy_wh = none;
  duration_us = none;
  stop_reason = none;
  started_at = started_at;
  stopped_at = none;
}

-- the same by the id cut to 31 bits
pub stop_by_tx :
    (w : World) (xs : List Session) (s : Session) (tx meter_stop stopped_at : ℕ)
    (reason : Option String)
    → tx ≡ s.id % tx_modulus
    → w.db.sessions ≡ xs ++ s ∷ []
    → s.stopped_at ≡ none
    → IsNumbered w
    → w.db.next_session_id ≤ tx_modulus
    → s.id < tx_modulus
    → (record_session_stop s.cp_id tx meter_stop stopped_at reason w).db.sessions
      ≡ xs ++ close_session meter_stop stopped_at reason s ∷ []
stop_by_tx w xs s tx meter_stop stopped_at reason e rows open_still numbered fits lt =
    let same : tx ≡ s.id = omega arith in
    rw same (
      record_session_stop-exact w xs s [] meter_stop stopped_at reason rows open_still numbered
        fits)
