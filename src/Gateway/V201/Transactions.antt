-- ===== src/Gateway/V201/Transactions.antt =====
-- Transactions of OCPP 2.0.1: the map from the charger's transaction ids to the sessions.
use charge_pulse.Prelude.{
  ℕ, ◌<◌, ◌≤◌, String, Option, some, none, refl, ◌≡◌, get_or, arith, ◌∙◌, lookup, insert, remove,
  lookup-insert, Dict, lookup-remove, eq_refl,
}
use charge_pulse.Prelude.Result.{ok, err, not_null_violation}
use charge_pulse.Gateway.Router.{World, publish, record_session_start, close_session, tx_modulus}
use charge_pulse.Gateway.Timestamps.{parse_ts}
use charge_pulse.Gateway.Router.Sessions.{
  Numbered, IsNumbered, Numbered-append, Completed, session_row, stop_by_tx,
  record_session_stop_skips,
}
use charge_pulse.Gateway.V201.Energy.{Floats}
use charge_pulse.Gateway.V201.{
  ChargePoint, TransactionEvent, Response, Outcome, connector_of, energy_int, on_started, on_ended,
  on_transaction_event,
}

-- the handler returns, and what it returns has the property
abbrev pub Returns : Outcome → (ChargePoint → World → Response → Type 0) → Type 0
Returns (ok (cp, w, r)) P = P cp w r
Returns (err e) P = ⊥

-- the key of an event in the map
abbrev pub tx_of : TransactionEvent → String
tx_of ev = get_or ev.transaction_id ""

found_tx : (k j : String) (n : ℕ) (d : Dict ℕ) → j ≡ k → get_or (lookup j (insert k n d)) 0 ≡ n
found_tx k j n d e = rw e (rw lookup-insert (rw (eq_refl k) refl))

forgotten_tx : (j : String) (d : Dict ℕ) → lookup j (remove j d) ≡ none
forgotten_tx j d = rw lookup-remove (rw (eq_refl j) refl)

module _ (fl : Floats) (f : String → Option ℕ) (ev : TransactionEvent) (clock : ℕ → ℕ)
    (cp : ChargePoint) (w : World) where
  ts_of : ℕ
  ts_of = get_or (parse_ts f (some ev.timestamp)) (clock 0)

  is_started :
      ev.event_type ≡ "Started"
      → on_transaction_event fl f ev clock cp w ≡ on_started fl ev ts_of clock cp w
  unfolding on_transaction_event ts_of
  is_started kind = rw kind refl

  is_ended :
      ev.event_type ≡ "Ended"
      → on_transaction_event fl f ev clock cp w ≡ on_ended fl ev ts_of clock cp w
  unfolding on_transaction_event ts_of
  is_ended kind = rw kind refl

module _ (fl : Floats) where
  -- An Ended event for a transaction that this connection has not seen Started, while the session ids
  -- ascend from 1 and the next one is at most 2^31, is acknowledged, and no session changes. So a
  -- session that was started before the charger reconnected is never closed.
  pub ended_unknown :
      (fromisoformat : String → Option ℕ) (ev : TransactionEvent) (clock : ℕ → ℕ) (cp : ChargePoint)
      (w : World)
      → ev.event_type ≡ "Ended"
      → lookup (tx_of ev) cp.tx_map ≡ none
      → Numbered 1 w.db.sessions w.db.next_session_id
      → w.db.next_session_id ≤ tx_modulus
      → Returns
          (on_transaction_event fl fromisoformat ev clock cp w)
          λ cp' w' r. w'.db.sessions ≡ w.db.sessions
  unfolding on_ended publish
  ended_unknown f ev clock cp w kind unknown numbered fits =
      rw (is_ended fl f ev clock cp w kind)
        (rw unknown (record_session_stop_skips w cp.id 0 _ _ _ numbered fits))

  -- A Started event whose `evse` names no connector raises, so the session is not recorded.
  pub started_without_connector :
      (fromisoformat : String → Option ℕ) (ev : TransactionEvent) (clock : ℕ → ℕ) (cp : ChargePoint)
      (w : World)
      → ev.event_type ≡ "Started"
      → ev.evse ≡ some none
      → on_transaction_event fl fromisoformat ev clock cp w ≡ err not_null_violation
  unfolding on_started record_session_start
  started_without_connector f ev clock cp w kind no_connector =
      is_started fl f ev clock cp w kind ∙ rw no_connector refl

  -- Where the session ids ascend and are below 2^31, the next one included: a Started event that names
  -- a connector, followed on the same connection by an Ended event with the same transaction id, at
  -- any time, leaves one more session than before, of this charger and connector, stopped at the first
  -- energy reading of the second event and with the energy between the two readings, 0 if the meter
  -- went back. No other session has changed, and the connection has forgotten the transaction.
  pub started_ended :
      (fromisoformat : String → Option ℕ) (ev ev' : TransactionEvent) (connector_id : ℕ)
      (clock clock' : ℕ → ℕ) (cp : ChargePoint) (w : World)
      → ev.event_type ≡ "Started"
      → ev'.event_type ≡ "Ended"
      → tx_of ev' ≡ tx_of ev
      → connector_of ev ≡ some connector_id
      → IsNumbered w
      → w.db.next_session_id < tx_modulus
      → Returns (on_transaction_event fl fromisoformat ev clock cp w) λ cp' w' r.
        Returns (on_transaction_event fl fromisoformat ev' clock' cp' w') λ cp'' w'' r'.
          Completed cp.id connector_id
            (energy_int fl ev.meter_value)
            (energy_int fl ev'.meter_value)
            w
            w''
          × (lookup (tx_of ev') cp''.tx_map ≡ none)
  unfolding on_started on_ended publish record_session_start close_session session_row
  started_ended f ev ev' connector_id clock clock' cp w kind kind' same_tx names numbered fits =
      rw (is_started fl f ev clock cp w kind) (
        rw (names, Returns)
          (rw (is_ended fl f ev' clock' _ _ kind', Returns)
            (
              record {
                session = close_session (energy_int fl ev'.meter_value) _ _ (
                    session_row w cp.id cp.org_id connector_id (get_or ev.id_token "anon")
                      (energy_int fl ev.meter_value) (ts_of fl f ev clock cp w));
                of_charger = refl;
                of_connector = refl;
                stopped = refl;
                energy = refl;
                added =
                    stop_by_tx _ w.db.sessions _ _ _ _ _
                      (found_tx (tx_of ev) (tx_of ev') _ cp.tx_map same_tx) refl refl
                      (Numbered-append 0 w.db.next_session_id w.db.sessions _ refl numbered)
                      (omega arith) (omega arith);
              },
              forgotten_tx (tx_of ev') _,
            )))
