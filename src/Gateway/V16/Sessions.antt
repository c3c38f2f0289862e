-- ===== src/Gateway/V16/Sessions.antt =====
-- Transactions of OCPP 1.6: StartTransaction and StopTransaction.
use charge_pulse.Prelude.{ℕ, ◌<◌, ◌%◌, String, Option, some, refl, ◌≡◌, get_or, arith}
use charge_pulse.Gateway.Timestamps.{parse_ts}
use charge_pulse.Gateway.Router.{
  World, publish, upsert_charger_on_boot, update_heartbeat, update_status, record_session_start,
  record_session_stop, close_session, tx_modulus, is_open_tx,
}
use charge_pulse.Gateway.Router.Sessions.{
  IsNumbered, Numbered-append, Numbered-update_where, Completed, session_row, stop_by_tx,
}
use charge_pulse.Gateway.V16.{
  ChargePoint, Request, start_transaction, stop_transaction, on_boot, on_heartbeat, on_status,
  on_meter_values, on_start_transaction, on_stop_transaction, on_authorize, on_data_transfer,
  on_diagnostics_status, on_firmware_status, handle, transaction_accepted, stop_accepted,
}
use charge_pulse.Gateway.V16.Archive.{Returns}

-- Every request keeps the session ids ascending and below the next one.
pub handle-IsNumbered :
    (fromisoformat : String → Option ℕ) (req : Request) (clock : ℕ → ℕ) (cp : ChargePoint)
    (w : World)
    → IsNumbered w
    → Returns (handle fromisoformat req clock cp w) λ cp' w' r. IsNumbered w'
unfolding handle on_boot on_heartbeat on_status on_meter_values on_start_transaction
    on_stop_transaction on_authorize on_data_transfer on_diagnostics_status on_firmware_status
    publish upsert_charger_on_boot update_heartbeat update_status record_session_start
    record_session_stop
handle-IsNumbered f (start_transaction connector_id id_tag meter_start timestamp) clock cp w h =
    Numbered-append 0 w.db.next_session_id w.db.sessions _ refl h
handle-IsNumbered f (stop_transaction meter_stop timestamp transaction_id reason) clock cp w h =
    Numbered-update_where (is_open_tx cp.id transaction_id) _ (λ s. refl) 0 w.db.next_session_id
      w.db.sessions h
handle-IsNumbered f _ clock cp w h = h

-- Where the ids of the sessions ascend and are below 2^31, the next one included: a StartTransaction
-- is accepted with a transaction id, and a StopTransaction with that id, at any time and with any
-- reason, is accepted and leaves one more session than before, of this charger and connector, stopped
-- at the reading given and with the energy between the two readings, 0 if the meter went back. No
-- other session has changed.
pub start_stop :
    (fromisoformat : String → Option ℕ) (connector_id meter_start meter_stop : ℕ)
    (id_tag started stopped : String) (reason : Option String) (clock clock' : ℕ → ℕ)
    (cp : ChargePoint) (w : World)
    → IsNumbered w
    → w.db.next_session_id < tx_modulus
    → Returns
        (handle fromisoformat
          (start_transaction connector_id id_tag meter_start started)
          clock
          cp
          w)
        λ cp' w' r.
          (tx : ℕ) × (r ≡ transaction_accepted tx)
          × Returns
              (handle fromisoformat (stop_transaction meter_stop stopped tx reason) clock' cp' w')
              λ cp'' w'' r'.
                (r' ≡ stop_accepted) × Completed cp.id connector_id meter_start meter_stop w w''
unfolding handle on_start_transaction on_stop_transaction publish record_session_start close_session
    session_row
start_stop f connector_id meter_start meter_stop id_tag started stopped reason clock clock' cp w
      numbered fits =
    let started_at = get_or (parse_ts f (some started)) (clock 0) in
    let stopped_at = get_or (parse_ts f (some stopped)) (clock' 0) in
    let row = session_row w cp.id cp.org_id connector_id id_tag meter_start started_at in
    (
      w.db.next_session_id % tx_modulus,
      refl,
      (
        refl,
        record {
          session = close_session meter_stop stopped_at (some (get_or reason "Unknown")) row;
          of_charger = refl;
          of_connector = refl;
          stopped = refl;
          energy = refl;
          added =
              stop_by_tx _ w.db.sessions row _ _ _ _ refl refl refl
                (Numbered-append 0 w.db.next_session_id w.db.sessions row refl numbered)
                (omega arith) (omega arith);
        },
      ),
    )
