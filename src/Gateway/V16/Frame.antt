-- ===== src/Gateway/V16/Frame.antt =====
-- A request of one OCPP 1.6 charger and the rows of another.
use charge_pulse.Prelude.{ℕ, String, Option, refl, ◌≡◌, ◌≢◌}
use charge_pulse.Gateway.Router.{
  World, upsert_charger_on_boot, update_heartbeat, update_status, record_session_start,
}
use charge_pulse.Gateway.Router.Frame.{
  SameRows, SameRows-trans, update_charger-SameRows, publish-SameRows, record_session_stop-SameRows,
  record_session_start-SameRows,
}
use charge_pulse.Gateway.V16.{
  ChargePoint, Request, boot_notification, heartbeat, status_notification, start_transaction,
  stop_transaction, on_boot, on_heartbeat, on_status, on_meter_values, on_start_transaction,
  on_stop_transaction, on_authorize, on_data_transfer, on_diagnostics_status, on_firmware_status,
  handle,
}
use charge_pulse.Gateway.V16.Archive.{Returns}

-- A request leaves the rows of every other charger as they were, in the tables of chargers, sessions
-- and events, and it leaves the connection's charger and organisation.
pub handle-SameRows :
    (fromisoformat : String → Option ℕ) (req : Request) (clock : ℕ → ℕ) (cp : ChargePoint)
    (w : World) (j : String)
    → cp.id ≢ j
    → Returns
        (handle fromisoformat req clock cp w)
        λ cp' w' r. SameRows j w w' × (cp'.id ≡ cp.id) × (cp'.org_id ≡ cp.org_id)
unfolding handle on_boot on_heartbeat on_status on_meter_values on_start_transaction
    on_stop_transaction on_authorize on_data_transfer on_diagnostics_status on_firmware_status
    upsert_charger_on_boot update_heartbeat update_status record_session_start
handle-SameRows f (boot_notification vendor model firmware serial) clock cp w j ne = (
  SameRows-trans (update_charger-SameRows cp.id j _ w (λ c. refl) ne)
      (publish-SameRows cp.id j _ _ _ _ _ _ _ _ ne),
  refl,
  refl,
)
handle-SameRows f heartbeat clock cp w j ne = (
  SameRows-trans (update_charger-SameRows cp.id j _ w (λ c. refl) ne)
      (publish-SameRows cp.id j _ _ _ _ _ _ _ _ ne),
  refl,
  refl,
)
handle-SameRows f (status_notification connector_id error_code s info vendor_error_code) clock cp w
      j ne =
    (
      SameRows-trans (update_charger-SameRows cp.id j _ w (λ c. refl) ne)
          (publish-SameRows cp.id j _ _ _ _ _ _ _ _ ne),
      refl,
      refl,
    )
handle-SameRows f (start_transaction connector_id id_tag meter_start timestamp) clock cp w j ne = (
  SameRows-trans (record_session_start-SameRows cp.id j _ _ _ _ _ w ne refl)
      (publish-SameRows cp.id j _ _ _ _ _ _ _ _ ne),
  refl,
  refl,
)
handle-SameRows f (stop_transaction meter_stop timestamp transaction_id reason) clock cp w j ne = (
  SameRows-trans (record_session_stop-SameRows cp.id j _ _ _ _ w ne)
      (publish-SameRows cp.id j _ _ _ _ _ _ _ _ ne),
  refl,
  refl,
)
handle-SameRows f _ clock cp w j ne = (publish-SameRows cp.id j _ _ _ _ _ _ _ _ ne, refl, refl)
