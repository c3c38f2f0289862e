-- ===== src/Gateway/V16/Status.antt =====
-- The state of a charger in the table after a request, and the interval that a boot is told.
use charge_pulse.Prelude.{ℕ, String, Option, some, refl, ◌≡◌, ap, if◌then◌else◌}
use charge_pulse.Database.{online, faulted}
use charge_pulse.Gateway.Profiles.{
  VendorProfile, normalize_status, get_heartbeat_interval, resolve, abb,
}
use charge_pulse.Gateway.Router.{
  World, publish, update_charger, update_heartbeat, update_status, is_faulted, record_session_start,
}
use charge_pulse.Gateway.Router.Status.{HasStatus, update_where-HasStatus}
use charge_pulse.Gateway.V16.{
  ChargePoint, Request, on_meter_values, on_start_transaction, on_stop_transaction, on_authorize,
  on_data_transfer, on_diagnostics_status, on_firmware_status, boot_notification, heartbeat,
  status_notification, boot_accepted, or_int, on_boot, on_heartbeat, on_status, handle,
}
use charge_pulse.Gateway.V16.Archive.{Returns}

-- A heartbeat leaves the charger's row online, whatever its state was before: a charger that has
-- reported a fault is shown as online from its next heartbeat on.
pub heartbeat-HasStatus :
    (fromisoformat : String → Option ℕ) (clock : ℕ → ℕ) (cp : ChargePoint) (w : World)
    → Returns (handle fromisoformat heartbeat clock cp w) λ cp' w' r. HasStatus cp.id online w'
unfolding handle on_heartbeat update_heartbeat update_charger publish
heartbeat-HasStatus f clock cp w =
    update_where-HasStatus cp.id
      (λ c. record c { last_heartbeat_at = some (clock 0); status = online }) online (λ c. refl)
      (λ c. refl) w.db.chargers

-- A StatusNotification leaves the charger's row faulted if the status is "Faulted" in any case after
-- the vendor's normalisation, and online if it is anything else.
pub status-HasStatus :
    (fromisoformat : String → Option ℕ) (connector_id : ℕ) (error_code s : String)
    (info vendor_error_code : Option String) (clock : ℕ → ℕ) (cp : ChargePoint) (w : World)
    → Returns
        (handle fromisoformat
          (status_notification connector_id error_code s info vendor_error_code)
          clock
          cp
          w)
        λ cp' w' r.
          HasStatus cp.id
            (if is_faulted (normalize_status cp.vendor_profile s) then faulted else online)
            w'
unfolding handle on_status update_status update_charger publish
status-HasStatus f connector_id error_code s info vendor_error_code clock cp w =
    update_where-HasStatus cp.id _ _ (λ c. refl) (λ c. refl) w.db.chargers

interval : (p : VendorProfile) (n : ℕ) → or_int (get_heartbeat_interval p) n ≡ 60
unfolding get_heartbeat_interval
interval abb n = refl
interval _ n = refl

-- A boot is answered with an interval of 60 seconds for every vendor, whatever interval the gateway is
-- configured with.
pub boot_interval :
    (fromisoformat : String → Option ℕ) (vendor model : String) (firmware serial : Option String)
    (clock : ℕ → ℕ) (cp : ChargePoint) (w : World)
    → Returns
        (handle fromisoformat (boot_notification vendor model firmware serial) clock cp w)
        λ cp' w' r. (r ≡ boot_accepted (clock 1) 60) × (cp'.vendor_profile ≡ resolve (some vendor))
unfolding handle on_boot
boot_interval f vendor model firmware serial clock cp w = (
  ap (λ n. boot_accepted (clock 1) n) (interval (resolve (some vendor)) cp.heartbeat_interval),
  refl,
)

abbrev pub heard : Request → ℕ → ℕ → ℕ
heard heartbeat now last = now
heard _ now last = last

-- Only a Heartbeat counts as a sign of life for the watchdog: every other request, a boot included,
-- leaves the time of the last heartbeat, and a Heartbeat sets it to the time of its arrival.
pub handle-last_heartbeat :
    (fromisoformat : String → Option ℕ) (req : Request) (clock : ℕ → ℕ) (cp : ChargePoint)
    (w : World)
    → Returns
        (handle fromisoformat req clock cp w)
        λ cp' w' r. cp'.last_heartbeat ≡ heard req (clock 0) cp.last_heartbeat
unfolding handle on_boot on_heartbeat on_status on_meter_values on_start_transaction
    on_stop_transaction on_authorize on_data_transfer on_diagnostics_status on_firmware_status
    record_session_start
handle-last_heartbeat f heartbeat clock cp w = refl
handle-last_heartbeat f _ clock cp w = refl
