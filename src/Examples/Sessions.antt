-- ===== src/Examples/Sessions.antt =====
-- Requests of OCPP 1.6 and 2.0.1.
use charge_pulse.Prelude.{ℕ, none, some, List, [], ◌∷◌, ◌≡◌, refl, arith, inl}
use charge_pulse.Database.Events.{EventType}
use charge_pulse.Gateway.Router.{record_session_stop, close_session}
use charge_pulse.Gateway.Router.Archive.{IsArchived}
use charge_pulse.Gateway.Router.Frame.{SameRows}
use charge_pulse.Gateway.Router.Sessions.{Completed, record_session_stop-exact}
use charge_pulse.Gateway.Router.Streams.{added_to, HoldsNewest}
use charge_pulse.Gateway.V16.{
  Request, handle, boot_notification, heartbeat, start_transaction, stop_transaction,
  transaction_accepted, stop_accepted,
}
use charge_pulse.Gateway.V16.Archive.{Returns, HasInts, serve, event_types, serve_records}
use charge_pulse.Gateway.V16.Frame.{handle-SameRows}
use charge_pulse.Gateway.V16.Sessions.{start_stop}
use charge_pulse.Examples.{iso, clock, session, w, cp, differ}

abbrev start : Request
start = start_transaction 2 "tag" 500 "2026-01-05T10:00:00Z"

start_stop_example : Returns (handle iso start clock cp w) λ cp' w' r.
    (tx : ℕ) × (r ≡ transaction_accepted tx)
    × Returns
        (handle iso (stop_transaction 900 "2026-01-05T11:00:00Z" tx (some "Local")) clock cp' w')
        λ cp'' w'' r'. (r' ≡ stop_accepted) × Completed "CP-1" 2 500 900 w w''
start_stop_example =
    start_stop iso 2 500 900 "tag" "2026-01-05T10:00:00Z" "2026-01-05T11:00:00Z" (some "Local")
      clock clock cp w (omega arith, (omega arith, omega arith)) (omega arith)

abbrev requests : List (Request × (ℕ → ℕ))
requests =
    (boot_notification "Delta" "M" none none, clock) ∷ (heartbeat, clock) ∷ (start, clock) ∷ []

serve_records_example :
    IsArchived (serve iso requests (cp, w)).1
    × HasInts (serve iso requests (cp, w)).1
    × (event_types (serve iso requests (cp, w)).1
        ≡ EventType.boot ∷ EventType.heartbeat ∷ EventType.tx_start ∷ [])
    × HoldsNewest "stream:ocpp:CP-1"
        (serve iso requests (cp, w)).1
        (added_to "stream:ocpp:CP-1" (serve iso requests (cp, w)).1)
serve_records_example =
    serve_records iso requests (cp, w) "stream:ocpp:CP-1"
      (added_to "stream:ocpp:CP-1" (serve iso requests (cp, w)).1) refl tt
      ((tt, tt), ((tt, tt), ((omega arith, omega arith), tt))) ([], refl, inl refl)

handle-SameRows_example :
    Returns
      (handle iso start clock cp w)
      λ cp' w' r. SameRows "CP-2" w w' × (cp'.id ≡ "CP-1") × (cp'.org_id ≡ 1)
handle-SameRows_example = handle-SameRows iso start clock cp w "CP-2" (differ "CP-1" "CP-2" refl)

record_session_stop-exact_example :
    (record_session_stop "CP-1" 4 900 4600000000 none w).db.sessions
    ≡ session 1 "CP-2" ∷ close_session 900 4600000000 none (session 4 "CP-1") ∷ []
record_session_stop-exact_example =
    record_session_stop-exact w (session 1 "CP-2" ∷ []) (session 4 "CP-1") [] 900 4600000000 none
      refl refl (omega arith, (omega arith, omega arith)) (omega arith)
