-- ===== src/Gateway/Watchdog.antt =====
-- `HeartbeatWatchdog`: backend/gateway/heartbeat_watchdog.py. A scan goes over a copy of the dict of
-- connections, given by the handler object of each entry. Its waits are not interleaved with other
-- tasks here. Times are in microseconds.
pub mod Scan
use charge_pulse.Prelude.{
  ℕ, ◌-◌, ◌*◌, ltb, leb, String, Bool, true, false, List, [], ◌∷◌, ◌&&◌, not, any, select, str_eq,
  if◌then◌else◌, none, some,
}
use charge_pulse.Database.Events.{EventType, Payload, text, int}
use charge_pulse.Gateway.Router.{World, publish, mark_offline}
use charge_pulse.Gateway.Server.{Handler}

-- `timeout` in seconds, and the set `_stale_marked`
pub record Watchdog : Type 0 where
  pub timeout : ℕ
  pub stale_marked : List String

unfoldable pub is_marked : String → List String → Bool
unfolding any
is_marked cp_id marked = any (λ m. str_eq m cp_id) marked

-- set.add and set.discard
unfoldable pub mark : String → List String → List String
unfolding is_marked
mark cp_id marked = if is_marked cp_id marked then marked else cp_id ∷ marked

unfoldable pub discard : String → List String → List String
unfolding select
discard cp_id marked = select (λ m. not (str_eq m cp_id)) marked

-- a clock that went back makes a negative age, which is in time as 0 is
unfoldable pub age_of : ℕ → Handler → ℕ
age_of now cp = now - cp.last_heartbeat

unfoldable pub is_silent : ℕ → ℕ → Handler → Bool
unfolding age_of
is_silent timeout now cp = ltb (timeout * 1000000) (age_of now cp)

-- The age is kept in microseconds in the payload.
unfoldable pub report : ℕ → String → Handler → World → World
unfolding age_of
report now cp_id cp w =
    let payload : Payload =
      ("reason", text "heartbeat_timeout") ∷ ("silent_for_sec", int (age_of now cp)) ∷ [] in
    publish cp_id cp.org_id EventType.disconnect payload none none (some now) now
      (mark_offline cp_id w)

-- the body of the loop
unfoldable pub scan_one : ℕ → ℕ → String → Handler → List String × World → List String × World
unfolding is_silent
scan_one timeout now cp_id cp (marked, w) =
    let silent = is_silent timeout now cp in
    if silent && not (is_marked cp_id marked)
    then (mark cp_id marked, report now cp_id cp w)
    else if not silent && is_marked cp_id marked
    then (discard cp_id marked, w)
    else (marked, w)

unfoldable pub scan_items :
    ℕ → ℕ → List (String × Handler) → List String × World → List String × World
scan_items timeout now [] s = s
scan_items timeout now ((cp_id, cp) ∷ rest) s =
    scan_items timeout now rest (scan_one timeout now cp_id cp s)

-- `_scan`
unfoldable pub scan : ℕ → List (String × Handler) → Watchdog → World → Watchdog × World
unfolding scan_items
scan now items d w =
    let (marked, w') = scan_items d.timeout now items (d.stale_marked, w) in
    (record d { stale_marked = marked }, w')

-- `forget`, which no code calls
unfoldable pub forget : String → Watchdog → Watchdog
forget cp_id d = record d { stale_marked = discard cp_id d.stale_marked }
