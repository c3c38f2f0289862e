-- ===== src/Features/Inputs.antt =====
-- What `extract` of backend/ml/features.py reads from the events and the sessions, and the operations on
-- floats that it makes features with.
use charge_pulse.Prelude.{
  ℕ, ◌+◌, ◌-◌, ◌/◌, ◌%◌, max, leb, ℤ, String, Bool, true, false, Option, none, some, List, [], ◌∷◌,
  ◌&&◌, not, any, select, map, lookup, insert, Dict, truthy, get_or, str_eq, if◌then◌else◌,
}
use charge_pulse.Database.{Session, OcppEvent}
use charge_pulse.Database.Events.{EventType, text, Payload}
use charge_pulse.Incidents.Rules.{Numbers}

-- The float operations of the interpreter and of numpy: `ratio a b` is a / b, `minutes` and `kwh` read a duration in
-- microseconds and an energy in watt-hours, `parse` is `float(…)` of a JSON value, `none` where it raises, and
-- `sine a b` is sin(2π · a / b).
pub record Floats (nu : Numbers) : Type 0 where
  pub ratio : ℕ → ℕ → nu.F
  pub plus : nu.F → nu.F → nu.F
  pub minus : nu.F → nu.F → nu.F
  pub times : nu.F → nu.F → nu.F
  pub divide : nu.F → nu.F → nu.F
  pub minutes : ℤ → nu.F
  pub kwh : ℕ → nu.F
  pub parse : String → Option nu.F
  pub mean : List nu.F → nu.F
  pub std : List nu.F → nu.F
  pub maximum : List nu.F → nu.F
  pub minimum : List nu.F → nu.F
  pub sine : ℕ → ℕ → nu.F

abbrev pub is_meter : OcppEvent → Bool
is_meter e = elim e.event_type [ EventType.meter ↦ true | _ ↦ false ]

abbrev pub is_status : OcppEvent → Bool
is_status e = elim e.event_type [ EventType.status ↦ true | _ ↦ false ]

abbrev pub is_heartbeat : OcppEvent → Bool
is_heartbeat e = elim e.event_type [ EventType.heartbeat ↦ true | _ ↦ false ]

-- ("disconnect", "boot")
abbrev pub is_reconnect : OcppEvent → Bool
is_reconnect e = elim e.event_type [
  | EventType.disconnect ↦ true
  | EventType.boot ↦ true
  | _ ↦ false
]

-- `sorted` by the time, which is stable
unfoldable pub insert_event : OcppEvent → List OcppEvent → List OcppEvent
insert_event e [] = e ∷ []
insert_event e (x ∷ xs) = if leb e.time x.time then e ∷ x ∷ xs else x ∷ insert_event e xs

unfoldable pub sort_events : List OcppEvent → List OcppEvent
unfolding insert_event
sort_events [] = []
sort_events (e ∷ es) = insert_event e (sort_events es)

-- `p.get(key, default)`, where the handlers write texts only
unfoldable pub text_at : String → String → Payload → String
unfolding lookup
text_at key default p = elim (lookup key p) [ some (text s) ↦ s | _ ↦ default ]

-- sessions

abbrev pub is_completed : Session → Bool
is_completed s = elim s.stop_reason [ none ↦ false | some r ↦ str_eq r "EVDisconnected" ]

abbrev pub is_failed : Session → Bool
is_failed s = elim (truthy s.stop_reason) [
  | none ↦ false
  | some r ↦ not (str_eq r "EVDisconnected")
]

-- the values that are there
unfoldable pub present {ℓ} : {A : Type ℓ} → List (Option A) → List A
present [] = []
present (none ∷ rest) = present rest
present (some a ∷ rest) = a ∷ present rest

-- status

-- `durations_by_status`
abbrev pub add_time : String → ℕ → Dict ℕ → Dict ℕ
add_time status n d = insert status (get_or (lookup status d) 0 + n) d

abbrev pub time_in : String → Dict ℕ → ℕ
time_in status d = get_or (lookup status d) 0

abbrev pub status_after : String → OcppEvent → String
status_after last_status e = text_at "status" last_status e.payload

-- the loop over the sorted events, and the last span. The events lie in the window, so no difference is negative.
unfoldable pub durations_by_status : ℕ → ℕ → String → List OcppEvent → Dict ℕ → Dict ℕ
unfolding lookup insert text_at
durations_by_status window_end last_t last_status [] d =
    add_time last_status (window_end - last_t) d
durations_by_status window_end last_t last_status (e ∷ es) d =
    durations_by_status window_end e.time (status_after last_status e) es
      (add_time last_status (e.time - last_t) d)

-- the durations of a window's status events
abbrev pub durations_of : ℕ → ℕ → List OcppEvent → Dict ℕ
durations_of window_start window_end status_events =
    durations_by_status window_end window_start "Available" (sort_events status_events) []

-- `ec and ec != "NoError"`
abbrev pub is_error : String → Bool
is_error ec = not (str_eq ec "") && not (str_eq ec "NoError")

unfoldable pub error_codes : List OcppEvent → List String
unfolding text_at select
error_codes es = select is_error (map (λ e. text_at "error_code" "NoError" e.payload) es)

-- `set`, as a list without repetitions
unfoldable pub distinct : List String → List String
unfolding any
distinct [] = []
distinct (s ∷ ss) = let rest = distinct ss in if any (str_eq s) ss then rest else s ∷ rest

-- heartbeats

unfoldable pub gaps : List OcppEvent → List ℕ
gaps [] = []
gaps (e ∷ []) = []
gaps (e ∷ f ∷ es) = (f.time - e.time) ∷ gaps (f ∷ es)

unfoldable pub max_of : List ℕ → ℕ
max_of [] = 0
max_of (n ∷ ns) = max n (max_of ns)

-- the midpoint's hour, and its weekday with Monday as 0
unfoldable pub hour_of : ℕ → ℕ
hour_of t = t / 3600000000 % 24

unfoldable pub weekday_of : ℕ → ℕ
weekday_of t = (t / 86400000000 + 3) % 7

pub record Samples (F : Type 0) : Type 0 where
  pub powers : List F
  pub voltages : List F
  pub currents : List F
