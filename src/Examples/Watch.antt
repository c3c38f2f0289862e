-- ===== src/Examples/Watch.antt =====
-- The watchdog, commands and vendor profiles.
use charge_pulse.Prelude.{
  String, false, Option, none, some, List, [], ◌∷◌, ◌≡◌, refl, lookup, inl, inr, if◌then◌else◌,
  str_eq,
}
use charge_pulse.Database.Events.{Value, text}
use charge_pulse.Gateway.Server.{Handler}
use charge_pulse.Gateway.Watchdog.{Watchdog, is_marked, scan, is_silent}
use charge_pulse.Gateway.Watchdog.Scan.{scan_marks}
use charge_pulse.Gateway.Commands.{Attempt, Params, Call, Message, Sent, run_messages}
use charge_pulse.Gateway.Commands.Batch.{run_messages-All, request_ids}
use charge_pulse.Examples.{w, handler}

-- heard a long time ago, and just now
abbrev items : List (String × Handler)
items = ("CP-1", handler 1 "CP-1" 50) ∷ ("CP-2", handler 2 "CP-2" 900000000) ∷ []

abbrev watchdog : Watchdog
watchdog = record { timeout = 300; stale_marked = "CP-2" ∷ "CP-9" ∷ [] }

scan_marks_example :
    is_marked "CP-1" (scan 900000001 items watchdog w).0.stale_marked
    ≡ is_silent 300 900000001 (handler 1 "CP-1" 50)
unfolding lookup
scan_marks_example = scan_marks 900000001 items watchdog w "CP-1" (refl, (refl, tt))

-- `json.loads` on the texts of the examples
abbrev parse_params : String → Attempt Params
parse_params s = if str_eq s "{}" then inr [] else inl "no JSON"

abbrev int_of : Value → Attempt Value
int_of v = inr v

abbrev call : Handler → Call → Attempt Value
call h c = inr (text "Accepted")

abbrev connected : String → Option Handler
connected cp_id = lookup cp_id items

abbrev command : String → Option String → Message
command msg_id params = record {
  msg_id = msg_id;
  action = some "Reset";
  params = params;
  request_id = none;
}

abbrev nothing_sent : Sent
nothing_sent = record { replies = []; acked = [] }

abbrev good : List Message
good = command "1" none ∷ command "2" (some "{}") ∷ []

run_messages-All_example :
    ((run_messages parse_params int_of call connected "CP-1" good nothing_sent).1 ≡ false)
    × ((run_messages parse_params int_of call connected "CP-1" good nothing_sent).0.acked
        ≡ "1" ∷ "2" ∷ [])
    × (request_ids parse_params int_of call connected "CP-1"
          (run_messages parse_params int_of call connected "CP-1" good nothing_sent).0.replies
        ≡ "1" ∷ "2" ∷ [])
run_messages-All_example =
    run_messages-All parse_params int_of call connected "CP-1" good nothing_sent
      (([], refl), (([], refl), tt))
