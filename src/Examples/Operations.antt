-- ===== src/Examples/Operations.antt =====
-- Requests of tenants and of the superadmin, alerts, live updates and models.
use charge_pulse.Prelude.{
  ℕ, ◌==◌, ◌≢◌, String, Bool, true, false, Option, none, some, List, [], ◌∷◌, ◌++◌, ◌≡◌, refl,
  arith, All, any, first, select, map, inr, if◌then◌else◌, str_eq, lookup,
}
use charge_pulse.Prelude.Result.{ok, err, http}
use charge_pulse.Database.{Db}
use charge_pulse.Database.Events.{Value, text}
use charge_pulse.Gateway.Server.{Handler}
use charge_pulse.Gateway.Commands.{Attempt, Params, Call, Reply, response, answer, dispatch}
use charge_pulse.Incidents.{Incident, IncidentEntry, Board, entry_of, raise_incident}
use charge_pulse.Alerts.{Delivery, find_charger, handle, rank_of}
use charge_pulse.Alerts.Configs.{
  AlertConfigCreate, Configs, is_config, create_config, delete_config,
}
use charge_pulse.Alerts.Delivered.{create_config-alerts, delete_config-alerts}
use charge_pulse.Live.{Client, LiveMessage, message_of, tail_entries}
use charge_pulse.Live.Delivery.{received, tail_entries-received}
use charge_pulse.Models.{
  Model, Trained, ModelTable, is_active_detector, latest, load_active_model, retrain,
}
use charge_pulse.Models.Cache.{IsCoherent, active_scorer, load_active_model-IsCoherent}
use charge_pulse.Models.Retrain.{active_after, retrain-active}
use charge_pulse.Chargers.{
  ChargerCreate, exists, insert_charger, check_create, create_charger, delete_charger, cap_of,
  used_by, charger_of,
}
use charge_pulse.Chargers.Reads.{get_sessions, get_telemetry}
use charge_pulse.Chargers.Reuse.{create_charger-history}
use charge_pulse.Chargers.Commands.{
  CommandRequest, timed_out, command_of, response_of, send_command, send_command-dispatch,
  send_command-lost,
}
use charge_pulse.Chargers.Table.{
  IsKeyed, MapStep, TableRequest, TableStep, map_of, TableStep-MapStep,
}
use charge_pulse.Accounts.{Accounts, AuthResponse, Claims, login}
use charge_pulse.Admin.{deactivate_org, impersonate, ResetPassword, reset_user_password}
use charge_pulse.Admin.Suspension.{reply_of, suspended, deactivate_org-login}
use charge_pulse.Admin.Passwords.{reset_user_password-login}
use charge_pulse.Access.{Jose, CurrentUserCtx, create_access_token, current_user, require_role}
use charge_pulse.Access.Roles.{impersonate-require_role}
use charge_pulse.Examples.{w, clock, charger, organisation, handler}
use charge_pulse.Examples.Workers.{nu, incident}
use charge_pulse.Examples.Logins.{bc, owner, accounts}

abbrev board : Board ℕ
board = record { incidents = incident 1 1 ∷ []; entries = []; next_id = 2 }

abbrev configs : Configs
configs = record { rows = []; next_id = 1 }

abbrev by_mail : AlertConfigCreate
by_mail = record {
  channel = "email";
  endpoint = "ops@example.in";
  label = none;
  severity_min = "medium";
}

abbrev raised : Board ℕ
raised = raise_incident clock "CP-1" 1 "high" "power_supply" "Low voltage detected" "" none board

create_config-alerts_example :
    (i : Incident ℕ) × (raised.incidents ≡ incident 1 1 ∷ i ∷ [])
    × (raised.entries ≡ entry_of i ∷ [])
    × (handle (charger "CP-1" 1 ∷ []) (create_config 7 1 by_mail configs).1.rows raised (entry_of i)
        ≡ handle (charger "CP-1" 1 ∷ []) [] raised (entry_of i)
          ++ record {
            config = (create_config 7 1 by_mail configs).0;
            incident = i;
            charger = charger "CP-1" 1;
          }
            ∷ [])
unfolding find_charger rank_of lookup
create_config-alerts_example =
    create_config-alerts clock (charger "CP-1" 1 ∷ []) (charger "CP-1" 1) 7 1 by_mail configs "CP-1"
      "high" "power_supply" "Low voltage detected" "" none board (omega arith, tt) refl
      (omega arith)

-- the table with that configuration, and one of another organisation
abbrev two_configs : Configs
two_configs = (create_config 8 2 by_mail (create_config 7 1 by_mail configs).1).1

abbrev announced : IncidentEntry
announced = entry_of (incident 1 1)

delete_config-alerts_example :
    (t' : Configs) × (delete_config 1 1 two_configs ≡ ok t')
    × (All
        (λ (d : Delivery ℕ). is_config 1 1 d.config ≡ false)
        (handle (charger "CP-1" 1 ∷ []) t'.rows board announced))
    × ((other : ℕ)
        → other ≢ 1
        → select (λ c. c.org_id == other) t'.rows
          ≡ select (λ c. c.org_id == other) two_configs.rows)
    × (delete_config 1 1 t' ≡ err (http 404 "config not found"))
unfolding select create_config
delete_config-alerts_example =
    delete_config-alerts (charger "CP-1" 1 ∷ []) board announced 1 1 two_configs refl

-- sockets 5 and 6 of two organisations; 6 takes nothing
abbrev clients : List Client
clients = record { org_id = 1; socket = 5 } ∷ record { org_id = 2; socket = 6 } ∷ []

abbrev taken : ℕ → LiveMessage → Bool
taken socket m = socket == 5

abbrev announcements : List (IncidentEntry × (ℕ → Bool))
announcements = (entry_of (incident 1 1), λ n. false) ∷ (entry_of (incident 2 2), λ n. false) ∷ []

tail_entries-received_example :
    received 5 (tail_entries taken announcements clients).0
    ≡ map message_of
        (select (λ e. e.org_id == 1) (entry_of (incident 1 1) ∷ entry_of (incident 2 2) ∷ []))
unfolding select
tail_entries-received_example =
    tail_entries-received taken 1 5 announcements clients (λ m. refl) (λ n. refl, (λ n. refl, tt))
      refl

abbrev model : ℕ → Bool → ℕ → Model ℕ
model id is_active val_mse = record {
  id = id;
  cp_id = some "CP-1";
  model_type = "anomaly_detector";
  version = id;
  training_samples = 200;
  val_mse = some val_mse;
  model_path = "anomaly.pt";
  is_active = is_active;
  created_at = 7;
}

-- the second model was worse than the first, which was activated again
abbrev models : ModelTable ℕ
models = record { rows = model 1 true 10 ∷ model 2 false 50 ∷ []; next_id = 3 }

abbrev trained : Trained ℕ
trained = record { val_mse = 30; samples = 200; model_path = "anomaly_3.pt"; created_at = 8 }

same_row : {m n : Model ℕ} → some m ≡ some n → m ≡ n
same_row e = cc

retrain-active_example :
    select (is_active_detector "CP-1") (retrain nu "CP-1" (some trained) models).rows
    ≡ active_after nu "CP-1" trained models
unfolding select latest
retrain-active_example =
    retrain-active nu "CP-1" trained models (omega arith, (omega arith, tt))
      (λ old e. rw (← same_row e) refl)

abbrev load : String → Option String
load path = some path

load_active_model-IsCoherent_example :
    ((load_active_model load models "CP-1" []).0 ≡ active_scorer load models "CP-1")
    × IsCoherent load models (load_active_model load models "CP-1" []).1
unfolding lookup
load_active_model-IsCoherent_example =
    load_active_model-IsCoherent load models "CP-1" [] (λ cp_id version s row h. cc)

abbrev request : String → ChargerCreate
request cp_id = record {
  cp_id = cp_id;
  display_name = none;
  vendor = none;
  model = none;
  address = none;
  city = none;
  state = none;
  pincode = none;
  lat = none;
  lng = none;
  connector_count = 1;
}

abbrev without : Db
without = record w.db { chargers = charger "CP-1" 1 ∷ [] }

abbrev reused : Db
reused = record w.db { chargers = charger "CP-1" 1 ∷ charger_of 1 (request "CP-2") 9 ∷ [] }

create_charger-history_example :
    (get_sessions (λ l. l) 1 "CP-2" none none 1 10 reused
      ≡ get_sessions (λ l. l) 2 "CP-2" none none 1 10 w.db)
    × (get_telemetry (λ l. l) (λ e. true) 1 "CP-2" none none 10 reused
        ≡ get_telemetry (λ l. l) (λ e. true) 2 "CP-2" none none 10 w.db)
unfolding delete_charger create_charger any select exists cap_of used_by check_create insert_charger
    charger_of
create_charger-history_example =
    create_charger-history (λ l. l) (λ l. l) (λ e. true) 2 1 9 1 10 (request "CP-2") w.db without
      reused refl refl

TableStep-MapStep_example :
    (IsKeyed without.chargers)
    × MapStep (TableRequest.delete 2 "CP-2") (map_of w.db) (map_of without)
unfolding delete_charger any select
TableStep-MapStep_example =
    TableStep-MapStep (TableStep.delete_returns 2 "CP-2" w.db without refl) (refl, (refl, tt))

abbrev parse_params : String → Attempt Params
parse_params s = inr []

abbrev int_of : Value → Attempt Value
int_of v = inr v

abbrev call : Handler → Call → Attempt Value
call h c = inr (text "Accepted")

abbrev connected : String → Option Handler
connected cp_id = some (handler 1 "CP-1" 50)

abbrev reset : CommandRequest
reset = record { command = "Reset"; params = "{}" }

abbrev other_reply : Reply
other_reply = record { cp_id = "CP-1"; request_id = "r0"; outcome = response (text "Accepted") }

send_command-dispatch_example :
    (reply : Reply) × (dispatch parse_params int_of call connected "CP-1"
        (command_of "1-0" "r1" reset)
      ≡ inr reply)
    × ((send_command "1-0" "r1" reset (
          record { between = []; during = other_reply ∷ [] }
          ∷ record { between = []; during = reply ∷ [] }
          ∷ [])).1
        ≡ response_of "r1" (answer parse_params int_of call (connected "CP-1") (some "Reset") []))
unfolding any
send_command-dispatch_example =
    send_command-dispatch parse_params int_of call connected "CP-1" "1-0" "r1" reset []
      (record { between = []; during = other_reply ∷ [] } ∷ []) [] [] [] [] refl ((refl, refl), tt)
      refl refl

-- the reply to this request, before the first call
abbrev early_reply : Reply
early_reply = record { cp_id = "CP-1"; request_id = "r1"; outcome = response (text "Accepted") }

send_command-lost_example :
    (send_command "1-0" "r1" reset
      (record { between = early_reply ∷ []; during = other_reply ∷ [] } ∷ [])).1
    ≡ timed_out "r1"
unfolding any
send_command-lost_example =
    send_command-lost "1-0" "r1" reset (early_reply ∷ []) (other_reply ∷ []) [] refl tt

deactivate_org-login_example :
    reply_of (login bc "a@example.in" "secret-a" 50 (suspended 1 accounts))
    ≡ reply_of (login bc "a@example.in" "secret-a" 50 accounts)
unfolding deactivate_org any
deactivate_org-login_example =
    deactivate_org-login bc "a@example.in" "secret-a" 50 1 accounts (suspended 1 accounts) refl

reset_user_password-login_example :
    (reply : ResetPassword) × (acc1 : Accounts) × (session : AuthResponse) × (acc2 : Accounts)
    × (reset_user_password bc "temp" 8 accounts ≡ ok (reply, acc1))
    × (login bc reply.email reply.temporary_password 60 acc1 ≡ ok (session, acc2))
    × (session.access_token.user_id ≡ 8)
    × (session.access_token.org_id ≡ some 1)
unfolding first
reset_user_password-login_example =
    reset_user_password-login bc "temp" 60 8 accounts owner organisation refl refl refl refl refl
      refl refl

abbrev claims : Claims
claims = record {
  user_id = 3;
  org_id = some 1;
  role = "owner";
  is_superadmin = true;
  impersonating = true;
}

-- a key that has signed one token
abbrev jose : Jose
jose = record { encode = λ p. "token"; decode = λ at s. some (create_access_token 60 100 claims) }

impersonate-require_role_example :
    (user : CurrentUserCtx) × (current_user jose 200
        (jose.encode (create_access_token 60 100 claims))
      ≡ ok user)
    × (user.org_id ≡ some 1)
    × (user.user_id ≡ 3)
    × (require_role ("superadmin" ∷ []) user ≡ (
        if any (λ r. str_eq r "owner") ("superadmin" ∷ [])
        then ok user
        else err (http 403 "Permission denied")))
unfolding impersonate any
impersonate-require_role_example =
    impersonate-require_role jose 60 100 200 3 1 accounts claims ("superadmin" ∷ []) (λ fresh. refl)
      (omega arith) refl
