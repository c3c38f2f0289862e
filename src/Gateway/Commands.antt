-- ===== src/Gateway/Commands.antt =====
-- `CommandConsumer`: backend/gateway/command_consumer.py. The charger's answer is the argument `call`
-- (`cp.call` of the ocpp package), `parse_params` is `json.loads` of the parameters, and `int_of` is
-- Python's `int(…)`; each has an error where it raises.
pub mod Batch
pub mod Keys
use Prim.Native.String.{◌++◌ as str_append}
use charge_pulse.Prelude.{
  ℕ, String, Bool, true, false, Option, none, some, List, [], ◌∷◌, ◌++◌, Dict, lookup, get_or,
  if◌then◌else◌, ◌⊎◌, inl, inr, after_last,
}
use charge_pulse.Database.Events.{Value, null, int, text, json}
use charge_pulse.Gateway.Server.{Handler}

abbrev pub Params : Type 0
Params = Dict Value

-- a call object of the ocpp package: its class and its fields
pub record Call : Type 0 where
  pub name : String
  pub args : List (String × Value)

-- `p[key]`: the text of the KeyError if it is missing
abbrev pub Attempt {ℓ} : Type ℓ → Type ℓ
Attempt A = String ⊎ A

infixl 5 ◌>>=◌
abbrev pub ◌>>=◌ {ℓ κ} : {A : Type ℓ} {B : Type κ} → Attempt A → (A → Attempt B) → Attempt B
inl e >>= f = inl e
inr a >>= f = f a

unfoldable pub item : String → Params → Attempt Value
item key p = elim (lookup key p) [ none ↦ inl key | some v ↦ inr v ]

-- `p.get(key, default)`
abbrev pub get : String → Value → Params → Value
get key default p = get_or (lookup key p) default

abbrev pub Builder : Type 0
Builder = Params → Attempt Call

abbrev pub made : String → List (String × Value) → Attempt Call
made name args = inr (record { name = name; args = args })

unfoldable pub reset_v16 : Builder
reset_v16 p = made "Reset" (("type", get "type" (text "Soft") p) ∷ [])

unfoldable pub trigger_message : Builder
unfolding item
trigger_message p = do
  requested ← item "requested_message" p
  made "TriggerMessage"
      (("requested_message", requested) ∷ ("connector_id", get "connector_id" null p) ∷ [])

unfoldable pub change_configuration : Builder
unfolding item
change_configuration p = do
  key ← item "key" p
  value ← item "value" p
  made "ChangeConfiguration" (("key", key) ∷ ("value", value) ∷ [])

unfoldable pub get_diagnostics : Builder
unfolding item
get_diagnostics p = do
  location ← item "location" p
  made "GetDiagnostics" (("location", location) ∷ [])

unfoldable pub remote_start_transaction : Builder
unfolding item
remote_start_transaction p = do
  id_tag ← item "id_tag" p
  made "RemoteStartTransaction"
      (("connector_id", get "connector_id" (int 1) p) ∷ ("id_tag", id_tag) ∷ [])

unfoldable pub remote_stop_transaction : Builder
unfolding item
remote_stop_transaction p = do
  transaction_id ← item "transaction_id" p
  made "RemoteStopTransaction" (("transaction_id", transaction_id) ∷ [])

abbrev pub supported_v16 : Dict Builder
supported_v16 =
    ("Reset", reset_v16)
    ∷ ("TriggerMessage", trigger_message)
    ∷ ("ChangeConfiguration", change_configuration)
    ∷ ("GetDiagnostics", get_diagnostics)
    ∷ ("RemoteStartTransaction", remote_start_transaction)
    ∷ ("RemoteStopTransaction", remote_stop_transaction)
    ∷ []

unfoldable pub reset_v201 : Builder
reset_v201 p =
    made "Reset" (("type", get "type" (text "OnIdle") p) ∷ ("evse_id", get "evse_id" null p) ∷ [])

-- the fields of `id_token` stand behind its name and a dot
unfoldable pub request_start_transaction : (Value → Attempt Value) → Builder
unfolding item
request_start_transaction int_of p = do
  id_token ← item "id_token" p
  remote_start_id ← int_of (get "remote_start_id" (int 1) p)
  made "RequestStartTransaction" (
      ("id_token.id_token", id_token)
      ∷ ("id_token.type", get "id_token_type" (text "Central") p)
      ∷ ("remote_start_id", remote_start_id)
      ∷ ("evse_id", get "evse_id" (int 1) p)
      ∷ [])

unfoldable pub request_stop_transaction : Builder
unfolding item
request_stop_transaction p = do
  transaction_id ← item "transaction_id" p
  made "RequestStopTransaction" (("transaction_id", transaction_id) ∷ [])

unfoldable pub change_availability : Builder
change_availability p = made "ChangeAvailability" (
    ("operational_status", get "operational_status" (text "Inoperative") p)
    ∷ ("evse", get "evse" null p)
    ∷ [])

abbrev pub supported_v201 : (Value → Attempt Value) → Dict Builder
supported_v201 int_of =
    ("Reset", reset_v201)
    ∷ ("RequestStartTransaction", request_start_transaction int_of)
    ∷ ("RequestStopTransaction", request_stop_transaction)
    ∷ ("ChangeAvailability", change_availability)
    ∷ []

-- the payload of a reply: `ok=True, response=…` or `ok=False, error=…`
pub data Outcome : Type 0 where
  response : Value → Outcome
  error : String → Outcome

-- an entry of `stream:command_replies:{cp_id}`
pub record Reply : Type 0 where
  pub cp_id : String
  pub request_id : String
  pub outcome : Outcome

-- the fields of a command's entry
pub record Message : Type 0 where
  pub msg_id : String
  pub action : Option String
  pub params : Option String
  pub request_id : Option String

-- what the loop has written: the replies, and the ids that were acknowledged
pub record Sent : Type 0 where
  pub replies : List Reply
  pub acked : List String

module _ (parse_params : String → Attempt Params) (int_of : Value → Attempt Value)
    (call : Handler → Call → Attempt Value) where
  -- `builder(params)`, then `await cp.call(payload)`
  unfoldable pub attempt : Builder → Params → Handler → Attempt Value
  attempt builder params cp = do payload ← builder params; call cp payload

  unfoldable pub outcome_of : Attempt Value → Outcome
  outcome_of (inl e) = error e
  outcome_of (inr v) = response v

  unfoldable pub unsupported : Option String → Bool → String
  unsupported action is_v201 = str_append "action '" (
      str_append (get_or action "None")
        (str_append "' not supported on " (if is_v201 then "ocpp2.0.1" else "ocpp1.6")))

  builder_for : Option String → Bool → Option Builder
  builder_for action is_v201 = elim action [
    | none ↦ none
    | some a ↦ lookup a (if is_v201 then supported_v201 int_of else supported_v16)
  ]

  -- what is replied once the parameters are read
  unfoldable pub answer : Option Handler → Option String → Params → Outcome
  unfolding attempt outcome_of unsupported builder_for
  answer none action params = error "charger not connected"
  answer (some cp) action params = elim (builder_for action cp.v201) [
    | none ↦ error (unsupported action cp.v201)
    | some builder ↦ outcome_of (attempt builder params cp)
  ]

  -- `_dispatch`: the reply that it adds, or the error that it raises
  unfoldable pub dispatch : (String → Option Handler) → String → Message → Attempt Reply
  dispatch connected cp_id m = do
    params ← parse_params (get_or m.params "{}")
    inr (record {
      cp_id = cp_id;
      request_id = get_or m.request_id m.msg_id;
      outcome = answer (connected cp_id) m.action params;
    })

  -- The loop over the messages of one stream. A message is acknowledged whether or not its dispatch
  -- raises; an error that it raises ends the batch. The result tells if one did.
  unfoldable pub run_messages :
      (String → Option Handler) → String → List Message → Sent → Sent × Bool
  run_messages connected cp_id [] sent = (sent, false)
  run_messages connected cp_id (m ∷ ms) sent = elim (dispatch connected cp_id m) [
    | inl e ↦ (record sent { acked = sent.acked ++ m.msg_id ∷ [] }, true)
    | inr r ↦
        run_messages connected cp_id ms
          (record { replies = sent.replies ++ r ∷ []; acked = sent.acked ++ m.msg_id ∷ [] })
  ]

  -- The loop over the streams of one `xreadgroup`, for the charger that each stream's name ends in.
  unfoldable pub run_batch :
      (String → Option Handler) → List (String × List Message) → Sent → Sent × Bool
  unfolding run_messages after_last
  run_batch connected [] sent = (sent, false)
  run_batch connected ((stream, messages) ∷ rest) sent =
      let (sent', raised) = run_messages connected (after_last b':' stream) messages sent in
      elim raised [ true ↦ (sent', true) | false ↦ run_batch connected rest sent' ]
