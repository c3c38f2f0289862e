-- ===== src/Chargers/Commands.antt =====
-- `send_command` of backend/app/chargers/service.py, and the gateway at the other end of the streams.
use charge_pulse.Prelude.{
  String, Bool, true, false, Option, none, some, List, [], ◌∷◌, ◌++◌, ◌≡◌, refl, ap, ◌∙◌, ◌||◌, All,
  any, first, first-append, any-first, str_eq, eq_refl, if◌then◌else◌, inr,
}
use charge_pulse.Database.Events.{Value}
use charge_pulse.Gateway.Server.{Handler}
use charge_pulse.Gateway.Commands.{
  Attempt, Params, Call, Outcome, response, error, Reply, Message, dispatch, answer,
}

-- `params` is the text that json.dumps makes of the parameters
pub record CommandRequest : Type 0 where
  pub command : String
  pub params : String

pub record CommandResponse : Type 0 where
  pub status : String
  pub request_id : String
  pub response : Option Value
  pub error : Option String

-- A call of `xread` that returns before the deadline: what was added to the stream of the replies between the last
-- call and this one, and what was added while it blocked.
pub record Read : Type 0 where
  pub between : List Reply
  pub during : List Reply

-- the entry that is added to the stream of the commands
unfoldable pub command_of : String → String → CommandRequest → Message
command_of msg_id request_id req = record {
  msg_id = msg_id;
  action = some req.command;
  params = some req.params;
  request_id = some request_id;
}

unfoldable pub response_of : String → Outcome → CommandResponse
response_of request_id (response v) = record {
  status = "ok";
  request_id = request_id;
  response = some v;
  error = none;
}
response_of request_id (error e) = record {
  status = "error";
  request_id = request_id;
  response = none;
  error = some e;
}

abbrev pub timed_out : String → CommandResponse
timed_out request_id = record {
  status = "timeout";
  request_id = request_id;
  response = none;
  error = some "no reply within 5s";
}

abbrev pub replies_to : String → Reply → Bool
replies_to request_id r = str_eq r.request_id request_id

-- `not messages` is false
abbrev pub has_messages : List Reply → Bool
has_messages [] = false
has_messages (r ∷ rs) = true

-- The loop until the deadline. `known` says whether `last_id` is the id of a reply: while it is still "$", a call
-- brings only what is added after it was made.
unfoldable pub await_reply : String → Bool → List Read → CommandResponse
unfolding first response_of
await_reply request_id known [] = timed_out request_id
await_reply request_id known (r ∷ rest) =
    let messages = if known then r.between ++ r.during else r.during in
    let later = await_reply request_id (known || has_messages messages) rest in
    elim (first (replies_to request_id) messages) [
      | some reply ↦ response_of request_id reply.outcome
      | none ↦ later
    ]

unfoldable pub send_command :
    String → String → CommandRequest → List Read → Message × CommandResponse
unfolding command_of await_reply
send_command msg_id request_id req reads =
    (command_of msg_id request_id req, await_reply request_id false reads)

-- no reply to the request in the call
abbrev pub IsUnrelated : String → Read → Type 0
IsUnrelated request_id r =
    (any (replies_to request_id) r.between ≡ false) × (any (replies_to request_id) r.during ≡ false)

none_found :
    (request_id : String) (known : Bool) (r : Read)
    → IsUnrelated request_id r
    → first (replies_to request_id) (if known then r.between ++ r.during else r.during) ≡ none
none_found request_id true r h =
    first-append (replies_to request_id) r.between r.during
      (any-first (replies_to request_id) r.between h.0)
    ∙ any-first (replies_to request_id) r.during h.1
none_found request_id false r h = any-first (replies_to request_id) r.during h.1

skipped :
    (request_id : String) (known : Bool) (reads rest : List Read)
    → All (IsUnrelated request_id) reads
    → (known' : Bool) × (await_reply request_id known (reads ++ rest)
        ≡ await_reply request_id known' rest)
unfolding await_reply
skipped request_id known [] rest h = (known, refl)
skipped request_id known (r ∷ reads) rest h =
    let (known', e) =
      skipped request_id (known || has_messages (if known then r.between ++ r.during else r.during))
        reads rest h.1 in
    (known', rw (none_found request_id known r h.0, await_reply) e)

no_reply :
    (request_id : String) (known : Bool) (reads : List Read)
    → All (IsUnrelated request_id) reads
    → await_reply request_id known reads ≡ timed_out request_id
unfolding await_reply
no_reply request_id known [] h = refl
no_reply request_id known (r ∷ reads) h =
    rw (none_found request_id known r h.0, await_reply) (no_reply request_id _ reads h.1)

first_reply :
    (request_id : String) (reply : Reply) (before after : List Reply)
    → any (replies_to request_id) before ≡ false
    → reply.request_id ≡ request_id
    → first (replies_to request_id) (before ++ reply ∷ after) ≡ some reply
unfolding first
first_reply request_id reply before after none_before own =
    first-append (replies_to request_id) before (reply ∷ after)
      (any-first (replies_to request_id) before none_before)
    ∙ rw own (rw (eq_refl request_id) refl)

found :
    (request_id : String) (known : Bool) (r : Read) (reply : Reply) (before after : List Reply)
    → any (replies_to request_id) r.between ≡ false
    → r.during ≡ before ++ reply ∷ after
    → any (replies_to request_id) before ≡ false
    → reply.request_id ≡ request_id
    → first (replies_to request_id) (if known then r.between ++ r.during else r.during) ≡ some reply
found request_id true r reply before after no_between during none_before own =
    first-append (replies_to request_id) r.between r.during
      (any-first (replies_to request_id) r.between no_between)
    ∙ (ap (first (replies_to request_id)) during
        ∙ first_reply request_id reply before after none_before own)
found request_id false r reply before after no_between during none_before own =
    ap (first (replies_to request_id)) during
    ∙ first_reply request_id reply before after none_before own

awaited :
    (request_id : String) (known : Bool) (r : Read) (rest : List Read) (reply : Reply)
    → first (replies_to request_id) (if known then r.between ++ r.during else r.during) ≡ some reply
    → await_reply request_id known (r ∷ rest) ≡ response_of request_id reply.outcome
unfolding await_reply
awaited request_id known r rest reply e = rw (e, await_reply) refl

module _ (parse_params : String → Attempt Params) (int_of : Value → Attempt Value)
    (call : Handler → Call → Attempt Value) where
  -- The answer of a command is the gateway's: where the parameters are JSON, the gateway's consumer
  -- replies to the entry that the request adds, and if this reply is added while a call of the loop blocks, after calls
  -- that bring no reply to the request, the request is answered with the outcome that the consumer computes: ok with the
  -- charger's response, or an error with its text.
  pub send_command-dispatch :
      (connected : String → Option Handler) (cp_id msg_id request_id : String)
      (req : CommandRequest) (params : Params) (reads rest : List Read)
      (between before after : List Reply)
      → parse_params req.params ≡ inr params
      → All (IsUnrelated request_id) reads
      → any (replies_to request_id) between ≡ false
      → any (replies_to request_id) before ≡ false
      → (reply : Reply) × (dispatch parse_params int_of call connected cp_id
            (command_of msg_id request_id req)
          ≡ inr reply)
        × ((send_command msg_id request_id req
              (reads ++ record { between = between; during = before ++ reply ∷ after } ∷ rest)).1
            ≡ response_of request_id
                (answer parse_params int_of call (connected cp_id) (some req.command) params))
  unfolding dispatch command_of send_command
  send_command-dispatch connected cp_id msg_id request_id req params reads rest between before after
        parsed unrelated no_between none_before =
      let reply : Reply = record {
        cp_id = cp_id;
        request_id = request_id;
        outcome = answer parse_params int_of call (connected cp_id) (some req.command) params;
      } in
      let r : Read = record { between = between; during = before ++ reply ∷ after } in
      let (known, e) = skipped request_id false reads (r ∷ rest) unrelated in
      (
        reply,
        rw parsed refl,
        e
            ∙ awaited request_id known r rest reply
                (found request_id known r reply before after no_between refl none_before refl),
      )

-- A reply that is too early is lost: where the charger has answered before the first call of the loop is
-- made, whatever it answered, and no call brings another reply to the request, the request times out.
pub send_command-lost :
    (msg_id request_id : String) (req : CommandRequest) (early during : List Reply)
    (rest : List Read)
    → any (replies_to request_id) during ≡ false
    → All (IsUnrelated request_id) rest
    → (send_command msg_id request_id req (record { between = early; during = during } ∷ rest)).1
      ≡ timed_out request_id
unfolding send_command await_reply
send_command-lost msg_id request_id req early during rest nothing unrelated =
    rw (any-first (replies_to request_id) during nothing, await_reply)
      (no_reply request_id _ rest unrelated)
