-- ===== src/Live.antt =====
-- Live updates: backend/app/ws.py. The sockets are numbers, and `_clients` is the list of the sockets with
-- their organisations. Between two sends of a broadcast the other tasks run: `changed n` says whether the
-- organisation's set has changed its size when the loop asks for the socket number n.
pub mod Delivery
use charge_pulse.Prelude.{
  ℕ, zero, suc, ◌+◌, ◌==◌, String, Bool, true, false, Option, none, some, List, [], ◌∷◌, ◌++◌, ◌&&◌,
  not, any, select, map, str_eq, if◌then◌else◌,
}
use charge_pulse.Prelude.Result.{Result, ok, err, type_error}
use charge_pulse.Incidents.{IncidentEntry}
use charge_pulse.Access.{Jose}

pub record Client : Type 0 where
  pub org_id : ℕ
  pub socket : ℕ

-- the fields of the message, but for "type"
pub record LiveMessage : Type 0 where
  pub incident_id : ℕ
  pub cp_id : String
  pub severity : String
  pub failure_type : String
  pub title : String
  pub timestamp : ℕ

-- a message that a socket was sent
pub record Sent : Type 0 where
  pub socket : ℕ
  pub message : LiveMessage

-- the handshake of `ws_live`: the close code 4401, or the clients with the new one. UUID(None) raises a TypeError.
pub data Handshake : Type 0 where
  closed : ℕ → Handshake
  raised : Handshake
  accepted : List Client → Handshake

unfoldable pub ws_live : Jose → ℕ → String → ℕ → List Client → Handshake
ws_live jose now token socket clients = elim (jose.decode now token) [
  | none ↦ closed 4401
  | some payload ↦ elim payload.claims.org_id [
    | none ↦ raised
    | some org_id ↦ accepted (clients ++ record { org_id = org_id; socket = socket } ∷ [])
  ]
]

-- what the `finally` block does
abbrev pub is_client : ℕ → ℕ → Client → Bool
is_client org_id socket c = c.org_id == org_id && c.socket == socket

unfoldable pub disconnect : ℕ → ℕ → List Client → List Client
unfolding select
disconnect org_id socket clients = select (λ c. not (is_client org_id socket c)) clients

-- the loop of `_broadcast` over the sockets: the messages sent, the dead sockets, and whether the loop ended. It
-- raises where the set has changed its size.
unfoldable pub send_all :
    (ℕ → LiveMessage → Bool)
    → (ℕ → Bool)
    → LiveMessage
    → ℕ
    → List Client
    → List Sent × List Client × Bool
send_all send changed message n [] = ([], [], not (changed n))
send_all send changed message n (c ∷ rest) =
    let (sent, dead, ended) = send_all send changed message (suc n) rest in
    if changed n
    then ([], [], false)
    else if send c.socket message
    then (record { socket = c.socket; message = message } ∷ sent, dead, ended)
    else (sent, c ∷ dead, ended)

-- the dead sockets are discarded after the loop
unfoldable pub discard_all : List Client → List Client → List Client
unfolding disconnect
discard_all [] clients = clients
discard_all (c ∷ dead) clients = discard_all dead (disconnect c.org_id c.socket clients)

abbrev pub is_in : ℕ → Client → Bool
is_in org_id c = c.org_id == org_id

unfoldable pub broadcast :
    (ℕ → LiveMessage → Bool) → (ℕ → Bool) → ℕ → LiveMessage → List Client → List Sent × List Client
unfolding select send_all discard_all
broadcast send changed org_id message clients =
    let (sent, dead, ended) = send_all send changed message 0 (select (is_in org_id) clients) in
    (sent, if ended then discard_all dead clients else clients)

unfoldable pub message_of : IncidentEntry → LiveMessage
message_of e = record {
  incident_id = e.incident_id;
  cp_id = e.cp_id;
  severity = e.severity;
  failure_type = e.failure_type;
  title = e.title;
  timestamp = e.detected_at;
}

-- the loop of the tailer over the entries that it reads, each with the changes during its broadcast
unfoldable pub tail_entries :
    (ℕ → LiveMessage → Bool)
    → List (IncidentEntry × (ℕ → Bool))
    → List Client
    → List Sent × List Client
unfolding broadcast message_of
tail_entries send [] clients = ([], clients)
tail_entries send ((e, changed) ∷ rest) clients =
    let (sent, left) = broadcast send changed e.org_id (message_of e) clients in
    let (later, final) = tail_entries send rest left in (sent ++ later, final)
