-- ===== src/Gateway/Server.antt =====
-- Connections: `handle_connection` of backend/gateway/server.py. A connection is known by a number,
-- its websocket. `live` holds the connections whose `cp.start()` runs, `connected` is the dict
-- `_connected`, and `closing` holds the websockets that have been told to close. A step of `Step` is
-- what a task does between two waits that matter to another connection: the registration of a new
-- connection, and the `finally` block of an old one.
pub mod Registry
pub mod Replacement
use charge_pulse.Prelude.{
  ℕ, ◌==◌, String, Bool, true, false, Option, none, some, List, [], ◌∷◌, ◌≡◌, lookup, insert,
  remove, Dict, if◌then◌else◌, after_last, strip, str_eq, is_some, not, select, All,
}
use charge_pulse.Database.Events.{EventType, Payload, text}
use charge_pulse.Gateway.Router.{World, publish, lookup_org, mark_offline}

-- a handler object; `v201` tells its class
pub record Handler : Type 0 where
  pub conn : ℕ
  pub id : String
  pub org_id : ℕ
  pub v201 : Bool
  pub last_heartbeat : ℕ

pub record Server : Type 0 where
  pub world : World
  pub connected : Dict ℕ
  pub live : List Handler
  pub closing : List ℕ

-- `path.strip("/").split("/")[-1]`
unfoldable pub cp_id_of : String → String
unfolding strip after_last
cp_id_of path = after_last b'/' (strip (λ c. c == b'/') path)

pub data Admission : Type 0 where
  no_cp_id not_registered : Admission
  admitted : String → ℕ → Admission

-- the checks before a handler is made; the first two results close the websocket with code 1008
unfoldable pub admit : String → World → Admission
unfolding cp_id_of
admit path w =
    let cp_id = cp_id_of path in
    if str_eq cp_id ""
    then no_cp_id
    else elim (lookup_org cp_id w) [ none ↦ not_registered | some org_id ↦ admitted cp_id org_id ]

-- The handler that is registered for the charger is told to close, and the new one takes its place.
unfoldable pub register : Handler → Server → Server
register h s = record s {
  connected = insert h.id h.conn s.connected;
  live = h ∷ s.live;
  closing = elim (lookup h.id s.connected) [ none ↦ s.closing | some old ↦ old ∷ s.closing ];
}

abbrev ws_closed : Payload
ws_closed = ("reason", text "ws_closed") ∷ []

-- the `finally` block
unfoldable pub finish : Handler → ℕ → Server → Server
finish h now s = record s {
  connected = remove h.id s.connected;
  live = select (λ g. not (g.conn == h.conn)) s.live;
  world =
      publish h.id h.org_id EventType.disconnect ws_closed none none none now
        (mark_offline h.id s.world);
}

-- `subprotocol == "ocpp2.0.1"`
abbrev pub new_handler : ℕ → String → ℕ → Option String → ℕ → Handler
new_handler conn cp_id org_id subprotocol now = record {
  conn = conn;
  id = cp_id;
  org_id = org_id;
  v201 = elim subprotocol [ none ↦ false | some p ↦ str_eq p "ocpp2.0.1" ];
  last_heartbeat = now;
}

-- no live connection has the number
abbrev pub IsFresh : ℕ → List Handler → Type 0
IsFresh conn = All (λ h. (h.conn == conn) ≡ false)

pub data Live (h : Handler) : List Handler → Type 0 where
  first : {g : Handler} {rest : List Handler} → g ≡ h → Live h (g ∷ rest)
  later : {g : Handler} {rest : List Handler} → Live h rest → Live h (g ∷ rest)

pub data Step (s t : Server) : Type 0 where
  connect :
      (conn : ℕ) (path cp_id : String) (org_id : ℕ) (subprotocol : Option String) (now : ℕ)
      → IsFresh conn s.live
      → admit path s.world ≡ admitted cp_id org_id
      → t ≡ register (new_handler conn cp_id org_id subprotocol now) s
      → Step s t
  disconnect : (h : Handler) (now : ℕ) → Live h s.live → t ≡ finish h now s → Step s t
  -- what the handlers, the watchdog and other processes write to the database and the streams
  work : (w : World) → t ≡ record s { world = w } → Step s t

pub data Reach (s : Server) : Server → Type 0 where
  here : Reach s s
  next : {t u : Server} → Reach s t → Step t u → Reach s u
