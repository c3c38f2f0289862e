-- ===== src/Chargers.antt =====
-- The chargers of a tenant: backend/app/chargers/service.py. A query is a function of the database;
-- `now` is the clock of the database.
pub mod Quota
pub mod Tenants
pub mod Paging
pub mod Reads
pub mod Reuse
pub mod Timeline
pub mod Commands
pub mod Table
use charge_pulse.Prelude.{
  ℕ, zero, suc, ◌+◌, ◌-◌, ◌*◌, ◌/◌, ◌==◌, ◌≤◌, leb, max, String, Bool, true, false, Option, none,
  some, List, [], ◌∷◌, ◌++◌, ◌&&◌, ◌||◌, not, any, select, length, str_eq, if◌then◌else◌, is_some,
  take, drop, map,
}
use charge_pulse.Prelude.Result.{Error, Result, ok, err, http, type_error, unique_violation, ◌>>=◌}
use charge_pulse.Database.{Charger, Organisation, Db, Status, online, offline, faulted, unknown}
use charge_pulse.Gateway.Router.{is_charger}

-- `ChargerCreate` and `BulkImportRow`: the request for a new charger
pub record ChargerCreate : Type 0 where
  pub cp_id : String
  pub display_name : Option String
  pub vendor : Option String
  pub model : Option String
  pub address : Option String
  pub city : Option String
  pub state : Option String
  pub pincode : Option String
  pub lat : Option String
  pub lng : Option String
  pub connector_count : ℕ

-- WHERE org_id = $n
abbrev pub is_of_org : ℕ → Charger → Bool
is_of_org org_id c = c.org_id == org_id

-- SELECT 1 FROM chargers WHERE cp_id = $1
unfoldable pub exists : String → Db → Bool
unfolding any
exists cp_id db = any (is_charger cp_id) db.chargers

-- SELECT count(*) FROM chargers WHERE org_id = $1
unfoldable pub used_by : ℕ → Db → ℕ
unfolding select
used_by org_id db = length (select (is_of_org org_id) db.chargers)

find_cap : ℕ → List Organisation → Option ℕ
find_cap org_id [] = none
find_cap org_id (o ∷ rest) = if o.id == org_id then some o.max_chargers else find_cap org_id rest

-- SELECT max_chargers FROM organisations WHERE id = $1
unfoldable pub cap_of : ℕ → Db → Option ℕ
unfolding find_cap
cap_of org_id db = find_cap org_id db.organisations

-- the point is (lng, lat), and NULL unless both are given
location_of : ChargerCreate → Option (String × String)
location_of req = elim req.lat [
  | none ↦ none
  | some lat ↦ elim req.lng [ none ↦ none | some lng ↦ some (lng, lat) ]
]

unfoldable pub charger_of : ℕ → ChargerCreate → ℕ → Charger
unfolding location_of
charger_of org_id req now = record {
  cp_id = req.cp_id;
  org_id = org_id;
  display_name = req.display_name;
  vendor = req.vendor;
  model = req.model;
  firmware_version = none;
  serial_number = none;
  connector_count = req.connector_count;
  location = location_of req;
  address = req.address;
  city = req.city;
  state = req.state;
  pincode = req.pincode;
  status = offline;
  last_boot_at = none;
  last_heartbeat_at = none;
  last_session_at = none;
  created_at = now;
}

-- INSERT INTO chargers: the primary key refuses an id that is there
unfoldable pub insert_charger : ℕ → ChargerCreate → ℕ → Db → Result Db
insert_charger org_id req now db =
    if exists req.cp_id db
    then err unique_violation
    else ok (record db { chargers = db.chargers ++ charger_of org_id req now ∷ [] })

-- the checks of `create_charger`; comparing with the `None` of a missing organisation raises
unfoldable pub check_create : ℕ → ChargerCreate → Db → Result (Unit {0})
check_create org_id req db =
    if exists req.cp_id db then err (http 409 "cp_id already exists") else elim (cap_of org_id db) [
      | none ↦ err type_error
      | some cap ↦
          if leb cap (used_by org_id db) then err (http 402 "charger quota reached") else ok tt
    ]

-- `create_charger`, where no other request comes between its queries
unfoldable pub create_charger : ℕ → ChargerCreate → ℕ → Db → Result Db
unfolding check_create insert_charger
create_charger org_id req now db = do
  checked ← check_create org_id req db
  insert_charger org_id req now db

-- the variables of the loop of `bulk_import`
pub record Import : Type 0 where
  pub db : Db
  pub used : ℕ
  pub created : ℕ
  pub skipped : List (String × String)

abbrev skip : String → String → Import → Import
skip cp_id reason s = record s { skipped = s.skipped ++ (cp_id, reason) ∷ [] }

-- the text of an exception
unfoldable pub text_of : Error → String
text_of unique_violation = "unique_violation"
text_of _ = "error"

unfoldable pub import_row : ℕ → ℕ → ℕ → ChargerCreate → Import → Import
unfolding text_of
import_row org_id cap now req s =
    if leb cap s.used
    then skip req.cp_id "quota reached" s
    else if exists req.cp_id s.db
    then skip req.cp_id "cp_id already exists" s
    else elim (insert_charger org_id req now s.db) [
      | ok db ↦ record s { db = db; created = s.created + 1; used = s.used + 1 }
      | err e ↦ skip req.cp_id (text_of e) s
    ]

unfoldable pub import_rows : ℕ → ℕ → ℕ → List ChargerCreate → Import → Import
unfolding import_row
import_rows org_id cap now [] s = s
import_rows org_id cap now (req ∷ rest) s =
    import_rows org_id cap now rest (import_row org_id cap now req s)

-- `bulk_import`: with no rows the missing organisation is not noticed
unfoldable pub bulk_import : ℕ → List ChargerCreate → ℕ → Db → Result Import
unfolding import_rows
bulk_import org_id rows now db =
    let start : Import = record { db = db; used = used_by org_id db; created = 0; skipped = [] } in
    elim (cap_of org_id db) [
      | some cap ↦ ok (import_rows org_id cap now rows start)
      | none ↦ elim rows [ [] ↦ ok start | row ∷ rest ↦ err type_error ]
    ]

-- `delete_charger`: DELETE … WHERE cp_id = $1 AND org_id = $2
abbrev pub is_owned : ℕ → String → Charger → Bool
is_owned org_id cp_id c = is_charger cp_id c && is_of_org org_id c

unfoldable pub delete_charger : ℕ → String → Db → Result Db
unfolding any select
delete_charger org_id cp_id db =
    if any (is_owned org_id cp_id) db.chargers
    then ok (record db { chargers = select (λ c. not (is_owned org_id cp_id c)) db.chargers })
    else err (http 404 "charger not found")

-- the page of `list_chargers` and of the other lists: LIMIT $n OFFSET $m, of rows that are in order
unfoldable pub page_of {ℓ} : {A : Type ℓ} → ℕ → ℕ → List A → List A
page_of page limit rows = take limit (drop ((page - 1) * limit) rows)

-- `max(1, (total + limit - 1) // limit)`
unfoldable pub pages_of : ℕ → ℕ → ℕ
pages_of total limit = max 1 ((total + limit - 1) / limit)

-- the text of the column
abbrev pub status_text : Status → String
status_text online = "online"
status_text offline = "offline"
status_text faulted = "faulted"
status_text unknown = "unknown"

-- the WHERE clause of `list_chargers`: the empty text is no filter; the health filter is the test `below`
abbrev pub is_listed : ℕ → Option String → (Charger → Bool) → Charger → Bool
is_listed org_id status_filter below c =
    is_of_org org_id c
    && elim status_filter [ none ↦ true | some s ↦ str_eq s "" || str_eq (status_text c.status) s ]
    && below c

pub record ChargerList : Type 0 where
  pub chargers : List Charger
  pub total : ℕ
  pub page : ℕ
  pub pages : ℕ

-- `order` is ORDER BY created_at DESC, as the database does it
unfoldable pub list_chargers :
    (List Charger → List Charger) → ℕ → Option String → (Charger → Bool) → ℕ → ℕ → Db → ChargerList
unfolding page_of pages_of select
list_chargers order org_id status_filter below page limit db =
    let rows = select (is_listed org_id status_filter below) db.chargers in
    record {
      chargers = page_of page limit (order rows);
      total = length rows;
      page = page;
      pages = pages_of (length rows) limit;
    }
