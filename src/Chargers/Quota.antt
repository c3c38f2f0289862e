-- ===== src/Chargers/Quota.antt =====
-- The charger quota of an organisation and the uniqueness of charger ids.
use charge_pulse.Prelude.{
  ℕ, suc, ◌+◌, ◌≤◌, ◌<◌, ◌==◌, max, leb, String, Bool, true, false, some, List, [], ◌∷◌, ◌++◌, ◌≡◌,
  ◌≢◌, refl, sym, ap, ◌∙◌, arith, any-append, select, select-append, length, length-append, eq_iff,
  if◌then◌else◌, Bool-cases, inl, inr, ==_iff, ◌⊎◌,
}
use charge_pulse.Prelude.Result.{Result, ok, err, unique_violation, bind-eq-ok, ◌>>=◌}
use charge_pulse.Database.{Db}
use charge_pulse.Gateway.Router.{is_charger}
use charge_pulse.Chargers.{
  ChargerCreate, is_of_org, exists, used_by, cap_of, charger_of, insert_charger, check_create,
  create_charger, Import, import_row, import_rows, bulk_import, skip,
}

same_org : (org_id : ℕ) → (org_id == org_id) ≡ true
same_org org_id = (==_iff org_id org_id).1 refl

used_by-append :
    (org_id : ℕ) (req : ChargerCreate) (now : ℕ) (db : Db)
    → used_by org_id (record db { chargers = db.chargers ++ charger_of org_id req now ∷ [] })
      ≡ used_by org_id db + 1
unfolding used_by charger_of select
used_by-append org_id req now db =
    ap length (select-append (is_of_org org_id) db.chargers (charger_of org_id req now ∷ []))
    ∙ (length-append (select (is_of_org org_id) db.chargers) _ ∙ rw (same_org org_id) (omega arith))

exists-append :
    (org_id : ℕ) (req req' : ChargerCreate) (now : ℕ) (db : Db)
    → exists req'.cp_id db ≡ false
    → req.cp_id ≢ req'.cp_id
    → exists req'.cp_id (record db { chargers = db.chargers ++ charger_of org_id req now ∷ [] })
      ≡ false
unfolding exists charger_of
exists-append org_id req req' now db absent differ =
    any-append (is_charger req'.cp_id) db.chargers _ absent
      (ground (arith, eq_iff req.cp_id req'.cp_id, differ))

insert_charger_absent :
    (org_id : ℕ) (req : ChargerCreate) (now : ℕ) (db : Db)
    → exists req.cp_id db ≡ false
    → insert_charger org_id req now db
      ≡ ok (record db { chargers = db.chargers ++ charger_of org_id req now ∷ [] })
unfolding insert_charger
insert_charger_absent org_id req now db absent = rw absent refl

ok_eq : {a b : Db} → ◌≡◌ {A = Result Db} (ok a) (ok b) → a ≡ b
ok_eq e = cc

-- an insertion that returns adds one charger to the organisation
insert_charger-used_by :
    (org_id : ℕ) (req : ChargerCreate) (now : ℕ) (db : Db) {db' : Db}
    → insert_charger org_id req now db ≡ ok db'
    → used_by org_id db' ≡ used_by org_id db + 1
unfolding insert_charger
insert_charger-used_by org_id req now db h = go (exists req.cp_id db) h
  where
    go :
        (b : Bool) {db' : Db}
        → (if b
            then err unique_violation
            else ok (record db { chargers = db.chargers ++ charger_of org_id req now ∷ [] }))
          ≡ ok db'
        → used_by org_id db' ≡ used_by org_id db + 1
    go true h = cc
    go false h = ap (used_by org_id) (sym (ok_eq h)) ∙ used_by-append org_id req now db

-- what the checks have found where they pass
check_create_quota :
    (org_id : ℕ) (req : ChargerCreate) (db : Db)
    → check_create org_id req db ≡ ok tt
    → (cap : ℕ) × (cap_of org_id db ≡ some cap)
      × (used_by org_id db < cap)
      × (exists req.cp_id db ≡ false)
unfolding check_create
check_create_quota org_id req db h = ground arith

-- A created charger is within the quota: where `create_charger` returns, the organisation has a
-- quota, had fewer chargers than it allows, and has one more now.
pub create_charger_quota :
    (org_id : ℕ) (req : ChargerCreate) (now : ℕ) (db db' : Db)
    → create_charger org_id req now db ≡ ok db'
    → (cap : ℕ) × (cap_of org_id db ≡ some cap)
      × (used_by org_id db' ≡ used_by org_id db + 1)
      × (used_by org_id db' ≤ cap)
unfolding create_charger
create_charger_quota org_id req now db db' h =
    let (u, checked, inserted) =
      bind-eq-ok (check_create org_id req db) (λ _. insert_charger org_id req now db) h in
    let (cap, e, room, absent) = check_create_quota org_id req db checked in
    let one = insert_charger-used_by org_id req now db inserted in (cap, e, one, omega arith)

-- Two requests that both pass the checks before either inserts: with room for one charger only, both
-- insertions succeed if the ids differ, and the organisation is over its quota by one.
pub create_race :
    (org_id cap : ℕ) (req req' : ChargerCreate) (now now' : ℕ) (db : Db)
    → cap_of org_id db ≡ some cap
    → used_by org_id db + 1 ≡ cap
    → exists req.cp_id db ≡ false
    → exists req'.cp_id db ≡ false
    → req.cp_id ≢ req'.cp_id
    → (check_create org_id req db ≡ ok tt)
      × (check_create org_id req' db ≡ ok tt)
      × (db' : Db) × ((insert_charger org_id req now db >>= insert_charger org_id req' now')
          ≡ ok db')
      × (used_by org_id db' ≡ cap + 1)
unfolding check_create
create_race org_id cap req req' now now' db e room absent absent' differ =
    let db1 : Db = record db { chargers = db.chargers ++ charger_of org_id req now ∷ [] } in
    let db2 : Db = record db1 { chargers = db1.chargers ++ charger_of org_id req' now' ∷ [] } in
    (
      ground arith,
      ground arith,
      db2,
      rw (insert_charger_absent org_id req now db absent) (
          insert_charger_absent org_id req' now' db1
            (exists-append org_id req req' now db absent' differ)),
      used_by-append org_id req' now' db1
          ∙ (ap (λ n. n + 1) (used_by-append org_id req now db) ∙ omega arith),
    )

-- What a bulk import has done so far, from `start`.
record Imported (org_id cap : ℕ) (start s : Import) : Type 0 where
  counted : s.used ≡ used_by org_id s.db
  grown : s.used + start.created ≡ start.used + s.created
  bounded : s.used ≤ max cap start.used

-- the state after a row that has become a charger
abbrev imported : Db → Import → Import
imported db s = record s { db = db; created = s.created + 1; used = s.used + 1 }

-- a row is skipped, or there was room and it has become a charger
import_row-cases :
    (org_id cap now : ℕ) (req : ChargerCreate) (s : Import)
    → ((reason : String) × (import_row org_id cap now req s ≡ skip req.cp_id reason s))
      ⊎ ((db : Db) × (insert_charger org_id req now s.db ≡ ok db)
          × (s.used < cap)
          × (import_row org_id cap now req s ≡ imported db s))
unfolding import_row
import_row-cases org_id cap now req s = elim (Bool-cases (leb cap s.used)) [
  | inl full ↦ inl ("quota reached", rw full refl)
  | inr room ↦ elim (Bool-cases (exists req.cp_id s.db)) [
    | inl there ↦ inl ("cp_id already exists", rw room (rw there refl))
    | inr absent ↦ inr (
      _,
      insert_charger_absent org_id req now s.db absent,
      ground arith,
      rw room (rw absent (rw (insert_charger_absent org_id req now s.db absent) refl)),
    )
  ]
]

import_row-Imported :
    (org_id cap now : ℕ) (req : ChargerCreate) (start s : Import)
    → Imported org_id cap start s
    → Imported org_id cap start (import_row org_id cap now req s)
import_row-Imported org_id cap now req start s h = elim (import_row-cases org_id cap now req s) [
  | inl (reason, e) ↦ rw e (record { counted = h.counted; grown = h.grown; bounded = h.bounded })
  | inr (db, e, room, q) ↦ rw q (record {
    counted = ap (λ n. n + 1) h.counted ∙ sym (insert_charger-used_by org_id req now s.db e);
    grown = omega arith;
    bounded = omega arith;
  })
]

import_row_accounts :
    (org_id cap now : ℕ) (req : ChargerCreate) (s : Import)
    → (import_row org_id cap now req s).created + length (import_row org_id cap now req s).skipped
      ≡ suc (s.created + length s.skipped)
import_row_accounts org_id cap now req s = elim (import_row-cases org_id cap now req s) [
  | inl (reason, e) ↦ rw e (omega (arith, length-append s.skipped ((req.cp_id, reason) ∷ [])))
  | inr (db, e, room, q) ↦ rw q (omega arith)
]

import_rows-Imported :
    (org_id cap now : ℕ) (rows : List ChargerCreate) (start s : Import)
    → Imported org_id cap start s
    → Imported org_id cap start (import_rows org_id cap now rows s)
unfolding import_rows
import_rows-Imported org_id cap now [] start s h = h
import_rows-Imported org_id cap now (req ∷ rest) start s h =
    import_rows-Imported org_id cap now rest start (import_row org_id cap now req s)
      (import_row-Imported org_id cap now req start s h)

import_rows_accounts :
    (org_id cap now : ℕ) (rows : List ChargerCreate) (s : Import)
    → (import_rows org_id cap now rows s).created
        + length (import_rows org_id cap now rows s).skipped
      ≡ s.created + length s.skipped + length rows
unfolding import_rows
import_rows_accounts org_id cap now [] s = omega arith
import_rows_accounts org_id cap now (req ∷ rest) s = omega (
  arith,
  import_row_accounts org_id cap now req s,
  import_rows_accounts org_id cap now rest (import_row org_id cap now req s),
)

-- Of an organisation with a quota, a bulk import returns, whatever the rows. Every row is counted as
-- created or listed as skipped. The organisation has as many chargers more as were created, and it is
-- within its quota, or where it was if it was over it before.
pub bulk_import_quota :
    (org_id cap now : ℕ) (rows : List ChargerCreate) (db : Db)
    → cap_of org_id db ≡ some cap
    → (s : Import) × (bulk_import org_id rows now db ≡ ok s)
      × (s.created + length s.skipped ≡ length rows)
      × (used_by org_id s.db ≡ used_by org_id db + s.created)
      × (used_by org_id s.db ≤ max cap (used_by org_id db))
unfolding bulk_import
bulk_import_quota org_id cap now rows db e =
    let start : Import = record { db = db; used = used_by org_id db; created = 0; skipped = [] } in
    let h =
      import_rows-Imported org_id cap now rows start start
        (record { counted = refl; grown = refl; bounded = omega arith }) in
    (
      import_rows org_id cap now rows start,
      rw (e, bulk_import) refl,
      omega (arith, import_rows_accounts org_id cap now rows start),
      sym h.counted ∙ omega (arith, h.grown),
      rw (← h.counted) h.bounded,
    )
