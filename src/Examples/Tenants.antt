-- ===== src/Examples/Tenants.antt =====
-- The chargers of an organisation.
use charge_pulse.Prelude.{
  true, ℕ, Permᴰ, IsDescending, ◌+◌, ◌≤◌, max, String, none, some, List, [], ◌∷◌, ◌≡◌, refl, arith,
  select, length,
}
use charge_pulse.Prelude.Result.{ok, ◌>>=◌}
use charge_pulse.Database.{Charger, Db}
use charge_pulse.Chargers.{
  ChargerCreate, exists, used_by, cap_of, insert_charger, check_create, Import, bulk_import,
  list_chargers,
}
use charge_pulse.Chargers.Quota.{create_race, bulk_import_quota}
use charge_pulse.Chargers.Paging.{listed_from, list_chargers_cover}
use charge_pulse.Examples.{w, charger, differ}

abbrev request : String → ChargerCreate
request cp_id = record {
  cp_id = cp_id;
  display_name = none;
  vendor = none;
  model = none;
  address = none;
  city = none;
  state = none;
  pincode = none;
  lat = some "19.07";
  lng = some "72.87";
  connector_count = 1;
}

-- two of three chargers
abbrev db : Db
db = record w.db { chargers = charger "CP-1" 1 ∷ charger "CP-2" 1 ∷ charger "CP-3" 2 ∷ [] }

create_race_example :
    (check_create 1 (request "CP-4") db ≡ ok tt)
    × (check_create 1 (request "CP-5") db ≡ ok tt)
    × (after : Db) × ((insert_charger 1 (request "CP-4") 9 db
          >>= insert_charger 1 (request "CP-5") 9)
        ≡ ok after)
    × (used_by 1 after ≡ 4)
unfolding exists cap_of used_by
create_race_example =
    create_race 1 3 (request "CP-4") (request "CP-5") 9 9 db refl refl refl refl
      (differ "CP-4" "CP-5" refl)

-- a new charger, one that is there, and one too many
abbrev rows : List ChargerCreate
rows = request "CP-4" ∷ request "CP-1" ∷ request "CP-5" ∷ []

bulk_import_quota_example :
    (s : Import) × (bulk_import 1 rows 9 db ≡ ok s)
    × (s.created + length s.skipped ≡ 3)
    × (used_by 1 s.db ≡ used_by 1 db + s.created)
    × (used_by 1 s.db ≤ max 3 (used_by 1 db))
unfolding cap_of
bulk_import_quota_example = bulk_import_quota 1 3 9 rows db refl

-- two chargers, the newer one last, as the database returns them
abbrev older : Charger
older = record (charger "CP-1" 1) { created_at = 5 }

abbrev two : Db
two = record w.db { chargers = older ∷ charger "CP-2" 1 ∷ [] }

abbrev newest_first : ℕ → List Charger → List Charger
newest_first k rows = elim rows [
  | [] ↦ []
  | a ∷ rest ↦ elim rest [ [] ↦ a ∷ [] | b ∷ more ↦ b ∷ a ∷ more ]
]

list_chargers_cover_example :
    Permᴰ (older ∷ charger "CP-2" 1 ∷ []) (
      listed_from newest_first 1
        (some "faulted")
        (λ c. true)
        1
        two
        (list_chargers (newest_first 1) 1 (some "faulted") (λ c. true) 1 1 two).pages
        1)
    × IsDescending
        (λ c. c.created_at)
        (listed_from newest_first 1
          (some "faulted")
          (λ c. true)
          1
          two
          (list_chargers (newest_first 1) 1 (some "faulted") (λ c. true) 1 1 two).pages
          1)
unfolding select
list_chargers_cover_example =
    list_chargers_cover newest_first 1 (some "faulted") (λ c. true) 1 two 1 (omega arith)
      ((omega arith, tt), (tt, tt)) (λ k. Permᴰ.swap refl refl) (λ k. ((omega arith, tt), (tt, tt)))
