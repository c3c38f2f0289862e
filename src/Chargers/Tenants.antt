-- ===== src/Chargers/Tenants.antt =====
-- What a request of one organisation does to the chargers of others, and the ids of chargers.
use charge_pulse.Prelude.{
  ℕ, String, Bool, false, List, [], ◌∷◌, ◌≡◌, ◌≢◌, refl, arith, any, select, ==_iff, not,
  Bool-cases, inl, inr, ◌⊎◌,
}
use charge_pulse.Prelude.Result.{ok, err, http}
use charge_pulse.Database.{Charger, Db}
use charge_pulse.Gateway.Router.{is_charger}
use charge_pulse.Chargers.{is_of_org, is_owned, delete_charger}

-- no two rows have one id, the primary key
abbrev pub UniqueIds : List Charger → Type 0
UniqueIds [] = Unit
UniqueIds (c ∷ cs) = (any (is_charger c.cp_id) cs ≡ false) × UniqueIds cs

select_keeps :
    (org_id other : ℕ) (cp_id : String) (cs : List Charger)
    → org_id ≢ other
    → select (is_of_org other) (select (λ c. not (is_owned org_id cp_id c)) cs)
      ≡ select (is_of_org other) cs
unfolding select
select_keeps org_id other cp_id [] ne = refl
select_keeps org_id other cp_id (c ∷ cs) ne = ground (
  arith,
  ==_iff c.org_id org_id,
  ==_iff c.org_id other,
  ne,
  select_keeps org_id other cp_id cs ne,
)

any-select : (p : Charger → Bool) (cs : List Charger) → any p (select (λ c. not (p c)) cs) ≡ false
unfolding any select
any-select p [] = refl
any-select p (c ∷ cs) = elim (Bool-cases (p c)) [
  | inl e ↦ rw e (any-select p cs)
  | inr e ↦ rw e (rw e (any-select p cs))
]

-- A deletion by an organisation: the charger is gone, and the chargers of every other organisation
-- are as they were. If no charger of the organisation has the id, the request fails with 404.
pub delete_charger_lem :
    (org_id other : ℕ) (cp_id : String) (db : Db)
    → org_id ≢ other
    → ((any (is_owned org_id cp_id) db.chargers ≡ false)
        × (delete_charger org_id cp_id db ≡ err (http 404 "charger not found")))
      ⊎ ((db' : Db) × (delete_charger org_id cp_id db ≡ ok db')
          × (any (is_owned org_id cp_id) db'.chargers ≡ false)
          × (select (is_of_org other) db'.chargers ≡ select (is_of_org other) db.chargers))
unfolding delete_charger
delete_charger_lem org_id other cp_id db ne =
    elim (Bool-cases (any (is_owned org_id cp_id) db.chargers)) [
      | inr absent ↦ inl (absent, rw absent refl)
      | inl there ↦ inr (
        record db { chargers = select (λ c. not (is_owned org_id cp_id c)) db.chargers },
        rw there refl,
        any-select (is_owned org_id cp_id) db.chargers,
        select_keeps org_id other cp_id db.chargers ne,
      )
    ]
