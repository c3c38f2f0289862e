-- ===== src/Chargers/Table.antt =====
-- The table of chargers as a finite map: what `create_charger` and `delete_charger` promise.
use mathlib.Core.Path.{fun_ext}
use charge_pulse.Prelude.{
  ℕ, ◌==◌, ==_iff, String, Bool, true, false, Option, none, some, List, [], ◌∷◌, ◌++◌, ◌≡◌, refl,
  sym, ap, ◌∙◌, arith, any, first, select, str_eq, eq_iff, any-first, any-append, if◌then◌else◌,
  not, Bool-cases, inl, inr,
}
use charge_pulse.Prelude.Result.{ok, bind-eq-ok, if-ok-err, if-err-ok}
use charge_pulse.Database.{Charger, Db}
use charge_pulse.Gateway.Router.{is_charger}
use charge_pulse.Chargers.{
  ChargerCreate, exists, charger_of, is_owned, insert_charger, check_create, create_charger,
  delete_charger,
}

-- the abstract state: the charger of each id
abbrev pub ChargerMap : Type 0
ChargerMap = String → Option Charger

-- what the table stands for
unfoldable pub map_of : Db → ChargerMap
map_of db cp_id = first (is_charger cp_id) db.chargers

-- the fleet with another entry for an id
unfoldable pub assign : String → Option Charger → ChargerMap → ChargerMap
assign cp_id entry fleet other = if str_eq cp_id other then entry else fleet other

-- a request on the table, with the tenant that asks
pub data TableRequest : Type 0 where
  create delete : ℕ → String → TableRequest

-- what a request may do to a fleet: an id that is free gets a charger of the tenant that asks, and the charger
-- of this id goes, which is this tenant's
pub data MapStep : TableRequest → ChargerMap → ChargerMap → Type 0 where
  created :
      (org_id : ℕ) (cp_id : String) (fleet : ChargerMap) (c : Charger)
      → fleet cp_id ≡ none
      → c.cp_id ≡ cp_id
      → c.org_id ≡ org_id
      → MapStep (TableRequest.create org_id cp_id) fleet (assign cp_id (some c) fleet)
  deleted :
      (org_id : ℕ) (cp_id : String) (fleet : ChargerMap) (c : Charger)
      → fleet cp_id ≡ some c
      → c.org_id ≡ org_id
      → MapStep (TableRequest.delete org_id cp_id) fleet (assign cp_id none fleet)

-- the requests on the table that succeed
pub data TableStep : TableRequest → Db → Db → Type 0 where
  create_returns :
      (org_id : ℕ) (cp_id : String) (req : ChargerCreate) (now : ℕ) (db db' : Db)
      → req.cp_id ≡ cp_id
      → create_charger org_id req now db ≡ ok db'
      → TableStep (TableRequest.create org_id cp_id) db db'
  delete_returns :
      (org_id : ℕ) (cp_id : String) (db db' : Db)
      → delete_charger org_id cp_id db ≡ ok db'
      → TableStep (TableRequest.delete org_id cp_id) db db'

-- no two rows have one id
abbrev pub IsKeyed : List Charger → Type 0
IsKeyed [] = Unit
IsKeyed (c ∷ cs) = (any (is_charger c.cp_id) cs ≡ false) × IsKeyed cs

IsKeyed-append :
    (cs : List Charger) (c : Charger)
    → any (is_charger c.cp_id) cs ≡ false
    → IsKeyed cs
    → IsKeyed (cs ++ c ∷ [])
unfolding any
IsKeyed-append [] c free h = (refl, tt)
IsKeyed-append (x ∷ cs) c free h = (
  any-append (is_charger x.cp_id) cs c h.0
      (ground (arith, free, eq_iff x.cp_id c.cp_id, eq_iff c.cp_id x.cp_id)),
  IsKeyed-append cs c (ground (arith, free)) h.1,
)

any-select-false :
    (p q : Charger → Bool) (xs : List Charger) → any p xs ≡ false → any p (select q xs) ≡ false
unfolding any select
any-select-false p q [] h = refl
any-select-false p q (x ∷ xs) h = ground (arith, h, any-select-false p q xs)

IsKeyed-select : (q : Charger → Bool) (cs : List Charger) → IsKeyed cs → IsKeyed (select q cs)
unfolding select
IsKeyed-select q [] h = tt
IsKeyed-select q (c ∷ cs) h = elim (Bool-cases (q c)) [
  | inl e ↦ rw e (any-select-false (is_charger c.cp_id) q cs h.0, IsKeyed-select q cs h.1)
  | inr e ↦ rw e (IsKeyed-select q cs h.1)
]

map_of-created :
    (cs : List Charger) (c : Charger) (other : String)
    → any (is_charger c.cp_id) cs ≡ false
    → first (is_charger other) (cs ++ c ∷ [])
      ≡ (if str_eq c.cp_id other then some c else first (is_charger other) cs)
unfolding any first
map_of-created [] c other free = refl
map_of-created (x ∷ cs) c other free = ground (
  arith,
  free,
  eq_iff x.cp_id c.cp_id,
  eq_iff x.cp_id other,
  eq_iff c.cp_id other,
  map_of-created cs c other,
)

owned_any :
    (org_id : ℕ) (cp_id : String) (cs : List Charger)
    → any (is_charger cp_id) cs ≡ false
    → any (is_owned org_id cp_id) cs ≡ false
unfolding any
owned_any org_id cp_id [] h = refl
owned_any org_id cp_id (x ∷ cs) h = ground (arith, h, owned_any org_id cp_id cs)

absurd : false ≡ true → ⊥
absurd h = cc

-- a row behind one with the same id
shadowed :
    (org_id : ℕ) (cp_id : String) (x : Charger) (cs : List Charger)
    → any (is_charger x.cp_id) cs ≡ false
    → is_charger cp_id x ≡ true
    → any (is_owned org_id cp_id) cs ≡ true
    → ⊥
shadowed org_id cp_id x cs keyed e h =
    let free : any (is_charger cp_id) cs ≡ false =
      ap (λ s. any (is_charger s) cs) (sym ((eq_iff x.cp_id cp_id).0 e)) ∙ keyed in
    absurd (sym (owned_any org_id cp_id cs free) ∙ h)

owner :
    (org_id : ℕ) (cp_id : String) (cs : List Charger)
    → IsKeyed cs
    → any (is_owned org_id cp_id) cs ≡ true
    → (c : Charger) × (first (is_charger cp_id) cs ≡ some c) × (c.org_id ≡ org_id)
unfolding any first
owner org_id cp_id [] keyed h = cc
owner org_id cp_id (x ∷ cs) keyed h = elim (Bool-cases (is_charger cp_id x)) [
  | inl e ↦ elim (Bool-cases (x.org_id == org_id)) [
    | inl k ↦ (x, rw e refl, (==_iff x.org_id org_id).0 k)
    | inr k ↦ elim (shadowed org_id cp_id x cs keyed.0 e (rw k at (rw e at h))) [ ]
  ]
  | inr e ↦ let (c, there, own) = owner org_id cp_id cs keyed.1 (rw e at h) in (c, rw e there, own)
]

deleted_other :
    (org_id : ℕ) (cp_id other : String) (cs : List Charger)
    → str_eq cp_id other ≡ false
    → first (is_charger other) (select (λ c. not (is_owned org_id cp_id c)) cs)
      ≡ first (is_charger other) cs
unfolding first select
deleted_other org_id cp_id other [] h = refl
deleted_other org_id cp_id other (x ∷ cs) h = elim (Bool-cases (is_owned org_id cp_id x)) [
  | inl e ↦
      let differs : is_charger other x ≡ false =
        ground (arith, h, e, eq_iff x.cp_id cp_id, eq_iff x.cp_id other, eq_iff cp_id other) in
      rw e (rw differs (deleted_other org_id cp_id other cs h))
  | inr e ↦ rw e (elim (Bool-cases (is_charger other x)) [
    | inl k ↦ rw k refl
    | inr k ↦ rw k (deleted_other org_id cp_id other cs h)
  ])
]

deleted_same :
    (org_id : ℕ) (cp_id : String) (cs : List Charger)
    → IsKeyed cs
    → any (is_owned org_id cp_id) cs ≡ true
    → first (is_charger cp_id) (select (λ c. not (is_owned org_id cp_id c)) cs) ≡ none
unfolding any first select
deleted_same org_id cp_id [] keyed h = cc
deleted_same org_id cp_id (x ∷ cs) keyed h = elim (Bool-cases (is_charger cp_id x)) [
  | inl e ↦ elim (Bool-cases (x.org_id == org_id)) [
    | inl k ↦
        let free : any (is_charger cp_id) cs ≡ false =
          ap (λ s. any (is_charger s) cs) (sym ((eq_iff x.cp_id cp_id).0 e)) ∙ keyed.0 in
        rw e (
          rw k (
            any-first (is_charger cp_id) _
              (any-select-false (is_charger cp_id) (λ c. not (is_owned org_id cp_id c)) cs free)))
    | inr k ↦ elim (shadowed org_id cp_id x cs keyed.0 e (rw k at (rw e at h))) [ ]
  ]
  | inr e ↦ rw e (rw e (deleted_same org_id cp_id cs keyed.1 (rw e at h)))
]

map_of-create :
    (db : Db) (c : Charger)
    → any (is_charger c.cp_id) db.chargers ≡ false
    → map_of (record db { chargers = db.chargers ++ c ∷ [] }) ≡ assign c.cp_id (some c) (map_of db)
unfolding map_of assign
map_of-create db c free = fun_ext (λ other. map_of-created db.chargers c other free)

map_of-delete :
    (org_id : ℕ) (cp_id : String) (db : Db)
    → IsKeyed db.chargers
    → any (is_owned org_id cp_id) db.chargers ≡ true
    → map_of (record db { chargers = select (λ c. not (is_owned org_id cp_id c)) db.chargers })
      ≡ assign cp_id none (map_of db)
unfolding map_of assign
map_of-delete org_id cp_id db keyed h = fun_ext (λ other. elim (Bool-cases (str_eq cp_id other)) [
  | inl e ↦ rw e (rw (← (eq_iff cp_id other).0 e) (deleted_same org_id cp_id db.chargers keyed h))
  | inr e ↦ rw e (deleted_other org_id cp_id other db.chargers e)
])

-- The table of chargers implements a finite map: a request of a tenant to create or to delete the charger of an id,
-- where it succeeds, keeps it so that no two rows have one id, and it takes the map that the table stands for through
-- the step that the specification has for the request: the id was free and gets a charger of this tenant, or the id's
-- charger was this tenant's and goes, and no other id is touched.
pub TableStep-MapStep :
    {request : TableRequest} {db db' : Db}
    → TableStep request db db'
    → IsKeyed db.chargers
    → (IsKeyed db'.chargers) × MapStep request (map_of db) (map_of db')
unfolding create_charger insert_charger delete_charger exists charger_of map_of
TableStep-MapStep (create_returns org_id cp_id req now db db' same h) keyed =
    let (u, checked, inserted) = bind-eq-ok (check_create org_id req db) _ h in
    let c = if-err-ok (exists req.cp_id db) _ inserted in
    let new = charger_of org_id req now in
    let step : map_of db' ≡ assign req.cp_id (some new) (map_of db) =
      rw (← c.1) (map_of-create db new c.0) in
    (
      rw (← c.1) (IsKeyed-append db.chargers new c.0 keyed),
      rw (← same) (
          rw step (
            MapStep.created org_id req.cp_id (map_of db) new
              (any-first (is_charger req.cp_id) db.chargers c.0) refl refl)),
    )
TableStep-MapStep (delete_returns org_id cp_id db db' h) keyed =
    let d = if-ok-err (any (is_owned org_id cp_id) db.chargers) _ h in
    let (c, there, own) = owner org_id cp_id db.chargers keyed d.0 in
    (
      rw (← d.1) (IsKeyed-select (λ x. not (is_owned org_id cp_id x)) db.chargers keyed),
      rw (← d.1) (
          rw (map_of-delete org_id cp_id db keyed d.0)
            (MapStep.deleted org_id cp_id (map_of db) c there own)),
    )
