-- ===== src/Chargers/Reuse.antt =====
-- What a charger's id carries from one tenant to another.
use charge_pulse.Prelude.{ℕ, ==_iff, Bool, true, none, List, ◌≡◌, refl, any, eq_refl, any_last}
use charge_pulse.Prelude.Result.{ok, bind-eq-ok, if-ok-err, if-err-ok}
use charge_pulse.Database.{Session, OcppEvent, Db}
use charge_pulse.Chargers.{
  ChargerCreate, exists, charger_of, is_owned, insert_charger, check_create, create_charger,
  delete_charger,
}
use charge_pulse.Chargers.Reads.{get_telemetry, get_sessions}

is_owned_new :
    (org_id now : ℕ) (req : ChargerCreate)
    → is_owned org_id req.cp_id (charger_of org_id req now) ≡ true
unfolding charger_of
is_owned_new org_id now req = rw (eq_refl req.cp_id) ((==_iff org_id org_id).1 refl)

-- A charger's history passes to the next owner of its id: a tenant deletes a charger, another tenant
-- creates one with the same id, and reads, as the sessions and the events of its own charger, those that the database
-- had for the first tenant's.
pub create_charger-history :
    (newest : List Session → List Session) (latest : List OcppEvent → List OcppEvent)
    (has_type : OcppEvent → Bool) (old_org new_org now page limit : ℕ) (req : ChargerCreate)
    (db deleted created : Db)
    → delete_charger old_org req.cp_id db ≡ ok deleted
    → create_charger new_org req now deleted ≡ ok created
    → (get_sessions newest new_org req.cp_id none none page limit created
        ≡ get_sessions newest old_org req.cp_id none none page limit db)
      × (get_telemetry latest has_type new_org req.cp_id none none limit created
          ≡ get_telemetry latest has_type old_org req.cp_id none none limit db)
unfolding delete_charger create_charger insert_charger get_sessions get_telemetry
create_charger-history newest latest has_type old_org new_org now page limit req db deleted created
      h k =
    let d = if-ok-err (any (is_owned old_org req.cp_id) db.chargers) _ h in
    let (u, checked, inserted) = bind-eq-ok (check_create new_org req deleted) _ k in
    let c = if-err-ok (exists req.cp_id deleted) _ inserted in
    let mine : any (is_owned new_org req.cp_id) created.chargers ≡ true = rw (← c.1) (
      any_last (is_owned new_org req.cp_id) deleted.chargers (charger_of new_org req now)
        (is_owned_new new_org now req)) in
    rw mine (rw d.0 (rw (← c.1) (rw (← d.1) (refl, refl))))
