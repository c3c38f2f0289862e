-- ===== src/Admin/Stats.antt =====
-- The figures of the dashboard.
use charge_pulse.Prelude.{
  ℕ, ◌+◌, ◌*◌, ◌≤◌, String, Bool, List, [], ◌∷◌, ◌++◌, ◌≡◌, ap, arith, any, str_eq, select, length,
  length-append, if◌then◌else◌, Bool-cases, inl, inr, update_where, length-update_where,
}
use charge_pulse.Prelude.Result.{ok, if-err-ok, if-ok-err}
use charge_pulse.Database.{Organisation, Plan, starter, pro, enterprise, Charger}
use charge_pulse.Incidents.{Incident}
use charge_pulse.Accounts.{Accounts, is_org}
use charge_pulse.Admin.{create_org, deactivate_org, suspend, price, mrr_of, get_dashboard_stats}

abbrev pub is_paying : Organisation → Bool
is_paying o = o.is_active

price_bounds : (p : Plan) → (2500 ≤ price p) × (price p ≤ 25000)
price_bounds starter = (omega arith, omega arith)
price_bounds pro = (omega arith, omega arith)
price_bounds enterprise = (omega arith, omega arith)

mrr_of-bounds :
    (os : List Organisation)
    → (2500 * length (select is_paying os) ≤ mrr_of os)
      × (mrr_of os ≤ 25000 * length (select is_paying os))
unfolding mrr_of select
mrr_of-bounds [] = (omega arith, omega arith)
mrr_of-bounds (o ∷ os) =
    let p = price_bounds o.plan in
    let r = mrr_of-bounds os in
    elim (Bool-cases o.is_active) [
      | inl e ↦ rw e (omega (arith, p.0, r.0), omega (arith, p.1, r.1))
      | inr e ↦ rw e (omega (arith, r.0), omega (arith, r.1))
    ]

mrr_of-append :
    (os : List Organisation) (o : Organisation)
    → mrr_of (os ++ o ∷ []) ≡ mrr_of os + (if o.is_active then price o.plan else 0)
unfolding mrr_of
mrr_of-append [] o = omega arith
mrr_of-append (x ∷ os) o = omega (arith, mrr_of-append os o)

mrr_of-suspend :
    (org_id : ℕ) (os : List Organisation)
    → mrr_of (update_where (is_org org_id) suspend os) ≤ mrr_of os
unfolding mrr_of update_where
mrr_of-suspend org_id [] = omega arith
mrr_of-suspend org_id (o ∷ os) = ground (arith, mrr_of-suspend org_id os)

created_orgs :
    {r s : Organisation} {a b : Accounts}
    → ◌≡◌ {A = Organisation × Accounts} (r, a) (s, b)
    → a.organisations ≡ b.organisations
created_orgs e = ap (λ (x : Organisation × Accounts). x.1.organisations) e

-- The monthly revenue lies between 2500 and 25000 for each active organisation, and counts no other.
-- A new organisation raises the number of organisations by one and the revenue by its plan's price, and a deactivation
-- keeps the number and does not raise the revenue.
pub dashboard_lem :
    {F : Type 0} (chargers : List Charger) (incidents : List (Incident F)) (acc : Accounts)
    (name email : String) (plan : Plan) (now org_id : ℕ) (row : Organisation)
    (created deactivated : Accounts)
    → create_org name email plan now acc ≡ ok (row, created)
    → deactivate_org org_id acc ≡ ok deactivated
    → let stats = get_dashboard_stats chargers incidents in
      (2500 * length (select is_paying acc.organisations) ≤ (stats acc).mrr)
      × ((stats acc).mrr ≤ 25000 * length (select is_paying acc.organisations))
      × ((stats created).total_orgs ≡ (stats acc).total_orgs + 1)
      × ((stats created).mrr ≡ (stats acc).mrr + price plan)
      × ((stats deactivated).total_orgs ≡ (stats acc).total_orgs)
      × ((stats deactivated).mrr ≤ (stats acc).mrr)
unfolding create_org deactivate_org get_dashboard_stats
dashboard_lem chargers incidents acc name email plan now org_id row created deactivated h k =
    let c = if-err-ok (any (λ o. str_eq o.email email) acc.organisations) _ h in
    let d = if-ok-err (any (is_org org_id) acc.organisations) _ k in
    let b = mrr_of-bounds acc.organisations in
    (
      b.0,
      b.1,
      rw (← created_orgs c.1) (length-append acc.organisations _),
      rw (← created_orgs c.1) (mrr_of-append acc.organisations _),
      rw (← d.1) (length-update_where (is_org org_id) suspend acc.organisations),
      rw (← d.1) (mrr_of-suspend org_id acc.organisations),
    )
