-- ===== src/Admin.antt =====
-- The superadmin's operations: backend/app/admin/service.py. The one-time password, which
-- `_generate_temp_password` draws from `secrets`, is an argument.
pub mod Stats
pub mod Suspension
pub mod Passwords
use charge_pulse.Prelude.{
  ℕ, ◌+◌, ◌==◌, String, Bool, true, false, Option, none, some, List, [], ◌∷◌, ◌++◌, ◌&&◌, not, any,
  first, select, map, length, update_where, is_some, str_eq, if◌then◌else◌,
}
use charge_pulse.Prelude.Result.{Result, ok, err, http}
use charge_pulse.Database.{Organisation, Plan, starter, pro, enterprise, Charger, Session}
use charge_pulse.Incidents.{Incident}
use charge_pulse.Accounts.{User, Superadmin, Accounts, Bcrypt, Claims, is_org, has_id}
use charge_pulse.Accounts.Profiles.{is_superadmin_id}
use charge_pulse.Accounts.Members.{unlink}

-- `create_org`: the quota is the column's default for every plan
unfoldable pub create_org : String → String → Plan → ℕ → Accounts → Result (Organisation × Accounts)
unfolding any
create_org name email plan now acc =
    let row : Organisation = record {
      id = acc.next_id;
      name = name;
      email = email;
      plan = plan;
      max_chargers = 100;
      is_active = true;
      created_at = now;
    } in
    if any (λ o. str_eq o.email email) acc.organisations
    then err (http 409 "organisation email already exists")
    else ok (
      row,
      record acc { organisations = acc.organisations ++ row ∷ []; next_id = acc.next_id + 1 },
    )

-- a row of `list_orgs`: the organisation and COUNT(c.cp_id) of its chargers
abbrev pub charger_count : List Charger → ℕ → ℕ
charger_count chargers org_id = length (select (λ c. c.org_id == org_id) chargers)

-- `list_orgs`; `order` is ORDER BY created_at DESC, as the database does it
unfoldable pub list_orgs :
    (List (Organisation × ℕ) → List (Organisation × ℕ))
    → List Charger
    → Accounts
    → List (Organisation × ℕ)
unfolding select
list_orgs order chargers acc = order (map (λ o. (o, charger_count chargers o.id)) acc.organisations)

pub record OrgDetail : Type 0 where
  pub organisation : Organisation
  pub charger_count : ℕ
  pub open_incidents_count : ℕ
  pub total_sessions_count : ℕ

abbrev pub is_open : {F : Type 0} → Incident F → Bool
is_open i = not (is_some i.resolved_at)

unfoldable pub get_org_detail :
    {F : Type 0} → ℕ → List Charger → List (Incident F) → List Session → Accounts → Result OrgDetail
unfolding first select
get_org_detail org_id chargers incidents sessions acc =
    elim (first (is_org org_id) acc.organisations) [
      | none ↦ err (http 404 "organisation not found")
      | some o ↦ ok (record {
        organisation = o;
        charger_count = charger_count chargers org_id;
        open_incidents_count = length (select (λ i. i.org_id == org_id && is_open i) incidents);
        total_sessions_count = length (select (λ s. s.org_id == org_id) sessions);
      })
    ]

abbrev pub suspend : Organisation → Organisation
suspend o = record o { is_active = false }

unfoldable pub deactivate_org : ℕ → Accounts → Result Accounts
unfolding any update_where
deactivate_org org_id acc =
    if any (is_org org_id) acc.organisations
    then ok (record acc { organisations = update_where (is_org org_id) suspend acc.organisations })
    else err (http 404 "organisation not found")

-- `impersonate`: the claims of the token
unfoldable pub impersonate : ℕ → ℕ → Accounts → Result Claims
unfolding any
impersonate superadmin_id org_id acc =
    if any (is_org org_id) acc.organisations
    then ok (record {
      user_id = superadmin_id;
      org_id = some org_id;
      role = "owner";
      is_superadmin = true;
      impersonating = true;
    })
    else err (http 404 "target organisation not found")

-- the CASE of the query
abbrev pub price : Plan → ℕ
price starter = 2500
price pro = 10000
price enterprise = 25000

-- SUM(…) WHERE is_active = TRUE, and 0 where there is no row
unfoldable pub mrr_of : List Organisation → ℕ
mrr_of [] = 0
mrr_of (o ∷ rest) = (if o.is_active then price o.plan else 0) + mrr_of rest

pub record DashboardStats : Type 0 where
  pub total_orgs : ℕ
  pub total_chargers : ℕ
  pub total_incidents : ℕ
  pub mrr : ℕ

unfoldable pub get_dashboard_stats :
    {F : Type 0} → List Charger → List (Incident F) → Accounts → DashboardStats
unfolding select mrr_of
get_dashboard_stats chargers incidents acc = record {
  total_orgs = length acc.organisations;
  total_chargers = length chargers;
  total_incidents = length (select is_open incidents);
  mrr = mrr_of acc.organisations;
}

pub record UserAdminOut : Type 0 where
  pub id : ℕ
  pub email : String
  pub full_name : String
  pub role : String
  pub phone_number : Option String
  pub is_active : Bool
  pub created_at : ℕ
  pub last_login_at : Option ℕ
  pub invite_accepted_at : Option ℕ
  pub org_id : Option ℕ
  pub org_name : Option String
  pub is_superadmin : Bool

abbrev pub name_of : Option Organisation → Option String
name_of none = none
name_of (some o) = some o.name

unfoldable pub user_row : Accounts → User → UserAdminOut
unfolding first
user_row acc u = record {
  id = u.id;
  email = u.email;
  full_name = u.full_name;
  role = u.role;
  phone_number = u.phone_number;
  is_active = u.is_active;
  created_at = u.created_at;
  last_login_at = u.last_login_at;
  invite_accepted_at = u.invite_accepted_at;
  org_id = some u.org_id;
  org_name = name_of (first (is_org u.org_id) acc.organisations);
  is_superadmin = false;
}

unfoldable pub superadmin_row : Superadmin → UserAdminOut
superadmin_row a = record {
  id = a.id;
  email = a.email;
  full_name = a.full_name;
  role = "superadmin";
  phone_number = none;
  is_active = true;
  created_at = a.created_at;
  last_login_at = none;
  invite_accepted_at = none;
  org_id = none;
  org_name = none;
  is_superadmin = true;
}

-- `list_all_users`, ordered by the database
unfoldable pub list_all_users :
    (List UserAdminOut → List UserAdminOut) → Accounts → List UserAdminOut
unfolding user_row superadmin_row
list_all_users order acc =
    order (map (user_row acc) acc.users ++ map superadmin_row acc.superadmins)

pub record ResetPassword : Type 0 where
  pub user_id : ℕ
  pub email : String
  pub temporary_password : String

unfoldable pub reset_user_password :
    Bcrypt → String → ℕ → Accounts → Result (ResetPassword × Accounts)
unfolding first update_where
reset_user_password bc temp user_id acc = elim (first (has_id user_id) acc.users) [
  | some u ↦ ok (
    record { user_id = u.id; email = u.email; temporary_password = temp },
    record acc {
      users =
          update_where (has_id user_id) (λ v. record v { password_hash = bc.hashpw temp })
            acc.users;
    },
  )
  | none ↦ elim (first (is_superadmin_id user_id) acc.superadmins) [
    | some a ↦ ok (
      record { user_id = a.id; email = a.email; temporary_password = temp },
      record acc {
        superadmins =
            update_where (is_superadmin_id user_id)
              (λ b. record b { password_hash = bc.hashpw temp }) acc.superadmins;
      },
    )
    | none ↦ err (http 404 "user not found")
  ]
]

unfoldable pub set_user_active : ℕ → Bool → Accounts → Result Accounts
unfolding any update_where
set_user_active user_id active acc =
    if any (has_id user_id) acc.users
    then ok (record acc {
      users = update_where (has_id user_id) (λ u. record u { is_active = active }) acc.users;
    })
    else err (http 404 "user not found")

unfoldable pub delete_user : ℕ → ℕ → Accounts → Result Accounts
unfolding any select
delete_user user_id requesting_superadmin_id acc =
    if user_id == requesting_superadmin_id
    then err (http 400 "cannot delete your own account")
    else if any (is_superadmin_id user_id) acc.superadmins
    then err (http 400 "use a different flow to remove superadmins")
    else if any (has_id user_id) acc.users
    then ok (record acc {
      users = map (unlink user_id) (select (λ u. not (has_id user_id u)) acc.users);
    })
    else err (http 404 "user not found")
