-- ===== src/Accounts.antt =====
-- Accounts: backend/app/auth/service.py, with the parts of backend/app/auth/security.py that it uses,
-- and backend/app/users/service.py. bcrypt is a parameter; a password that it refuses to hash is not modelled. The
-- token of `secrets` and the readings of the clock are arguments. The JWT is the record of its claims.
pub mod Members
pub mod Profiles
pub mod Invites
pub mod Owners
use charge_pulse.Prelude.{
  ℕ, ◌+◌, ◌==◌, String, Bool, true, false, Option, none, some, List, [], ◌∷◌, ◌++◌, ◌&&◌, not, any,
  first, select, update_where, ◌||◌, if◌then◌else◌, str_eq, is_some,
}
use charge_pulse.Prelude.Result.{Result, ok, err, http, unique_violation}
use charge_pulse.Database.{Organisation, Plan, starter}

pub record User : Type 0 where
  pub id : ℕ
  pub org_id : ℕ
  pub email : String
  pub password_hash : String
  pub full_name : String
  pub phone_number : Option String
  pub role : String
  pub is_active : Bool
  pub created_at : ℕ
  pub last_login_at : Option ℕ
  pub invited_by : Option ℕ
  pub invite_token : Option String
  pub invite_accepted_at : Option ℕ

pub record Superadmin : Type 0 where
  pub id : ℕ
  pub email : String
  pub password_hash : String
  pub full_name : String
  pub created_at : ℕ

-- The tables. `next_id` gives the ids of the new rows.
pub record Accounts : Type 0 where
  pub users : List User
  pub superadmins : List Superadmin
  pub organisations : List Organisation
  pub next_id : ℕ

-- bcrypt: `checkpw` is `none` where it raises
pub record Bcrypt : Type 0 where
  pub hashpw : String → String
  pub checkpw : String → String → Option Bool

pub record UserOut : Type 0 where
  pub id : ℕ
  pub email : String
  pub full_name : String
  pub role : String
  pub created_at : ℕ

pub record OrgOut : Type 0 where
  pub id : ℕ
  pub name : String
  pub email : String
  pub plan : Plan
  pub max_chargers : ℕ

-- the payload of the token, less its times
pub record Claims : Type 0 where
  pub user_id : ℕ
  pub org_id : Option ℕ
  pub role : String
  pub is_superadmin : Bool
  pub impersonating : Bool

pub record AuthResponse : Type 0 where
  pub access_token : Claims
  pub user : UserOut
  pub organisation : Option OrgOut

abbrev pub user_out : User → UserOut
user_out u = record {
  id = u.id;
  email = u.email;
  full_name = u.full_name;
  role = u.role;
  created_at = u.created_at;
}

abbrev pub superadmin_out : Superadmin → UserOut
superadmin_out a = record {
  id = a.id;
  email = a.email;
  full_name = a.full_name;
  role = "superadmin";
  created_at = a.created_at;
}

abbrev pub org_out : Organisation → OrgOut
org_out o = record {
  id = o.id;
  name = o.name;
  email = o.email;
  plan = o.plan;
  max_chargers = o.max_chargers;
}

abbrev pub org_id_of : Option OrgOut → Option ℕ
org_id_of none = none
org_id_of (some o) = some o.id

-- `_build_auth_response`, with `impersonating` at its default
unfoldable pub build_auth_response : UserOut → Option OrgOut → Bool → AuthResponse
build_auth_response user org is_superadmin = record {
  access_token = record {
    user_id = user.id;
    org_id = org_id_of org;
    role = user.role;
    is_superadmin = is_superadmin;
    impersonating = false;
  };
  user = user;
  organisation = org;
}

abbrev pub has_email : String → User → Bool
has_email email u = str_eq u.email email

abbrev pub has_id : ℕ → User → Bool
has_id user_id u = u.id == user_id

abbrev pub is_superadmin_email : String → Superadmin → Bool
is_superadmin_email email a = str_eq a.email email

abbrev pub is_org : ℕ → Organisation → Bool
is_org org_id o = o.id == org_id

abbrev pub has_token : String → User → Bool
has_token token u = elim u.invite_token [ none ↦ false | some t ↦ str_eq t token ]

-- users u JOIN organisations o ON o.id = u.org_id, the first row that the test passes
unfoldable pub joined : (User → Bool) → Accounts → Option (User × Organisation)
unfolding first
joined p acc = elim (first p acc.users) [
  | none ↦ none
  | some u ↦ elim (first (is_org u.org_id) acc.organisations) [ none ↦ none | some o ↦ some (u, o) ]
]

module _ (bc : Bcrypt) where
  -- `verify_password`
  unfoldable pub verify_password : String → String → Bool
  verify_password plain hashed = elim (bc.checkpw plain hashed) [ none ↦ false | some b ↦ b ]

  -- `register`: the two INSERTs are one transaction
  unfoldable pub register :
      String → String → String → String → String → ℕ → Accounts → Result (AuthResponse × Accounts)
  unfolding any build_auth_response
  register org_name email password full_name phone_number now acc =
      let org : Organisation = record {
        id = acc.next_id;
        name = org_name;
        email = email;
        plan = starter;
        max_chargers = 100;
        is_active = true;
        created_at = now;
      } in
      let user : User = record {
        id = acc.next_id + 1;
        org_id = acc.next_id;
        email = email;
        password_hash = bc.hashpw password;
        full_name = full_name;
        phone_number = some phone_number;
        role = "owner";
        is_active = true;
        created_at = now;
        last_login_at = none;
        invited_by = none;
        invite_token = none;
        invite_accepted_at = none;
      } in
      if any (has_email email) acc.users
      then err (http 409 "email already registered")
      else if any (λ o. str_eq o.email email) acc.organisations
      then err unique_violation
      else ok (
        build_auth_response (user_out user) (some (org_out org)) false,
        record acc {
          users = acc.users ++ user ∷ [];
          organisations = acc.organisations ++ org ∷ [];
          next_id = acc.next_id + 2;
        },
      )

  -- the second half of `login`, where the email is not a superadmin's
  unfoldable pub login_user : String → String → ℕ → Accounts → Result (AuthResponse × Accounts)
  unfolding joined verify_password update_where build_auth_response
  login_user email password now acc = elim (joined (has_email email) acc) [
    | none ↦ err (http 401 "invalid credentials")
    | some (u, o) ↦
        if not u.is_active || not (verify_password password u.password_hash)
        then err (http 401 "invalid credentials")
        else if not (str_eq u.role "owner")
        then err (http 401 "invalid credentials")
        else ok (
          build_auth_response (user_out u) (some (org_out o)) false,
          record acc {
            users =
                update_where (has_id u.id) (λ v. record v { last_login_at = some now }) acc.users;
          },
        )
  ]

  unfoldable pub login : String → String → ℕ → Accounts → Result (AuthResponse × Accounts)
  unfolding login_user first
  login email password now acc = elim (first (is_superadmin_email email) acc.superadmins) [
    | some a ↦
        if verify_password password a.password_hash
        then ok (build_auth_response (superadmin_out a) none true, acc)
        else err (http 401 "invalid credentials")
    | none ↦ login_user email password now acc
  ]

  -- the assignments of `accept_invite`
  unfoldable pub accept : String → String → ℕ → User → User
  accept full_name password now u = record u {
    full_name = full_name;
    password_hash = bc.hashpw password;
    invite_token = none;
    invite_accepted_at = some now;
    is_active = true;
  }

  -- `accept_invite`: the name in the response is the request's
  unfoldable pub accept_invite :
      String → String → String → ℕ → Accounts → Result (AuthResponse × Accounts)
  unfolding accept joined update_where build_auth_response
  accept_invite token full_name password now acc = elim (joined (has_token token) acc) [
    | none ↦ err (http 401 "invalid or expired invite token")
    | some (u, o) ↦ ok (
      build_auth_response (record (user_out u) { full_name = full_name }) (some (org_out o)) false,
      record acc { users = update_where (has_id u.id) (accept full_name password now) acc.users },
    )
  ]
