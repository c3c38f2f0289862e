-- ===== src/Accounts/Profiles.antt =====
-- The signed-in user: `get_me` and `update_profile` of backend/app/auth/service.py, and `list_users` of
-- backend/app/users/service.py.
use charge_pulse.Prelude.{
  ℕ, ◌==◌, String, Bool, Option, none, some, List, ◌≡◌, refl, ◌∙◌, first, first-update_where,
  first-passes, select, update_where, if◌then◌else◌, str_eq,
}
use charge_pulse.Prelude.Result.{Result, ok, err, http, type_error}
use charge_pulse.Database.{Organisation}
use charge_pulse.Accounts.{
  User, Superadmin, Accounts, Bcrypt, UserOut, OrgOut, user_out, superadmin_out, org_out, has_id,
  is_org, joined,
}

pub record MeResponse : Type 0 where
  pub user : UserOut
  pub organisation : Option OrgOut

abbrev pub is_superadmin_id : ℕ → Superadmin → Bool
is_superadmin_id user_id a = a.id == user_id

unfoldable pub get_me : ℕ → Accounts → Result MeResponse
unfolding first joined
get_me user_id acc = elim (first (is_superadmin_id user_id) acc.superadmins) [
  | some a ↦ ok (record { user = superadmin_out a; organisation = none })
  | none ↦ elim (joined (has_id user_id) acc) [
    | none ↦ err (http 404 "user not found")
    | some (u, o) ↦ ok (record { user = user_out u; organisation = some (org_out o) })
  ]
]

-- a field that is `None` or empty is not written
abbrev pub given : Option String → String → String
given none old = old
given (some s) old = if str_eq s "" then old else s

-- `hash_password(req.password)` where there is a password
abbrev pub new_hash : Bcrypt → Option String → String → String
new_hash bc none old = old
new_hash bc (some s) old = if str_eq s "" then old else bc.hashpw s

unfoldable pub update_user : Bcrypt → Option String → Option String → User → User
update_user bc full_name password u = record u {
  full_name = given full_name u.full_name;
  password_hash = new_hash bc password u.password_hash;
}

unfoldable pub update_superadmin : Bcrypt → Option String → Option String → Superadmin → Superadmin
update_superadmin bc full_name password a = record a {
  full_name = given full_name a.full_name;
  password_hash = new_hash bc password a.password_hash;
}

-- `update_profile`: the row is read again for the response
unfoldable pub update_profile :
    Bcrypt → ℕ → Option String → Option String → Accounts → Result (UserOut × Accounts)
unfolding first update_where update_user update_superadmin
update_profile bc user_id full_name password acc =
    elim (first (is_superadmin_id user_id) acc.superadmins) [
      | some a ↦
          let after : Accounts = record acc {
            superadmins =
                update_where (is_superadmin_id user_id) (update_superadmin bc full_name password)
                  acc.superadmins;
          } in
          elim (first (is_superadmin_id user_id) after.superadmins) [
            | some b ↦ ok (superadmin_out b, after)
            | none ↦ err type_error
          ]
      | none ↦ elim (first (has_id user_id) acc.users) [
        | none ↦ err (http 404 "user not found")
        | some u ↦
            let after : Accounts = record acc {
              users = update_where (has_id user_id) (update_user bc full_name password) acc.users;
            } in
            elim (first (has_id user_id) after.users) [
              | some v ↦ ok (user_out v, after)
              | none ↦ err type_error
            ]
      ]
    ]

-- `list_users`; `order` is ORDER BY created_at DESC, as the database does it
unfoldable pub list_users : (List User → List User) → ℕ → Accounts → List User
unfolding select
list_users order org_id acc = order (select (λ u. u.org_id == org_id) acc.users)

-- The profile update of a user who is no superadmin succeeds, and what it answers is what `get_me`
-- answers after it, provided that the user's organisation is there. The name is the one given, if one is given that is
-- not empty.
pub update_profile-get_me :
    (bc : Bcrypt) (user_id : ℕ) (full_name password : Option String) (acc : Accounts) (u : User)
    (o : Organisation)
    → first (is_superadmin_id user_id) acc.superadmins ≡ none
    → first (has_id user_id) acc.users ≡ some u
    → first (is_org u.org_id) acc.organisations ≡ some o
    → (out : UserOut) × (after : Accounts) × (update_profile bc user_id full_name password acc
        ≡ ok (out, after))
      × (get_me user_id after ≡ ok (record { user = out; organisation = some (org_out o) }))
      × (out.full_name ≡ given full_name u.full_name)
unfolding update_user update_profile update_where get_me
update_profile-get_me bc user_id full_name password acc u o ordinary found of =
    let changed : User = update_user bc full_name password u in
    let after : Accounts = record acc {
      users = update_where (has_id user_id) (update_user bc full_name password) acc.users;
    } in
    let kept : first (has_id user_id) after.users ≡ some changed =
      first-update_where (has_id user_id) (has_id user_id) (update_user bc full_name password)
        acc.users (λ v. refl)
      ∙ rw found (rw (first-passes (has_id user_id) acc.users u found) refl) in
    (
      user_out changed,
      after,
      rw (ordinary, update_profile) (rw (found, update_profile) (rw (kept, update_profile) refl)),
      rw (ordinary, get_me) (rw (kept, get_me, joined) (rw (of, get_me) refl)),
      refl,
    )
