-- ===== src/Accounts/Members.antt =====
-- The members of an organisation: backend/app/users/service.py. The mail of an invitation is only logged, and
-- is not modelled.
use charge_pulse.Prelude.{
  ℕ, ◌+◌, ◌==◌, String, Bool, false, none, some, [], ◌∷◌, ◌++◌, ◌&&◌, not, any, select, map, str_eq,
  update_where, if◌then◌else◌,
}
use charge_pulse.Prelude.Result.{Result, ok, err, http, check_violation, foreign_key_violation}
use charge_pulse.Accounts.{User, Accounts, has_email, has_id, is_org, is_superadmin_email}

-- CHECK (role IN ('owner', 'admin', 'member', 'viewer'))
abbrev pub is_role : String → Bool
is_role role = any (str_eq role) ("owner" ∷ "admin" ∷ "member" ∷ "viewer" ∷ [])

-- `invite_user`: the row of the pending user, and the tables
unfoldable pub invite_user :
    ℕ → ℕ → String → String → String → ℕ → Accounts → Result (User × Accounts)
unfolding any
invite_user org_id invited_by_id email role token now acc =
    let row : User = record {
      id = acc.next_id;
      org_id = org_id;
      email = email;
      password_hash = "";
      full_name = "Pending";
      phone_number = none;
      role = role;
      is_active = false;
      created_at = now;
      last_login_at = none;
      invited_by = some invited_by_id;
      invite_token = some token;
      invite_accepted_at = none;
    } in
    if any (has_email email) acc.users
    then err (http 409 "email already registered")
    else if any (is_superadmin_email email) acc.superadmins
    then err (http 409 "email already registered")
    else if not (is_role role)
    then err check_violation
    else if not (any (is_org org_id) acc.organisations && any (has_id invited_by_id) acc.users)
    then err foreign_key_violation
    else ok (row, record acc { users = acc.users ++ row ∷ []; next_id = acc.next_id + 1 })

abbrev pub is_member : ℕ → ℕ → User → Bool
is_member org_id user_id u = u.id == user_id && u.org_id == org_id

-- users.invited_by REFERENCES users(id) ON DELETE SET NULL
abbrev pub unlink : ℕ → User → User
unlink user_id u = record u {
  invited_by = elim u.invited_by [ none ↦ none | some i ↦ if i == user_id then none else some i ];
}

-- `remove_user`
unfoldable pub remove_user : ℕ → ℕ → Accounts → Result Accounts
unfolding any select
remove_user org_id user_id acc =
    if any (is_member org_id user_id) acc.users
    then ok (record acc {
      users = map (unlink user_id) (select (λ u. not (is_member org_id user_id u)) acc.users);
    })
    else err (http 404 "user not found")

-- `update_user_role`
unfoldable pub update_user_role : ℕ → ℕ → String → Accounts → Result Accounts
unfolding any update_where
update_user_role org_id user_id role acc =
    if any (is_member org_id user_id) acc.users
    then ok (record acc {
      users = update_where (is_member org_id user_id) (λ u. record u { role = role }) acc.users;
    })
    else err (http 404 "user not found")
