-- ===== src/Accounts/Invites.antt =====
-- A new account: registration, invitation and the login that follows.
use charge_pulse.Prelude.{
  ℕ, ◌+◌, String, true, false, none, some, [], ◌∷◌, ◌++◌, ◌≡◌, ◌≢◌, refl, ◌∙◌, any, first,
  update_where, any-first, first-any, first-passes, first-snoc, first-update_where, str_eq, eq_refl,
  ==_iff,
}
use charge_pulse.Prelude.Result.{ok, err, http, foreign_key_violation}
use charge_pulse.Database.{Organisation, starter}
use charge_pulse.Accounts.{
  build_auth_response, user_out, org_out, User, Accounts, Bcrypt, AuthResponse, has_email, has_id,
  has_token, is_superadmin_email, is_org, joined, verify_password, register, login_user, login,
  accept, accept_invite,
}
use charge_pulse.Accounts.Members.{is_role, invite_user}
use charge_pulse.Accounts.Owners.{login_not_owner}

-- An invitation by a user to a new email, in a role that the table allows and that is not "owner", succeeds and its
-- token is accepted; and then the login with that email and with the password that was set, or any other, fails with
-- 401. The same invitation by an id that is no user's fails with a violation of the foreign key. The email is no
-- user's and no superadmin's, the token is no user's, and the organisation exists.
pub invited_locked_out :
    (bc : Bcrypt) (org_id invited_by_id stranger : ℕ) (email role token full_name password : String)
    (now later : ℕ) (acc : Accounts) (o : Organisation)
    → any (has_email email) acc.users ≡ false
    → any (is_superadmin_email email) acc.superadmins ≡ false
    → any (has_token token) acc.users ≡ false
    → first (is_org org_id) acc.organisations ≡ some o
    → any (has_id invited_by_id) acc.users ≡ true
    → any (has_id stranger) acc.users ≡ false
    → is_role role ≡ true
    → role ≢ "owner"
    → (row : User) × (acc1 : Accounts) × (reply : AuthResponse) × (acc2 : Accounts) × (invite_user
          org_id invited_by_id email role token now acc
        ≡ ok (row, acc1))
      × (accept_invite bc token full_name password later acc1 ≡ ok (reply, acc2))
      × (reply.access_token.role ≡ role)
      × ((attempt : String) (at : ℕ)
          → login bc email attempt at acc2 ≡ err (http 401 "invalid credentials"))
      × (invite_user org_id stranger email role token now acc ≡ err foreign_key_violation)
unfolding invite_user accept_invite joined accept build_auth_response
invited_locked_out bc org_id invited_by_id stranger email role token full_name password now later
      acc o new ordinary unused org inviter no_user allowed differ =
    let row : User = record {
      id = acc.next_id;
      org_id = org_id;
      email = email;
      password_hash = "";
      full_name = "Pending";
      phone_number = none;
      role = role;
      is_active = false;
      created_at = now;
      last_login_at = none;
      invited_by = some invited_by_id;
      invite_token = some token;
      invite_accepted_at = none;
    } in
    let acc1 : Accounts = record acc { users = acc.users ++ row ∷ []; next_id = acc.next_id + 1 } in
    let acc2 : Accounts = record acc1 {
      users = update_where (has_id acc.next_id) (accept bc full_name password later) acc1.users;
    } in
    let known : any (is_org org_id) acc.organisations ≡ true =
      first-any (is_org org_id) (is_org org_id) acc.organisations o org
        (first-passes (is_org org_id) acc.organisations o org) in
    let found : first (has_token token) acc1.users ≡ some row =
      first-snoc (has_token token) acc.users row unused (eq_refl token) in
    let kept : first (has_email email) acc2.users ≡ some (accept bc full_name password later row) =
      first-update_where (has_email email) (has_id acc.next_id) (accept bc full_name password later)
        acc1.users (λ u. refl)
      ∙ rw (first-snoc (has_email email) acc.users row new (eq_refl email))
          (rw ((==_iff acc.next_id acc.next_id).1 refl) refl) in
    (
      row,
      acc1,
      build_auth_response (record (user_out row) { full_name = full_name }) (some (org_out o))
          false,
      acc2,
      rw new (rw ordinary (rw allowed (rw known (rw inviter refl)))),
      rw (found, accept_invite, joined) (rw (org, accept_invite) refl),
      refl,
      λ attempt at.
          login_not_owner bc email attempt at acc2 (accept bc full_name password later row)
            (any-first (is_superadmin_email email) acc.superadmins ordinary) kept differ,
      rw new (rw ordinary (rw allowed (rw known (rw no_user refl)))),
    )

-- A registration with a new email succeeds, and the login with the email and the password succeeds
-- as the owner of the new organisation. The email is no user's, no superadmin's and no organisation's, no row has the
-- new id of the organisation, and bcrypt accepts the hash that it made of the password.
pub register-login :
    (bc : Bcrypt) (org_name email password full_name phone_number : String) (now later : ℕ)
    (acc : Accounts)
    → any (has_email email) acc.users ≡ false
    → any (is_superadmin_email email) acc.superadmins ≡ false
    → any (λ o. str_eq o.email email) acc.organisations ≡ false
    → any (is_org acc.next_id) acc.organisations ≡ false
    → bc.checkpw password (bc.hashpw password) ≡ some true
    → (r : AuthResponse) × (acc1 : Accounts) × (acc2 : Accounts) × (register bc org_name email
          password full_name phone_number now acc
        ≡ ok (r, acc1))
      × (login bc email password later acc1 ≡ ok (r, acc2))
      × (r.access_token.role ≡ "owner")
      × (r.access_token.org_id ≡ some acc.next_id)
unfolding register login login_user joined verify_password build_auth_response
register-login bc org_name email password full_name phone_number now later acc new ordinary unnamed
      fresh checks =
    let org : Organisation = record {
      id = acc.next_id;
      name = org_name;
      email = email;
      plan = starter;
      max_chargers = 100;
      is_active = true;
      created_at = now;
    } in
    let user : User = record {
      id = acc.next_id + 1;
      org_id = acc.next_id;
      email = email;
      password_hash = bc.hashpw password;
      full_name = full_name;
      phone_number = some phone_number;
      role = "owner";
      is_active = true;
      created_at = now;
      last_login_at = none;
      invited_by = none;
      invite_token = none;
      invite_accepted_at = none;
    } in
    let acc1 : Accounts = record acc {
      users = acc.users ++ user ∷ [];
      organisations = acc.organisations ++ org ∷ [];
      next_id = acc.next_id + 2;
    } in
    let named : first (has_email email) acc1.users ≡ some user =
      first-snoc (has_email email) acc.users user new (eq_refl email) in
    let owned : first (is_org acc.next_id) acc1.organisations ≡ some org =
      first-snoc (is_org acc.next_id) acc.organisations org fresh
        ((==_iff acc.next_id acc.next_id).1 refl) in
    (
      build_auth_response (user_out user) (some (org_out org)) false,
      acc1,
      record acc1 {
        users =
            update_where (has_id user.id) (λ v. record v { last_login_at = some later }) acc1.users;
      },
      rw new (rw unnamed refl),
      rw (any-first (is_superadmin_email email) acc.superadmins ordinary, login)
          (rw (named, login_user, joined)
            (rw (owned, login_user) (rw (checks, verify_password) refl))),
      refl,
      refl,
    )
