-- ===== src/Admin/Passwords.antt =====
-- The one-time password that the superadmin sets.
use charge_pulse.Prelude.{
  ℕ, String, true, false, none, some, ◌≡◌, refl, ◌∙◌, first, ==_iff, update_where,
  first-update_where, first-passes,
}
use charge_pulse.Prelude.Result.{ok}
use charge_pulse.Database.{Organisation}
use charge_pulse.Accounts.{
  User, Accounts, Bcrypt, AuthResponse, has_email, has_id, is_superadmin_email, is_org, joined,
  verify_password, build_auth_response, login_user, login, user_out, org_out,
}
use charge_pulse.Admin.{ResetPassword, reset_user_password}

-- The password that a reset answers with logs the user in: an active owner who is no superadmin and
-- has the id of the reset and an email of their own. bcrypt accepts the hash that it made of the password.
pub reset_user_password-login :
    (bc : Bcrypt) (temp : String) (now user_id : ℕ) (acc : Accounts) (u : User) (o : Organisation)
    → first (has_id user_id) acc.users ≡ some u
    → first (has_email u.email) acc.users ≡ some u
    → first (is_superadmin_email u.email) acc.superadmins ≡ none
    → first (is_org u.org_id) acc.organisations ≡ some o
    → u.is_active ≡ true
    → u.role ≡ "owner"
    → bc.checkpw temp (bc.hashpw temp) ≡ some true
    → (reply : ResetPassword) × (acc1 : Accounts) × (session : AuthResponse) × (acc2 : Accounts)
      × (reset_user_password bc temp user_id acc ≡ ok (reply, acc1))
      × (login bc reply.email reply.temporary_password now acc1 ≡ ok (session, acc2))
      × (session.access_token.user_id ≡ user_id)
      × (session.access_token.org_id ≡ some o.id)
unfolding reset_user_password login login_user joined verify_password build_auth_response
reset_user_password-login bc temp now user_id acc u o by_id by_email ordinary org active owner
      checks =
    let renewed : User = record u { password_hash = bc.hashpw temp } in
    let acc1 : Accounts = record acc {
      users =
          update_where (has_id user_id) (λ v. record v { password_hash = bc.hashpw temp })
            acc.users;
    } in
    let kept : first (has_email u.email) acc1.users ≡ some renewed =
      first-update_where (has_email u.email) (has_id user_id)
        (λ v. record v { password_hash = bc.hashpw temp }) acc.users (λ v. refl)
      ∙ rw by_email (rw (first-passes (has_id user_id) acc.users u by_id) refl) in
    (
      record { user_id = u.id; email = u.email; temporary_password = temp },
      acc1,
      build_auth_response (user_out renewed) (some (org_out o)) false,
      record acc1 {
        users = update_where (has_id u.id) (λ v. record v { last_login_at = some now }) acc1.users;
      },
      rw (by_id, reset_user_password) refl,
      rw (ordinary, login)
          (rw (kept, login_user, joined)
            (rw (org, login_user)
              (rw (active, login_user) (rw (checks, verify_password) (rw owner refl))))),
      (==_iff u.id user_id).0 (first-passes (has_id user_id) acc.users u by_id),
      refl,
    )
