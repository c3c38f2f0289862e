-- ===== src/Accounts/Owners.antt =====
-- Only owners log in: what becomes of an account whose role is another.
use charge_pulse.Prelude.{
  ℕ, String, true, none, some, ◌≡◌, ◌≢◌, refl, ◌∙◌, arith, first, update_where, first-update_where,
  eq_iff, Option-cases, inl, inr, ==_iff, first-any,
}
use charge_pulse.Prelude.Result.{ok, err, http}
use charge_pulse.Accounts.{
  User, Accounts, Bcrypt, has_email, is_superadmin_email, is_org, joined, login_user, login,
}
use charge_pulse.Accounts.Members.{is_member, update_user_role}

-- `login` as a user whose role is not "owner"
pub login_not_owner :
    (bc : Bcrypt) (email password : String) (now : ℕ) (acc : Accounts) (u : User)
    → first (is_superadmin_email email) acc.superadmins ≡ none
    → first (has_email email) acc.users ≡ some u
    → u.role ≢ "owner"
    → login bc email password now acc ≡ err (http 401 "invalid credentials")
unfolding login login_user joined
login_not_owner bc email password now acc u ordinary found role =
    elim (Option-cases (first (is_org u.org_id) acc.organisations)) [
      | inl none_of ↦ rw (ordinary, login) (rw (found, login_user) (rw none_of refl))
      | inr (o, of) ↦
          rw (ordinary, login)
            (rw (found, login_user) (rw of (ground (arith, eq_iff u.role "owner", role))))
    ]

-- The owner of an organisation can be given another role, by an admin or by the owner, and then
-- cannot log in: the change succeeds, and every later login with the email fails with 401, whatever the password.
pub demoted_owner :
    (bc : Bcrypt) (org_id : ℕ) (role email password : String) (now : ℕ) (acc : Accounts) (u : User)
    → first (is_superadmin_email email) acc.superadmins ≡ none
    → first (has_email email) acc.users ≡ some u
    → u.org_id ≡ org_id
    → role ≢ "owner"
    → (acc' : Accounts) × (update_user_role org_id u.id role acc ≡ ok acc')
      × (login bc email password now acc' ≡ err (http 401 "invalid credentials"))
unfolding update_user_role
demoted_owner bc org_id role email password now acc u ordinary found own differ =
    let member : is_member org_id u.id u ≡ true = ground (arith, own, ==_iff u.id u.id) in
    let changed : User = record u { role = role } in
    (
      record acc {
        users = update_where (is_member org_id u.id) (λ v. record v { role = role }) acc.users;
      },
      rw (first-any (has_email email) (is_member org_id u.id) acc.users u found member) refl,
      login_not_owner bc email password now _ changed ordinary
          (first-update_where (has_email email) (is_member org_id u.id)
              (λ v. record v { role = role }) acc.users (λ v. refl)
            ∙ rw found (rw member refl))
          differ,
    )
