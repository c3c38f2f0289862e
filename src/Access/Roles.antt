-- ===== src/Access/Roles.antt =====
-- What a superadmin may do with the token of a login and with that of an impersonation.
use charge_pulse.Prelude.{
  ℕ, ◌+◌, ◌*◌, ◌≤◌, String, some, List, ◌≡◌, refl, any, str_eq, if◌then◌else◌,
}
use charge_pulse.Prelude.Result.{ok, err, http, if-ok-err}
use charge_pulse.Accounts.{Accounts, Claims, is_org}
use charge_pulse.Admin.{impersonate}
use charge_pulse.Access.{
  create_access_token, Jose, CurrentUserCtx, ctx_of, current_user, require_role,
}

-- The token of an impersonation, until it expires, is accepted for exactly the routes that
-- allow an owner, and it then acts in the organisation it names; a superadmin's route that does not allow an owner
-- answers 403. jose decodes the token while the clock has not passed `exp`.
pub impersonate-require_role :
    (jose : Jose) (minutes now later superadmin_id org_id : ℕ) (acc : Accounts) (c : Claims)
    (allowed : List String)
    → (later ≤ (create_access_token minutes now c).exp
        → jose.decode later (jose.encode (create_access_token minutes now c))
          ≡ some (create_access_token minutes now c))
    → later ≤ now + minutes * 60
    → impersonate superadmin_id org_id acc ≡ ok c
    → (user : CurrentUserCtx) × (current_user jose later
          (jose.encode (create_access_token minutes now c))
        ≡ ok user)
      × (user.org_id ≡ some org_id)
      × (user.user_id ≡ superadmin_id)
      × (require_role allowed user ≡ (
          if any (λ r. str_eq r "owner") allowed
          then ok user
          else err (http 403 "Permission denied")))
unfolding impersonate current_user create_access_token require_role
impersonate-require_role jose minutes now later superadmin_id org_id acc c allowed decodes fresh h =
    let k = if-ok-err (any (is_org org_id) acc.organisations) _ h in
    (
      ctx_of c,
      rw (decodes fresh, current_user) refl,
      rw (← k.1) refl,
      rw (← k.1) refl,
      rw (← k.1) refl,
    )
