-- ===== src/Admin/Suspension.antt =====
-- What a suspension stops: of an organisation, and of a user.
use charge_pulse.Prelude.{
  ℕ, String, Bool, true, false, none, some, ◌≡◌, refl, sym, ap, ◌∙◌, arith, any, first,
  update_where, first-update_where, if◌then◌else◌, Option-cases, Bool-cases, inl, inr, first-any,
  All, ==_iff, any-update_where, ap₂, List, [], ◌∷◌,
}
use charge_pulse.Prelude.Result.{Result, ok, err, http, if-ok-err}
use charge_pulse.Accounts.{
  User, Accounts, Bcrypt, AuthResponse, has_email, has_id, is_superadmin_email, is_org, joined,
  build_auth_response, login_user, login,
}
use charge_pulse.Admin.{deactivate_org, suspend, set_user_active}

-- what the request answers, without what it writes
abbrev pub reply_of : Result (AuthResponse × Accounts) → Result AuthResponse
reply_of (ok (r, acc)) = ok r
reply_of (err e) = err e

-- the accounts with the organisation's flag cleared
abbrev pub suspended : ℕ → Accounts → Accounts
suspended org_id acc = record acc {
  organisations = update_where (is_org org_id) suspend acc.organisations;
}

suspended-org :
    (org_id other : ℕ) (acc : Accounts)
    → first (is_org other) (suspended org_id acc).organisations
      ≡ elim (first (is_org other) acc.organisations) [
        | none ↦ none
        | some o ↦ some (if is_org org_id o then suspend o else o)
      ]
suspended-org org_id other acc =
    first-update_where (is_org other) (is_org org_id) suspend acc.organisations (λ o. refl)

login_user-suspended :
    (bc : Bcrypt) (email password : String) (now org_id : ℕ) (acc : Accounts)
    → reply_of (login_user bc email password now (suspended org_id acc))
      ≡ reply_of (login_user bc email password now acc)
unfolding login_user joined build_auth_response
login_user-suspended bc email password now org_id acc =
    elim (Option-cases (first (has_email email) acc.users)) [
      | inl e ↦ rw (e, login_user) refl
      | inr (u, e) ↦ elim (Option-cases (first (is_org u.org_id) acc.organisations)) [
        | inl q ↦
            rw (e, login_user)
              (rw (q, login_user)
                (rw (suspended-org org_id u.org_id acc, login_user) (rw (q, login_user) refl)))
        | inr (o, q) ↦
            let q' : first (is_org u.org_id) (suspended org_id acc).organisations
                ≡ some (if is_org org_id o then suspend o else o) =
              suspended-org org_id u.org_id acc ∙ rw q refl in
            rw (e, login_user)
              (rw (q, login_user)
                (rw (q', login_user)
                  (elim (Bool-cases (is_org org_id o)) [
                    | inl b ↦ rw b (ground arith)
                    | inr b ↦ rw b (ground arith)
                  ])))
      ]
    ]

-- A deactivated organisation is not locked out: whatever the email and the password, after a
-- deactivation that succeeds the login answers what it answered before it, tokens included.
pub deactivate_org-login :
    (bc : Bcrypt) (email password : String) (now org_id : ℕ) (acc acc' : Accounts)
    → deactivate_org org_id acc ≡ ok acc'
    → reply_of (login bc email password now acc') ≡ reply_of (login bc email password now acc)
unfolding deactivate_org login
deactivate_org-login bc email password now org_id acc acc' h =
    rw (← (if-ok-err (any (is_org org_id) acc.organisations) _ h).1)
      (elim (Option-cases (first (is_superadmin_email email) acc.superadmins)) [
        | inl e ↦ rw (e, login) (login_user-suspended bc email password now org_id acc)
        | inr (a, e) ↦ rw (e, login) (ground arith)
      ])

login_inactive :
    (bc : Bcrypt) (email password : String) (now : ℕ) (acc : Accounts) (u : User)
    → first (is_superadmin_email email) acc.superadmins ≡ none
    → first (has_email email) acc.users ≡ some u
    → u.is_active ≡ false
    → login bc email password now acc ≡ err (http 401 "invalid credentials")
unfolding login login_user joined
login_inactive bc email password now acc u ordinary found off =
    elim (Option-cases (first (is_org u.org_id) acc.organisations)) [
      | inl q ↦ rw (ordinary, login) (rw (found, login_user) (rw q refl))
      | inr (o, q) ↦ rw (ordinary, login) (rw (found, login_user) (rw q (ground (arith, off))))
    ]

abbrev activate : Bool → User → User
activate active u = record u { is_active = active }

restored :
    (user_id : ℕ) (us : List User)
    → All (λ v. has_id user_id v ≡ true → v.is_active ≡ true) us
    → update_where
        (has_id user_id)
        (activate true)
        (update_where (has_id user_id) (activate false) us)
      ≡ us
unfolding update_where
restored user_id [] h = refl
restored user_id (u ∷ us) h = elim (Bool-cases (has_id user_id u)) [
  | inl e ↦
      rw e
        (rw e (ap₂ (λ x l. x ∷ l) (ap (λ b. activate b u) (sym (h.0 e))) (restored user_id us h.1)))
  | inr e ↦ rw e (rw e (ap (λ l. u ∷ l) (restored user_id us h.1)))
]

-- A user whom the superadmin switches off, and who is no superadmin, cannot log in with any
-- password; and when the user is switched on again, the accounts are what they were before both changes, if the user
-- was active then.
pub set_user_active-login :
    (bc : Bcrypt) (email password : String) (now : ℕ) (acc : Accounts) (u : User)
    → first (is_superadmin_email email) acc.superadmins ≡ none
    → first (has_email email) acc.users ≡ some u
    → All (λ v. has_id u.id v ≡ true → v.is_active ≡ true) acc.users
    → (off : Accounts) × (set_user_active u.id false acc ≡ ok off)
      × (login bc email password now off ≡ err (http 401 "invalid credentials"))
      × (set_user_active u.id true off ≡ ok acc)
unfolding set_user_active
set_user_active-login bc email password now acc u ordinary found active =
    let mine : has_id u.id u ≡ true = (==_iff u.id u.id).1 refl in
    let there : any (has_id u.id) acc.users ≡ true =
      first-any (has_email email) (has_id u.id) acc.users u found mine in
    let off : Accounts = record acc {
      users = update_where (has_id u.id) (activate false) acc.users;
    } in
    let kept : first (has_email email) off.users ≡ some (activate false u) =
      first-update_where (has_email email) (has_id u.id) (activate false) acc.users (λ v. refl)
      ∙ rw found (rw mine refl) in
    let still : any (has_id u.id) off.users ≡ true =
      any-update_where (has_id u.id) (has_id u.id) (activate false) acc.users (λ v. refl) ∙ there in
    (
      off,
      rw there refl,
      login_inactive bc email password now off (activate false u) ordinary kept refl,
      rw still (ap (λ l. ok (record acc { users = l })) (restored u.id acc.users active)),
    )
