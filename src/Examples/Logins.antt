-- ===== src/Examples/Logins.antt =====
-- Registration, login, invitations and profiles.
use charge_pulse.Prelude.{ℕ, String, true, none, some, [], ◌∷◌, ◌≡◌, refl, any, first, str_eq}
use charge_pulse.Prelude.Result.{ok, err, http, foreign_key_violation}
use charge_pulse.Accounts.{User, Accounts, Bcrypt, AuthResponse, accept_invite, register, login}
use charge_pulse.Accounts.Members.{invite_user, update_user_role}
use charge_pulse.Accounts.Invites.{invited_locked_out, register-login}
use charge_pulse.Accounts.Owners.{demoted_owner}
use charge_pulse.Examples.{organisation, differ}

-- a hash that is the password, for the examples
abbrev pub bc : Bcrypt
bc = record { hashpw = λ p. p; checkpw = λ p h. some (str_eq p h) }

abbrev pub owner : User
owner = record {
  id = 8;
  org_id = 1;
  email = "a@example.in";
  password_hash = "secret-a";
  full_name = "A";
  phone_number = none;
  role = "owner";
  is_active = true;
  created_at = 7;
  last_login_at = none;
  invited_by = none;
  invite_token = none;
  invite_accepted_at = none;
}

abbrev pub accounts : Accounts
accounts = record {
  users = owner ∷ [];
  superadmins = [];
  organisations = organisation ∷ [];
  next_id = 9;
}

demoted_owner_example :
    (after : Accounts) × (update_user_role 1 8 "member" accounts ≡ ok after)
    × (login bc "a@example.in" "secret-a" 50 after ≡ err (http 401 "invalid credentials"))
unfolding first
demoted_owner_example =
    demoted_owner bc 1 "member" "a@example.in" "secret-a" 50 accounts owner refl refl refl
      (differ "member" "owner" refl)

invited_locked_out_example :
    (row : User) × (acc1 : Accounts) × (reply : AuthResponse) × (acc2 : Accounts) × (invite_user 1 8
        "b@example.in" "admin" "t0k3n" 50 accounts
      ≡ ok (row, acc1))
    × (accept_invite bc "t0k3n" "B" "secret-b" 60 acc1 ≡ ok (reply, acc2))
    × (reply.access_token.role ≡ "admin")
    × ((attempt : String) (at : ℕ)
        → login bc "b@example.in" attempt at acc2 ≡ err (http 401 "invalid credentials"))
    × (invite_user 1 77 "b@example.in" "admin" "t0k3n" 50 accounts ≡ err foreign_key_violation)
unfolding any first
invited_locked_out_example =
    invited_locked_out bc 1 8 77 "b@example.in" "admin" "t0k3n" "B" "secret-b" 50 60 accounts
      organisation refl refl refl refl refl refl refl (differ "admin" "owner" refl)

register-login_example :
    (r : AuthResponse) × (acc1 : Accounts) × (acc2 : Accounts) × (register bc "Org C" "c@example.in"
        "secret-c" "C" "+91" 50 accounts
      ≡ ok (r, acc1))
    × (login bc "c@example.in" "secret-c" 60 acc1 ≡ ok (r, acc2))
    × (r.access_token.role ≡ "owner")
    × (r.access_token.org_id ≡ some 9)
unfolding any
register-login_example =
    register-login bc "Org C" "c@example.in" "secret-c" "C" "+91" 50 60 accounts refl refl refl refl
      refl
