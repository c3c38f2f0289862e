-- ===== src/Access.antt =====
-- Who a request comes from and what it may do: backend/app/auth/security.py (the token),
-- backend/app/dependencies.py and backend/app/auth/permissions.py. A time is a number of seconds here. A token
-- that the key has signed is one that `create_access_token` has made, so it has all its claims.
pub mod Roles
use charge_pulse.Prelude.{
  ℕ, ◌+◌, ◌*◌, String, Bool, true, false, Option, none, some, List, [], ◌∷◌, ◌&&◌, not, any, str_eq,
  if◌then◌else◌,
}
use charge_pulse.Prelude.Result.{Result, ok, err, http}
use charge_pulse.Accounts.{Claims}

-- the payload of a token
pub record Payload : Type 0 where
  pub claims : Claims
  pub iat : ℕ
  pub exp : ℕ

-- `create_access_token` before the encoding; `minutes` is jwt_access_token_expire_minutes
unfoldable pub create_access_token : ℕ → ℕ → Claims → Payload
create_access_token minutes now claims = record {
  claims = claims;
  iat = now;
  exp = now + minutes * 60;
}

-- jose's `jwt.encode` and `jwt.decode` under the key of the settings; `decode` is given the clock,
-- and is `none` where it raises a JWTError
pub record Jose : Type 0 where
  pub encode : Payload → String
  pub decode : ℕ → String → Option Payload

pub record CurrentUserCtx : Type 0 where
  pub user_id : ℕ
  pub org_id : Option ℕ
  pub role : String
  pub is_superadmin : Bool
  pub impersonating : Bool

abbrev pub ctx_of : Claims → CurrentUserCtx
ctx_of c = record {
  user_id = c.user_id;
  org_id = c.org_id;
  role = c.role;
  is_superadmin = c.is_superadmin;
  impersonating = c.impersonating;
}

-- `_get_current_user`, with `decode_token`
unfoldable pub current_user : Jose → ℕ → String → Result CurrentUserCtx
current_user jose now token = elim (jose.decode now token) [
  | none ↦ err (http 401 "invalid token")
  | some p ↦ ok (ctx_of p.claims)
]

-- `require_role`
unfoldable pub require_role : List String → CurrentUserCtx → Result CurrentUserCtx
unfolding any
require_role allowed_roles user =
    if user.is_superadmin && not user.impersonating
    then (if any (λ r. str_eq r "superadmin") allowed_roles
        then ok user
        else err
            (http 403 "Superadmin must impersonate an organization to perform tenant operations"))
    else if any (λ r. str_eq r user.role) allowed_roles
    then ok user
    else err (http 403 "Permission denied")
