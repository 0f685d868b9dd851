-- ===== src/Api/Auth.antt =====
-- app/api/deps.py's `get_current_user` and app/api/routers/auth.py: who a request is from.
use jarvis_skill_registry.Prelude.{ℕ, ◌*◌, Text, codes, not, Option, none, some, [], ◌∷◌}
use jarvis_skill_registry.Core.Errors.{Result, Exception, ErrorCode, authentication_error}
use jarvis_skill_registry.Core.Security.{
  Security, Claims, invalid_token, create_access_token, decode_access_token,
}
use jarvis_skill_registry.Models.{Uuid, User}
use jarvis_skill_registry.Database.Constraints.{Db}
use jarvis_skill_registry.Repository.Unscoped.{get_user_by_email, get_user_in_organization}
use jarvis_skill_registry.Session.{
  World, Session, Exec, pure, raise, raise_if, or_raise, with_session, ◌>>=◌, ◌>>◌,
}
use jarvis_skill_registry.Api.Routes.{Request, Response, get_skill_service, route}

pub record LoginRequest : Type 0 where
  pub email : Text
  pub password : Text

pub record TokenResponse : Type 0 where
  pub access_token : Text
  pub token_type : Text
  pub expires_in : ℕ

abbrev pub auth_required : Exception
auth_required = Exception.domain (authentication_error ErrorCode.auth_required)

abbrev pub invalid_credentials : Exception
invalid_credentials = Exception.domain (authentication_error ErrorCode.invalid_credentials)

-- `uuid.UUID(str(claims[key]))`, where a missing claim or a text that is no UUID is malformed.
abbrev pub claimed_id : Security → Option Text → Option Uuid
claimed_id c none = none
claimed_id c (some text) = c.parse_uuid text

module _ (w : World) (c : Security) where
  -- `get_current_user` from the claims on: the user of both ids, as the database has it.
  unfoldable pub claimed_user : Claims → Exec User
  unfolding ◌>>=◌ or_raise get_user_in_organization
  claimed_user claims = do
    user_id ← or_raise (claimed_id c claims.sub) invalid_token
    organization_id ← or_raise (claimed_id c claims.org) invalid_token
    user ← get_user_in_organization user_id organization_id
    or_raise user invalid_token

  -- `get_current_user`, of the bearer token that the request carries.
  unfoldable pub get_current_user : Option Text → Exec User
  unfolding ◌>>=◌ raise decode_access_token claimed_user
  get_current_user none = raise auth_required
  get_current_user (some []) = raise auth_required
  get_current_user (some (b ∷ token)) = do
    claims ← decode_access_token w c (b ∷ token)
    claimed_user claims

  unfoldable pub token_for : User → Exec TokenResponse
  unfolding ◌>>=◌ create_access_token pure
  token_for user = do
    token ← create_access_token w c user.id user.organization_id user.role
    pure (record {
      access_token = token;
      token_type = codes "bearer";
      expires_in = c.jwt_expire_minutes * 60;
    })

  -- `user is None or not verify_password(...)`: one error for both. What passlib raises passes.
  unfoldable pub check_password : Text → Option User → Exec User
  unfolding ◌>>=◌ raise raise_if or_raise pure
  check_password password none = raise invalid_credentials
  check_password password (some user) = do
    verified ← or_raise (c.verify password user.hashed_password) Exception.value_error
    raise_if (not verified) invalid_credentials
    pure user

  unfoldable pub login : LoginRequest → Exec TokenResponse
  unfolding ◌>>=◌ get_user_by_email check_password token_for
  login payload = do
    found ← get_user_by_email w c payload.email
    user ← check_password payload.password found
    token_for user

  -- One request as it arrives: the user of its token, and the route in the same session.
  unfoldable pub serve : Option Text → Request → Db → ℕ → Result Response × Session
  unfolding ◌>>=◌ with_session get_current_user route
  serve credentials request =
      with_session
        (do user ← get_current_user credentials; route w (get_skill_service user) request)

  unfoldable pub serve_login : LoginRequest → Db → ℕ → Result TokenResponse × Session
  unfolding with_session login
  serve_login payload = with_session (login payload)

  -- `me`: the row of the user.
  unfoldable pub serve_me : Option Text → Db → ℕ → Result User × Session
  unfolding with_session get_current_user
  serve_me credentials = with_session (get_current_user credentials)
