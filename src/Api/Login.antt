-- ===== src/Api/Login.antt =====
-- app/api/routers/auth.py: what `login` answers, and what its token is good for.
use jarvis_skill_registry.Prelude.{
  ℕ, ◌+◌, ◌*◌, ◌≤◌, ◌<◌, ◌^◌, ◌≡◌, refl, Text, text_eq, true, false, ◌&&◌, ◌==◌, none, some, List,
  [], ◌∷◌, codes,
}
use jarvis_skill_registry.Prelude.Tables.{rows_where}
use jarvis_skill_registry.Core.Tools.{strip}
use jarvis_skill_registry.Core.Enums.{role_value}
use jarvis_skill_registry.Core.Errors.{ok, err, Exception}
use jarvis_skill_registry.Core.Security.{
  Security, IsSound, Claims, is_given, check_claims, decode_access_token, create_access_token,
}
use jarvis_skill_registry.Models.{User}
use jarvis_skill_registry.Database.Constraints.{Db}
use jarvis_skill_registry.Repository.Unscoped.{get_user_by_email, get_user_in_organization}
use jarvis_skill_registry.Services.Hashing.{uuid_text, hex_digits}
use jarvis_skill_registry.Session.{World, open_session, ◌>>=◌, one_or_none, or_raise, raise_if}
use jarvis_skill_registry.Api.Routes.{Request, handle}
use jarvis_skill_registry.Api.Auth.{
  LoginRequest, TokenResponse, invalid_credentials, claimed_user, get_current_user, token_for,
  check_password, serve, serve_login,
}

-- The users whose address is the one that was given, up to case.
abbrev pub with_email : World → Security → Text → Db → List User
with_email w c email db =
    rows_where (λ u. text_eq (c.sql_lower u.email) (w.lower (strip email))) db.users

abbrev pub with_ids : User → Db → List User
with_ids user db =
    rows_where (λ u. u.id == user.id && u.organization_id == user.organization_id) db.users

-- The logins that are refused, with the error of each: the address of no user, the address of two,
-- a password that does not verify, and one that passlib does not take, as bcrypt with a NUL.
pub data LoginRefused (w : World) (c : Security) (payload : LoginRequest) (db : Db)
    : Exception → Type 0 where
  unknown_address :
      with_email w c payload.email db ≡ [] → LoginRefused w c payload db invalid_credentials
  two_addresses :
      (user other : User) (rows : List User)
      → with_email w c payload.email db ≡ user ∷ other ∷ rows
      → LoginRefused w c payload db Exception.multiple_results
  wrong_password :
      (user : User)
      → with_email w c payload.email db ≡ user ∷ []
      → c.verify payload.password user.hashed_password ≡ some false
      → LoginRefused w c payload db invalid_credentials
  unreadable_password :
      (user : User)
      → with_email w c payload.email db ≡ user ∷ []
      → c.verify payload.password user.hashed_password ≡ none
      → LoginRefused w c payload db Exception.value_error

-- An unknown address and a password that does not verify get one answer, the error of invalid
-- credentials. A password that passlib does not take gets another one if the address is known, and
-- so does an address that two users have. Each of these logins leaves the database as it was.
pub serve_login-refused :
    (w : World) (c : Security) (payload : LoginRequest) (db : Db) (tick : ℕ) (e : Exception)
    → LoginRefused w c payload db e
    → serve_login w c payload db tick ≡ (err e, open_session db tick)
unfolding serve_login get_user_by_email check_password one_or_none raise_if or_raise
serve_login-refused w c payload db tick e (LoginRefused.unknown_address found) = rw found refl
serve_login-refused w c payload db tick e (LoginRefused.two_addresses user other rows found) =
    rw found refl
serve_login-refused w c payload db tick e (LoginRefused.wrong_password user found wrong) =
    rw (found, wrong) refl
serve_login-refused w c payload db tick e (LoginRefused.unreadable_password user found raised) =
    rw (found, raised) refl

-- The claims of a token that is minted at `tick`.
abbrev pub minted : World → Security → User → ℕ → Claims
minted w c user tick = record {
  sub = some (uuid_text user.id);
  org = some (uuid_text user.organization_id);
  role = role_value user.role;
  iat = c.timestamp (w.utcnow tick);
  exp = c.timestamp (w.utcnow tick) + 60 * c.jwt_expire_minutes;
  jti = hex_digits 32 (w.uuid4 (tick + 1));
}

get_current_user-given :
    (w : World) (c : Security) (token : Text)
    → is_given (some token) ≡ true
    → get_current_user w c (some token)
      ≡ (decode_access_token w c token >>= λ claims. claimed_user w c claims)
unfolding get_current_user
get_current_user-given w c [] h = cc
get_current_user-given w c (b ∷ token) h = refl

-- A login with the right password succeeds, and its token carries the user: for as long as the
-- token lasts, every request with it is served as a request of that user, if the database still has
-- the user in the organization. It relies on the laws of `IsSound`.
pub serve-serve_login :
    (w : World) (c : Security) (payload : LoginRequest) (user : User) (request : Request)
    (db db' : Db) (tick tick' : ℕ)
    → IsSound c
    → with_email w c payload.email db ≡ user ∷ []
    → c.verify payload.password user.hashed_password ≡ some true
    → user.id < 2 ^ 128
    → user.organization_id < 2 ^ 128
    → c.timestamp (w.utcnow tick) ≤ c.timestamp (w.utcnow tick')
    → c.timestamp (w.utcnow tick') < c.timestamp (w.utcnow tick) + 60 * c.jwt_expire_minutes
    → with_ids user db' ≡ user ∷ []
    → (t : TokenResponse) × (serve_login w c payload db tick
        ≡ (ok t, open_session db (tick + 1 + 1)))
      × (serve w c (some t.access_token) request db' tick' ≡ handle w user request db' (tick' + 1))
unfolding serve_login get_user_by_email check_password token_for create_access_token one_or_none
    raise_if serve decode_access_token check_claims claimed_user get_user_in_organization or_raise
    handle ◌>>=◌
serve-serve_login w c payload user request db db' tick tick' sound found right small_id small_org
      begun lasting stored =
    (
      record {
        access_token = c.jwt_encode (minted w c user tick);
        token_type = codes "bearer";
        expires_in = c.jwt_expire_minutes * 60;
      },
      rw (found, right) refl,
      rw
          (
            get_current_user-given w c (c.jwt_encode (minted w c user tick))
                (sound.token_is_given (minted w c user tick)),
            sound.decode_encode (minted w c user tick) (w.utcnow tick') begun lasting,
            sound.parse_text user.id small_id,
            sound.parse_text user.organization_id small_org,
            stored,
          )
          refl,
    )
