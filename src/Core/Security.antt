-- ===== src/Core/Security.antt =====
-- app/core/security.py: access tokens and passwords. PyJWT, passlib and `uuid.UUID` are parameters,
-- with what the code relies on as the laws of `IsSound`.
use jarvis_skill_registry.Prelude.{
  ℕ, ◌+◌, ◌*◌, ◌≤◌, ◌<◌, ◌^◌, ◌≡◌, Text, Bool, true, false, not, Option, none, some, [], ◌∷◌,
  if◌then◌else◌, ◌||◌,
}
use jarvis_skill_registry.Core.Enums.{UserRole, role_value}
use jarvis_skill_registry.Core.Errors.{ok, Exception, ErrorCode, authentication_error}
use jarvis_skill_registry.Models.{Uuid, Time}
use jarvis_skill_registry.Session.{World, Exec, pure, raise, draw_uuid, draw_now, ◌>>=◌, or_raise}
use jarvis_skill_registry.Services.Hashing.{hex_digits, uuid_text}

-- The payload of a token, as `str` reads its claims. `sub` and `org` are `none` where the token has
-- no such claim, or a false one that is not a text.
pub record Claims : Type 0 where
  pub sub : Option Text
  pub org : Option Text
  pub role : Text
  pub iat : ℕ
  pub exp : ℕ
  pub jti : Text

-- `jwt.encode` and `jwt.decode` with the secret and the algorithm of the settings, `none` where
-- decoding at that time raises a `PyJWTError`; passlib's `hash`, with its n-th salt, of the password
-- in the settings, and `verify`, `none` where it raises a `ValueError` because of a password or a
-- hash that it cannot read; `uuid.UUID(text)`, `none` where it raises; the database's `lower`; a time in seconds; and the
-- settings.
pub record Security : Type 0 where
  pub jwt_encode : Claims → Text
  pub jwt_decode : Time → Text → Option Claims
  pub hash : ℕ → Text → Text
  pub verify : Text → Text → Option Bool
  pub parse_uuid : Text → Option Uuid
  pub sql_lower : Text → Text
  pub timestamp : Time → ℕ
  pub jwt_expire_minutes : ℕ
  pub seed_password : Text

-- `claims.get(key)` is true.
abbrev pub is_given : Option Text → Bool
is_given none = false
is_given (some []) = false
is_given (some (c ∷ s)) = true

-- A token that was encoded, and has begun and not expired, decodes to its claims; a UUID's own text parses to it; and no token is empty.
pub record IsSound (c : Security) : Type 0 where
  pub decode_encode :
      (claims : Claims) (now : Time)
      → claims.iat ≤ c.timestamp now
      → c.timestamp now < claims.exp
      → c.jwt_decode now (c.jwt_encode claims) ≡ some claims
  pub parse_text : (id : Uuid) → id < 2 ^ 128 → c.parse_uuid (uuid_text id) ≡ some id
  pub token_is_given : (claims : Claims) → is_given (some (c.jwt_encode claims)) ≡ true

abbrev pub invalid_token : Exception
invalid_token = Exception.domain (authentication_error ErrorCode.invalid_token)

module _ (c : Security) where
  -- Each call takes a salt of its own.
  unfoldable pub hash_password : Text → Exec Text
  hash_password plain s = (ok (c.hash s.tick plain), record s { tick = s.tick + 1 })

module _ (w : World) (c : Security) where
  unfoldable pub create_access_token : Uuid → Uuid → UserRole → Exec Text
  unfolding ◌>>=◌ draw_uuid draw_now pure uuid_text hex_digits role_value
  create_access_token user_id organization_id role = do
    now ← draw_now w
    jti ← draw_uuid w
    pure (
        c.jwt_encode (record {
          sub = some (uuid_text user_id);
          org = some (uuid_text organization_id);
          role = role_value role;
          iat = c.timestamp now;
          exp = c.timestamp now + 60 * c.jwt_expire_minutes;
          jti = hex_digits 32 jti;
        }))

  unfoldable pub check_claims : Claims → Exec Claims
  unfolding pure raise
  check_claims claims =
      if not (is_given claims.sub) || not (is_given claims.org)
      then raise invalid_token
      else pure claims

  -- `decode_access_token`; PyJWT reads the clock.
  unfoldable pub decode_access_token : Text → Exec Claims
  unfolding ◌>>=◌ draw_now or_raise check_claims
  decode_access_token token = do
    now ← draw_now w
    claims ← or_raise (c.jwt_decode now token) invalid_token
    check_claims claims
