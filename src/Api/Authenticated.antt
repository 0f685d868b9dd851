-- ===== src/Api/Authenticated.antt =====
-- What a token lets a request do: app/api/deps.py and app/api/routers/auth.py.
use jarvis_skill_registry.Prelude.{
  ℕ, ◌+◌, ◌≡◌, refl, sym, ◌∙◌, ap, inl, inr, Text, not, ◌&&◌, ◌||◌, ◌==◌, Bool-cases, Option-cases,
  Option, none, some, List, [], ◌∷◌, false, arith,
}
use jarvis_skill_registry.Prelude.Tables.{Row, rows_where, unique_by, Row-rows_where}
use jarvis_skill_registry.Prelude.Partition.{unique_by-rows_where}
use jarvis_skill_registry.Core.Errors.{Result, ok, err, Exception}
use jarvis_skill_registry.Core.Security.{
  Security, Claims, is_given, invalid_token, check_claims, decode_access_token,
}
use jarvis_skill_registry.Models.{User}
use jarvis_skill_registry.Database.Constraints.{Db}
use jarvis_skill_registry.Repository.Unscoped.{get_user_in_organization}
use jarvis_skill_registry.Session.{
  World, Session, open_session, with_session, settle, continue, ◌>>=◌, one_or_none, or_raise,
}
use jarvis_skill_registry.Api.Routes.{Request, Response, handle, get_skill_service, route}
use jarvis_skill_registry.Api.Auth.{
  auth_required, claimed_id, claimed_user, get_current_user, serve,
}

-- What authentication can answer of itself, and in which database.
pub data Refused (db : Db) : Exception → Type 0 where
  no_token : Refused db auth_required
  bad_token : Refused db invalid_token
  two_users :
      unique_by (λ a b. a.id == b.id) db.users ≡ false → Refused db Exception.multiple_results

-- The token of a request names a stored user, with the user's own organization.
pub record Names (w : World) (c : Security) (credentials : Option Text) (db : Db) (tick : ℕ)
    (user : User) : Type 0 where
  pub token : Text
  pub claims : Claims
  pub given : credentials ≡ some token
  pub decoded : c.jwt_decode (w.utcnow tick) token ≡ some claims
  pub sub : claimed_id c claims.sub ≡ some user.id
  pub org : claimed_id c claims.org ≡ some user.organization_id
  pub stored : Row user db.users

-- How authentication ends, in a session that was just opened.
data Authenticated (w : World) (c : Security) (credentials : Option Text) (db : Db) (tick : ℕ)
    : Result User × Session → Type 0 where
  refused :
      (e : Exception) (n : ℕ)
      → Refused db e
      → Authenticated w c credentials db tick (err e, open_session db n)
  named :
      (user : User)
      → Names w c credentials db tick user
      → Authenticated w c credentials db tick (ok user, open_session db (tick + 1))

module _ (w : World) (c : Security) (db : Db) (tick : ℕ) where
  pick-Authenticated :
      (credentials : Option Text) (rows : List User)
      → ((user : User) → Row user rows → Names w c credentials db tick user)
      → ((user other : User) (more : List User)
          → rows ≡ user ∷ other ∷ more
          → unique_by (λ a b. a.id == b.id) db.users ≡ false)
      → Authenticated w c credentials db tick
          ((one_or_none rows >>= λ user. or_raise user invalid_token) (open_session db (tick + 1)))
  unfolding one_or_none or_raise ◌>>=◌
  pick-Authenticated credentials [] names two =
      Authenticated.refused invalid_token (tick + 1) Refused.bad_token
  pick-Authenticated credentials (user ∷ []) names two =
      Authenticated.named user (names user (inl refl))
  pick-Authenticated credentials (user ∷ other ∷ rows) names two =
      Authenticated.refused Exception.multiple_results (tick + 1)
        (Refused.two_users (two user other rows refl))

  claimed_user-Authenticated :
      (token : Text) (claims : Claims)
      → c.jwt_decode (w.utcnow tick) token ≡ some claims
      → Authenticated w c
          (some token)
          db
          tick
          (claimed_user w c claims (open_session db (tick + 1)))
  unfolding claimed_user get_user_in_organization or_raise ◌>>=◌
  claimed_user-Authenticated token claims decoded = elim (Option-cases (claimed_id c claims.sub)) [
    | inl no_sub ↦ rw no_sub (Authenticated.refused invalid_token (tick + 1) Refused.bad_token)
    | inr (u, sub) ↦ elim (Option-cases (claimed_id c claims.org)) [
      | inl no_org ↦
          rw (sub, no_org) (Authenticated.refused invalid_token (tick + 1) Refused.bad_token)
      | inr (o, org) ↦
          rw (sub, org)
            (pick-Authenticated (some token)
              (rows_where (λ x. x.id == u && x.organization_id == o) db.users)
              (λ user row.
                let (test, stored) =
                  Row-rows_where (λ x. x.id == u && x.organization_id == o) user db.users row in
                let same : (user.id ≡ u) × (user.organization_id ≡ o) =
                  (ground arith, ground arith) in
                record {
                  token = token;
                  claims = claims;
                  given = refl;
                  decoded = decoded;
                  sub = sub ∙ ap some (sym same.0);
                  org = org ∙ ap some (sym same.1);
                  stored = stored;
                })
              (λ user other more.
                unique_by-rows_where (λ x. x.id == u && x.organization_id == o) (λ x. x.id) u
                  db.users user other more (λ x test. ground arith)))
    ]
  ]

  get_current_user-Authenticated :
      (credentials : Option Text)
      → Authenticated w c credentials db tick
          (get_current_user w c credentials (open_session db tick))
  unfolding get_current_user decode_access_token check_claims or_raise ◌>>=◌
  get_current_user-Authenticated none = Authenticated.refused auth_required tick Refused.no_token
  get_current_user-Authenticated (some []) =
      Authenticated.refused auth_required tick Refused.no_token
  get_current_user-Authenticated (some (b ∷ token)) =
      elim (Option-cases (c.jwt_decode (w.utcnow tick) (b ∷ token))) [
        | inl bad ↦ rw bad (Authenticated.refused invalid_token (tick + 1) Refused.bad_token)
        | inr (claims, decoded) ↦
            elim (Bool-cases (not (is_given claims.sub) || not (is_given claims.org))) [
              | inl missing ↦
                  rw (decoded, missing)
                    (Authenticated.refused invalid_token (tick + 1) Refused.bad_token)
              | inr given ↦
                  rw (decoded, given) (claimed_user-Authenticated (b ∷ token) claims decoded)
            ]
      ]

-- How a request with these credentials ends.
pub data Answered (w : World) (c : Security) (credentials : Option Text) (request : Request)
    (db : Db) (tick : ℕ) : Result Response × Session → Type 0 where
  refused :
      (e : Exception) (n : ℕ)
      → Refused db e
      → Answered w c credentials request db tick (err e, open_session db n)
  as_user :
      (user : User)
      → Names w c credentials db tick user
      → Answered w c credentials request db tick (handle w user request db (tick + 1))

serve_as :
    (w : World) (c : Security) (credentials : Option Text) (request : Request) (db : Db) (tick : ℕ)
    (outcome : Result User × Session)
    → Authenticated w c credentials db tick outcome
    → Answered w c credentials request db tick (
        let (r, s) =
          continue outcome.0 (λ user. route w (get_skill_service user) request) outcome.1 in
        settle r s)
unfolding handle with_session
serve_as w c credentials request db tick outcome (Authenticated.refused e n because) =
    Answered.refused e n because
serve_as w c credentials request db tick outcome (Authenticated.named user names) =
    Answered.as_user user names

-- Whatever the credentials of a request, it is refused and leaves the database as it was, or it is
-- the request of a stored user: a user whom the claims of its valid token name, in the organization
-- that they name and that the database has for that user.
pub serve-Answered :
    (w : World) (c : Security) (credentials : Option Text) (request : Request) (db : Db) (tick : ℕ)
    → Answered w c credentials request db tick (serve w c credentials request db tick)
unfolding serve with_session ◌>>=◌
serve-Answered w c credentials request db tick =
    serve_as w c credentials request db tick
      (get_current_user w c credentials (open_session db tick))
      (get_current_user-Authenticated w c db tick credentials)
