-- ===== src/History.antt =====
-- The server over time: what any sequence of requests and logins, of any clients with any
-- credentials, in any order, can make of the database.
pub mod Always
pub mod Onward
use jarvis_skill_registry.Prelude.{
  ℕ, ◌+◌, ◌≡◌, refl, ◌∙◌, sym, ap, subst, Text, Option, none, some, not,
}
use jarvis_skill_registry.Prelude.Tables.{Row}
use jarvis_skill_registry.Core.Errors.{Result, ok, err, Exception}
use jarvis_skill_registry.Core.Security.{Security, create_access_token}
use jarvis_skill_registry.Models.{Uuid, User}
use jarvis_skill_registry.Core.Enums.{UserRole}
use jarvis_skill_registry.Database.Constraints.{Db}
use jarvis_skill_registry.Repository.Unscoped.{get_user_by_email}
use jarvis_skill_registry.Session.{
  World, Session, Exec, open_session, settle, with_session, query, draw_now, draw_uuid, or_raise,
}
use jarvis_skill_registry.Session.Keeps.{
  Keeps, Keeps-draw_now, Keeps-draw_uuid, Keeps-bind, Keeps-then, Keeps-pure, Keeps-raise,
  Keeps-raise_if, Keeps-or_raise, Keeps-query, Keeps-one_or_none,
}
use jarvis_skill_registry.Api.Routes.{Request, Response, handle}
use jarvis_skill_registry.Api.Auth.{
  LoginRequest, TokenResponse, invalid_credentials, serve, serve_login, login, check_password,
  token_for,
}
use jarvis_skill_registry.Api.Authenticated.{Answered, serve-Answered, Names}

-- One event at the server, at some time.
pub data Step (w : World) (c : Security) : Db → Db → Type 0 where
  request_served :
      {db db' : Db} (credentials : Option Text) (request : Request) (tick : ℕ)
      → (serve w c credentials request db tick).1.committed ≡ db'
      → Step w c db db'
  login_served :
      {db db' : Db} (payload : LoginRequest) (tick : ℕ)
      → (serve_login w c payload db tick).1.committed ≡ db'
      → Step w c db db'

pub data Reach (w : World) (c : Security) (db : Db) : Db → Type 0 where
  here : Reach w c db db
  next : {mid db' : Db} → Reach w c db mid → Step w c mid db' → Reach w c db db'

module _ (w : World) (c : Security) (db : Db) where
  abbrev Unchanged : Session → Type 0
  Unchanged s = s.committed ≡ db

  get_user_by_email-Keeps : (email : Text) → Keeps Unchanged (get_user_by_email w c email)
  unfolding get_user_by_email
  get_user_by_email-Keeps email =
      Keeps-bind (query _) _ (Keeps-query _) (λ rows _. Keeps-one_or_none rows)

  check_password-Keeps :
      (password : Text) (found : Option User) → Keeps Unchanged (check_password w c password found)
  unfolding check_password
  check_password-Keeps password none = Keeps-raise invalid_credentials
  check_password-Keeps password (some user) =
      Keeps-bind (or_raise (c.verify password user.hashed_password) Exception.value_error) _
        (Keeps-or_raise _ _)
        (λ verified _.
          Keeps-then (Keeps-raise_if (not verified) invalid_credentials) (Keeps-pure user))

  token_for-Keeps : (user : User) → Keeps Unchanged (token_for w c user)
  unfolding token_for create_access_token
  token_for-Keeps user = record { at = λ s h. h }

  login-Keeps : (payload : LoginRequest) → Keeps Unchanged (login w c payload)
  unfolding login
  login-Keeps payload =
      Keeps-bind (get_user_by_email w c payload.email) _ (get_user_by_email-Keeps payload.email)
        λ found _.
          Keeps-bind (check_password w c payload.password found) _
            (check_password-Keeps payload.password found) (λ user _. token_for-Keeps user)

-- A login changes nothing.
pub serve_login-committed :
    (w : World) (c : Security) (payload : LoginRequest) (db : Db) (tick : ℕ)
    → (serve_login w c payload db tick).1.committed ≡ db
unfolding serve_login with_session
serve_login-committed w c payload db tick =
    settled (login w c payload (open_session db tick)).0
      (login w c payload (open_session db tick)).1
      ((login-Keeps w c db payload).at (open_session db tick) refl)
  where
    settled :
        (r : Result TokenResponse) (s : Session) → s.committed ≡ db → (settle r s).1.committed ≡ db
    settled (ok t) s h = h
    settled (err e) s h = h

-- A property of the database that every request of a stored user keeps holds at every time.
pub Reach-keeps :
    {w : World} {c : Security} {db db' : Db} (R : Db → Type 0)
    → ((user : User) (request : Request) (at : Db) (tick : ℕ)
        → Row user at.users
        → R at
        → R (handle w user request at tick).1.committed)
    → R db
    → Reach w c db db'
    → R db'
Reach-keeps R keep h Reach.here = h
Reach-keeps {w} {c} R keep h
      (Reach.next {mid} before (Step.request_served credentials request tick e)) =
    subst R e (
      answered (serve w c credentials request mid tick)
        (serve-Answered w c credentials request mid tick) (Reach-keeps R keep h before))
  where
    answered :
        (outcome : Result Response × Session)
        → Answered w c credentials request mid tick outcome
        → R mid
        → R outcome.1.committed
    answered outcome (Answered.refused e n because) kept = kept
    answered outcome (Answered.as_user user names) kept =
        keep user request mid (tick + 1) names.stored kept
Reach-keeps {w} {c} R keep h (Reach.next {mid} before (Step.login_served payload tick e)) =
    subst R (sym (serve_login-committed w c payload mid tick) ∙ e) (Reach-keeps R keep h before)
