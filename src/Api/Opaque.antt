-- ===== src/Api/Opaque.antt =====
-- What the error answers of app/api/errors.py give away.
use jarvis_skill_registry.Prelude.{ℕ, ◌≡◌, refl, ◌⊎◌, inl, inr, true, ◌==◌, Text, Option, []}
use jarvis_skill_registry.Prelude.Tables.{unique_by}
use jarvis_skill_registry.Core.Errors.{Result, err, Exception, Constraint}
use jarvis_skill_registry.Core.Security.{Security}
use jarvis_skill_registry.Models.{User}
use jarvis_skill_registry.Database.Constraints.{Db}
use jarvis_skill_registry.Session.{World, Session, open_session}
use jarvis_skill_registry.Api.Routes.{Request, Response}
use jarvis_skill_registry.Api.Auth.{serve}
use jarvis_skill_registry.Api.Authenticated.{Refused, Names, Answered, serve-Answered}
use jarvis_skill_registry.Api.Errors.{
  Raised, ErrorAnswer, ErrorDetail, bearer, exception_handlers, domain_error, HttpAnswer, answer,
  respond,
}

-- An answer that has no detail of the failure: a conflict or an internal error, with nothing beside
-- its code.
pub record IsOpaque (a : ErrorAnswer) : Type 0 where
  pub status : (a.status_code ≡ 409) ⊎ (a.status_code ≡ 500)
  pub detail : a.content.detail ≡ ErrorDetail.nothing
  pub headers : a.headers ≡ []

-- An exception that is no domain error of the services.
pub data IsUnexpected : Raised → Type 0 where
  integrity : (k : Constraint) → IsUnexpected (Raised.exception (Exception.integrity k))
  immutable_version : IsUnexpected (Raised.exception Exception.immutable_version)
  stale_data : IsUnexpected (Raised.exception Exception.stale_data)
  multiple_results : IsUnexpected (Raised.exception Exception.multiple_results)
  value_error : IsUnexpected (Raised.exception Exception.value_error)
  other : IsUnexpected Raised.other

-- An exception that is no domain error is answered by 409 or 500 with no detail and no header: the
-- client learns neither the constraint that was violated nor anything else of the failure.
pub exception_handlers-IsOpaque :
    (raised : Raised) → IsUnexpected raised → IsOpaque (exception_handlers raised)
unfolding exception_handlers
exception_handlers-IsOpaque r (IsUnexpected.integrity k) = record {
  status = inl refl;
  detail = refl;
  headers = refl;
}
exception_handlers-IsOpaque r IsUnexpected.immutable_version = record {
  status = inl refl;
  detail = refl;
  headers = refl;
}
exception_handlers-IsOpaque r IsUnexpected.stale_data = record {
  status = inr refl;
  detail = refl;
  headers = refl;
}
exception_handlers-IsOpaque r IsUnexpected.multiple_results = record {
  status = inr refl;
  detail = refl;
  headers = refl;
}
exception_handlers-IsOpaque r IsUnexpected.value_error = record {
  status = inr refl;
  detail = refl;
  headers = refl;
}
exception_handlers-IsOpaque r IsUnexpected.other = record {
  status = inr refl;
  detail = refl;
  headers = refl;
}

-- The answer 401 that asks for a bearer token.
pub record IsRefusal (a : HttpAnswer) : Type 0 where
  pub failed : ErrorAnswer
  pub is : a ≡ HttpAnswer.failure failed
  pub status : failed.status_code ≡ 401
  pub headers : failed.headers ≡ bearer

refusal :
    (request : Request) (db : Db) (e : Exception)
    → unique_by (λ a b. a.id == b.id) db.users ≡ true
    → Refused db e
    → IsRefusal (answer request (err e))
unfolding exception_handlers domain_error
refusal request db e unique Refused.no_token = record {
  failed = _;
  is = refl;
  status = refl;
  headers = refl;
}
refusal request db e unique Refused.bad_token = record {
  failed = _;
  is = refl;
  status = refl;
  headers = refl;
}
refusal request db e unique (Refused.two_users clash) = cc

-- If no two stored users have one id, a request that no valid token of a stored user comes with is
-- answered 401 with a request for a bearer token, and the database, the session's view of it
-- included, is what it was.
pub respond-IsRefusal :
    (w : World) (c : Security) (credentials : Option Text) (request : Request) (db : Db) (tick : ℕ)
    → unique_by (λ a b. a.id == b.id) db.users ≡ true
    → ((user : User) → Names w c credentials db tick user → ⊥)
    → IsRefusal (respond w c credentials request db tick).0
      × ((n : ℕ) × ((respond w c credentials request db tick).1 ≡ open_session db n))
unfolding respond
respond-IsRefusal w c credentials request db tick unique nobody =
    from (serve w c credentials request db tick) (serve-Answered w c credentials request db tick)
  where
    from :
        (outcome : Result Response × Session)
        → Answered w c credentials request db tick outcome
        → IsRefusal (answer request outcome.0) × ((n : ℕ) × (outcome.1 ≡ open_session db n))
    from outcome (Answered.refused e n because) = (refusal request db e unique because, (n, refl))
    from outcome (Answered.as_user user names) = absurd (nobody user names)
