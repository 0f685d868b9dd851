-- ===== src/Tests/Server.antt =====
-- The theorems on authentication, on error answers and on histories, on the sample registry.
use jarvis_skill_registry.Prelude.{
  ℕ, ◌+◌, ◌≡◌, refl, ◌↔◌, inl, inr, codes, Text, List, [], ◌∷◌, ◌++◌, some, none, arith,
}
use jarvis_skill_registry.Prelude.Tables.{All, Row}
use jarvis_skill_registry.Core.Errors.{ok, err}
use jarvis_skill_registry.Core.Enums.{UserRole}
use jarvis_skill_registry.Models.{User, AuditLog}
use jarvis_skill_registry.Database.Constraints.{Db, empty_db}
use jarvis_skill_registry.Session.{open_session}
use jarvis_skill_registry.Api.Routes.{Request, handle}
use jarvis_skill_registry.Api.Auth.{
  LoginRequest, TokenResponse, invalid_credentials, serve, serve_login,
}
use jarvis_skill_registry.Api.Authenticated.{Answered, Names, serve-Answered}
use jarvis_skill_registry.Api.Login.{minted, LoginRefused, serve_login-refused, serve-serve_login}
use jarvis_skill_registry.Api.Errors.{respond}
use jarvis_skill_registry.Api.Opaque.{IsRefusal, respond-IsRefusal}
use jarvis_skill_registry.Seed.{fixtures, run_seed}
use jarvis_skill_registry.Seed.Again.{HasOrganization, run_seed-HasOrganization}
use jarvis_skill_registry.Invariants.Immutability.{Extends, SameContent}
use jarvis_skill_registry.Invariants.Integrity.{IsIntact}
use jarvis_skill_registry.Invariants.Consistency.{IsConsistent}
use jarvis_skill_registry.Invariants.Lifecycle.Requests.{IsPassed}
use jarvis_skill_registry.History.{Reach, Step}
use jarvis_skill_registry.History.Always.{
  Reach-SameContent, Reach-IsIntact, Reach-IsPassed, IsSigned, Reach-IsSigned,
}
use jarvis_skill_registry.Invariants.Moves.{Moves}
use jarvis_skill_registry.History.Onward.{Later, Kept, Reach-Later, Reach-Kept}
use jarvis_skill_registry.Samples.{world, owner_abc, member_abc, db0, new_skill}
use jarvis_skill_registry.Samples.Tokens.{security, security-IsSound}
use jarvis_skill_registry.Tests.Consistent.{db0-IsConsistent}

-- A token of the owner and one of the member, minted at the start.
abbrev owner_token : Text
owner_token = security.jwt_encode (minted world security owner_abc 0)

abbrev member_token : Text
member_token = security.jwt_encode (minted world security member_abc 0)

serve-Answered_example :
    Answered world security
      (some owner_token)
      (Request.create_skill new_skill)
      db0
      5
      (serve world security (some owner_token) (Request.create_skill new_skill) db0 5)
serve-Answered_example =
    serve-Answered world security (some owner_token) (Request.create_skill new_skill) db0 5

abbrev stranger : LoginRequest
stranger = record { email = codes "nobody@abc.test"; password = codes "x" }

serve_login-refused_example :
    serve_login world security stranger db0 0 ≡ (err invalid_credentials, open_session db0 0)
unfolding jarvis_skill_registry.Prelude.Tables.rows_where jarvis_skill_registry.Core.Tools.strip
    jarvis_skill_registry.Prelude.text_eq
serve_login-refused_example =
    serve_login-refused world security stranger db0 0 invalid_credentials
      (LoginRefused.unknown_address refl)

abbrev owner_login : LoginRequest
owner_login = record { email = codes " Owner@abc.test"; password = codes "x" }

serve-serve_login_example :
    (t : TokenResponse) × (serve_login world security owner_login db0 0
      ≡ (ok t, open_session db0 2))
    × (serve world security (some t.access_token) (Request.create_skill new_skill) db0 5
        ≡ handle world owner_abc (Request.create_skill new_skill) db0 6)
unfolding jarvis_skill_registry.Prelude.Tables.rows_where jarvis_skill_registry.Core.Tools.strip
    jarvis_skill_registry.Prelude.text_eq
serve-serve_login_example =
    serve-serve_login world security owner_login owner_abc (Request.create_skill new_skill) db0 db0
      0 5 security-IsSound refl refl (omega arith) (omega arith) (omega arith) (omega arith) refl

anonymous : (user : User) → Names world security none db0 0 user → ⊥
anonymous user names = let given = names.given in cc

respond-IsRefusal_example :
    IsRefusal (respond world security none Request.list_skills db0 0).0
    × ((n : ℕ) × ((respond world security none Request.list_skills db0 0).1 ≡ open_session db0 n))
unfolding jarvis_skill_registry.Prelude.Tables.unique_by jarvis_skill_registry.Prelude.Tables.any
respond-IsRefusal_example =
    respond-IsRefusal world security none Request.list_skills db0 0 refl anonymous

-- What one run of the script leaves in an empty database.
abbrev fixture_user : ℕ → ℕ → Text → UserRole → User
fixture_user id org email role = record {
  id = id;
  organization_id = org;
  email = email;
  role = role;
  hashed_password = codes "x";
  created_at = 0;
}

abbrev db_seeded : Db
db_seeded = record empty_db {
  organizations =
      record { id = 1; name = codes "ABC"; slug = codes "abc-construction"; created_at = 0 }
      ∷ record { id = 2; name = codes "XYZ"; slug = codes "xyz-builders"; created_at = 0 }
      ∷ [];
  users =
      fixture_user 11 1 (codes "owner@abc-construction.test") UserRole.owner
      ∷ fixture_user 12 1 (codes "member@abc-construction.test") UserRole.member
      ∷ fixture_user 21 2 (codes "owner@xyz-builders.test") UserRole.owner
      ∷ fixture_user 22 2 (codes "member@xyz-builders.test") UserRole.member
      ∷ [];
}

db_seeded-HasOrganization : All (HasOrganization db_seeded) fixtures
unfolding jarvis_skill_registry.Prelude.Tables.rows_where jarvis_skill_registry.Prelude.text_eq
db_seeded-HasOrganization = (
  record {
    organization = _;
    only = refl;
    users = (record { user = _; only = refl }, (record { user = _; only = refl }, tt));
  },
  (
    record {
      organization = _;
      only = refl;
      users = (record { user = _; only = refl }, (record { user = _; only = refl }, tt));
    },
    tt,
  ),
)

run_seed-HasOrganization_example :
    run_seed world security db_seeded 0 ≡ (ok tt, open_session db_seeded 1)
run_seed-HasOrganization_example =
    run_seed-HasOrganization world security db_seeded 0 db_seeded-HasOrganization

-- A skill is created by the owner, and its version is reviewed by the member.
abbrev db_first : Db
db_first =
    (serve world security (some owner_token) (Request.create_skill new_skill) db0 5).1.committed

abbrev db_second : Db
db_second =
    (serve world security (some member_token) (Request.review_version 106 1) db_first
      20).1.committed

abbrev two_requests : Reach world security db0 db_second
two_requests =
    Reach.next
      (Reach.next Reach.here
        (Step.request_served (some owner_token) (Request.create_skill new_skill) 5 refl))
      (Step.request_served (some member_token) (Request.review_version 106 1) 20 refl)

abbrev second_request : Reach world security db_first db_second
second_request =
    Reach.next Reach.here
      (Step.request_served (some member_token) (Request.review_version 106 1) 20 refl)

Reach-SameContent_example : Extends SameContent db_first.skill_versions db_second.skill_versions
Reach-SameContent_example = Reach-SameContent second_request

Reach-IsIntact_example : IsConsistent db_second × All (IsIntact world) db_second.skill_versions
Reach-IsIntact_example = Reach-IsIntact db0-IsConsistent tt two_requests

Reach-IsPassed_example : All IsPassed db_second.skill_versions
Reach-IsPassed_example = Reach-IsPassed db0-IsConsistent tt two_requests

Reach-IsSigned_example :
    (tail : List AuditLog) × (db_second.audit_log ≡ db0.audit_log ++ tail)
    × All (IsSigned db0.users) tail
Reach-IsSigned_example = Reach-IsSigned two_requests

db_first-IsConsistent : IsConsistent db_first
db_first-IsConsistent =
    (Reach-IsIntact db0-IsConsistent tt (
      Reach.next Reach.here
        (Step.request_served (some owner_token) (Request.create_skill new_skill) 5 refl))).0

Reach-Later_example : Moves Later (λ _. Unit) db_first.skill_versions db_second.skill_versions
Reach-Later_example = Reach-Later db_first-IsConsistent second_request

Reach-Kept_example : Moves Kept (λ _. Unit) db_first.tool_grants db_second.tool_grants
Reach-Kept_example = Reach-Kept db_first-IsConsistent second_request
