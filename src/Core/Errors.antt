-- ===== src/Core/Errors.antt =====
-- app/core/errors.py: the domain errors, their HTTP status and code. The human-readable message is
-- left out; the structured detail is kept.
use jarvis_skill_registry.Prelude.{ℕ, Text, List}
use jarvis_skill_registry.Core.Enums.{UserRole, VersionStatus}

pub data ErrorCode : Type 0 where
  auth_required invalid_credentials invalid_token : ErrorCode
  skill_not_found skill_version_not_found skill_name_conflict skill_disabled : ErrorCode
  constraint_violation not_org_owner : ErrorCode
  version_not_reviewed version_not_activatable version_already_reviewed : ErrorCode
  active_version_immutable : ErrorCode
  unknown_tool forbidden_tool_pattern tool_not_requested : ErrorCode
  validation_error method_not_allowed not_found internal_error : ErrorCode

-- Why a tool name is refused with FORBIDDEN_TOOL_PATTERN.
pub data Reason : Type 0 where
  empty_or_non_string wildcard path_traversal path_separator whitespace : Reason
  shell_metacharacter destructive_capability malformed_identifier : Reason

-- The `detail` dictionaries that the services build.
pub data Detail : Type 0 where
  empty : Detail
  id : ℕ → Detail
  skill_id : ℕ → Detail
  skill_version : ℕ → ℕ → Detail
  actor_role : UserRole → Detail
  name : Text → Detail
  version_number : ℕ → Detail
  version_status : ℕ → VersionStatus → Detail
  forbidden_tool : Text → Reason → Detail
  unknown_tool : Text → List Text → Detail
  not_requested : List Text → List Text → Detail

pub record DomainError : Type 0 where
  pub status_code : ℕ
  pub code : ErrorCode
  pub detail : Detail

-- `class DomainError`: the subclasses fix the status; 401, 403 and 404 have a default code.
abbrev pub authentication_error : ErrorCode → DomainError
authentication_error c = record { status_code = 401; code = c; detail = Detail.empty }

abbrev pub permission_denied : ErrorCode → Detail → DomainError
permission_denied c d = record { status_code = 403; code = c; detail = d }

abbrev pub resource_not_found : ErrorCode → Detail → DomainError
resource_not_found c d = record { status_code = 404; code = c; detail = d }

abbrev pub conflict : ErrorCode → Detail → DomainError
conflict c d = record { status_code = 409; code = c; detail = d }

abbrev pub unprocessable : ErrorCode → Detail → DomainError
unprocessable c d = record { status_code = 422; code = c; detail = d }

-- The constraints that alembic 0001 and 0002 declare and that a flush can violate.
pub data Constraint : Type 0 where
  pk_organizations uq_organizations_slug : Constraint
  pk_users fk_users_organization_id_organizations uq_users_email : Constraint
  pk_skills uq_skills_organization_id_name : Constraint
  pk_skill_versions fk_skill_versions_skill_id_skills : Constraint
  uq_skill_versions_skill_id_version_number : Constraint
  ck_skill_versions_version_number_positive : Constraint
  uq_skill_versions_one_active_per_skill : Constraint
  pk_tool_grants fk_tool_grants_skill_version_id_skill_versions : Constraint
  uq_tool_grants_skill_version_id_tool_name : Constraint
  pk_audit_log : Constraint
  trg_skill_versions_immutable_active : Constraint

-- What a service call can raise: a domain error, `IntegrityError`, `ImmutableVersionError`, and
-- SQLAlchemy's errors for an UPDATE that finds no row and for a second row where one is expected,
-- and a `ValueError`, as passlib raises it.
pub data Exception : Type 0 where
  domain : DomainError → Exception
  integrity : Constraint → Exception
  immutable_version : Exception
  stale_data : Exception
  multiple_results : Exception
  value_error : Exception

pub data Result {ℓ} (A : Type ℓ) : Type ℓ where
  ok : A → Result A
  err : Exception → Result A

infixl 5 ◌>>=◌
abbrev pub ◌>>=◌ {ℓ κ} : {A : Type ℓ} {B : Type κ} → Result A → (A → Result B) → Result B
ok a >>= f = f a
err e >>= f = err e
