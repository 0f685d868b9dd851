-- ===== src/Repository.antt =====
-- app/db/repository.py: the queries. A `ScopedRepository` holds one organization's id, and every
-- statement that it builds carries the tenancy predicate `owned`.
pub mod Unscoped
pub mod Reads
pub mod Numbering
pub mod Selection
use jarvis_skill_registry.Prelude.{
  ℕ, zero, suc, ◌+◌, Text, text_eq, Bool, true, false, ◌&&◌, ◌==◌, leb, ltb, Option, none, some,
  List, [], ◌∷◌, ◌++◌, map, if◌then◌else◌,
}
use jarvis_skill_registry.Prelude.Tables.{rows_where}
use jarvis_skill_registry.Prelude.Sorting.{sort_by, insert}
use jarvis_skill_registry.Core.Enums.{SkillStatus, skill_status_eq, AuditEvent}
use jarvis_skill_registry.Core.Errors.{Exception, ErrorCode, Detail, resource_not_found}
use jarvis_skill_registry.Models.{Uuid, User, Skill, SkillVersion, ToolGrant, AuditLog}
use jarvis_skill_registry.Database.Constraints.{Db, is_active}
use jarvis_skill_registry.Session.{World, Exec, pure, query, one_or_none, or_raise, ◌>>=◌}

-- A version with its `tool_grants`, and a skill with its `versions`, as `selectinload` loads them.
pub record VersionDetail : Type 0 where
  pub version : SkillVersion
  pub tool_grants : List ToolGrant

pub record SkillDetail : Type 0 where
  pub skill : Skill
  pub versions : List VersionDetail

-- `ScopedRepository.owned` and `select`, for each tenant-owned model.
unfoldable pub select_skills : Uuid → Db → List Skill
unfolding rows_where
select_skills org db = rows_where (λ s. s.organization_id == org) db.skills

unfoldable pub select_versions : Uuid → Db → List SkillVersion
unfolding rows_where
select_versions org db = rows_where (λ v. v.organization_id == org) db.skill_versions

unfoldable pub select_audit : Uuid → Db → List AuditLog
unfolding rows_where
select_audit org db = rows_where (λ a. a.organization_id == org) db.audit_log

-- The relationship `SkillVersion.tool_grants`: by foreign key alone, ordered by `tool_name`.
unfoldable pub grants_of : World → Uuid → Db → List ToolGrant
unfolding rows_where sort_by insert
grants_of w version_id db =
    sort_by (λ a b. w.collation a.tool_name b.tool_name)
      (rows_where (λ g. g.skill_version_id == version_id) db.tool_grants)

unfoldable pub load_version : World → Db → SkillVersion → VersionDetail
unfolding grants_of
load_version w db v = record { version = v; tool_grants = grants_of w v.id db }

-- The relationship `Skill.versions`: by foreign key alone, ordered by `version_number`.
unfoldable pub versions_of : World → Uuid → Db → List VersionDetail
unfolding load_version rows_where sort_by insert
versions_of w skill_id db = map (load_version w db) (
    sort_by (λ a b. leb a.version_number b.version_number)
      (rows_where (λ v. v.skill_id == skill_id) db.skill_versions))

unfoldable pub load_skill : World → Db → Skill → SkillDetail
unfolding versions_of
load_skill w db s = record { skill = s; versions = versions_of w s.id db }

module _ (w : World) (org : Uuid) where
  -- `ScopedRepository.get(Skill, id)`, the one model that the services fetch by it.
  unfoldable pub get_skill : Uuid → Exec (Option Skill)
  unfolding select_skills rows_where
  get_skill id = do
    rows ← query (λ db. rows_where (λ s. s.id == id) (select_skills org db))
    one_or_none rows

  unfoldable pub require_skill : Uuid → Exec Skill
  unfolding get_skill
  require_skill id = do
    found ← get_skill id
    or_raise found (Exception.domain (resource_not_found ErrorCode.skill_not_found (Detail.id id)))

  unfoldable pub get_skill_with_versions : Uuid → Exec (Option SkillDetail)
  unfolding select_skills rows_where load_skill
  get_skill_with_versions skill_id = do
    rows ←
        query
          (λ db. map (load_skill w db) (rows_where (λ s. s.id == skill_id) (select_skills org db)))
    one_or_none rows

  unfoldable pub list_skills : Exec (List Skill)
  unfolding select_skills sort_by insert
  list_skills = query (λ db. sort_by (λ a b. leb b.created_at a.created_at) (select_skills org db))

  unfoldable pub get_version : Uuid → ℕ → Exec (Option VersionDetail)
  unfolding select_versions rows_where load_version
  get_version skill_id version_number = do
    rows ← query (λ db. map (load_version w db) (
        rows_where (λ v. v.skill_id == skill_id && v.version_number == version_number)
          (select_versions org db)))
    one_or_none rows

  unfoldable pub get_active_version : Uuid → Exec (Option VersionDetail)
  unfolding select_versions rows_where load_version
  get_active_version skill_id = do
    rows ← query (λ db.
        map (load_version w db)
          (rows_where (λ v. v.skill_id == skill_id && is_active v) (select_versions org db)))
    one_or_none rows

  -- `SELECT ... FOR UPDATE`: a request runs alone here, so the lock is free.
  unfoldable pub lock_skill : Uuid → Exec (Option Skill)
  unfolding select_skills rows_where
  lock_skill skill_id = do
    rows ← query (λ db. rows_where (λ s. s.id == skill_id) (select_skills org db))
    one_or_none rows

-- `coalesce(max(version_number), 0) + 1`
abbrev pub max_version : List SkillVersion → ℕ
max_version [] = 0
max_version (v ∷ vs) =
    let rest = max_version vs in if ltb rest v.version_number then v.version_number else rest

module _ (org : Uuid) where
  unfoldable pub next_version_number : Uuid → Exec ℕ
  unfolding select_versions rows_where
  next_version_number skill_id =
      query
        (λ db. max_version (rows_where (λ v. v.skill_id == skill_id) (select_versions org db)) + 1)

  unfoldable pub find_skill_by_name : Text → Exec (Option Skill)
  unfolding select_skills rows_where text_eq
  find_skill_by_name name = do
    rows ← query (λ db. rows_where (λ s. text_eq s.name name) (select_skills org db))
    one_or_none rows

abbrev pub is_active_skill : Skill → Bool
is_active_skill s = skill_status_eq s.status SkillStatus.active

abbrev pub in_department : Option Text → Skill → Bool
in_department none s = true
in_department (some d) s = text_eq s.department d

-- The rows of the join for one skill.
unfoldable pub join_versions : World → Db → List SkillVersion → Skill → List (Skill × VersionDetail)
unfolding load_version
join_versions w db [] s = []
join_versions w db (v ∷ vs) s =
    let rest = join_versions w db vs s in
    if v.skill_id == s.id then (s, load_version w db v) ∷ rest else rest

unfoldable pub join_all : World → Db → List SkillVersion → List Skill → List (Skill × VersionDetail)
unfolding join_versions
join_all w db vs [] = []
join_all w db vs (s ∷ ss) = join_versions w db vs s ++ join_all w db vs ss

-- Runtime selection: both sides of the join are scoped and both must be active.
unfoldable pub active_rows : World → Uuid → Option Text → Db → List (Skill × VersionDetail)
unfolding join_all select_skills select_versions rows_where sort_by insert text_eq
active_rows w org department db =
    sort_by (λ a b. w.collation a.0.name b.0.name)
      (join_all w db (rows_where is_active (select_versions org db))
        (rows_where (λ s. is_active_skill s && in_department department s) (select_skills org db)))

module _ (w : World) (org : Uuid) where
  unfoldable pub active_skill_versions : Option Text → Exec (List (Skill × VersionDetail))
  unfolding active_rows
  active_skill_versions department = query (active_rows w org department)
