-- ===== src/Tests.antt =====
-- The theorems on the sample registry, and runs of the definitions.
mod Consistent
mod Server
mod Effects
mod Statements
mod Content
use jarvis_skill_registry.Services.Barred.{Barred, handle-Barred}
use jarvis_skill_registry.Prelude.{text_eq}
use jarvis_skill_registry.Prelude.Tables.{unique_by}
use jarvis_skill_registry.Core.Tools.{strip}
use jarvis_skill_registry.Core.Accepted.{
  IsAccepted, validate_requested_tools_lem, validate_requested_tools_iff,
}
use jarvis_skill_registry.Invariants.Moves.{Moves}
use jarvis_skill_registry.Invariants.Granting.{Granting, IsAsked, handle-Granting}
use jarvis_skill_registry.Prelude.{
  ℕ, ◌≡◌, refl, inl, ◌&&◌, not, ◌||◌, ◌==◌, codes, Bool, true, false, List, [], ◌∷◌, some,
}
use jarvis_skill_registry.Prelude.Tables.{All}
use jarvis_skill_registry.Core.Enums.{VersionStatus, version_status_eq}
use jarvis_skill_registry.Core.Errors.{
  ok, err, Exception, ErrorCode, Detail, Reason, conflict, unprocessable,
}
use jarvis_skill_registry.Core.Rejected.{FirstRefused, validate_requested_tools-FirstRefused}
use jarvis_skill_registry.Models.{VersionSet, assign_all, assign_version}
use jarvis_skill_registry.Models.Guard.{guard_active_version_immutability}
use jarvis_skill_registry.Database.Trigger.{trigger_accepts}
use jarvis_skill_registry.Database.Layers.{IsFrozen, update_version-IsFrozen, trigger-eq-guard}
use jarvis_skill_registry.Database.Constraints.{Db}
use jarvis_skill_registry.Database.Write.{Write, apply_write}
use jarvis_skill_registry.Api.Routes.{Request, handle}
use jarvis_skill_registry.Invariants.Immutability.{Extends, SameContent, versions_immutable}
use jarvis_skill_registry.Invariants.AuditTrail.{Grown, audit_append_only}
use jarvis_skill_registry.Invariants.Integrity.{IsIntact, handle-IsIntact}
use jarvis_skill_registry.Invariants.Roles.{SameActivation, member_activates_nothing}
use jarvis_skill_registry.Invariants.Consistency.{IsConsistent, handle-IsConsistent}
use jarvis_skill_registry.Invariants.Isolation.{IsUntouched, handle-IsUntouched}
use jarvis_skill_registry.Services.Skills.{version_not_found, not_owner}
use jarvis_skill_registry.Services.Visibility.{NamesSkill, handle-NamesSkill}
use jarvis_skill_registry.Services.Settled.{Settled, handle-Settled}
use jarvis_skill_registry.Repository.{load_version, active_rows}
use jarvis_skill_registry.Repository.Selection.{IsOffered, active_rows_iff}
use jarvis_skill_registry.Prelude.{◌↔◌, none}
use jarvis_skill_registry.Prelude.Tables.{Row}
use jarvis_skill_registry.Session.{open_session}
use jarvis_skill_registry.Api.Routes.{Response}
use jarvis_skill_registry.Core.Tools.{validate_requested_tools}
use jarvis_skill_registry.Core.Allowlist.{
  IsAllowed, IsNamed, ascending, validate_requested_tools-IsAllowed,
}
use jarvis_skill_registry.Tests.Consistent.{db0-IsConsistent}
use jarvis_skill_registry.Samples.{
  sample_skill, world, owner_abc, member_abc, owner_xyz, db0, new_skill, db_active, active_version,
  superseded_version, db_one_version,
}

versions_immutable_example :
    Extends SameContent db_active.0.skill_versions
      (handle world owner_abc
        (Request.disable_skill 100)
        db_active.0
        db_active.1).1.committed.skill_versions
versions_immutable_example =
    versions_immutable world owner_abc (Request.disable_skill 100) db_active.0 db_active.1

audit_append_only_example :
    Grown owner_abc db_active.0.audit_log
      (handle world owner_abc
        (Request.disable_skill 100)
        db_active.0
        db_active.1).1.committed.audit_log
audit_append_only_example =
    audit_append_only world owner_abc (Request.disable_skill 100) db_active.0 db_active.1

-- The registry with one version, created by a request.
abbrev db_created : Db
db_created = (handle world owner_abc (Request.create_skill new_skill) db0 0).1.committed

db_created-IsIntact : All (IsIntact world) db_created.skill_versions
db_created-IsIntact = handle-IsIntact world owner_abc (Request.create_skill new_skill) db0 0 tt

handle-IsIntact_example :
    All
      (IsIntact world)
      (handle world member_abc
        (Request.review_version 100 1)
        db_created
        20).1.committed.skill_versions
handle-IsIntact_example =
    handle-IsIntact world member_abc (Request.review_version 100 1) db_created 20
      db_created-IsIntact

member_activates_nothing_example :
    Extends SameActivation db_active.0.skill_versions
      (handle world member_abc
        (Request.disable_skill 100)
        db_active.0
        db_active.1).1.committed.skill_versions
member_activates_nothing_example =
    member_activates_nothing world member_abc (Request.disable_skill 100) db_active.0 db_active.1
      refl

abbrev superseding : List VersionSet
superseding = VersionSet.status VersionStatus.superseded ∷ []

superseded :
    apply_write (Write.update_version active_version superseding) (db_one_version active_version)
    ≡ ok (db_one_version superseded_version)
unfolding apply_write trigger_accepts guard_active_version_immutability
    jarvis_skill_registry.Database.Constraints.versions_violation
    jarvis_skill_registry.Prelude.Tables.update_where
superseded = refl

update_version-IsFrozen_example :
    IsFrozen active_version (assign_all assign_version superseding active_version)
update_version-IsFrozen_example =
    update_version-IsFrozen (db_one_version active_version) (db_one_version superseded_version)
      active_version superseding active_version superseded (inl refl) refl refl

trigger-eq-guard_example : trigger_accepts active_version superseded_version ≡ (
    guard_active_version_immutability active_version superseded_version
    && (not (version_status_eq active_version.status VersionStatus.active)
        || superseded_version.organization_id == active_version.organization_id
          && superseded_version.skill_id == active_version.skill_id))
trigger-eq-guard_example = trigger-eq-guard active_version superseded_version

db_created-IsConsistent : IsConsistent db_created
db_created-IsConsistent =
    handle-IsConsistent world owner_abc (Request.create_skill new_skill) db0 0 db0-IsConsistent

handle-IsUntouched_example :
    IsUntouched owner_xyz.organization_id db_created
      (handle world owner_xyz (Request.disable_skill 100) db_created 20).1.committed
handle-IsUntouched_example =
    handle-IsUntouched world owner_xyz (Request.disable_skill 100) db_created 20
      db_created-IsConsistent

-- The skill of one organization, asked for by the owner of another.
handle-NamesSkill_example :
    handle world owner_xyz
      (Request.grant_tools 5 1 (record { tools = [] }))
      (db_one_version active_version)
      0
    ≡ (err (version_not_found 5 1), open_session (db_one_version active_version) 0)
unfolding jarvis_skill_registry.Repository.select_versions
    jarvis_skill_registry.Prelude.Tables.rows_where
handle-NamesSkill_example =
    handle-NamesSkill world owner_xyz 5 (Request.grant_tools 5 1 (record { tools = [] }))
      (version_not_found 5 1) (db_one_version active_version) 0
      (NamesSkill.grant 1 (record { tools = [] }) refl)

handle-Settled_example :
    handle world owner_abc (Request.activate_version 5 1) (db_one_version active_version) 0 ≡ (
      ok (
          Response.activation
            (load_version world (db_one_version active_version) active_version)
            false),
      open_session (db_one_version active_version) 0,
    )
unfolding jarvis_skill_registry.Repository.select_skills
    jarvis_skill_registry.Repository.select_versions jarvis_skill_registry.Prelude.Tables.rows_where
handle-Settled_example =
    handle-Settled world owner_abc 5 1 (db_one_version active_version) 0 sample_skill active_version
      (ok (
        Response.activation (load_version world (db_one_version active_version) active_version)
          false))
      refl refl (Settled.repeated refl refl)

active_rows_iff_example :
    Row
      (sample_skill, load_version world (db_one_version active_version) active_version)
      (active_rows world 1 none (db_one_version active_version))
    ↔ (IsOffered 1 none (db_one_version active_version) sample_skill active_version
        × (load_version world (db_one_version active_version) active_version
            ≡ load_version world (db_one_version active_version) active_version))
unfolding load_version
active_rows_iff_example =
    active_rows_iff world 1 none (db_one_version active_version)
      (sample_skill, load_version world (db_one_version active_version) active_version)

abbrev two_tools : List (List ℕ)
two_tools = codes "query_schedule" ∷ codes "read_project" ∷ []

two_tools_validated :
    validate_requested_tools world.lower (codes " Read_Project" ∷ codes "query_schedule" ∷ [])
    ≡ ok two_tools
unfolding validate_requested_tools
two_tools_validated = refl

validate_requested_tools-IsAllowed_example : All IsAllowed two_tools × (ascending two_tools ≡ true)
validate_requested_tools-IsAllowed_example =
    validate_requested_tools-IsAllowed world.lower
      (codes " Read_Project" ∷ codes "query_schedule" ∷ []) two_tools two_tools_validated

validate_requested_tools_lem_example :
    ((t : List ℕ)
      → Row t two_tools
        ↔ IsAccepted world.lower (codes " Read_Project" ∷ codes "query_schedule" ∷ []) t)
    × (unique_by text_eq two_tools ≡ true)
validate_requested_tools_lem_example =
    validate_requested_tools_lem world.lower (codes " Read_Project" ∷ codes "query_schedule" ∷ [])
      two_tools two_tools_validated

validate_requested_tools_iff_example :
    ((ts : List (List ℕ)) × (validate_requested_tools world.lower (codes "sudo" ∷ []) ≡ ok ts))
    ↔ All (λ raw. IsNamed world.lower raw (world.lower (strip raw))) (codes "sudo" ∷ [])
validate_requested_tools_iff_example = validate_requested_tools_iff world.lower (codes "sudo" ∷ [])

-- The first name is accepted, and the second is a destructive tool.
abbrev mixed_tools : List (List ℕ)
mixed_tools = codes " Read_Project" ∷ codes "shell_exec" ∷ codes "../x" ∷ []

abbrev destructive_refused : Exception
destructive_refused = Exception.domain (
    unprocessable ErrorCode.forbidden_tool_pattern
      (Detail.forbidden_tool (codes "shell_exec") Reason.destructive_capability))

mixed_tools_refused : validate_requested_tools world.lower mixed_tools ≡ err destructive_refused
unfolding validate_requested_tools
mixed_tools_refused = refl

validate_requested_tools-FirstRefused_example :
    (validate_requested_tools world.lower mixed_tools ≡ err destructive_refused)
    ↔ FirstRefused world.lower mixed_tools destructive_refused
validate_requested_tools-FirstRefused_example =
    validate_requested_tools-FirstRefused world.lower mixed_tools destructive_refused

-- The same registry, whose skill asks for two tools; the owner grants one of them.
handle-Granting_example :
    Moves
      (Granting owner_abc)
      (IsAsked owner_abc)
      db_created.tool_grants
      (handle world owner_abc
        (Request.grant_tools 100 1 (record { tools = codes "read_project" ∷ [] }))
        db_created
        20).1.committed.tool_grants
handle-Granting_example =
    handle-Granting world owner_abc
      (Request.grant_tools 100 1 (record { tools = codes "read_project" ∷ [] })) db_created 20
      db_created-IsConsistent

-- A version that was reviewed, active and superseded is to be reviewed again.
handle-Barred_example :
    handle world member_abc (Request.review_version 5 1) (db_one_version superseded_version) 0 ≡ (
      err (
          Exception.domain (
            conflict ErrorCode.version_not_activatable
              (Detail.version_status 1 VersionStatus.superseded))),
      open_session (db_one_version superseded_version) 0,
    )
unfolding jarvis_skill_registry.Repository.select_versions
    jarvis_skill_registry.Prelude.Tables.rows_where
handle-Barred_example =
    handle-Barred world member_abc (db_one_version superseded_version) 0
      (Request.review_version 5 1) _
      (Barred.review_of_retired 5 1 superseded_version refl (inl refl))
