-- ===== src/Services/Settled.antt =====
-- The activations that change nothing: app/services/activation.py up to its first write.
use jarvis_skill_registry.Prelude.{ℕ, ◌≡◌, refl, ◌⊎◌, inl, inr, true, false, ◌&&◌, ◌==◌, [], ◌∷◌}
use jarvis_skill_registry.Prelude.Tables.{rows_where}
use jarvis_skill_registry.Core.Enums.{VersionStatus}
use jarvis_skill_registry.Core.Errors.{Result, ok, err, Exception, ErrorCode, Detail, conflict}
use jarvis_skill_registry.Models.{Uuid, User, Skill, SkillVersion, is_owner, is_reviewed}
use jarvis_skill_registry.Database.Constraints.{Db}
use jarvis_skill_registry.Repository.{
  select_skills, select_versions, load_version, lock_skill, get_version,
}
use jarvis_skill_registry.Session.{World, open_session, one_or_none, or_raise, raise_if}
use jarvis_skill_registry.Services.Skills.{
  not_owner, disabled_conflict, is_disabled, lock_or_raise, require_version, require_owner,
}
use jarvis_skill_registry.Services.Activation.{
  activate, activate_found, activate_inactive, check_activatable,
}
use jarvis_skill_registry.Api.Routes.{Request, Response, handle}

module _ (w : World) (user : User) (skill_id : Uuid) (n : ℕ) (db : Db) (skill : Skill)
    (version : SkillVersion) where
  -- The answer to an activation of a visible version that has nothing to do or must not be done.
  -- Every case but the first is of an owner, and the first does not depend on any status.
  pub data Settled : Result Response → Type 0 where
    forbidden : is_owner user ≡ false → Settled (err (not_owner user))
    repeated :
        is_owner user ≡ true
        → version.status ≡ VersionStatus.active
        → Settled (ok (Response.activation (load_version w db version) false))
    skill_disabled :
        is_owner user ≡ true
        → (version.status ≡ VersionStatus.draft)
          ⊎ (version.status ≡ VersionStatus.superseded)
          ⊎ (version.status ≡ VersionStatus.disabled)
        → is_disabled skill ≡ true
        → Settled (err (disabled_conflict skill_id))
    retired :
        is_owner user ≡ true
        → (version.status ≡ VersionStatus.superseded) ⊎ (version.status ≡ VersionStatus.disabled)
        → is_disabled skill ≡ false
        → Settled (
            err (
              Exception.domain (
                conflict ErrorCode.version_not_activatable
                  (Detail.version_status n version.status))))
    unreviewed :
        is_owner user ≡ true
        → version.status ≡ VersionStatus.draft
        → is_disabled skill ≡ false
        → is_reviewed version ≡ false
        → Settled (
            err (
              Exception.domain (conflict ErrorCode.version_not_reviewed (Detail.version_number n))))

-- An activation of a version that the caller's organization has answers, with the database left as
-- it was and no audit entry: 403 to a user who is not an owner, whatever the status; the version
-- with `changed` false if it is active already; and 409 if the skill is disabled, if the version is
-- superseded or disabled, or if nobody has reviewed it.
pub handle-Settled :
    (w : World) (user : User) (skill_id : Uuid) (n : ℕ) (db : Db) (tick : ℕ) (skill : Skill)
    (version : SkillVersion) (answer : Result Response)
    → rows_where (λ s. s.id == skill_id) (select_skills user.organization_id db) ≡ skill ∷ []
    → rows_where
        (λ v. v.skill_id == skill_id && v.version_number == n)
        (select_versions user.organization_id db)
      ≡ version ∷ []
    → Settled w user skill_id n db skill version answer
    → handle w user (Request.activate_version skill_id n) db tick ≡ (answer, open_session db tick)
unfolding handle activate lock_or_raise require_version require_owner activate_found
    activate_inactive check_activatable lock_skill get_version one_or_none or_raise raise_if
handle-Settled w user skill_id n db tick skill version answer at_skill at_version
      (Settled.forbidden member) =
    rw (at_skill, at_version, member) refl
handle-Settled w user skill_id n db tick skill version answer at_skill at_version
      (Settled.repeated owner active) =
    rw (at_skill, at_version, owner, active) refl
handle-Settled w user skill_id n db tick skill version answer at_skill at_version
      (Settled.skill_disabled owner (inl draft) disabled) =
    rw (at_skill, at_version, owner, draft, disabled) refl
handle-Settled w user skill_id n db tick skill version answer at_skill at_version
      (Settled.skill_disabled owner (inr (inl superseded)) disabled) =
    rw (at_skill, at_version, owner, superseded, disabled) refl
handle-Settled w user skill_id n db tick skill version answer at_skill at_version
      (Settled.skill_disabled owner (inr (inr off)) disabled) =
    rw (at_skill, at_version, owner, off, disabled) refl
handle-Settled w user skill_id n db tick skill version answer at_skill at_version
      (Settled.retired owner (inl superseded) enabled) =
    rw (at_skill, at_version, owner, superseded, enabled) refl
handle-Settled w user skill_id n db tick skill version answer at_skill at_version
      (Settled.retired owner (inr off) enabled) =
    rw (at_skill, at_version, owner, off, enabled) refl
handle-Settled w user skill_id n db tick skill version answer at_skill at_version
      (Settled.unreviewed owner draft enabled pending) =
    rw (at_skill, at_version, owner, draft, enabled, pending) refl
