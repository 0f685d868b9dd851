-- ===== src/Effects/Activation.antt =====
-- app/services/activation.py: a successful activation, from the request to its answer.
use jarvis_skill_registry.Prelude.{ℕ, ◌≡◌, ◌+◌, refl, true, false, ◌&&◌, ◌==◌, [], ◌∷◌, Option}
use jarvis_skill_registry.Prelude.Tables.{rows_where}
use jarvis_skill_registry.Core.Enums.{VersionStatus}
use jarvis_skill_registry.Core.Errors.{ok}
use jarvis_skill_registry.Models.{Uuid, User, Skill, SkillVersion, is_owner, is_reviewed}
use jarvis_skill_registry.Database.Constraints.{Db}
use jarvis_skill_registry.Session.{World, Session, ◌>>=◌, open_session, raise_if}
use jarvis_skill_registry.Repository.{select_versions, select_skills, load_version}
use jarvis_skill_registry.Services.Skills.{require_owner, is_disabled}
use jarvis_skill_registry.Services.Activation.{
  activate, activate_found, activate_inactive, check_activatable, switch_versions,
}
use jarvis_skill_registry.Api.Routes.{Request, Response, handle, get_skill_service}
use jarvis_skill_registry.Invariants.Consistency.{IsConsistent}
use jarvis_skill_registry.Effects.Fresh.{IsFresh}
use jarvis_skill_registry.Effects.Steps.{require_version_lem, lock_or_raise_lem}
use jarvis_skill_registry.Effects.Incumbent.{Incumbent}
use jarvis_skill_registry.Effects.Succession.{successor, switched_tick, switched_db}
use jarvis_skill_registry.Effects.Switch.{switch_versions_lem}

require_owner_lem :
    (w : World) (user : User) (s : Session)
    → is_owner user ≡ true
    → require_owner w (get_skill_service user) s ≡ (ok tt, s)
unfolding require_owner raise_if
require_owner_lem w user s owner = rw owner refl

activate_found_lem :
    (w : World) (user : User) (skill_id : Uuid) (n : ℕ) (skill : Skill) (version : SkillVersion)
    (db : Db) (s : Session)
    → version.status ≡ VersionStatus.draft
    → is_reviewed version ≡ true
    → is_disabled skill ≡ false
    → activate_found w (get_skill_service user) skill_id n skill (load_version w db version) s
      ≡ switch_versions w (get_skill_service user) skill_id n skill version s
unfolding activate_found activate_inactive check_activatable raise_if load_version ◌>>=◌
activate_found_lem w user skill_id n skill version db s draft reviewed enabled =
    rw (enabled, draft, reviewed) refl

-- An owner's activation of a reviewed draft of a skill that is not disabled succeeds, and leaves
-- this state and no other: in the table of versions the draft is active, with the time and the
-- caller as its activation, any other active version of the skill is superseded, and every other row
-- is as it was; the skill is active; and the audit log has one entry more for the incumbent, if there
-- was one, and one for its successor, with the caller and the versions that they are about. It is
-- supposed that the stored tables satisfy their keys, that the ids which are drawn are new, and that
-- an active version of the skill is of the caller's organization.
pub handle-activate_version :
    (w : World) (user : User) (skill_id : Uuid) (n : ℕ) (db : Db) (tick : ℕ) (skill : Skill)
    (version : SkillVersion) (incumbent : Option SkillVersion)
    → IsConsistent db
    → IsFresh w db.audit_log tick
    → rows_where (λ s. s.id == skill_id) (select_skills user.organization_id db) ≡ skill ∷ []
    → rows_where
        (λ v. v.skill_id == skill_id && v.version_number == n)
        (select_versions user.organization_id db)
      ≡ version ∷ []
    → Incumbent user.organization_id skill_id db incumbent
    → is_owner user ≡ true
    → version.status ≡ VersionStatus.draft
    → is_reviewed version ≡ true
    → is_disabled skill ≡ false
    → handle w user (Request.activate_version skill_id n) db tick ≡ (
        let after = switched_db w user tick skill version incumbent db in
        (
          ok (
              Response.activation
                (load_version w after (successor w user tick skill version version))
                true),
          open_session after (switched_tick w user tick skill version incumbent + 1 + 1),
        ))
unfolding handle activate ◌>>=◌
handle-activate_version w user skill_id n db tick skill version incumbent h fresh at_skill
      at_version holder owner draft reviewed enabled =
    rw
      (
        lock_or_raise_lem w (get_skill_service user) skill_id (open_session db tick) skill at_skill,
        require_version_lem w (get_skill_service user) skill_id n (open_session db tick) version
            at_version,
        require_owner_lem w user (open_session db tick) owner,
        activate_found_lem w user skill_id n skill version db (open_session db tick) draft reviewed
            enabled,
        switch_versions_lem w user skill_id n db tick skill version h fresh at_skill at_version
            draft incumbent holder,
      )
      refl
