-- ===== src/Effects/Disable.antt =====
-- app/services/skills.py: what `disable_skill` does when it succeeds.
use jarvis_skill_registry.Prelude.{
  ℕ, ◌≡◌, ◌+◌, refl, true, false, ◌==◌, [], ◌∷◌, ◌++◌, Option, none, some,
}
use mathlib.Core.List.{append_assoc}
use jarvis_skill_registry.Prelude.Tables.{rows_where}
use jarvis_skill_registry.Core.Errors.{ok}
use jarvis_skill_registry.Models.{Uuid, User, Skill, SkillVersion, is_owner}
use jarvis_skill_registry.Database.Constraints.{Db}
use jarvis_skill_registry.Session.{World, ◌>>=◌, open_session, queue, draw_now, draw_uuid, raise_if}
use jarvis_skill_registry.Repository.{select_skills, load_skill}
use jarvis_skill_registry.Services.Audit.{record_event, add_audit}
use jarvis_skill_registry.Services.Skills.{
  disable_skill, disable_enabled, is_disabled, require_owner,
}
use jarvis_skill_registry.Api.Routes.{Request, Response, handle, get_skill_service}
use jarvis_skill_registry.Invariants.Consistency.{IsConsistent}
use jarvis_skill_registry.Effects.Fresh.{IsFresh}
use jarvis_skill_registry.Effects.Steps.{commit_lem, lock_or_raise_lem, update_where-map}
use jarvis_skill_registry.Effects.Incumbent.{Incumbent, get_active_version_lem}
use jarvis_skill_registry.Effects.Disabled.{
  disabling_tick, disabled_skill, version_entry, skill_entry, disabled_db, vacant-withdrawn,
  held-withdrawn,
}
use jarvis_skill_registry.Effects.Withdraw.{
  withdrawn_db, withdrawn_session, withdrawn-IsReady, disable_version_lem,
}
use jarvis_skill_registry.Effects.Close.{
  closed_db, closed, closed-IsReady, set_status_lem, get_skill_detail_lem,
}

module _ (w : World) (user : User) (skill_id : Uuid) (db : Db) (tick : ℕ) (skill : Skill)
    (h : IsConsistent db) (fresh : IsFresh w db.audit_log tick)
    (at_skill : rows_where (λ k. k.id == skill_id) (select_skills user.organization_id db)
      ≡ skill ∷ [])
    (enabled : is_disabled skill ≡ false) where
  at-withdrawn :
      (incumbent : Option SkillVersion)
      → rows_where
          (λ k. k.id == skill_id)
          (select_skills user.organization_id
            (withdrawn_db w user skill skill_id tick db h fresh incumbent))
        ≡ skill ∷ []
  unfolding select_skills
  at-withdrawn none = at_skill
  at-withdrawn (some v) = at_skill

  closed-disabled :
      (incumbent : Option SkillVersion)
      (holder : Incumbent user.organization_id skill_id db incumbent)
      → closed_db w user skill skill_id
          (withdrawn_session w user skill skill_id tick db h fresh incumbent)
          (withdrawn_db w user skill skill_id tick db h fresh incumbent)
          (withdrawn-IsReady w user skill skill_id tick db h fresh incumbent holder)
          (at-withdrawn incumbent)
          enabled
        ≡ disabled_db w user skill skill_id tick incumbent db
  closed-disabled none (Incumbent.vacant free) = λ i. record db {
    skills =
        update_where-map (λ k. k.id == skill.id) (disabled_skill w user skill tick) db.skills i;
    skill_versions = vacant-withdrawn w user skill skill_id db.skill_versions free i;
    audit_log = db.audit_log ++ skill_entry w user skill (tick + 1) ∷ [];
  }
  closed-disabled (some v) (Incumbent.held _ one owned) = λ i. record db {
    skills =
        update_where-map (λ k. k.id == skill.id) (disabled_skill w user skill (tick + 1 + 1))
          db.skills i;
    skill_versions = held-withdrawn w user skill skill_id db.skill_versions v h.versions.ids one i;
    audit_log =
        append_assoc db.audit_log (version_entry w user skill tick v ∷ [])
          (skill_entry w user skill (tick + 1 + 1 + 1) ∷ []) i;
  }

  withdrawn-tick :
      (incumbent : Option SkillVersion)
      → (withdrawn_session w user skill skill_id tick db h fresh incumbent).tick
        ≡ disabling_tick w user skill tick incumbent
  withdrawn-tick none = refl
  withdrawn-tick (some v) = refl

  disable_enabled_lem :
      (incumbent : Option SkillVersion)
      → Incumbent user.organization_id skill_id db incumbent
      → disable_enabled w (get_skill_service user) skill_id skill (open_session db tick) ≡ (
          let t = disabling_tick w user skill tick incumbent in
          let after = disabled_db w user skill skill_id tick incumbent db in
          (
            ok (load_skill w after (disabled_skill w user skill t skill)),
            open_session after (t + 1 + 1 + 1),
          ))
  unfolding disable_enabled queue record_event add_audit draw_uuid draw_now ◌>>=◌
  disable_enabled_lem incumbent holder =
      let s = withdrawn_session w user skill skill_id tick db h fresh incumbent in
      let d = withdrawn_db w user skill skill_id tick db h fresh incumbent in
      let ready = withdrawn-IsReady w user skill skill_id tick db h fresh incumbent holder in
      let at = at-withdrawn incumbent in
      rw
        (
          get_active_version_lem w user.organization_id skill_id db incumbent (open_session db tick)
              holder refl,
          disable_version_lem w user skill skill_id tick db h fresh incumbent,
          set_status_lem w user skill skill_id s d ready at enabled,
          commit_lem (closed w user skill skill_id s d ready at enabled)
              (closed_db w user skill skill_id s d ready at enabled)
              ((closed-IsReady w user skill skill_id s d ready at enabled).leads),
          get_skill_detail_lem w user skill skill_id s d ready at enabled,
        )
        (λ i.
          let after = closed-disabled incumbent holder i in
          let t = withdrawn-tick incumbent i in
          (
            ok (load_skill w after (disabled_skill w user skill t skill)),
            open_session after (t + 1 + 1 + 1),
          ))

-- Disabling a skill of the caller's organization that is not disabled yet, by an owner, succeeds and
-- leaves this state and no other: an active version of the skill is disabled and every other version
-- is as it was; the skill is disabled, with the time of the change; and the audit log has one entry
-- more for the version, if there was one, and one for the skill. It is supposed that the stored tables
-- satisfy their keys, that the ids which are drawn are new, and that an active version of the skill is
-- of the caller's organization.
pub handle-disable_skill :
    (w : World) (user : User) (skill_id : Uuid) (db : Db) (tick : ℕ) (skill : Skill)
    (incumbent : Option SkillVersion)
    → IsConsistent db
    → IsFresh w db.audit_log tick
    → rows_where (λ s. s.id == skill_id) (select_skills user.organization_id db) ≡ skill ∷ []
    → Incumbent user.organization_id skill_id db incumbent
    → is_owner user ≡ true
    → is_disabled skill ≡ false
    → handle w user (Request.disable_skill skill_id) db tick ≡ (
        let t = disabling_tick w user skill tick incumbent in
        let after = disabled_db w user skill skill_id tick incumbent db in
        (
          ok (Response.skill (load_skill w after (disabled_skill w user skill t skill))),
          open_session after (t + 1 + 1 + 1),
        ))
unfolding handle disable_skill require_owner raise_if ◌>>=◌
handle-disable_skill w user skill_id db tick skill incumbent h fresh at_skill holder owner enabled =
    rw
      (
        lock_or_raise_lem w (get_skill_service user) skill_id (open_session db tick) skill at_skill,
        owner,
        enabled,
        disable_enabled_lem w user skill_id db tick skill h fresh at_skill enabled incumbent holder,
      )
      refl
