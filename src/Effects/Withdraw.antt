-- ===== src/Effects/Withdraw.antt =====
-- app/services/skills.py, `disable_skill`: the active version of the skill, if it has one.
use jarvis_skill_registry.Prelude.{
  ℕ, ◌≡◌, ◌+◌, refl, true, ◌==◌, [], ◌∷◌, ◌++◌, Option, none, some, arith,
}
use jarvis_skill_registry.Core.Enums.{VersionStatus}
use jarvis_skill_registry.Core.Errors.{ok}
use jarvis_skill_registry.Models.{Uuid, User, Skill, SkillVersion, assign_all, assign_version}
use jarvis_skill_registry.Models.Guard.{same_content, guard_active_version_immutability}
use jarvis_skill_registry.Database.Constraints.{Db, is_active}
use jarvis_skill_registry.Database.Updates.{unique_by-retired}
use jarvis_skill_registry.Database.Layers.{status_active}
use jarvis_skill_registry.Database.Write.{Write, apply_writes, set_version}
use jarvis_skill_registry.Session.{
  World, Session, ◌>>=◌, pure, open_session, queue, draw_now, draw_uuid,
}
use jarvis_skill_registry.Repository.{load_version}
use jarvis_skill_registry.Services.Audit.{record_event, add_audit}
use jarvis_skill_registry.Services.Skills.{disable_version}
use jarvis_skill_registry.Api.Routes.{get_skill_service}
use jarvis_skill_registry.Invariants.Consistency.{IsConsistent}
use jarvis_skill_registry.Effects.Fresh.{IsFresh, IsFresh-logged}
use jarvis_skill_registry.Effects.Accepted.{
  IsHarmless, kept-accepted, same_content_refl, inserted_audit-accepted,
  inserted_audit-IsConsistent, updated_version-accepted,
}
use jarvis_skill_registry.Effects.Ready.{IsReady, queued-IsReady}
use jarvis_skill_registry.Effects.Incumbent.{Incumbent, loaded, held-IsHeld}
use jarvis_skill_registry.Effects.Disabled.{version_entry, disabled_sets}

disabled_sets-IsHarmless : IsHarmless disabled_sets
unfolding same_content
disabled_sets-IsHarmless = record {
  id = λ v. refl;
  skill_id = λ v. refl;
  number = λ v. refl;
  accepted = λ v.
      kept-accepted v (assign_all assign_version disabled_sets v) (same_content_refl v) refl refl
        (λ active. refl);
}

active-guarded :
    (v : SkillVersion)
    → v.status ≡ VersionStatus.active
    → guard_active_version_immutability v (assign_all assign_version disabled_sets v) ≡ true
unfolding guard_active_version_immutability same_content
active-guarded v active = rw (active, same_content_refl v) refl

-- The tables and the session after the active version, if there is one, and before the skill.
module _ (w : World) (user : User) (skill : Skill) (skill_id : Uuid) (tick : ℕ) (db : Db)
    (h : IsConsistent db) (fresh : IsFresh w db.audit_log tick) where
  abbrev pub withdrawn_db : Option SkillVersion → Db
  withdrawn_db none = db
  withdrawn_db (some v) = record db {
    skill_versions = set_version v.id disabled_sets db.skill_versions;
    audit_log = db.audit_log ++ version_entry w user skill tick v ∷ [];
  }

  abbrev pub withdrawn_session : Option SkillVersion → Session
  withdrawn_session none = open_session db tick
  withdrawn_session (some v) = record {
    committed = db;
    working = db;
    pending =
        Write.update_version v disabled_sets
        ∷ Write.insert_audit (version_entry w user skill tick v)
        ∷ [];
    tick = tick + 1 + 1;
  }

  opened-IsReady : IsReady w (open_session db tick) db
  unfolding apply_writes
  opened-IsReady = record { leads = refl; consistent = h; fresh = fresh }

  pub withdrawn-IsReady :
      (incumbent : Option SkillVersion)
      → Incumbent user.organization_id skill_id db incumbent
      → IsReady w (withdrawn_session incumbent) (withdrawn_db incumbent)
  withdrawn-IsReady none _ = opened-IsReady
  withdrawn-IsReady (some v) (Incumbent.held _ one owned) =
      let (on, row) = held-IsHeld skill_id v db.skill_versions one in
      let d = record db { skill_versions = set_version v.id disabled_sets db.skill_versions } in
      let updated =
        updated_version-accepted db v disabled_sets h row disabled_sets-IsHarmless
          (active-guarded v (status_active v.status (ground arith)))
          (unique_by-retired (λ a b. a.skill_id == b.skill_id) is_active (λ x. x.id == v.id)
            (assign_all assign_version disabled_sets) db.skill_versions (λ x. refl) (λ a x. refl)
            (λ x on. absurd (cc on)) h.versions.one_active) in
      let e = version_entry w user skill tick v in
      let new = fresh.unused tick (omega arith) in
      queued-IsReady w
        (record (open_session db tick) { pending = Write.update_version v disabled_sets ∷ [] })
        (Write.insert_audit e)
        (record db { skill_versions = set_version v.id disabled_sets db.skill_versions })
        (withdrawn_db (some v)) (tick + 1 + 1)
        (queued-IsReady w (open_session db tick) (Write.update_version v disabled_sets) db _ tick
          opened-IsReady updated fresh)
        (
          (inserted_audit-accepted _ e h.audit new).0,
          inserted_audit-IsConsistent _ e (updated.1) new,
        )
        (IsFresh-logged w db.audit_log tick (tick + 1 + 1) e fresh refl (omega arith))

  pub disable_version_lem :
      (incumbent : Option SkillVersion)
      → disable_version w
          (get_skill_service user)
          skill
          (loaded w db incumbent)
          (open_session db tick)
        ≡ (ok tt, withdrawn_session incumbent)
  unfolding disable_version load_version pure queue record_event add_audit draw_uuid draw_now ◌>>=◌
  disable_version_lem none = refl
  disable_version_lem (some v) = refl
