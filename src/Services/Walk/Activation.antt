-- ===== src/Services/Walk/Activation.antt =====
-- `ActivationService.activate` keeps a predicate with the rules of `Discipline`.
use jarvis_skill_registry.Prelude.{ℕ, ◌≡◌, true, Option, none, some, ◌==◌}
use jarvis_skill_registry.Core.Enums.{SkillStatus, VersionStatus, AuditEvent, version_status_eq}
use jarvis_skill_registry.Models.{Uuid, Skill, SkillVersion, Payload, is_owner, is_reviewed}
use jarvis_skill_registry.Session.{World, Session, raise_if, draw_now}
use jarvis_skill_registry.Session.Keeps.{
  Keeps, Yields, keeps_rules, Keeps-bind, Keeps-then, Keeps-if, Keeps-pure, Keeps-raise_if,
}
use jarvis_skill_registry.Session.Yields.{Yields-bind, Yields-raise_if}
use jarvis_skill_registry.Repository.{VersionDetail, get_active_version}
use jarvis_skill_registry.Repository.Reads.{Keeps-get_active_version}
use jarvis_skill_registry.Services.Skills.{
  SkillService, require_owner, lock_or_raise, require_version,
}
use jarvis_skill_registry.Services.Activation.{
  number_of, check_activatable, supersede, mark_active, switch_versions, activate_inactive,
  activate_found, activate,
}
use jarvis_skill_registry.Services.Discipline.{Discipline, StepKind, VersionStep}
use jarvis_skill_registry.Services.Walk.{
  walk-draw_now, walk-commit, walk-record_event, walk-set_status, Keeps-require_version,
  Keeps-lock_or_raise, Keeps-require_owner, locked-Own, required-Own, required_owner, OwnActive,
  active-OwnActive, status_of_eq, not-false,
}

module _ {P : Session → Type 0} (w : World) (svc : SkillService) (d : Discipline w svc P) where
  open d use {OwnSkill, OwnVersion, OwnGrant}

  abbrev pub MayActivate : Type 0
  MayActivate = d.may StepKind.activate × d.may StepKind.supersede

  walk-supersede :
      (r : Skill) (v : SkillVersion) (incumbent : Option VersionDetail)
      → is_owner svc.actor ≡ true
      → OwnActive w svc d incumbent
      → d.may StepKind.supersede
      → Keeps P (supersede w svc r v incumbent)
  unfolding supersede
  walk-supersede r v none owner own allowed = Keeps-pure tt
  walk-supersede r v (some i) owner (own, active) allowed =
      Keeps-if (i.version.id == v.id) _ _ (λ _. Keeps-pure tt)
        (λ _.
          Keeps-then (d.set_version i.version _ own (VersionStep.supersede owner active) allowed) (
            Keeps-then d.flushes (
              Keeps-then
                (walk-record_event w svc d AuditEvent.version_superseded (some r) (some i.version)
                  (Payload.superseded_by v.version_number))
                (Keeps-pure tt))))

  walk-check_activatable :
      (id : Uuid) (n : ℕ) (r : Skill) (v : SkillVersion)
      → Keeps P (check_activatable w svc id n r v)
  unfolding check_activatable
  walk-check_activatable id n r v = search keeps_rules

  checked-activatable :
      (id : Uuid) (n : ℕ) (r : Skill) (v : SkillVersion) {u : Unit {0}}
      → Yields P (check_activatable w svc id n r v) u
      → (v.status ≡ VersionStatus.draft) × (is_reviewed v ≡ true)
  unfolding check_activatable
  checked-activatable id n r v y =
      let (_, _, rest) = Yields-bind (raise_if _ _) _ (Keeps-raise_if _ _) y in
      let (_, draft, last) = Yields-bind (raise_if _ _) _ (Keeps-raise_if _ _) rest in
      (
        status_of_eq v.status VersionStatus.draft (not-false _ (Yields-raise_if _ _ draft)),
        not-false _ (Yields-raise_if _ _ last),
      )

  walk-switch_versions :
      (id : Uuid) (n : ℕ) (r : Skill) (v : SkillVersion)
      → is_owner svc.actor ≡ true
      → OwnSkill r
      → OwnVersion v
      → (v.status ≡ VersionStatus.draft) × (is_reviewed v ≡ true)
      → MayActivate
      → Keeps P (switch_versions w svc id n r v)
  unfolding switch_versions mark_active
  walk-switch_versions id n r v owner own_skill own (draft, reviewed)
        (may_activate, may_supersede) =
      Keeps-bind (draw_now w) _ (walk-draw_now w svc d) λ now _.
        Keeps-bind (get_active_version w svc.organization_id id) _ (Keeps-get_active_version w _ id)
          λ incumbent y.
            Keeps-then
              (walk-supersede r v incumbent owner (active-OwnActive w svc d id incumbent y)
                may_supersede)
              (Keeps-then
                (d.set_version v _ own (VersionStep.activate now owner draft reviewed) may_activate)
                (Keeps-then (walk-set_status w svc d r SkillStatus.active own_skill) (
                  Keeps-then
                    (walk-record_event w svc d AuditEvent.version_activated (some r) (some v)
                      (Payload.activation v.content_hash (number_of incumbent)))
                    (Keeps-then (walk-commit w svc d) (
                      Keeps-bind (require_version w svc id n) _ (Keeps-require_version w svc d id n)
                        (λ refreshed _.
                          Keeps-pure (record { version = refreshed; changed = true })))))))

  walk-activate_inactive :
      (id : Uuid) (n : ℕ) (r : Skill) (v : SkillVersion)
      → is_owner svc.actor ≡ true
      → OwnSkill r
      → OwnVersion v
      → MayActivate
      → Keeps P (activate_inactive w svc id n r v)
  unfolding activate_inactive
  walk-activate_inactive id n r v owner own_skill own allowed =
      Keeps-bind (check_activatable w svc id n r v) (λ _. switch_versions w svc id n r v)
        (walk-check_activatable id n r v)
        (λ _ y.
          walk-switch_versions id n r v owner own_skill own (checked-activatable id n r v y)
            allowed)

  walk-activate_found :
      (id : Uuid) (n : ℕ) (r : Skill) (v : VersionDetail)
      → is_owner svc.actor ≡ true
      → OwnSkill r
      → OwnVersion v.version
      → MayActivate
      → Keeps P (activate_found w svc id n r v)
  unfolding activate_found
  walk-activate_found id n r v owner own_skill own allowed =
      Keeps-if (version_status_eq v.version.status VersionStatus.active) _ _ (λ _. Keeps-pure _)
        (λ _. walk-activate_inactive id n r v.version owner own_skill own allowed)

  pub walk-activate : (id : Uuid) (n : ℕ) → MayActivate → Keeps P (activate w svc id n)
  unfolding activate
  walk-activate id n allowed =
      Keeps-bind (lock_or_raise w svc id) _ (Keeps-lock_or_raise w svc d id) λ r locked.
        Keeps-bind (require_version w svc id n) _ (Keeps-require_version w svc d id n) λ v found.
          Keeps-bind (require_owner w svc) (λ _. activate_found w svc id n r v)
            (Keeps-require_owner w svc d)
            λ _ y.
              walk-activate_found id n r v (required_owner w svc d y) (locked-Own w svc d id locked)
                (required-Own w svc d id n found) allowed
