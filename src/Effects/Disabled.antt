-- ===== src/Effects/Disabled.antt =====
-- app/services/skills.py: `disable_skill`, told without the session.
use jarvis_skill_registry.Prelude.{
  ℕ, ◌≡◌, ◌+◌, ap, refl, sym, ◌∙◌, subst, true, ◌==◌, ==_iff, ==_refl, List, [], ◌∷◌, ◌++◌, Option,
  none, some, map, if◌then◌else◌, Bool-cases, inl, inr,
}
use jarvis_skill_registry.Prelude.Tables.{rows_where, unique_by, Row, rows_where-Row}
use jarvis_skill_registry.Prelude.Partition.{unique_by-Row}
use jarvis_skill_registry.Core.Enums.{SkillStatus, VersionStatus, AuditEvent}
use jarvis_skill_registry.Models.{
  Uuid, User, Skill, SkillVersion, AuditLog, Payload, VersionSet, assign_all, assign_version,
}
use jarvis_skill_registry.Database.Constraints.{Db}
use jarvis_skill_registry.Database.Write.{set_version}
use jarvis_skill_registry.Session.{World}
use jarvis_skill_registry.Effects.Steps.{map-Row, update_where-map}
use jarvis_skill_registry.Effects.Incumbent.{holds, entry, held-Row, held-IsHeld}

module _ (w : World) (user : User) (skill : Skill) where
  abbrev pub disabling_tick : ℕ → Option SkillVersion → ℕ
  disabling_tick tick none = tick
  disabling_tick tick (some v) = tick + 1 + 1

  -- Any active version of the skill is disabled, and the skill with it.
  abbrev pub withdrawn : Uuid → SkillVersion → SkillVersion
  withdrawn skill_id v =
      if holds skill_id v then record v { status = VersionStatus.disabled } else v

  abbrev pub disabled_skill : ℕ → Skill → Skill
  disabled_skill tick s = record s { status = SkillStatus.disabled; updated_at = w.utcnow tick }

  abbrev pub version_entry : ℕ → SkillVersion → AuditLog
  version_entry tick v = entry w user tick AuditEvent.version_disabled skill v Payload.empty

  abbrev pub skill_entry : ℕ → AuditLog
  skill_entry tick = record {
    id = w.uuid4 tick;
    organization_id = user.organization_id;
    actor_user_id = user.id;
    event = AuditEvent.skill_disabled;
    skill_id = some skill.id;
    skill_version_id = none;
    version_number = none;
    payload = Payload.name skill.name;
    created_at = w.utcnow (tick + 1);
  }

  abbrev pub disabling_entries : ℕ → Option SkillVersion → List AuditLog
  disabling_entries tick none = skill_entry (tick + 1) ∷ []
  disabling_entries tick (some v) = version_entry tick v ∷ skill_entry (tick + 1 + 1 + 1) ∷ []

  abbrev pub disabled_db : Uuid → ℕ → Option SkillVersion → Db → Db
  disabled_db skill_id tick incumbent db = record db {
    skills =
        map (λ s. if s.id == skill.id then disabled_skill (disabling_tick tick incumbent) s else s)
          db.skills;
    skill_versions = map (withdrawn skill_id) db.skill_versions;
    audit_log = db.audit_log ++ disabling_entries tick incumbent;
  }

abbrev pub disabled_sets : List VersionSet
disabled_sets = VersionSet.status VersionStatus.disabled ∷ []

module _ (w : World) (user : User) (skill : Skill) (skill_id : Uuid) where
  pub vacant-withdrawn :
      (rows : List SkillVersion)
      → rows_where (holds skill_id) rows ≡ []
      → rows ≡ map (withdrawn w user skill skill_id) rows
  vacant-withdrawn rows free =
      sym (map_id rows)
      ∙ map-Row (λ x. x) (withdrawn w user skill skill_id) rows
          (λ x row. elim (Bool-cases (holds skill_id x)) [
            | inl on ↦ absurd (subst (Row x) free (rows_where-Row (holds skill_id) x rows on row))
            | inr off ↦ rw off refl
          ])
    where
      map_id : (l : List SkillVersion) → map (λ x. x) l ≡ l
      map_id [] = refl
      map_id (x ∷ l) = ap (λ t. x ∷ t) (map_id l)

  pub held-withdrawn :
      (rows : List SkillVersion) (v : SkillVersion)
      → unique_by (λ a b. a.id == b.id) rows ≡ true
      → rows_where (holds skill_id) rows ≡ v ∷ []
      → set_version v.id disabled_sets rows ≡ map (withdrawn w user skill skill_id) rows
  held-withdrawn rows v ids one =
      let (on, at) = held-IsHeld skill_id v rows one in
      update_where-map (λ x. x.id == v.id) (assign_all assign_version disabled_sets) rows
      ∙ map-Row _ (withdrawn w user skill skill_id) rows (λ x row.
        elim (Bool-cases (x.id == v.id)) [
          | inl same ↦
              (let e =
                  unique_by-Row (λ (y : SkillVersion). y.id) rows x v ids row at
                    ((==_iff x.id v.id).0 same) in
                rw (e, ==_refl v.id, on) refl)
          | inr other ↦ elim (Bool-cases (holds skill_id x)) [
            | inl held ↦ absurd (
                cc (
                  ap (λ y. y.id == v.id) (held-Row skill_id v x rows one row held),
                  ==_refl v.id,
                  other,
                ))
            | inr off ↦ rw (other, off) refl
          ]
        ])
