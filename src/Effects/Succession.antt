-- ===== src/Effects/Succession.antt =====
-- app/services/activation.py: what an activation does when it succeeds, told without the session.
use jarvis_skill_registry.Prelude.{
  ℕ, ◌≡◌, ◌+◌, ap, refl, ◌∙◌, subst, Bool, true, false, ◌==◌, ==_iff, ==_refl, List, [], ◌∷◌, ◌++◌,
  Option, none, some, map, if◌then◌else◌, Bool-cases, inl, inr,
}
use jarvis_skill_registry.Prelude.Tables.{rows_where, unique_by, update_where, Row, rows_where-Row}
use jarvis_skill_registry.Prelude.Partition.{unique_by-Row}
use jarvis_skill_registry.Core.Enums.{SkillStatus, skill_status_eq, VersionStatus, AuditEvent}
use jarvis_skill_registry.Models.{
  User, Skill, SkillVersion, AuditLog, Payload, assign_all, assign_version,
}
use jarvis_skill_registry.Database.Constraints.{Db}
use jarvis_skill_registry.Database.Write.{set_version}
use jarvis_skill_registry.Session.{World}
use jarvis_skill_registry.Effects.Steps.{map-Row, update_where-map}
use jarvis_skill_registry.Effects.Incumbent.{holds, entry, held-Row, held-IsHeld}
use jarvis_skill_registry.Effects.Retire.{superseded_entry, superseded_sets}

module _ (w : World) (user : User) (tick : ℕ) (skill : Skill) (version : SkillVersion) where
  -- The version named becomes active, any other active version of its skill becomes superseded, and
  -- every other version stays as it is.
  abbrev pub successor : SkillVersion → SkillVersion
  successor v = record v {
    status = VersionStatus.active;
    activated_at = some (w.utcnow tick);
    activated_by = some user.id;
  }

  abbrev pub succession : SkillVersion → SkillVersion
  succession v =
      if v.id == version.id
      then successor v
      else if holds version.skill_id v
      then record v { status = VersionStatus.superseded }
      else v

  -- The first entry is about the incumbent, if there is one; the second about its successor.
  abbrev pub installing_tick : Option SkillVersion → ℕ
  installing_tick none = tick + 1
  installing_tick (some v) = tick + 1 + 1 + 1

  abbrev pub switched_tick : Option SkillVersion → ℕ
  switched_tick incumbent =
      if skill_status_eq skill.status SkillStatus.active
      then installing_tick incumbent
      else installing_tick incumbent + 1

  abbrev pub switch_entry : Option SkillVersion → AuditLog
  switch_entry none =
      entry w user (switched_tick none) AuditEvent.version_activated skill version
        (Payload.activation version.content_hash none)
  switch_entry (some v) =
      entry w user (switched_tick (some v)) AuditEvent.version_activated skill version
        (Payload.activation version.content_hash (some v.version_number))

  abbrev pub switch_entries : Option SkillVersion → List AuditLog
  switch_entries none = switch_entry none ∷ []
  switch_entries (some v) =
      superseded_entry w user (tick + 1) skill version v ∷ switch_entry (some v) ∷ []

  abbrev pub switched_skills : Option SkillVersion → List Skill → List Skill
  switched_skills incumbent rows =
      if skill_status_eq skill.status SkillStatus.active
      then rows
      else map
          (λ s.
            if s.id == skill.id
            then record s {
              status = SkillStatus.active;
              updated_at = w.utcnow (installing_tick incumbent);
            }
            else s)
          rows

  abbrev pub switched_db : Option SkillVersion → Db → Db
  switched_db incumbent db = record db {
    skills = switched_skills incumbent db.skills;
    skill_versions = map succession db.skill_versions;
    audit_log = db.audit_log ++ switch_entries incumbent;
  }

-- Two UPDATEs, row by row.
updated_twice :
    {A : Type 0} (p q : A → Bool) (f g h : A → A) (l : List A)
    → ((x : A) → Row x l → (let y = if p x then f x else x in if q y then g y else y) ≡ h x)
    → update_where q g (update_where p f l) ≡ map h l
unfolding update_where
updated_twice p q f g h [] same = refl
updated_twice p q f g h (x ∷ l) same =
    rw (same x (inl refl), updated_twice p q f g h l (λ y row. same y (inr row))) refl

module _ (w : World) (user : User) (tick : ℕ) (skill : Skill) (version : SkillVersion)
    (rows : List SkillVersion) where
  abbrev pub succeeds : SkillVersion → SkillVersion
  succeeds = succession w user tick skill version

  pub vacant-succession :
      rows_where (holds version.skill_id) rows ≡ []
      → update_where (λ x. x.id == version.id) (successor w user tick skill version) rows
        ≡ map succeeds rows
  vacant-succession free =
      update_where-map (λ x. x.id == version.id) (successor w user tick skill version) rows
      ∙ map-Row _ succeeds rows (λ x row. elim (Bool-cases (x.id == version.id)) [
        | inl same ↦ rw same refl
        | inr other ↦ elim (Bool-cases (holds version.skill_id x)) [
          | inl on ↦
              absurd (subst (Row x) free (rows_where-Row (holds version.skill_id) x rows on row))
          | inr off ↦ rw (other, off) refl
        ]
      ])

  pub held-succession :
      (v : SkillVersion)
      → unique_by (λ a b. a.id == b.id) rows ≡ true
      → rows_where (holds version.skill_id) rows ≡ v ∷ []
      → v.id == version.id ≡ false
      → update_where
          (λ x. x.id == version.id)
          (successor w user tick skill version)
          (set_version v.id superseded_sets rows)
        ≡ map succeeds rows
  held-succession v ids one apart =
      let (on, at) = held-IsHeld version.skill_id v rows one in
      updated_twice (λ x. x.id == v.id) (λ x. x.id == version.id)
        (assign_all assign_version superseded_sets) (successor w user tick skill version) succeeds
        rows
        (λ x row. elim (Bool-cases (x.id == v.id)) [
          | inl same ↦
              (let e =
                  unique_by-Row (λ (y : SkillVersion). y.id) rows x v ids row at
                    ((==_iff x.id v.id).0 same) in
                rw (e, ==_refl v.id, apart, on) refl)
          | inr other ↦ elim (Bool-cases (x.id == version.id)) [
            | inl it ↦ rw (other, it) refl
            | inr not_it ↦ elim (Bool-cases (holds version.skill_id x)) [
              | inl held ↦ absurd (
                  cc (
                    ap (λ y. y.id == v.id) (held-Row version.skill_id v x rows one row held),
                    ==_refl v.id,
                    other,
                  ))
              | inr off ↦ rw (other, not_it, off) refl
            ]
          ]
        ])
