-- ===== src/Effects/Install.antt =====
-- app/services/activation.py, from step 6 to the commit: the reviewed draft becomes the active version
-- of a skill that has none, and the skill is active with it.
use jarvis_skill_registry.Prelude.{
  ℕ, ◌≡◌, ◌+◌, ap, refl, ◌∙◌, subst, Bool, true, false, ◌&&◌, ◌==◌, ==_iff, List, [], ◌∷◌, ◌++◌,
  some, arith, if◌then◌else◌, Bool-cases, inl, inr,
}
use jarvis_skill_registry.Prelude.Tables.{any, rows_where, Row, Row-rows_where, rows_where-Row}
use jarvis_skill_registry.Prelude.Partition.{unique_by-Row, any-none}
use jarvis_skill_registry.Core.Enums.{SkillStatus, skill_status_eq, VersionStatus, AuditEvent}
use jarvis_skill_registry.Core.Errors.{ok}
use jarvis_skill_registry.Models.{
  Uuid, Time, User, Skill, SkillVersion, AuditLog, Payload, VersionSet, assign_all, assign_version,
}
use jarvis_skill_registry.Models.Guard.{same_content, guard_active_version_immutability}
use jarvis_skill_registry.Database.Constraints.{Db, is_active}
use jarvis_skill_registry.Database.Updates.{unique_by-joined}
use jarvis_skill_registry.Database.Write.{Write, set_version, set_skill}
use jarvis_skill_registry.Session.{
  World, Session, Exec, ◌>>=◌, ◌>>◌, pure, queue, draw_now, draw_uuid, commit,
}
use jarvis_skill_registry.Repository.{select_versions, load_version}
use jarvis_skill_registry.Services.Audit.{record_event, add_audit}
use jarvis_skill_registry.Services.Skills.{require_version, set_status, assign_metadata}
use jarvis_skill_registry.Services.Activation.{ActivationResult, mark_active}
use jarvis_skill_registry.Api.Routes.{get_skill_service}
use jarvis_skill_registry.Effects.Fresh.{IsFresh-later, IsFresh-logged}
use jarvis_skill_registry.Effects.Accepted.{
  IsHarmless, kept-accepted, same_content_refl, status_sets, ==_comm, inserted_audit-accepted,
  inserted_audit-IsConsistent, updated_version-accepted, updated_skill-accepted,
}
use jarvis_skill_registry.Effects.Steps.{commit_lem, require_version_lem, version-updated}
use jarvis_skill_registry.Effects.Incumbent.{holds, entry}
use jarvis_skill_registry.Effects.Retire.{IsVacated}
use jarvis_skill_registry.Effects.Ready.{IsReady, queued-IsReady}

abbrev pub activation_sets : Time → User → List VersionSet
activation_sets now user =
    VersionSet.status VersionStatus.active
    ∷ VersionSet.activated_at now
    ∷ VersionSet.activated_by user.id
    ∷ []

activation_sets-IsHarmless : (now : Time) (user : User) → IsHarmless (activation_sets now user)
unfolding same_content
activation_sets-IsHarmless now user = record {
  id = λ v. refl;
  skill_id = λ v. refl;
  number = λ v. refl;
  accepted = λ v.
      kept-accepted v (assign_all assign_version (activation_sets now user) v) (same_content_refl v)
        refl refl (λ active. refl);
}

draft-guarded :
    (v : SkillVersion) (now : Time) (user : User)
    → v.status ≡ VersionStatus.draft
    → guard_active_version_immutability v (assign_all assign_version (activation_sets now user) v)
      ≡ true
unfolding guard_active_version_immutability
draft-guarded v now user draft = rw draft refl

-- No row holds the skill's place among the active ones.
free-any :
    (skill_id : Uuid) (rows : List SkillVersion)
    → rows_where (holds skill_id) rows ≡ []
    → any (λ b. skill_id == b.skill_id) (rows_where is_active rows) ≡ false
unfolding rows_where any
free-any skill_id rows free =
    any-none (λ (b : SkillVersion). skill_id == b.skill_id) (rows_where is_active rows)
      (λ x row.
        let (active, at) = Row-rows_where is_active x rows row in
        elim (Bool-cases (skill_id == x.skill_id)) [
          | inl same ↦
              (let on = holds-active skill_id x same active in
                absurd (subst (Row x) free (rows_where-Row (holds skill_id) x rows on at)))
          | inr other ↦ other
        ])
  where
    holds-active :
        (k : Uuid) (x : SkillVersion)
        → k == x.skill_id ≡ true
        → is_active x ≡ true
        → holds k x ≡ true
    holds-active k x same active = rw (==_comm x.skill_id k, same, active) refl

module _ (w : World) (user : User) (now : Time) (skill_id : Uuid) (s : Session) (db : Db)
    (ready : IsVacated w skill_id s db) (skill : Skill) (version : SkillVersion)
    (row : Row version db.skill_versions) (of_skill : version.skill_id ≡ skill_id)
    (draft : version.status ≡ VersionStatus.draft) (skill_row : Row skill db.skills)
    (payload : Payload) where
  abbrev activated_rows : Db
  activated_rows = record db {
    skill_versions = set_version version.id (activation_sets now user) db.skill_versions;
  }

  abbrev marked : Session
  marked = record s {
    pending = s.pending ++ Write.update_version version (activation_sets now user) ∷ [];
  }

  marked-IsReady : IsReady w marked activated_rows
  marked-IsReady =
      queued-IsReady w s (Write.update_version version (activation_sets now user)) db activated_rows
        s.tick (record { leads = ready.leads; consistent = ready.consistent; fresh = ready.fresh })
        (updated_version-accepted db version (activation_sets now user) ready.consistent row
          (activation_sets-IsHarmless now user) (draft-guarded version now user draft)
          (unique_by-joined (λ (v : SkillVersion). v.id) (λ (v : SkillVersion). v.skill_id)
            version.id skill_id is_active (assign_all assign_version (activation_sets now user))
            db.skill_versions
            (λ x at same.
              ap (λ v. v.skill_id)
                (unique_by-Row (λ (v : SkillVersion). v.id) db.skill_versions x version
                  ready.consistent.versions.ids at row ((==_iff x.id version.id).0 same))
              ∙ of_skill)
            (λ v. refl) ready.consistent.versions.ids
            (free-any skill_id db.skill_versions ready.free) ready.consistent.versions.one_active))
        ready.fresh

  abbrev pub was_active : Bool
  was_active = skill_status_eq skill.status SkillStatus.active

  -- The tick after the skill's status is written, if it changes.
  abbrev pub placed_tick : ℕ
  placed_tick = if was_active then s.tick else s.tick + 1

  abbrev placed_db : Db
  placed_db = record activated_rows {
    skills =
        if was_active
        then db.skills
        else set_skill skill.id (status_sets SkillStatus.active (w.utcnow s.tick)) db.skills;
  }

  abbrev placed : Session
  placed = record marked {
    pending =
        if was_active
        then marked.pending
        else marked.pending
          ++ Write.update_skill skill (status_sets SkillStatus.active (w.utcnow s.tick)) ∷ [];
    tick = placed_tick;
  }

  set_status_lem :
      set_status w (get_skill_service user) skill SkillStatus.active marked ≡ (ok tt, placed)
  unfolding set_status assign_metadata pure queue draw_now ◌>>=◌
  set_status_lem = elim (Bool-cases was_active) [
    | inl same ↦ rw same refl
    | inr other ↦ rw other refl
  ]

  placed-IsReady : IsReady w placed placed_db
  placed-IsReady = elim (Bool-cases was_active) [
    | inl same ↦ rw same marked-IsReady
    | inr other ↦ rw other (
        queued-IsReady w marked
          (Write.update_skill skill (status_sets SkillStatus.active (w.utcnow s.tick)))
          activated_rows _ (s.tick + 1) marked-IsReady
          (updated_skill-accepted activated_rows skill SkillStatus.active (w.utcnow s.tick)
            marked-IsReady.consistent skill_row)
          (IsFresh-later w db.audit_log s.tick (s.tick + 1) ready.fresh (omega arith)))
  ]

  abbrev pub activated_entry : AuditLog
  activated_entry = entry w user placed_tick AuditEvent.version_activated skill version payload

  abbrev pub installed_db : Db
  installed_db = record placed_db { audit_log = db.audit_log ++ activated_entry ∷ [] }

  abbrev logged : Session
  logged = record placed {
    pending = placed.pending ++ Write.insert_audit activated_entry ∷ [];
    tick = placed_tick + 1 + 1;
  }

  pub logged-IsReady : IsReady w logged installed_db
  logged-IsReady =
      let new = placed-IsReady.fresh.unused placed_tick (omega arith) in
      queued-IsReady w placed (Write.insert_audit activated_entry) placed_db installed_db
        (placed_tick + 1 + 1) placed-IsReady
        (
          (inserted_audit-accepted placed_db activated_entry placed-IsReady.consistent.audit new).0,
          inserted_audit-IsConsistent placed_db activated_entry placed-IsReady.consistent new,
        )
        (IsFresh-logged w db.audit_log placed_tick (placed_tick + 1 + 1) activated_entry
          placed-IsReady.fresh refl (omega arith))

  abbrev pub activation_stamp : SkillVersion → SkillVersion
  activation_stamp = assign_all assign_version (activation_sets now user)

  -- The rest of `switch_versions`, from the write of the new version on.
  abbrev pub installation : ℕ → Exec ActivationResult
  unfolding ◌>>=◌ pure
  installation n = do
    mark_active w (get_skill_service user) now version
    set_status w (get_skill_service user) skill SkillStatus.active
    record_event w user.organization_id user AuditEvent.version_activated (some skill)
        (some version) payload
    commit
    refreshed ← require_version w (get_skill_service user) skill_id n
    pure (record { version = refreshed; changed = true })

  pub install_lem :
      (n : ℕ)
      → rows_where
          (λ v. v.skill_id == skill_id && v.version_number == n)
          (select_versions user.organization_id db)
        ≡ version ∷ []
      → installation n s ≡ (
        ok (record {
          version = load_version w installed_db (activation_stamp version);
          changed = true;
        }),
        record {
          committed = installed_db;
          working = installed_db;
          pending = [];
          tick = placed_tick + 1 + 1;
        },
      )
  unfolding installation mark_active record_event add_audit pure queue draw_uuid draw_now ◌>>=◌
      load_version select_versions
  install_lem n at =
      rw
        (
          set_status_lem,
          commit_lem logged installed_db logged-IsReady.leads,
          require_version_lem w (get_skill_service user) skill_id n
              (record logged { committed = installed_db; working = installed_db; pending = [] })
              (activation_stamp version)
              (version-updated user.organization_id skill_id n db version activation_stamp at
                (λ v. refl) (λ v. refl) (λ v. refl)),
        )
        refl
