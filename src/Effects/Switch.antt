-- ===== src/Effects/Switch.antt =====
-- app/services/activation.py: `switch_versions` leaves what the succession says.
use jarvis_skill_registry.Prelude.{
  ℕ, ◌≡◌, ◌+◌, ap, refl, sym, ◌∙◌, subst, true, ◌&&◌, ◌==◌, List, [], ◌∷◌, ◌++◌, Option, none, some,
  arith, if◌then◌else◌, inl,
}
use mathlib.Core.List.{append_assoc}
use jarvis_skill_registry.Prelude.Tables.{rows_where, update_where, Row, Row-rows_where}
use jarvis_skill_registry.Core.Enums.{SkillStatus, skill_status_eq, VersionStatus}
use jarvis_skill_registry.Core.Errors.{ok}
use jarvis_skill_registry.Models.{
  Uuid, User, Skill, SkillVersion, Payload, assign_all, assign_version,
}
use jarvis_skill_registry.Database.Constraints.{Db}
use jarvis_skill_registry.Database.Write.{set_skill}
use jarvis_skill_registry.Session.{World, ◌>>=◌, open_session, draw_now}
use jarvis_skill_registry.Repository.{select_versions, select_skills, load_version}
use jarvis_skill_registry.Services.Activation.{ActivationResult, switch_versions, number_of}
use jarvis_skill_registry.Api.Routes.{get_skill_service}
use jarvis_skill_registry.Invariants.Consistency.{IsConsistent}
use jarvis_skill_registry.Effects.Fresh.{IsFresh, IsFresh-later}
use jarvis_skill_registry.Effects.Accepted.{status_sets, ==_comm}
use jarvis_skill_registry.Effects.Steps.{
  IsFound, version-IsFound, update_where-map, rows_where-updated,
}
use jarvis_skill_registry.Effects.Incumbent.{
  holds, Incumbent, loaded, get_active_version_lem, held-apart,
}
use jarvis_skill_registry.Effects.Retire.{
  retired_db, retired_session, retired-IsVacated, supersede_lem, superseded_entry, superseded_sets,
}
use jarvis_skill_registry.Effects.Install.{installed_db, install_lem}
use jarvis_skill_registry.Effects.Succession.{
  successor, installing_tick, switched_tick, switch_entry, switched_skills, switched_db,
  vacant-succession, held-succession,
}

-- The named version is found as it was after the incumbent has been superseded.
retired-found :
    (w : World) (user : User) (t : ℕ) (skill : Skill) (version : SkillVersion) (skill_id : Uuid)
    (n : ℕ) (db : Db) (incumbent : Option SkillVersion)
    → IsConsistent db
    → Incumbent user.organization_id skill_id db incumbent
    → Row version db.skill_versions
    → version.status ≡ VersionStatus.draft
    → rows_where
        (λ v. v.skill_id == skill_id && v.version_number == n)
        (select_versions user.organization_id db)
      ≡ version ∷ []
    → rows_where
        (λ v. v.skill_id == skill_id && v.version_number == n)
        (select_versions user.organization_id (retired_db w user t skill version incumbent db))
      ≡ version ∷ []
unfolding select_versions update_where
retired-found w user t skill version skill_id n db none h _ row draft at = at
retired-found w user t skill version skill_id n db (some u) h (Incumbent.held _ one owned) row draft
      at =
    let apart = held-apart skill_id u version db.skill_versions h.versions.ids one row draft in
    let reached = λ (v : SkillVersion). v.id == u.id in
    let f = assign_all assign_version superseded_sets in
    let named = λ (v : SkillVersion). v.skill_id == skill_id && v.version_number == n in
    ap (rows_where named) (
      rows_where-updated (λ v. v.organization_id == user.organization_id) reached f
        db.skill_versions (λ v. refl))
    ∙ (rows_where-updated named reached f (select_versions user.organization_id db) (λ v. refl)
        ∙ (ap (update_where reached f) at ∙ rw (==_comm version.id u.id, apart) refl))

abbrev incumbent_number : Option SkillVersion → Option ℕ
incumbent_number none = none
incumbent_number (some v) = some v.version_number

switched-skills :
    (w : World) (user : User) (tick : ℕ) (skill : Skill) (version : SkillVersion)
    (incumbent : Option SkillVersion) (rows : List Skill)
    → (if skill_status_eq skill.status SkillStatus.active
        then rows
        else set_skill skill.id
            (status_sets SkillStatus.active
              (w.utcnow (installing_tick w user tick skill version incumbent)))
            rows)
      ≡ switched_skills w user tick skill version incumbent rows
switched-skills w user tick skill version incumbent rows =
    ap (λ r. if skill_status_eq skill.status SkillStatus.active then rows else r)
      (update_where-map (λ s. s.id == skill.id) _ rows)

-- The hypotheses under which an activation succeeds.
module _ (w : World) (user : User) (skill_id : Uuid) (n : ℕ) (db : Db) (tick : ℕ) (skill : Skill)
    (version : SkillVersion) (h : IsConsistent db) (fresh : IsFresh w db.audit_log tick)
    (at_skill : rows_where (λ s. s.id == skill_id) (select_skills user.organization_id db)
      ≡ skill ∷ [])
    (at_version : rows_where
        (λ v. v.skill_id == skill_id && v.version_number == n)
        (select_versions user.organization_id db)
      ≡ version ∷ [])
    (draft : version.status ≡ VersionStatus.draft) where
  later : IsFresh w db.audit_log (tick + 1)
  later = IsFresh-later w db.audit_log tick (tick + 1) fresh (omega arith)

  found : IsFound user.organization_id skill_id n db version
  found = version-IsFound user.organization_id skill_id n db version at_version

  skill-Row : Row skill db.skills
  unfolding select_skills
  skill-Row =
      (Row-rows_where (λ s. s.organization_id == user.organization_id) skill db.skills
        ((Row-rows_where (λ s. s.id == skill_id) skill (select_skills user.organization_id db)
          (rw at_skill (inl refl))).1)).1

  installed-switched :
      (incumbent : Option SkillVersion)
      (held : Incumbent user.organization_id skill_id db incumbent)
      (row : Row version (retired_db w user (tick + 1) skill version incumbent db).skill_versions)
      (skill_row : Row skill (retired_db w user (tick + 1) skill version incumbent db).skills)
      → installed_db w user
          (w.utcnow tick)
          skill_id
          (retired_session w user (tick + 1) skill version incumbent db)
          (retired_db w user (tick + 1) skill version incumbent db)
          (retired-IsVacated w user (tick + 1) skill version skill_id db h later incumbent held)
          skill
          version
          row
          found.skill_id
          draft
          skill_row
          (Payload.activation version.content_hash (incumbent_number incumbent))
        ≡ switched_db w user tick skill version incumbent db
  installed-switched none (Incumbent.vacant free) row skill_row = λ i. record db {
    skills = switched-skills w user tick skill version none db.skills i;
    skill_versions =
        vacant-succession w user tick skill version db.skill_versions
          (subst (λ k. rows_where (holds k) db.skill_versions ≡ []) (sym found.skill_id) free) i;
    audit_log = db.audit_log ++ switch_entry w user tick skill version none ∷ [];
  }
  installed-switched (some v) (Incumbent.held _ one owned) row skill_row = λ i. record db {
    skills = switched-skills w user tick skill version (some v) db.skills i;
    skill_versions =
        held-succession w user tick skill version db.skill_versions v h.versions.ids
          (subst (λ k. rows_where (holds k) db.skill_versions ≡ v ∷ []) (sym found.skill_id) one)
          (held-apart skill_id v version db.skill_versions h.versions.ids one found.row draft) i;
    audit_log =
        append_assoc db.audit_log (superseded_entry w user (tick + 1) skill version v ∷ [])
          (switch_entry w user tick skill version (some v) ∷ []) i;
  }

  incumbent_number_lem :
      (incumbent : Option SkillVersion)
      → number_of (loaded w db incumbent) ≡ incumbent_number incumbent
  unfolding load_version
  incumbent_number_lem none = refl
  incumbent_number_lem (some v) = refl

  abbrev pub switched : Option SkillVersion → ActivationResult
  switched incumbent = record {
    version =
        load_version w (switched_db w user tick skill version incumbent db)
          (successor w user tick skill version version);
    changed = true;
  }

  retired-tick :
      (incumbent : Option SkillVersion)
      → (retired_session w user (tick + 1) skill version incumbent db).tick
        ≡ installing_tick w user tick skill version incumbent
  retired-tick none = refl
  retired-tick (some v) = refl

  skill-retired :
      (incumbent : Option SkillVersion)
      → Row skill (retired_db w user (tick + 1) skill version incumbent db).skills
  skill-retired none = skill-Row
  skill-retired (some v) = skill-Row

  Row-retired :
      (incumbent : Option SkillVersion)
      → Incumbent user.organization_id skill_id db incumbent
      → Row version (retired_db w user (tick + 1) skill version incumbent db).skill_versions
  Row-retired incumbent holder =
      (version-IsFound user.organization_id skill_id n
        (retired_db w user (tick + 1) skill version incumbent db) version
        (retired-found w user (tick + 1) skill version skill_id n db incumbent h holder found.row
          draft at_version)).row

  pub switch_versions_lem :
      (incumbent : Option SkillVersion)
      → Incumbent user.organization_id skill_id db incumbent
      → switch_versions w (get_skill_service user) skill_id n skill version (open_session db tick)
        ≡ (
          ok (switched incumbent),
          open_session
              (switched_db w user tick skill version incumbent db)
              (switched_tick w user tick skill version incumbent + 1 + 1),
        )
  unfolding switch_versions draw_now ◌>>=◌
  switch_versions_lem incumbent holder =
      rw
        (
          get_active_version_lem w user.organization_id skill_id db incumbent
              (open_session db (tick + 1)) holder refl,
          incumbent_number_lem incumbent,
          supersede_lem w user (tick + 1) skill version skill_id db h later incumbent holder
              found.row draft,
        )
        (install_lem w user (w.utcnow tick) skill_id
            (retired_session w user (tick + 1) skill version incumbent db)
            (retired_db w user (tick + 1) skill version incumbent db)
            (retired-IsVacated w user (tick + 1) skill version skill_id db h later incumbent holder)
            skill version (Row-retired incumbent holder) found.skill_id draft
            (skill-retired incumbent)
            (Payload.activation version.content_hash (incumbent_number incumbent)) n
            (retired-found w user (tick + 1) skill version skill_id n db incumbent h holder
              found.row draft at_version)
          ∙ (λ i.
              let after =
                installed-switched incumbent holder (Row-retired incumbent holder)
                  (skill-retired incumbent) i in
              let t = retired-tick incumbent i in
              (
                ok (record {
                  version = load_version w after (successor w user tick skill version version);
                  changed = true;
                }),
                open_session after (
                    (if skill_status_eq skill.status SkillStatus.active then t else t + 1) + 1 + 1),
              )))
