-- ===== src/Effects/Close.antt =====
-- app/services/skills.py, `disable_skill`: from the skill's status to the answer.
use jarvis_skill_registry.Prelude.{
  ◌≡◌, ◌+◌, ap, refl, ◌∙◌, false, ◌==◌, ==_refl, [], ◌∷◌, ◌++◌, arith, inl,
}
use jarvis_skill_registry.Prelude.Tables.{rows_where, update_where, Row, Row-rows_where}
use jarvis_skill_registry.Core.Enums.{SkillStatus}
use jarvis_skill_registry.Core.Errors.{ok}
use jarvis_skill_registry.Models.{Uuid, User, Skill}
use jarvis_skill_registry.Database.Constraints.{Db}
use jarvis_skill_registry.Database.Write.{Write, set_skill}
use jarvis_skill_registry.Session.{
  World, Session, ◌>>=◌, pure, queue, draw_now, one_or_none, or_raise,
}
use jarvis_skill_registry.Repository.{select_skills, load_skill, get_skill_with_versions}
use jarvis_skill_registry.Services.Skills.{
  set_status, assign_metadata, get_skill_detail, is_disabled,
}
use jarvis_skill_registry.Api.Routes.{get_skill_service}
use jarvis_skill_registry.Effects.Fresh.{IsFresh-later, IsFresh-logged}
use jarvis_skill_registry.Effects.Accepted.{
  inserted_audit-accepted, inserted_audit-IsConsistent, updated_skill-accepted, status_sets,
}
use jarvis_skill_registry.Effects.Steps.{rows_where-updated}
use jarvis_skill_registry.Effects.Ready.{IsReady, queued-IsReady}
use jarvis_skill_registry.Effects.Disabled.{disabled_skill, skill_entry}

-- From the skill's status to the answer.
module _ (w : World) (user : User) (skill : Skill) (skill_id : Uuid) (s : Session) (db : Db)
    (ready : IsReady w s db)
    (at_skill : rows_where (λ k. k.id == skill_id) (select_skills user.organization_id db)
      ≡ skill ∷ [])
    (enabled : is_disabled skill ≡ false) where
  abbrev marked_db : Db
  marked_db = record db {
    skills = set_skill skill.id (status_sets SkillStatus.disabled (w.utcnow s.tick)) db.skills;
  }

  abbrev marked : Session
  marked = record s {
    pending =
        s.pending
        ++ Write.update_skill skill (status_sets SkillStatus.disabled (w.utcnow s.tick)) ∷ [];
    tick = s.tick + 1;
  }

  abbrev pub closed_db : Db
  closed_db = record marked_db {
    audit_log = db.audit_log ++ skill_entry w user skill (s.tick + 1) ∷ [];
  }

  abbrev pub closed : Session
  closed = record marked {
    pending = marked.pending ++ Write.insert_audit (skill_entry w user skill (s.tick + 1)) ∷ [];
    tick = s.tick + 1 + 1 + 1;
  }

  skill-Row : Row skill db.skills
  unfolding select_skills
  skill-Row =
      (Row-rows_where (λ k. k.organization_id == user.organization_id) skill db.skills
        ((Row-rows_where (λ k. k.id == skill_id) skill (select_skills user.organization_id db)
          (rw at_skill (inl refl))).1)).1

  pub closed-IsReady : IsReady w closed closed_db
  closed-IsReady =
      let updated =
        updated_skill-accepted db skill SkillStatus.disabled (w.utcnow s.tick) ready.consistent
          skill-Row in
      let later = IsFresh-later w db.audit_log s.tick (s.tick + 1) ready.fresh (omega arith) in
      let e = skill_entry w user skill (s.tick + 1) in
      let new = later.unused (s.tick + 1) (omega arith) in
      queued-IsReady w marked (Write.insert_audit e) marked_db closed_db (s.tick + 1 + 1 + 1)
        (queued-IsReady w s
          (Write.update_skill skill (status_sets SkillStatus.disabled (w.utcnow s.tick))) db
          marked_db (s.tick + 1) ready updated later)
        (
          (inserted_audit-accepted marked_db e ready.consistent.audit new).0,
          inserted_audit-IsConsistent marked_db e (updated.1) new,
        )
        (IsFresh-logged w db.audit_log (s.tick + 1) (s.tick + 1 + 1 + 1) e later refl (omega arith))

  pub set_status_lem :
      set_status w (get_skill_service user) skill SkillStatus.disabled s ≡ (ok tt, marked)
  unfolding set_status assign_metadata pure queue draw_now ◌>>=◌
  set_status_lem = rw enabled refl

  skill-found :
      rows_where (λ k. k.id == skill_id) (select_skills user.organization_id closed_db)
      ≡ disabled_skill w user skill s.tick skill ∷ []
  unfolding select_skills update_where
  skill-found =
      let reached = λ (k : Skill). k.id == skill.id in
      let f = disabled_skill w user skill s.tick in
      ap (rows_where (λ k. k.id == skill_id)) (
        rows_where-updated (λ k. k.organization_id == user.organization_id) reached f db.skills
          (λ k. refl))
      ∙ (rows_where-updated (λ k. k.id == skill_id) reached f
            (select_skills user.organization_id db) (λ k. refl)
          ∙ (ap (update_where reached f) at_skill ∙ rw (==_refl skill.id) refl))

  pub get_skill_detail_lem :
      get_skill_detail w
        (get_skill_service user)
        skill_id
        (record closed { committed = closed_db; working = closed_db; pending = [] })
      ≡ (
        ok (load_skill w closed_db (disabled_skill w user skill s.tick skill)),
        record closed { committed = closed_db; working = closed_db; pending = [] },
      )
  unfolding get_skill_detail get_skill_with_versions one_or_none or_raise ◌>>=◌
  get_skill_detail_lem = rw skill-found refl
