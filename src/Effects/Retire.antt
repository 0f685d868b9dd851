-- ===== src/Effects/Retire.antt =====
-- app/services/activation.py, step 5: the active version of the skill, if it has one, is superseded
-- and flushed before its successor is written.
use jarvis_skill_registry.Prelude.{
  ℕ, ◌≡◌, ◌+◌, ap, refl, Bool, true, false, ◌==◌, ==_iff, List, [], ◌∷◌, ◌++◌, Option, none, some,
  arith, Bool-cases, inl, inr,
}
use jarvis_skill_registry.Prelude.Tables.{rows_where, update_where, Row}
use jarvis_skill_registry.Core.Enums.{VersionStatus, AuditEvent}
use jarvis_skill_registry.Core.Errors.{ok}
use jarvis_skill_registry.Models.{
  Uuid, User, Skill, SkillVersion, AuditLog, Payload, VersionSet, assign_all, assign_version,
}
use jarvis_skill_registry.Models.Guard.{same_content, guard_active_version_immutability}
use jarvis_skill_registry.Database.Constraints.{Db, is_active}
use jarvis_skill_registry.Database.Layers.{status_active}
use jarvis_skill_registry.Database.Updates.{unique_by-retired}
use jarvis_skill_registry.Database.Write.{Write, apply_writes, set_version}
use jarvis_skill_registry.Session.{
  World, Session, ◌>>=◌, pure, open_session, queue, draw_now, draw_uuid,
}
use jarvis_skill_registry.Repository.{load_version}
use jarvis_skill_registry.Services.Audit.{record_event, add_audit}
use jarvis_skill_registry.Services.Activation.{supersede}
use jarvis_skill_registry.Api.Routes.{get_skill_service}
use jarvis_skill_registry.Invariants.Consistency.{IsConsistent}
use jarvis_skill_registry.Effects.Fresh.{IsFresh, IsFresh-logged}
use jarvis_skill_registry.Effects.Accepted.{
  IsHarmless, kept-accepted, same_content_refl, inserted_audit-accepted,
  inserted_audit-IsConsistent, updated_version-accepted,
}
use jarvis_skill_registry.Effects.Steps.{flush_lem, apply_writes-cons}
use jarvis_skill_registry.Effects.Incumbent.{
  holds, entry, Incumbent, loaded, held-Row, held-IsHeld, held-apart,
}

abbrev pub superseded_sets : List VersionSet
superseded_sets = VersionSet.status VersionStatus.superseded ∷ []

superseded_sets-IsHarmless : IsHarmless superseded_sets
unfolding same_content
superseded_sets-IsHarmless = record {
  id = λ v. refl;
  skill_id = λ v. refl;
  number = λ v. refl;
  accepted = λ v.
      kept-accepted v (assign_all assign_version superseded_sets v) (same_content_refl v) refl refl
        (λ active. refl);
}

active-guarded :
    (v : SkillVersion)
    → v.status ≡ VersionStatus.active
    → guard_active_version_immutability v (assign_all assign_version superseded_sets v) ≡ true
unfolding guard_active_version_immutability same_content
active-guarded v active = rw (active, same_content_refl v) refl

-- What the rest of the activation finds: the state that the queued writes lead to, in which the
-- skill has no active version.
pub record IsVacated (w : World) (skill_id : Uuid) (s : Session) (db : Db) : Type 0 where
  pub leads : apply_writes s.pending s.working ≡ ok db
  pub consistent : IsConsistent db
  pub fresh : IsFresh w db.audit_log s.tick
  pub free : rows_where (holds skill_id) db.skill_versions ≡ []

drained :
    {A : Type 0} (p reached : A → Bool) (f : A → A) (l : List A)
    → ((x : A) → Row x l → p x ≡ true → reached x ≡ true)
    → ((x : A) → p (f x) ≡ false)
    → rows_where p (update_where reached f l) ≡ []
unfolding rows_where update_where
drained p reached f [] reaches out = refl
drained p reached f (x ∷ l) reaches out =
    let rest = drained p reached f l (λ y row. reaches y (inr row)) out in
    elim (Bool-cases (reached x)) [
      | inl e ↦ rw (e, out x) rest
      | inr e ↦ elim (Bool-cases (p x)) [
        | inl on ↦ absurd (cc (reaches x (inl refl) on, e))
        | inr off ↦ rw (e, off) rest
      ]
    ]

module _ (w : World) (user : User) (tick : ℕ) (skill : Skill) (version : SkillVersion) where
  abbrev pub superseded_entry : SkillVersion → AuditLog
  superseded_entry v =
      entry w user tick AuditEvent.version_superseded skill v
        (Payload.superseded_by version.version_number)

  abbrev pub superseded_db : SkillVersion → Db → Db
  superseded_db v db = record db {
    skill_versions = set_version v.id superseded_sets db.skill_versions;
  }

  abbrev pub retired_db : Option SkillVersion → Db → Db
  retired_db none db = db
  retired_db (some v) db = record db {
    skill_versions = set_version v.id superseded_sets db.skill_versions;
    audit_log = db.audit_log ++ superseded_entry v ∷ [];
  }

  abbrev pub retired_session : Option SkillVersion → Db → Session
  retired_session none db = open_session db tick
  retired_session (some v) db = record {
    committed = db;
    working = superseded_db v db;
    pending = Write.insert_audit (superseded_entry v) ∷ [];
    tick = tick + 1 + 1;
  }

  module _ (skill_id : Uuid) (db : Db) (h : IsConsistent db)
      (fresh : IsFresh w db.audit_log tick) where
    superseded-accepted :
        (v : SkillVersion)
        → rows_where (holds skill_id) db.skill_versions ≡ v ∷ []
        → (apply_writes (Write.update_version v superseded_sets ∷ []) db ≡ ok (superseded_db v db))
          × IsConsistent (superseded_db v db)
    unfolding apply_writes
    superseded-accepted v one =
        let (on, row) = held-IsHeld skill_id v db.skill_versions one in
        let (updated, after) =
          updated_version-accepted db v superseded_sets h row superseded_sets-IsHarmless
            (active-guarded v (status_active v.status (ground arith)))
            (unique_by-retired (λ a b. a.skill_id == b.skill_id) is_active (λ x. x.id == v.id)
              (assign_all assign_version superseded_sets) db.skill_versions (λ x. refl)
              (λ a x. refl) (λ x on. absurd (cc on)) h.versions.one_active) in
        (
          apply_writes-cons (Write.update_version v superseded_sets) [] db (superseded_db v db) _
              updated refl,
          after,
        )

    pub retired-IsVacated :
        (incumbent : Option SkillVersion)
        → Incumbent user.organization_id skill_id db incumbent
        → IsVacated w skill_id (retired_session incumbent db) (retired_db incumbent db)
    unfolding apply_writes
    retired-IsVacated none (Incumbent.vacant free) = record {
      leads = refl;
      consistent = h;
      fresh = fresh;
      free = free;
    }
    retired-IsVacated (some v) (Incumbent.held _ one owned) =
        let (updated, after) = superseded-accepted v one in
        let new = fresh.unused tick (omega arith) in
        let (inserted, _) =
          inserted_audit-accepted (superseded_db v db) (superseded_entry v) h.audit new in
        record {
          leads =
              apply_writes-cons (Write.insert_audit (superseded_entry v)) [] (superseded_db v db) _
                _ inserted refl;
          consistent =
              inserted_audit-IsConsistent (superseded_db v db) (superseded_entry v) after new;
          fresh =
              IsFresh-logged w db.audit_log tick (tick + 1 + 1) (superseded_entry v) fresh refl
                (omega arith);
          free =
              drained (holds skill_id) (λ x. x.id == v.id)
                (assign_all assign_version superseded_sets) db.skill_versions
                (λ x row on.
                  (==_iff x.id v.id).1
                    (ap (λ y. y.id) (held-Row skill_id v x db.skill_versions one row on)))
                (λ x. ground arith);
        }

    pub supersede_lem :
        (incumbent : Option SkillVersion)
        → Incumbent user.organization_id skill_id db incumbent
        → Row version db.skill_versions
        → version.status ≡ VersionStatus.draft
        → supersede w
            (get_skill_service user)
            skill
            version
            (loaded w db incumbent)
            (open_session db tick)
          ≡ (ok tt, retired_session incumbent db)
    unfolding supersede load_version pure queue record_event add_audit draw_uuid draw_now ◌>>=◌
    supersede_lem none _ row draft = refl
    supersede_lem (some v) (Incumbent.held _ one owned) row draft =
        let (accepted, _) = superseded-accepted v one in
        let queued = Write.update_version v superseded_sets ∷ [] in
        rw
          (
            held-apart skill_id v version db.skill_versions h.versions.ids one row draft,
            flush_lem (record (open_session db tick) { pending = queued }) (superseded_db v db)
                accepted,
          )
          refl
