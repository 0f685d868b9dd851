-- ===== src/Effects/Review.antt =====
-- app/services/skills.py: what `review_version` does when it succeeds.
use jarvis_skill_registry.Prelude.{
  ℕ, ◌≡◌, ◌+◌, ap, refl, sym, ◌∙◌, true, false, ◌&&◌, ◌==◌, List, [], ◌∷◌, ◌++◌, some, arith, map,
  if◌then◌else◌,
}
use jarvis_skill_registry.Prelude.Tables.{rows_where}
use jarvis_skill_registry.Core.Enums.{VersionStatus, AuditEvent}
use jarvis_skill_registry.Core.Errors.{ok}
use jarvis_skill_registry.Models.{
  Uuid, User, SkillVersion, AuditLog, Payload, VersionSet, assign_all, assign_version, is_reviewed,
}
use jarvis_skill_registry.Models.Guard.{same_content, guard_active_version_immutability}
use jarvis_skill_registry.Database.Constraints.{Db, is_active}
use jarvis_skill_registry.Database.Updates.{unique_by-retired}
use jarvis_skill_registry.Database.Write.{Write, apply_writes, set_version}
use jarvis_skill_registry.Session.{
  World, Session, ◌>>=◌, open_session, queue, draw_now, draw_uuid, raise_if,
}
use jarvis_skill_registry.Repository.{select_versions, load_version}
use jarvis_skill_registry.Services.Audit.{record_event, add_audit}
use jarvis_skill_registry.Services.Skills.{
  SkillService, review_version, review_found, check_reviewable, finish_review, mark_reviewed,
}
use jarvis_skill_registry.Api.Routes.{Request, Response, handle, get_skill_service}
use jarvis_skill_registry.Invariants.Consistency.{IsConsistent}
use jarvis_skill_registry.Effects.Steps.{
  apply_writes-cons, committed_version, version-IsFound, version-updated, require_version_lem,
  update_where-map,
}
use jarvis_skill_registry.Effects.Fresh.{IsFresh}
use jarvis_skill_registry.Effects.Accepted.{
  kept-accepted, same_content_refl, inserted_audit-accepted, updated_version-accepted, IsHarmless,
}

-- The review of one version, told without the session: who and when is written on the one row, and
-- one entry is added to the audit log.
abbrev pub review_stamp : World → User → ℕ → SkillVersion → SkillVersion
review_stamp w user tick v = record v {
  reviewed_at = some (w.utcnow tick);
  reviewed_by = some user.id;
}

module _ (w : World) (user : User) (tick : ℕ) (version : SkillVersion) where
  abbrev pub review_entry : AuditLog
  review_entry = record {
    id = w.uuid4 (tick + 1);
    organization_id = user.organization_id;
    actor_user_id = user.id;
    event = AuditEvent.version_reviewed;
    skill_id = some version.skill_id;
    skill_version_id = some version.id;
    version_number = some version.version_number;
    payload = Payload.reviewed_by user.id;
    created_at = w.utcnow (tick + 1 + 1);
  }

  abbrev pub reviewed_db : Db → Db
  reviewed_db db = record db {
    skill_versions =
        map (λ v. if v.id == version.id then review_stamp w user tick v else v) db.skill_versions;
    audit_log = db.audit_log ++ review_entry ∷ [];
  }

abbrev review_sets : World → User → ℕ → List VersionSet
review_sets w user tick =
    VersionSet.reviewed_at (w.utcnow tick) ∷ VersionSet.reviewed_by user.id ∷ []

review_sets-IsHarmless : (w : World) (user : User) (tick : ℕ) → IsHarmless (review_sets w user tick)
unfolding same_content
review_sets-IsHarmless w user tick = record {
  id = λ v. refl;
  skill_id = λ v. refl;
  number = λ v. refl;
  accepted = λ v.
      kept-accepted v (review_stamp w user tick v) (same_content_refl v) refl refl
        (λ active. rw active refl);
}

-- The session before the commit.
abbrev review_writes : World → User → Db → ℕ → SkillVersion → Session
review_writes w user db tick version = record {
  committed = db;
  working = db;
  pending =
      Write.update_version version (review_sets w user tick)
      ∷ Write.insert_audit (review_entry w user tick version)
      ∷ [];
  tick = tick + 1 + 1 + 1;
}

draft-guarded :
    (loaded target : SkillVersion)
    → loaded.status ≡ VersionStatus.draft
    → target.status ≡ loaded.status
    → guard_active_version_immutability loaded target ≡ true
unfolding guard_active_version_immutability
draft-guarded loaded target draft same = rw (same, draft) refl

review_accepted :
    (w : World) (user : User) (skill_id : Uuid) (n : ℕ) (db : Db) (tick : ℕ)
    (version : SkillVersion)
    → IsConsistent db
    → IsFresh w db.audit_log tick
    → rows_where
        (λ v. v.skill_id == skill_id && v.version_number == n)
        (select_versions user.organization_id db)
      ≡ version ∷ []
    → version.status ≡ VersionStatus.draft
    → apply_writes ((review_writes w user db tick version).pending) db
      ≡ ok (reviewed_db w user tick version db)
unfolding apply_writes
review_accepted w user skill_id n db tick version h fresh at draft =
    let sets = review_sets w user tick in
    let found = version-IsFound user.organization_id skill_id n db version at in
    let harmless = review_sets-IsHarmless w user tick in
    let (updated, after) =
      updated_version-accepted db version sets h found.row harmless
        (draft-guarded version (review_stamp w user tick version) draft refl)
        (unique_by-retired (λ a b. a.skill_id == b.skill_id) is_active (λ v. v.id == version.id)
          (assign_all assign_version sets) db.skill_versions (λ v. refl) (λ a v. refl) (λ v on. on)
          h.versions.one_active) in
    let stamped = set_version version.id sets db.skill_versions in
    let (inserted, _) =
      inserted_audit-accepted (record db { skill_versions = stamped })
        (review_entry w user tick version) h.audit (fresh.unused (tick + 1) (omega arith)) in
    let entry = Write.insert_audit (review_entry w user tick version) in
    apply_writes-cons (Write.update_version version sets) (entry ∷ []) db _ _ updated (
      apply_writes-cons entry [] (record db { skill_versions = stamped }) _ _ inserted
        (ap
          (λ rows. ok (record db {
            skill_versions = rows;
            audit_log = db.audit_log ++ review_entry w user tick version ∷ [];
          }))
          (update_where-map (λ v. v.id == version.id) (review_stamp w user tick)
            db.skill_versions)))

review_found_again :
    (w : World) (user : User) (skill_id : Uuid) (n : ℕ) (db : Db) (tick : ℕ)
    (version : SkillVersion)
    → rows_where
        (λ v. v.skill_id == skill_id && v.version_number == n)
        (select_versions user.organization_id db)
      ≡ version ∷ []
    → rows_where
        (λ v. v.skill_id == skill_id && v.version_number == n)
        (select_versions user.organization_id (reviewed_db w user tick version db))
      ≡ review_stamp w user tick version ∷ []
unfolding select_versions
review_found_again w user skill_id n db tick version at =
    ap
      (λ rows.
        rows_where (λ v. v.skill_id == skill_id && v.version_number == n)
          (select_versions user.organization_id (record db {
            skill_versions = rows;
            audit_log = db.audit_log ++ review_entry w user tick version ∷ [];
          })))
      (sym
        (update_where-map (λ v. v.id == version.id) (review_stamp w user tick) db.skill_versions))
    ∙ version-updated user.organization_id skill_id n db version (review_stamp w user tick) at
        (λ v. refl) (λ v. refl) (λ v. refl)

check_reviewable_lem :
    (w : World) (svc : SkillService) (n : ℕ) (version : SkillVersion) (s : Session)
    → version.status ≡ VersionStatus.draft
    → is_reviewed version ≡ false
    → check_reviewable w svc n version s ≡ (ok tt, s)
unfolding check_reviewable raise_if ◌>>=◌
check_reviewable_lem w svc n version s draft unreviewed = rw (draft, unreviewed) refl

finish_review_lem :
    (w : World) (user : User) (skill_id : Uuid) (n : ℕ) (db : Db) (tick : ℕ)
    (version : SkillVersion)
    → IsConsistent db
    → IsFresh w db.audit_log tick
    → rows_where
        (λ v. v.skill_id == skill_id && v.version_number == n)
        (select_versions user.organization_id db)
      ≡ version ∷ []
    → version.status ≡ VersionStatus.draft
    → finish_review w (get_skill_service user) skill_id n version (open_session db tick) ≡ (
        let after = reviewed_db w user tick version db in
        (
          ok (load_version w after (review_stamp w user tick version)),
          open_session after (tick + 1 + 1 + 1),
        ))
unfolding finish_review mark_reviewed record_event add_audit queue draw_now draw_uuid ◌>>=◌
finish_review_lem w user skill_id n db tick version h fresh at draft =
    committed_version w (get_skill_service user) skill_id n (review_writes w user db tick version)
      (reviewed_db w user tick version db) (review_stamp w user tick version)
      (review_accepted w user skill_id n db tick version h fresh at draft)
      (review_found_again w user skill_id n db tick version at)

-- The review of a draft that the caller's organization has and that nobody has reviewed succeeds,
-- and leaves this state and no other: the time and the caller as the version's review, every other
-- row as it was, and one entry more in the audit log, with the caller and the version that it is
-- about. It is supposed that the stored tables satisfy their keys and that the ids which are drawn
-- are new.
pub handle-review_version :
    (w : World) (user : User) (skill_id : Uuid) (n : ℕ) (db : Db) (tick : ℕ)
    (version : SkillVersion)
    → IsConsistent db
    → IsFresh w db.audit_log tick
    → rows_where
        (λ v. v.skill_id == skill_id && v.version_number == n)
        (select_versions user.organization_id db)
      ≡ version ∷ []
    → version.status ≡ VersionStatus.draft
    → is_reviewed version ≡ false
    → handle w user (Request.review_version skill_id n) db tick ≡ (
        let after = reviewed_db w user tick version db in
        (
          ok (Response.version (load_version w after (review_stamp w user tick version))),
          open_session after (tick + 1 + 1 + 1),
        ))
unfolding handle review_version review_found load_version ◌>>=◌
handle-review_version w user skill_id n db tick version h fresh at draft unreviewed =
    rw
      (
        require_version_lem w (get_skill_service user) skill_id n (open_session db tick) version at,
        check_reviewable_lem w (get_skill_service user) n version (open_session db tick) draft
            unreviewed,
        finish_review_lem w user skill_id n db tick version h fresh at draft,
      )
      refl
