-- ===== src/Invariants/Isolation.antt =====
-- Tenancy on the write side: `ScopedRepository` reads and stamps one organization, so what the
-- services write stays in it.
use jarvis_skill_registry.Prelude.{
  ℕ, ◌≡◌, refl, ◌∙◌, sym, ap, Bool, true, false, not, ◌==◌, ==_iff, Bool-cases, inl, inr, List, [],
  ◌∷◌, arith,
}
use jarvis_skill_registry.Prelude.Tables.{
  Row, rows_where, any, unique_by, update_where, Row-rows_where, rows_where-Row, any-Row,
}
use jarvis_skill_registry.Prelude.Partition.{
  rows_where-update_where, rows_where-insert, any-none, unique_by-Row,
}
use jarvis_skill_registry.Models.{
  Uuid, User, Skill, SkillVersion, SkillSet, VersionSet, assign_all, assign_skill, assign_version,
}
use jarvis_skill_registry.Core.Errors.{ok}
use jarvis_skill_registry.Database.Constraints.{Db}
use jarvis_skill_registry.Database.Write.{Write, apply_write}
use jarvis_skill_registry.Database.Inversion.{
  inserted_skill, inserted_version, inserted_grant, inserted_audit, updated_skill, updated_version,
  updated_grant,
}
use jarvis_skill_registry.Repository.{select_skills, select_versions}
use jarvis_skill_registry.Session.{World}
use jarvis_skill_registry.Services.Skills.{SkillService}
use jarvis_skill_registry.Services.Discipline.{VersionStep}
use jarvis_skill_registry.Services.Stable.{AnyStep, Stable, Owned, ServiceWrite, handle-Stable}
use jarvis_skill_registry.Api.Routes.{Request, handle, get_skill_service}
use jarvis_skill_registry.Invariants.Consistency.{IsConsistent, apply_write-IsConsistent}

abbrev pub foreign : Uuid → Uuid → Bool
foreign org other = not (other == org)

-- The rows of every other organization are the same rows in the same order.
pub record IsUntouched (org : Uuid) (old new : Db) : Type 0 where
  pub skills :
      rows_where (λ s. foreign org s.organization_id) new.skills
      ≡ rows_where (λ s. foreign org s.organization_id) old.skills
  pub versions :
      rows_where (λ v. foreign org v.organization_id) new.skill_versions
      ≡ rows_where (λ v. foreign org v.organization_id) old.skill_versions
  pub audit :
      rows_where (λ a. foreign org a.organization_id) new.audit_log
      ≡ rows_where (λ a. foreign org a.organization_id) old.audit_log

own-foreign : (org other : Uuid) → other ≡ org → foreign org other ≡ false
own-foreign org other e = ground (arith, (==_iff other org).1)

own-row : (org other : Uuid) → other == org ≡ true → foreign org other ≡ false
own-row org other e = ground arith

-- No row that is foreign has the key of a row that is read in the organization.
module _ {A : Type 0} (id org_of : A → Uuid) (org : Uuid) (l : List A) where
  foreign-apart :
      (r : A)
      → unique_by (λ a b. id a == id b) l ≡ true
      → Row r (rows_where (λ x. org_of x == org) l)
      → any (λ x. id x == id r) (rows_where (λ x. foreign org (org_of x)) l) ≡ false
  foreign-apart r unique row =
      any-none (λ x. id x == id r) (rows_where (λ x. foreign org (org_of x)) l) apart
    where
      apart : (x : A) → Row x (rows_where (λ y. foreign org (org_of y)) l) → id x == id r ≡ false
      apart x at =
          let mine = Row-rows_where (λ y. org_of y == org) r l row in
          let theirs = Row-rows_where (λ y. foreign org (org_of y)) x l at in
          elim (Bool-cases (id x == id r)) [
            | inl same ↦ absurd (
                cc (
                  sym (own-row org (org_of r) mine.0)
                  ∙ ap (λ y. foreign org (org_of y))
                      (sym (
                        unique_by-Row id l x r unique theirs.1 mine.1
                          ((==_iff (id x) (id r)).0 same)))
                  ∙ theirs.0))
            | inr different ↦ different
          ]

  -- So an UPDATE by that key leaves the foreign rows alone.
  foreign-update :
      (key : Uuid) (f : A → A)
      → any (λ x. id x == key) (rows_where (λ x. foreign org (org_of x)) l) ≡ false
      → ((x : A) → org_of (f x) ≡ org_of x)
      → rows_where (λ x. foreign org (org_of x)) (update_where (λ x. id x == key) f l)
        ≡ rows_where (λ x. foreign org (org_of x)) l
  foreign-update key f apart still =
      rows_where-update_where (λ x. foreign org (org_of x)) (λ x. id x == key) f l outside
        (λ x. ap (foreign org) (still x))
    where
      outside : (x : A) → Row x l → id x == key ≡ true → foreign org (org_of x) ≡ false
      outside x row hit = elim (Bool-cases (foreign org (org_of x))) [
        | inl theirs ↦ absurd (
            cc (
              sym (
                any-Row (λ y. id y == key) x (rows_where (λ y. foreign org (org_of y)) l)
                  (rows_where-Row (λ y. foreign org (org_of y)) x l theirs row) hit)
              ∙ apart))
        | inr mine ↦ mine
      ]

assign_skill-organization_id :
    (sets : List SkillSet) (s : Skill)
    → (assign_all assign_skill sets s).organization_id ≡ s.organization_id
assign_skill-organization_id [] s = refl
assign_skill-organization_id (SkillSet.department d ∷ sets) s = assign_skill-organization_id sets _
assign_skill-organization_id (SkillSet.description d ∷ sets) s = assign_skill-organization_id sets _
assign_skill-organization_id (SkillSet.status t ∷ sets) s = assign_skill-organization_id sets _
assign_skill-organization_id (SkillSet.updated_at t ∷ sets) s = assign_skill-organization_id sets _

pub step-organization_id :
    {svc : SkillService} (loaded : SkillVersion) (sets : List VersionSet)
    → VersionStep svc loaded sets
    → (v : SkillVersion) → (assign_all assign_version sets v).organization_id ≡ v.organization_id
step-organization_id loaded sets (VersionStep.review now _ _) v = refl
step-organization_id loaded sets (VersionStep.activate now _ _ _) v = refl
step-organization_id loaded sets (VersionStep.supersede _ _) v = refl
step-organization_id loaded sets (VersionStep.disable _ _) v = refl

module _ (w : World) (svc : SkillService) (base : Db) where
  -- What the writes keep: the keys, and the foreign rows of `base`.
  abbrev Kept : Db → Type 0
  Kept db = IsConsistent db × IsUntouched svc.organization_id base db

  -- A row that was read has the key of no foreign row.
  abbrev apart : Owned
  apart = record {
    skill = λ r.
        any (λ s. s.id == r.id)
          (rows_where (λ s. foreign svc.organization_id s.organization_id) base.skills)
        ≡ false;
    version = λ r.
        any (λ v. v.id == r.id)
          (rows_where (λ v. foreign svc.organization_id v.organization_id) base.skill_versions)
        ≡ false;
    grant = λ _. Unit;
  }

  write-IsUntouched :
      (wr : Write) (db db' : Db)
      → ServiceWrite w svc AnyStep apart wr
      → IsUntouched svc.organization_id base db
      → apply_write wr db ≡ ok db'
      → IsUntouched svc.organization_id base db'
  write-IsUntouched wr db db' (ServiceWrite.new_skill r new) h e =
      rw ((inserted_skill db r e).1) (record {
        skills =
            rows_where-insert (λ s. foreign svc.organization_id s.organization_id) db.skills r
              (own-foreign svc.organization_id r.organization_id new.org)
            ∙ h.skills;
        versions = h.versions;
        audit = h.audit;
      })
  write-IsUntouched wr db db' (ServiceWrite.new_version r new allowed) h e =
      rw ((inserted_version db r e).1) (record {
        skills = h.skills;
        versions =
            rows_where-insert (λ v. foreign svc.organization_id v.organization_id) db.skill_versions
              r (own-foreign svc.organization_id r.organization_id new.org)
            ∙ h.versions;
        audit = h.audit;
      })
  write-IsUntouched wr db db' (ServiceWrite.new_grant r new) h e =
      rw ((inserted_grant db r e).1)
        (record { skills = h.skills; versions = h.versions; audit = h.audit })
  write-IsUntouched wr db db' (ServiceWrite.new_audit r new) h e =
      rw ((inserted_audit db r e).1) (record {
        skills = h.skills;
        versions = h.versions;
        audit =
            rows_where-insert (λ a. foreign svc.organization_id a.organization_id) db.audit_log r
              (own-foreign svc.organization_id r.organization_id new.org)
            ∙ h.audit;
      })
  write-IsUntouched wr db db' (ServiceWrite.skill_sets r sets own) h e =
      rw ((updated_skill db r sets e).1) (record {
        skills =
            foreign-update (λ s. s.id) (λ s. s.organization_id) svc.organization_id db.skills r.id
              (assign_all assign_skill sets) (ap (any (λ s. s.id == r.id)) h.skills ∙ own)
              (assign_skill-organization_id sets)
            ∙ h.skills;
        versions = h.versions;
        audit = h.audit;
      })
  write-IsUntouched wr db db' (ServiceWrite.version_sets r sets own step allowed) h e =
      rw ((updated_version db r sets e).result) (record {
        skills = h.skills;
        versions =
            foreign-update (λ v. v.id) (λ v. v.organization_id) svc.organization_id
              db.skill_versions r.id (assign_all assign_version sets)
              (ap (any (λ v. v.id == r.id)) h.versions ∙ own) (step-organization_id r sets step)
            ∙ h.versions;
        audit = h.audit;
      })
  write-IsUntouched wr db db' (ServiceWrite.grant_sets r sets own step) h e =
      rw ((updated_grant db r sets e).1)
        (record { skills = h.skills; versions = h.versions; audit = h.audit })

  Kept-Stable : Stable w svc AnyStep Kept
  unfolding select_skills select_versions
  Kept-Stable = record {
    owned = apart;
    read_skill = λ db r h row.
        ap (any (λ s. s.id == r.id)) (sym h.1.skills)
        ∙ foreign-apart (λ s. s.id) (λ s. s.organization_id) svc.organization_id db.skills r
            (h.0.skills.ids) row;
    read_version = λ db r h row.
        ap (any (λ v. v.id == r.id)) (sym h.1.versions)
        ∙ foreign-apart (λ v. v.id) (λ v. v.organization_id) svc.organization_id db.skill_versions r
            (h.0.versions.ids) row;
    read_grant = λ db v g h row at refers. tt;
    step = λ wr before after written kept accepted. (
      apply_write-IsConsistent wr before after kept.0 accepted,
      write-IsUntouched wr before after written kept.1 accepted,
    );
  }

-- If the stored tables satisfy their keys, then after any request of any user, whatever ids it
-- names and whether it is answered or refused, the skills, the versions and the audit entries of
-- every organization but the user's are the same rows in the same order.
pub handle-IsUntouched :
    (w : World) (user : User) (request : Request) (db : Db) (tick : ℕ)
    → IsConsistent db
    → IsUntouched user.organization_id db (handle w user request db tick).1.committed
handle-IsUntouched w user request db tick h =
    (handle-Stable w user (Kept-Stable w (get_skill_service user) db) request (λ kind uses. tt) db
      tick (h, record { skills = refl; versions = refl; audit = refl })).1
