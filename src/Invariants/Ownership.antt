-- ===== src/Invariants/Ownership.antt =====
-- The skills themselves: what no request changes of one, app/services/skills.py.
use jarvis_skill_registry.Prelude.{ℕ, ◌≡◌, refl, ◌∙◌, ◌==◌, arith, List, [], ◌∷◌}
use jarvis_skill_registry.Core.Errors.{ok}
use jarvis_skill_registry.Models.{User, Skill, SkillSet, assign_all, assign_skill}
use jarvis_skill_registry.Database.Constraints.{Db}
use jarvis_skill_registry.Database.Write.{Write, apply_write}
use jarvis_skill_registry.Database.Inversion.{
  inserted_skill, inserted_version, inserted_grant, inserted_audit, updated_skill, updated_version,
  updated_grant,
}
use jarvis_skill_registry.Session.{World}
use jarvis_skill_registry.Services.Stable.{AnyStep, Stable, no_facts, ServiceWrite, handle-Stable}
use jarvis_skill_registry.Api.Routes.{Request, handle, get_skill_service}
use jarvis_skill_registry.Invariants.Moves.{Moves, Moves-refl, Moves-append, Moves-update}

pub record SameSkill (r r' : Skill) : Type 0 where
  pub id : r'.id ≡ r.id
  pub organization_id : r'.organization_id ≡ r.organization_id
  pub name : r'.name ≡ r.name
  pub created_by : r'.created_by ≡ r.created_by
  pub created_at : r'.created_at ≡ r.created_at

-- A skill of the user's organization that the user created.
pub record IsOwn (user : User) (r : Skill) : Type 0 where
  pub organization_id : r.organization_id ≡ user.organization_id
  pub created_by : r.created_by ≡ user.id

pub SameSkill-refl : (r : Skill) → SameSkill r r
SameSkill-refl r = record {
  id = refl;
  organization_id = refl;
  name = refl;
  created_by = refl;
  created_at = refl;
}

SameSkill-assign :
    (set : SkillSet) (r r' : Skill) → SameSkill r r' → SameSkill r (assign_skill set r')
SameSkill-assign (SkillSet.department d) r r' h = ground arith
SameSkill-assign (SkillSet.description d) r r' h = ground arith
SameSkill-assign (SkillSet.status s) r r' h = ground arith
SameSkill-assign (SkillSet.updated_at t) r r' h = ground arith

SameSkill-assign_all :
    (r : Skill) (sets : List SkillSet) (r' : Skill)
    → SameSkill r r'
    → SameSkill r (assign_all assign_skill sets r')
SameSkill-assign_all r [] r' h = h
SameSkill-assign_all r (set ∷ sets) r' h =
    SameSkill-assign_all r sets (assign_skill set r') (SameSkill-assign set r r' h)

IsOwn-assign_all :
    (user : User) (sets : List SkillSet) (r : Skill)
    → IsOwn user r
    → IsOwn user (assign_all assign_skill sets r)
IsOwn-assign_all user sets r own =
    let same = SameSkill-assign_all r sets r (SameSkill-refl r) in
    record {
      organization_id = same.organization_id ∙ own.organization_id;
      created_by = same.created_by ∙ own.created_by;
    }

module _ (w : World) (user : User) (base : List Skill) where
  skills-write :
      (wr : Write) (db db' : Db)
      → ServiceWrite w (get_skill_service user) AnyStep no_facts wr
      → Moves SameSkill (IsOwn user) base db.skills
      → apply_write wr db ≡ ok db'
      → Moves SameSkill (IsOwn user) base db'.skills
  skills-write wr db db' (ServiceWrite.new_skill r new) h e =
      rw ((inserted_skill db r e).1)
        (Moves-append r (record { organization_id = new.org; created_by = new.creator }) h)
  skills-write wr db db' (ServiceWrite.new_version r new allowed) h e =
      rw ((inserted_version db r e).1) h
  skills-write wr db db' (ServiceWrite.new_grant r new) h e = rw ((inserted_grant db r e).1) h
  skills-write wr db db' (ServiceWrite.new_audit r new) h e = rw ((inserted_audit db r e).1) h
  skills-write wr db db' (ServiceWrite.skill_sets r sets own) h e =
      rw ((updated_skill db r sets e).1) (
        Moves-update (λ s. s.id == r.id) (assign_all assign_skill sets)
          (λ b b' at hit same. SameSkill-assign_all b sets b' same)
          (λ n own. IsOwn-assign_all user sets n own) h)
  skills-write wr db db' (ServiceWrite.version_sets r sets own step allowed) h e =
      rw ((updated_version db r sets e).result) h
  skills-write wr db db' (ServiceWrite.grant_sets r sets own step) h e =
      rw ((updated_grant db r sets e).1) h

  pub skills-Stable :
      Stable w (get_skill_service user) AnyStep (λ db. Moves SameSkill (IsOwn user) base db.skills)
  skills-Stable = record {
    owned = no_facts;
    read_skill = λ db r h row. tt;
    read_version = λ db r h row. tt;
    read_grant = λ db v g h row at refers. tt;
    step = skills-write;
  }

-- No request removes a skill or changes its id, organization, name or creator; a skill that a request
-- adds is of the caller's organization and has the caller as its creator.
pub handle-SameSkill :
    (w : World) (user : User) (request : Request) (db : Db) (tick : ℕ)
    → Moves SameSkill (IsOwn user) db.skills (handle w user request db tick).1.committed.skills
handle-SameSkill w user request db tick =
    handle-Stable w user (skills-Stable w user db.skills) request (λ kind uses. tt) db tick
      (Moves-refl SameSkill-refl db.skills)
