-- ===== src/Invariants/Immutability.antt =====
-- The content of a version: app/models/skill.py's `CONTENT_COLUMNS` with the identity and origin of
-- the row, for versions in any status.
use jarvis_skill_registry.Prelude.{
  ℕ, ◌≡◌, Bool, ◌==◌, List, [], ◌∷◌, ◌++◌, arith, Bool-cases, inl, inr,
}
use jarvis_skill_registry.Prelude.Tables.{update_where}
use jarvis_skill_registry.Models.{User, SkillVersion, VersionSet, assign_all, assign_version}
use jarvis_skill_registry.Core.Errors.{ok}
use jarvis_skill_registry.Database.Constraints.{Db}
use jarvis_skill_registry.Database.Write.{Write, apply_write}
use jarvis_skill_registry.Database.Inversion.{
  inserted_skill, inserted_version, inserted_grant, inserted_audit, updated_skill, updated_version,
  updated_grant,
}
use jarvis_skill_registry.Session.{World}
use jarvis_skill_registry.Services.Skills.{SkillService}
use jarvis_skill_registry.Services.Discipline.{VersionStep}
use jarvis_skill_registry.Services.Stable.{AnyStep, Stable, no_facts, ServiceWrite, handle-Stable}
use jarvis_skill_registry.Api.Routes.{Request, handle, get_skill_service}

-- Everything of a version but its lifecycle columns is the same.
pub record SameContent (v v' : SkillVersion) : Type 0 where
  pub id : v'.id ≡ v.id
  pub skill_id : v'.skill_id ≡ v.skill_id
  pub organization_id : v'.organization_id ≡ v.organization_id
  pub version_number : v'.version_number ≡ v.version_number
  pub prompt_body : v'.prompt_body ≡ v.prompt_body
  pub requested_tools : v'.requested_tools ≡ v.requested_tools
  pub content_hash : v'.content_hash ≡ v.content_hash
  pub created_by : v'.created_by ≡ v.created_by
  pub created_at : v'.created_at ≡ v.created_at

-- The rows of `old` are the first rows of `new`, related one by one; more may follow.
pub data Extends (E : SkillVersion → SkillVersion → Type 0)
    : List SkillVersion → List SkillVersion → Type 0 where
  done : (new : List SkillVersion) → Extends E [] new
  row :
      {v v' : SkillVersion} {old new : List SkillVersion}
      → E v v'
      → Extends E old new
      → Extends E (v ∷ old) (v' ∷ new)

module _ (E : SkillVersion → SkillVersion → Type 0) where
  pub Extends-refl : ((v : SkillVersion) → E v v) → (l : List SkillVersion) → Extends E l l
  Extends-refl same [] = Extends.done []
  Extends-refl same (v ∷ l) = Extends.row (same v) (Extends-refl same l)

  pub Extends-append :
      (x : SkillVersion) {old new : List SkillVersion}
      → Extends E old new
      → Extends E old (new ++ x ∷ [])
  Extends-append x (Extends.done new) = Extends.done (new ++ x ∷ [])
  Extends-append x (Extends.row e rest) = Extends.row e (Extends-append x rest)

  pub Extends-update :
      (p : SkillVersion → Bool) (f : SkillVersion → SkillVersion)
      → ((v v' : SkillVersion) → E v v' → E v (f v'))
      → {old new : List SkillVersion} → Extends E old new
      → Extends E old (update_where p f new)
  unfolding update_where
  Extends-update p f keep (Extends.done new) = Extends.done _
  Extends-update p f keep (Extends.row {v} {v'} e rest) =
      Extends.row
        (elim (Bool-cases (p v')) [ inl yes_p ↦ rw yes_p (keep v v' e) | inr no_p ↦ rw no_p e ])
        (Extends-update p f keep rest)

module _ (w : World) (svc : SkillService) (E : SkillVersion → SkillVersion → Type 0) where
  -- A relation of versions that each step of the lifecycle keeps is kept by every write.
  pub Extends-Stable :
      (base : List SkillVersion)
      → ((v v' loaded : SkillVersion) (sets : List VersionSet)
          → VersionStep svc loaded sets
          → E v v'
          → E v (assign_all assign_version sets v'))
      → Stable w svc AnyStep (λ db. Extends E base db.skill_versions)
  Extends-Stable base keep = record {
    owned = no_facts;
    read_skill = λ db r h row. tt;
    read_version = λ db r h row. tt;
    read_grant = λ db v g h row at refers. tt;
    step = one;
  }
    where
      one :
          (wr : Write) (db db' : Db)
          → ServiceWrite w svc AnyStep no_facts wr
          → Extends E base db.skill_versions
          → apply_write wr db ≡ ok db'
          → Extends E base db'.skill_versions
      one wr db db' (ServiceWrite.new_skill r new) h e = rw ((inserted_skill db r e).1) h
      one wr db db' (ServiceWrite.new_version r new allowed) h e =
          rw ((inserted_version db r e).1) (Extends-append E r h)
      one wr db db' (ServiceWrite.new_grant r new) h e = rw ((inserted_grant db r e).1) h
      one wr db db' (ServiceWrite.new_audit r new) h e = rw ((inserted_audit db r e).1) h
      one wr db db' (ServiceWrite.skill_sets r sets own) h e = rw ((updated_skill db r sets e).1) h
      one wr db db' (ServiceWrite.version_sets r sets own step allowed) h e =
          rw ((updated_version db r sets e).result) (
            Extends-update E (λ v. v.id == r.id) (assign_all assign_version sets)
              (λ v v' related. keep v v' r sets step related) h)
      one wr db db' (ServiceWrite.grant_sets r sets own step) h e =
          rw ((updated_grant db r sets e).1) h

pub step-SameContent :
    {svc : SkillService} (v v' loaded : SkillVersion) (sets : List VersionSet)
    → VersionStep svc loaded sets
    → SameContent v v'
    → SameContent v (assign_all assign_version sets v')
step-SameContent v v' loaded sets (VersionStep.review now _ _) h = ground arith
step-SameContent v v' loaded sets (VersionStep.activate now _ _ _) h = ground arith
step-SameContent v v' loaded sets (VersionStep.supersede _ _) h = ground arith
step-SameContent v v' loaded sets (VersionStep.disable _ _) h = ground arith

-- No request of any user, owner or not, answered or refused, changes the content of a version that
-- is stored, in whatever status, or removes it: after the request the stored versions are the same
-- rows in the same order, each with the same id, skill, organization, number, prompt, requested
-- tools, hash and origin, and new versions can only follow them.
pub versions_immutable :
    (w : World) (user : User) (request : Request) (db : Db) (tick : ℕ)
    → Extends SameContent db.skill_versions
        (handle w user request db tick).1.committed.skill_versions
versions_immutable w user request db tick =
    handle-Stable w user
      (Extends-Stable w (get_skill_service user) SameContent db.skill_versions step-SameContent)
      request (λ kind uses. tt) db tick
      (Extends-refl SameContent (λ v. ground arith) db.skill_versions)
