-- ===== src/Invariants/OneOwner.antt =====
-- The organization of a version and that of its skill: `versions` of app/models/skill.py goes by the
-- foreign key alone, which does not compare them.
use jarvis_skill_registry.Prelude.{
  ℕ, ◌≡◌, refl, ◌∙◌, sym, ap, Bool, true, ◌==◌, ==_iff, Bool-cases, inl, inr, List, [], ◌∷◌, arith,
}
use jarvis_skill_registry.Prelude.Tables.{Row, any}
use jarvis_skill_registry.Prelude.Partition.{unique_by-Row}
use jarvis_skill_registry.Models.{Uuid, User, Skill, SkillVersion}
use jarvis_skill_registry.Database.Constraints.{Db, all_rows}
use jarvis_skill_registry.Session.{World}
use jarvis_skill_registry.Services.Stable.{AnyStep, working-Stable}
use jarvis_skill_registry.Api.Routes.{Request, handle, get_skill_service}
use jarvis_skill_registry.Invariants.Consistency.{IsConsistent}
use jarvis_skill_registry.Invariants.Isolation.{step-organization_id}
use jarvis_skill_registry.Invariants.Immutability.{SameContent, step-SameContent}
use jarvis_skill_registry.Invariants.Moves.{
  Moves, Moves-refl, Moves-find, Moves-origin, IsMode, Moves-Stable,
}
use jarvis_skill_registry.Invariants.Ownership.{SameSkill, SameSkill-refl, IsOwn, skills-Stable}

-- Every version of a skill is of the skill's organization.
pub record HasOneOwner (db : Db) : Type 0 where
  pub same :
      (k : Skill) (v : SkillVersion)
      → Row k db.skills
      → Row v db.skill_versions
      → v.skill_id ≡ k.id
      → v.organization_id ≡ k.organization_id

-- Every version of a skill of the organization is the organization's.
pub record IsTidy (org : Uuid) (db : Db) : Type 0 where
  pub own :
      (k : Skill) (v : SkillVersion)
      → Row k db.skills
      → k.organization_id ≡ org
      → Row v db.skill_versions
      → v.skill_id ≡ k.id
      → v.organization_id ≡ org

any-parent :
    (id : Uuid) (l : List Skill)
    → any (λ s. s.id == id) l ≡ true
    → (k : Skill) × Row k l × (k.id ≡ id)
unfolding any
any-parent id [] h = cc
any-parent id (k ∷ l) h = elim (Bool-cases (k.id == id)) [
  | inl here ↦ (k, inl refl, (==_iff k.id id).0 here)
  | inr there ↦ (let (k', at, e) = any-parent id l (rw there at h) in (k', inr at, e))
]

all_rows-Row :
    (p : SkillVersion → Bool) (l : List SkillVersion) (v : SkillVersion)
    → all_rows p l ≡ true
    → Row v l
    → p v ≡ true
unfolding all_rows
all_rows-Row p [] v h at = absurd at
all_rows-Row p (u ∷ l) v h (inl e) = ap p e ∙ ground arith
all_rows-Row p (u ∷ l) v h (inr at) = all_rows-Row p l v (ground arith) at

-- How the services move the versions: the content stays, and new ones are the caller's.
version_moves :
    (w : World) (user : User)
    → IsMode w
        (get_skill_service user)
        AnyStep
        SameContent
        (λ v. v.organization_id ≡ user.organization_id)
version_moves w user = record {
  ids = λ v v' same. same.id;
  keep = λ v v' loaded sets step allowed known same. step-SameContent v v' loaded sets step same;
  keep_new = λ n loaded sets step allowed own. step-organization_id loaded sets step n ∙ own;
  new = λ r fresh allowed. fresh.org;
}

module _ (user : User) (db after : Db) where
  -- A version that was stored keeps its organization and its skill, and the skill keeps its own.
  moved-IsTidy :
      IsConsistent db
      → HasOneOwner db
      → IsConsistent after
      → Moves SameSkill (IsOwn user) db.skills after.skills
      → Moves SameContent
          (λ v. v.organization_id ≡ user.organization_id)
          db.skill_versions
          after.skill_versions
      → IsTidy user.organization_id after
  moved-IsTidy valid owners still skills versions = record {
    own = λ k v at_k mine at_v refers. elim (Moves-origin v at_v versions) [
      | inr fresh ↦ fresh
      | inl (v0, at_v0, same) ↦
          (let (k0, at_k0, parent) = any-parent v0.skill_id db.skills (
              all_rows-Row (λ x. any (λ s. s.id == x.skill_id) db.skills) db.skill_versions v0
                valid.version_skills at_v0) in
            let (k', at_k', kept) = Moves-find k0 at_k0 skills in
            let one =
              unique_by-Row (λ s. s.id) after.skills k' k still.skills.ids at_k' at_k
                (kept.id ∙ parent ∙ sym same.skill_id ∙ refers) in
            same.organization_id
            ∙ owners.same k0 v0 at_k0 at_v0 (sym parent)
            ∙ sym kept.organization_id
            ∙ ap (λ s. s.organization_id) one
            ∙ mine)
    ];
  }

-- If the stored tables satisfy their keys and every version has the organization of its skill, then
-- at the end of any request every version of a skill of the caller's organization is the caller's.
pub handle-IsTidy :
    (w : World) (user : User) (request : Request) (db : Db) (tick : ℕ)
    → IsConsistent db
    → HasOneOwner db
    → IsTidy user.organization_id (handle w user request db tick).1.working
handle-IsTidy w user request db tick valid owners =
    let svc = get_skill_service user in
    let (still, versions) =
      working-Stable w user (Moves-Stable w svc (version_moves w user) db.skill_versions) request
        (λ kind uses. tt) db tick (valid, Moves-refl (λ v. ground arith) db.skill_versions) in
    let skills =
      working-Stable w user (skills-Stable w user db.skills) request (λ kind uses. tt) db tick
        (Moves-refl SameSkill-refl db.skills) in
    moved-IsTidy user db _ valid owners still skills versions
