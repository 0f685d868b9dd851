-- ===== src/Invariants/Roles.antt =====
-- What the request of a member, who is not an owner, can never do.
use jarvis_skill_registry.Prelude.{ℕ, ◌≡◌, false, List, arith}
use jarvis_skill_registry.Models.{
  User, SkillVersion, VersionSet, assign_all, assign_version, is_owner,
}
use jarvis_skill_registry.Database.Constraints.{Db}
use jarvis_skill_registry.Session.{World}
use jarvis_skill_registry.Services.Skills.{SkillService}
use jarvis_skill_registry.Services.Discipline.{VersionStep}
use jarvis_skill_registry.Services.Stable.{handle-Stable}
use jarvis_skill_registry.Api.Routes.{Request, handle, get_skill_service}
use jarvis_skill_registry.Invariants.Immutability.{Extends, Extends-refl, Extends-Stable}

-- The row is the same and its status and activation have not moved.
pub record SameActivation (v v' : SkillVersion) : Type 0 where
  pub id : v'.id ≡ v.id
  pub status : v'.status ≡ v.status
  pub activated_at : v'.activated_at ≡ v.activated_at
  pub activated_by : v'.activated_by ≡ v.activated_by

step-SameActivation :
    {svc : SkillService} (v v' loaded : SkillVersion) (sets : List VersionSet)
    → is_owner svc.actor ≡ false
    → VersionStep svc loaded sets
    → SameActivation v v'
    → SameActivation v (assign_all assign_version sets v')
step-SameActivation v v' loaded sets m (VersionStep.review now _ _) h = ground arith
step-SameActivation v v' loaded sets m (VersionStep.activate now owner _ _) h = absurd (cc)
step-SameActivation v v' loaded sets m (VersionStep.supersede owner _) h = absurd (cc)
step-SameActivation v v' loaded sets m (VersionStep.disable owner _) h = absurd (cc)

-- No request of a user who is not an owner changes the status of a stored version or its record of
-- activation: a member can activate, supersede and disable nothing.
pub member_activates_nothing :
    (w : World) (user : User) (request : Request) (db : Db) (tick : ℕ)
    → is_owner user ≡ false
    → Extends SameActivation db.skill_versions
        (handle w user request db tick).1.committed.skill_versions
member_activates_nothing w user request db tick m =
    handle-Stable w user
      (Extends-Stable w (get_skill_service user) SameActivation db.skill_versions
        (λ v v' loaded sets step h. step-SameActivation v v' loaded sets m step h))
      request (λ kind uses. tt) db tick
      (Extends-refl SameActivation (λ v. ground arith) db.skill_versions)
