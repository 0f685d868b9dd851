-- ===== src/Invariants/Lifecycle/Requests.antt =====
-- The life of a version, request by request.
use jarvis_skill_registry.Prelude.{ℕ, ◌≡◌, subst, sym, refl, ◌∙◌, ◌⊎◌, inl, inr, true, arith}
use jarvis_skill_registry.Prelude.Tables.{All, All-map}
use jarvis_skill_registry.Core.Enums.{VersionStatus}
use jarvis_skill_registry.Models.{User, SkillVersion, is_reviewed}
use jarvis_skill_registry.Session.{World}
use jarvis_skill_registry.Services.Skills.{SkillService}
use jarvis_skill_registry.Services.Discipline.{StepKind}
use jarvis_skill_registry.Services.Walk.Routes.{Uses}
use jarvis_skill_registry.Services.Stable.{handle-Stable}
use jarvis_skill_registry.Api.Routes.{Request, handle, get_skill_service}
use jarvis_skill_registry.Invariants.Consistency.{IsConsistent}
use jarvis_skill_registry.Database.Constraints.{Db}
use jarvis_skill_registry.Invariants.Moves.{Moves, Moves-refl, Moves-All, IsMode, Moves-Stable}
use jarvis_skill_registry.Invariants.Lifecycle.{
  SameReview-is_reviewed, Reviewed, Advanced, IsFresh, Reviewed-refl, Advanced-refl,
}
use jarvis_skill_registry.Invariants.Lifecycle.Modes.{
  Creating, Reviewing, Advancing, still-IsMode, Creating-IsMode, Reviewing-IsMode, Advancing-IsMode,
}

-- What a kind of request may do to the rows of the versions: the creating ones add drafts and leave
-- the others, a review reviews, and an activation and a disabling advance; nothing else changes any.
abbrev pub Change : Request → SkillVersion → SkillVersion → Type 0
Change (Request.review_version id n) b v = Reviewed b v
Change (Request.activate_version id n) b v = Advanced b v
Change (Request.disable_skill id) b v = Advanced b v
Change _ b v = v ≡ b

abbrev pub Addition : Request → SkillVersion → Type 0
Addition (Request.create_skill p) v = IsFresh v
Addition (Request.create_version id p) v = IsFresh v
Addition _ v = ⊥

-- The changes of versions that the services may make for it.
abbrev MayOf : Request → StepKind → Type 0
MayOf (Request.list_active_skills d) = λ _. ⊥
MayOf (Request.create_skill p) = Creating
MayOf Request.list_skills = λ _. ⊥
MayOf (Request.get_skill id) = λ _. ⊥
MayOf (Request.update_skill id p) = λ _. ⊥
MayOf (Request.create_version id p) = Creating
MayOf (Request.review_version id n) = Reviewing
MayOf (Request.activate_version id n) = Advancing
MayOf (Request.grant_tools id n p) = λ _. ⊥
MayOf (Request.disable_skill id) = Advancing
MayOf (Request.list_audit n) = λ _. ⊥

Uses-MayOf : (request : Request) (kind : StepKind) → Uses request kind → MayOf request kind
Uses-MayOf _ _ Uses.adds_skill = tt
Uses-MayOf _ _ Uses.adds_version = tt
Uses-MayOf _ _ Uses.reviews = tt
Uses-MayOf _ _ Uses.activates = tt
Uses-MayOf _ _ Uses.supersedes = tt
Uses-MayOf _ _ Uses.disables = tt

mode_of :
    (w : World) (svc : SkillService) (request : Request)
    → IsMode w svc (MayOf request) (Change request) (Addition request)
mode_of w svc (Request.list_active_skills d) = still-IsMode w svc
mode_of w svc (Request.create_skill p) = Creating-IsMode w svc
mode_of w svc Request.list_skills = still-IsMode w svc
mode_of w svc (Request.get_skill id) = still-IsMode w svc
mode_of w svc (Request.update_skill id p) = still-IsMode w svc
mode_of w svc (Request.create_version id p) = Creating-IsMode w svc
mode_of w svc (Request.review_version id n) = Reviewing-IsMode w svc
mode_of w svc (Request.activate_version id n) = Advancing-IsMode w svc
mode_of w svc (Request.grant_tools id n p) = still-IsMode w svc
mode_of w svc (Request.disable_skill id) = Advancing-IsMode w svc
mode_of w svc (Request.list_audit n) = still-IsMode w svc

Change-refl : (request : Request) (v : SkillVersion) → Change request v v
Change-refl (Request.list_active_skills d) v = refl
Change-refl (Request.create_skill p) v = refl
Change-refl Request.list_skills v = refl
Change-refl (Request.get_skill id) v = refl
Change-refl (Request.update_skill id p) v = refl
Change-refl (Request.create_version id p) v = refl
Change-refl (Request.review_version id n) v = Reviewed-refl v
Change-refl (Request.activate_version id n) v = Advanced-refl v
Change-refl (Request.grant_tools id n p) v = refl
Change-refl (Request.disable_skill id) v = Advanced-refl v
Change-refl (Request.list_audit n) v = refl

-- What each kind of request does to the stored versions.
pub handle-Change :
    (w : World) (user : User) (request : Request) (db : Db) (tick : ℕ)
    → IsConsistent db
    → Moves
        (Change request)
        (Addition request)
        db.skill_versions
        (handle w user request db tick).1.committed.skill_versions
handle-Change w user request db tick consistent =
    let svc = get_skill_service user in
    (handle-Stable w user (Moves-Stable w svc (mode_of w svc request) db.skill_versions) request
      (Uses-MayOf request) db tick
      (consistent, Moves-refl (Change-refl request) db.skill_versions)).1

-- Only drafts are without a review.
abbrev pub IsPassed : SkillVersion → Type 0
IsPassed v = (v.status ≡ VersionStatus.draft) ⊎ (is_reviewed v ≡ true)

Reviewed-IsPassed : (b v : SkillVersion) → Reviewed b v → IsPassed b → IsPassed v
Reviewed-IsPassed b v change (inl draft) = inl (change.life.status ∙ draft)
Reviewed-IsPassed b v change (inr reviewed) = elim change.review [
  | inl same ↦ inr (SameReview-is_reviewed b v same ∙ reviewed)
  | inr (draft, unreviewed) ↦ inl (change.life.status ∙ draft)
]

Advanced-IsPassed : (b v : SkillVersion) → Advanced b v → IsPassed b → IsPassed v
Advanced-IsPassed b v change (inr reviewed) =
    inr (SameReview-is_reviewed b v change.review ∙ reviewed)
Advanced-IsPassed b v change (inl draft) = elim change.status [
  | inl same ↦ inl (same ∙ draft)
  | inr (inl (was, reviewed, left)) ↦ inr (SameReview-is_reviewed b v change.review ∙ reviewed)
  | inr (inr (was, gone)) ↦ absurd (draft-active draft was)
]
  where
    draft-active : b.status ≡ VersionStatus.draft → b.status ≡ VersionStatus.active → ⊥
    draft-active was now = ground arith

Change-IsPassed :
    (request : Request) (b v : SkillVersion) → Change request b v → IsPassed b → IsPassed v
Change-IsPassed (Request.list_active_skills d) b v same h = subst IsPassed (sym same) h
Change-IsPassed (Request.create_skill p) b v same h = subst IsPassed (sym same) h
Change-IsPassed Request.list_skills b v same h = subst IsPassed (sym same) h
Change-IsPassed (Request.get_skill id) b v same h = subst IsPassed (sym same) h
Change-IsPassed (Request.update_skill id p) b v same h = subst IsPassed (sym same) h
Change-IsPassed (Request.create_version id p) b v same h = subst IsPassed (sym same) h
Change-IsPassed (Request.review_version id n) b v change h = Reviewed-IsPassed b v change h
Change-IsPassed (Request.activate_version id n) b v change h = Advanced-IsPassed b v change h
Change-IsPassed (Request.grant_tools id n p) b v same h = subst IsPassed (sym same) h
Change-IsPassed (Request.disable_skill id) b v change h = Advanced-IsPassed b v change h
Change-IsPassed (Request.list_audit n) b v same h = subst IsPassed (sym same) h

Addition-IsPassed : (request : Request) (v : SkillVersion) → Addition request v → IsPassed v
Addition-IsPassed (Request.list_active_skills d) v new = absurd new
Addition-IsPassed (Request.create_skill p) v new = inl new.status
Addition-IsPassed Request.list_skills v new = absurd new
Addition-IsPassed (Request.get_skill id) v new = absurd new
Addition-IsPassed (Request.update_skill id p) v new = absurd new
Addition-IsPassed (Request.create_version id p) v new = inl new.status
Addition-IsPassed (Request.review_version id n) v new = absurd new
Addition-IsPassed (Request.activate_version id n) v new = absurd new
Addition-IsPassed (Request.grant_tools id n p) v new = absurd new
Addition-IsPassed (Request.disable_skill id) v new = absurd new
Addition-IsPassed (Request.list_audit n) v new = absurd new

-- A version that is not a draft has been reviewed, after every request if before it.
pub handle-IsPassed :
    (w : World) (user : User) (request : Request) (db : Db) (tick : ℕ)
    → IsConsistent db
    → All IsPassed db.skill_versions
    → All IsPassed (handle w user request db tick).1.committed.skill_versions
handle-IsPassed w user request db tick consistent passed =
    Moves-All (Change-IsPassed request) (λ l new. All-map (Addition-IsPassed request) l new)
      (handle-Change w user request db tick consistent) passed
