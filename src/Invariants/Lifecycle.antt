-- ===== src/Invariants/Lifecycle.antt =====
-- The life of a version, as relations of a row before a request and after it: draft, reviewed, active,
-- then superseded or disabled. app/services/skills.py and activation.py.
use jarvis_skill_registry.Prelude.{
  ℕ, ◌≡◌, ◌≢◌, refl, ◌∙◌, sym, ap, Bool, true, false, ◌⊎◌, inl, inr, none, List, arith,
}
use jarvis_skill_registry.Prelude.Tables.{All}
use jarvis_skill_registry.Core.Enums.{VersionStatus}
use jarvis_skill_registry.Models.{
  User, SkillVersion, VersionSet, assign_all, assign_version, is_reviewed,
}
use jarvis_skill_registry.Session.{World}
use jarvis_skill_registry.Services.Skills.{SkillService}
use jarvis_skill_registry.Services.Discipline.{StepKind, kind_of, VersionStep}
use jarvis_skill_registry.Services.Walk.Routes.{Uses}
use jarvis_skill_registry.Services.Stable.{handle-Stable}
use jarvis_skill_registry.Api.Routes.{Request, handle, get_skill_service}
use jarvis_skill_registry.Invariants.Immutability.{SameContent, step-SameContent}
use jarvis_skill_registry.Invariants.Consistency.{IsConsistent}
pub mod Modes
pub mod Requests

pub record SameReview (b v : SkillVersion) : Type 0 where
  pub reviewed_at : v.reviewed_at ≡ b.reviewed_at
  pub reviewed_by : v.reviewed_by ≡ b.reviewed_by

pub record SameLife (b v : SkillVersion) : Type 0 where
  pub status : v.status ≡ b.status
  pub activated_at : v.activated_at ≡ b.activated_at
  pub activated_by : v.activated_by ≡ b.activated_by

-- Who has not been reviewed can be: the review columns are the same, or the row was an unreviewed
-- draft.
pub record Reviewed (b v : SkillVersion) : Type 0 where
  pub content : SameContent b v
  pub life : SameLife b v
  pub review : SameReview b v ⊎ ((b.status ≡ VersionStatus.draft) × (is_reviewed b ≡ false))

-- Where a version stands after an activation or a disabling of its skill: where it was; or further,
-- if it was a reviewed draft; or retired, if it was active.
abbrev pub Onward : SkillVersion → VersionStatus → Type 0
Onward b s =
    (s ≡ b.status)
    ⊎ ((b.status ≡ VersionStatus.draft) × (is_reviewed b ≡ true) × (s ≢ VersionStatus.draft))
    ⊎ ((b.status ≡ VersionStatus.active)
        × ((s ≡ VersionStatus.superseded) ⊎ (s ≡ VersionStatus.disabled)))

pub record Advanced (b v : SkillVersion) : Type 0 where
  pub content : SameContent b v
  pub review : SameReview b v
  pub status : Onward b v.status
  pub activation :
      ((v.activated_at ≡ b.activated_at) × (v.activated_by ≡ b.activated_by))
      ⊎ ((b.status ≡ VersionStatus.draft) × (is_reviewed b ≡ true))

-- A version that was created by the request itself.
pub record IsFresh (v : SkillVersion) : Type 0 where
  pub status : v.status ≡ VersionStatus.draft
  pub unreviewed : v.reviewed_by ≡ none
  pub unactivated : v.activated_by ≡ none

pub SameReview-is_reviewed : (b v : SkillVersion) → SameReview b v → is_reviewed v ≡ is_reviewed b
unfolding is_reviewed
SameReview-is_reviewed b v h = rw (h.reviewed_at, h.reviewed_by) refl

-- A version that is a draft now was one, and one that is active now may be retired.
pub Onward-draft :
    (b : SkillVersion) (s : VersionStatus)
    → Onward b s
    → s ≡ VersionStatus.draft
    → b.status ≡ VersionStatus.draft
Onward-draft b s (inl same) now = sym same ∙ now
Onward-draft b s (inr (inl (was, reviewed, left))) now = was
Onward-draft b s (inr (inr (was, inl gone))) now = ground arith
Onward-draft b s (inr (inr (was, inr gone))) now = ground arith

pub Onward-retired :
    (b : SkillVersion) (s t : VersionStatus)
    → Onward b s
    → s ≡ VersionStatus.active
    → (t ≡ VersionStatus.superseded) ⊎ (t ≡ VersionStatus.disabled)
    → Onward b t
Onward-retired b s t (inl same) now retired = inr (inr (sym same ∙ now, retired))
Onward-retired b s t (inr (inl (was, reviewed, left))) now (inl gone) =
    inr (inl (was, reviewed, λ still. ground arith))
Onward-retired b s t (inr (inl (was, reviewed, left))) now (inr gone) =
    inr (inl (was, reviewed, λ still. ground arith))
Onward-retired b s t (inr (inr (was, gone))) now retired = inr (inr (was, retired))

pub SameContent-refl : (v : SkillVersion) → SameContent v v
SameContent-refl v = ground arith

pub Reviewed-refl : (v : SkillVersion) → Reviewed v v
Reviewed-refl v = record {
  content = SameContent-refl v;
  life = record { status = refl; activated_at = refl; activated_by = refl };
  review = inl (record { reviewed_at = refl; reviewed_by = refl });
}

pub Advanced-refl : (v : SkillVersion) → Advanced v v
Advanced-refl v = record {
  content = SameContent-refl v;
  review = record { reviewed_at = refl; reviewed_by = refl };
  status = inl refl;
  activation = inl (refl, refl);
}
