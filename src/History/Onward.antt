-- ===== src/History/Onward.antt =====
-- Versions and grants over a history: in which ways each row may differ later. app/services.
use jarvis_skill_registry.Prelude.{◌≡◌, ◌≢◌, refl, ◌∙◌, sym, ap, subst, inl, inr, true, arith}
use jarvis_skill_registry.Core.Enums.{VersionStatus}
use jarvis_skill_registry.Core.Security.{Security}
use jarvis_skill_registry.Models.{User, SkillVersion, ToolGrant, is_reviewed}
use jarvis_skill_registry.Database.Constraints.{Db}
use jarvis_skill_registry.Session.{World}
use jarvis_skill_registry.Api.Routes.{Request}
use jarvis_skill_registry.Invariants.Consistency.{IsConsistent, handle-IsConsistent}
use jarvis_skill_registry.Invariants.Moves.{Moves, Moves-refl, Moves-trans}
use jarvis_skill_registry.Invariants.Granting.{Granting, handle-Granting}
use jarvis_skill_registry.Invariants.Lifecycle.{Reviewed, Advanced, SameReview-is_reviewed}
use jarvis_skill_registry.Invariants.Lifecycle.Requests.{Change, handle-Change}
use jarvis_skill_registry.History.{Reach, Reach-keeps}

-- A later state of a version.
pub record Later (b v : SkillVersion) : Type 0 where
  pub id : v.id ≡ b.id
  pub superseded : b.status ≡ VersionStatus.superseded → v.status ≡ VersionStatus.superseded
  pub disabled : b.status ≡ VersionStatus.disabled → v.status ≡ VersionStatus.disabled
  pub published : b.status ≢ VersionStatus.draft → v.status ≢ VersionStatus.draft
  pub reviewed : is_reviewed b ≡ true → is_reviewed v ≡ true

Later-refl : (v : SkillVersion) → Later v v
Later-refl v = record {
  id = refl;
  superseded = λ h. h;
  disabled = λ h. h;
  published = λ h. h;
  reviewed = λ h. h;
}

Later-trans : (a b c : SkillVersion) → Later a b → Later b c → Later a c
Later-trans a b c first second = record {
  id = second.id ∙ first.id;
  superseded = λ h. second.superseded (first.superseded h);
  disabled = λ h. second.disabled (first.disabled h);
  published = λ h. second.published (first.published h);
  reviewed = λ h. second.reviewed (first.reviewed h);
}

same-Later : (b v : SkillVersion) → v ≡ b → Later b v
same-Later b v same = subst (Later b) (sym same) (Later-refl b)

Reviewed-Later : (b v : SkillVersion) → Reviewed b v → Later b v
Reviewed-Later b v change = record {
  id = change.content.id;
  superseded = λ h. change.life.status ∙ h;
  disabled = λ h. change.life.status ∙ h;
  published = λ h still. h (sym change.life.status ∙ still);
  reviewed = λ h. elim change.review [
    | inl same ↦ SameReview-is_reviewed b v same ∙ h
    | inr (draft, unreviewed) ↦ absurd (ground arith)
  ];
}

Advanced-Later : (b v : SkillVersion) → Advanced b v → Later b v
Advanced-Later b v change = record {
  id = change.content.id;
  superseded = λ h. elim change.status [
    | inl same ↦ same ∙ h
    | inr (inl (was, reviewed, left)) ↦ absurd (ground arith)
    | inr (inr (was, gone)) ↦ absurd (ground arith)
  ];
  disabled = λ h. elim change.status [
    | inl same ↦ same ∙ h
    | inr (inl (was, reviewed, left)) ↦ absurd (ground arith)
    | inr (inr (was, gone)) ↦ absurd (ground arith)
  ];
  published = λ h. elim change.status [
    | inl same ↦ λ still. h (sym same ∙ still)
    | inr (inl (was, reviewed, left)) ↦ left
    | inr (inr (was, inl gone)) ↦ λ still. (ground arith)
    | inr (inr (was, inr gone)) ↦ λ still. (ground arith)
  ];
  reviewed = λ h. SameReview-is_reviewed b v change.review ∙ h;
}

Change-Later : (request : Request) (b v : SkillVersion) → Change request b v → Later b v
Change-Later (Request.list_active_skills d) b v h = same-Later b v h
Change-Later (Request.create_skill p) b v h = same-Later b v h
Change-Later Request.list_skills b v h = same-Later b v h
Change-Later (Request.get_skill id) b v h = same-Later b v h
Change-Later (Request.update_skill id p) b v h = same-Later b v h
Change-Later (Request.create_version id p) b v h = same-Later b v h
Change-Later (Request.review_version id n) b v h = Reviewed-Later b v h
Change-Later (Request.activate_version id n) b v h = Advanced-Later b v h
Change-Later (Request.grant_tools id n p) b v h = same-Later b v h
Change-Later (Request.disable_skill id) b v h = Advanced-Later b v h
Change-Later (Request.list_audit n) b v h = same-Later b v h

-- If the tables satisfy their keys, every version that is stored stays stored, in its place, in a
-- later state: a superseded version stays superseded and a disabled one disabled, one that is no
-- draft never is a draft again, and one that was reviewed stays reviewed.
pub Reach-Later :
    {w : World} {c : Security} {db db' : Db}
    → IsConsistent db
    → Reach w c db db'
    → Moves Later (λ _. Unit) db.skill_versions db'.skill_versions
Reach-Later {w} {c} {db} keys history =
    (Reach-keeps
      (λ at. IsConsistent at × Moves Later (λ _. Unit) db.skill_versions at.skill_versions)
      (λ user request at tick row kept. (
        handle-IsConsistent w user request at tick kept.0,
        Moves-trans
            (λ x y z first second. Later-trans x y z first (Change-Later request y z second)) kept.1
            (handle-Change w user request at tick kept.0),
      ))
      (keys, Moves-refl Later-refl db.skill_versions) history).1

-- A later state of a grant: once granted, it stays as it is.
pub record Kept (g g' : ToolGrant) : Type 0 where
  pub id : g'.id ≡ g.id
  pub granted : g.granted ≡ true → g' ≡ g

Kept-refl : (g : ToolGrant) → Kept g g
Kept-refl g = record { id = refl; granted = λ h. refl }

Granting-Kept : (user : User) (g g' : ToolGrant) → Granting user g g' → Kept g g'
Granting-Kept user g g' moved = record {
  id = moved.id;
  granted = λ h. elim moved.effect [
    | inl same ↦ same
    | inr (ungranted, owner, now, by) ↦ absurd (ground arith)
  ];
}

Kept-trans : (a b c : ToolGrant) → Kept a b → Kept b c → Kept a c
Kept-trans a b c first second = record {
  id = second.id ∙ first.id;
  granted = λ h. second.granted (ap (λ g. g.granted) (first.granted h) ∙ h) ∙ first.granted h;
}

-- If the tables satisfy their keys, every grant that is stored stays stored, in its place, and one
-- that is granted stays exactly as it is: granted, by the same user, at the same time.
pub Reach-Kept :
    {w : World} {c : Security} {db db' : Db}
    → IsConsistent db
    → Reach w c db db'
    → Moves Kept (λ _. Unit) db.tool_grants db'.tool_grants
Reach-Kept {w} {c} {db} keys history =
    (Reach-keeps (λ at. IsConsistent at × Moves Kept (λ _. Unit) db.tool_grants at.tool_grants)
      (λ user request at tick row kept. (
        handle-IsConsistent w user request at tick kept.0,
        Moves-trans (λ x y z first second. Kept-trans x y z first (Granting-Kept user y z second))
            kept.1 (handle-Granting w user request at tick kept.0),
      ))
      (keys, Moves-refl Kept-refl db.tool_grants) history).1
