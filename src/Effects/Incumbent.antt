-- ===== src/Effects/Incumbent.antt =====
-- The active version of a skill, if it has one, as app/services/activation.py finds it.
use jarvis_skill_registry.Prelude.{
  ℕ, ◌≡◌, ◌+◌, ap, refl, subst, Bool, true, false, ◌&&◌, ◌==◌, ==_iff, List, [], ◌∷◌, Option, none,
  some, arith, Bool-cases, inl, inr,
}
use jarvis_skill_registry.Prelude.Tables.{
  rows_where, unique_by, Row, Row-rows_where, rows_where-Row,
}
use jarvis_skill_registry.Prelude.Partition.{unique_by-Row}
use jarvis_skill_registry.Core.Enums.{VersionStatus, AuditEvent}
use jarvis_skill_registry.Core.Errors.{ok}
use jarvis_skill_registry.Models.{Uuid, User, Skill, SkillVersion, AuditLog, Payload}
use jarvis_skill_registry.Database.Constraints.{Db, is_active}
use jarvis_skill_registry.Database.Layers.{status_active}
use jarvis_skill_registry.Session.{World, Session, ◌>>=◌, one_or_none}
use jarvis_skill_registry.Repository.{
  select_versions, load_version, get_active_version, VersionDetail,
}

-- The version is an active one of the skill.
abbrev pub holds : Uuid → SkillVersion → Bool
holds skill_id v = v.skill_id == skill_id && is_active v

-- The skill has no active version, or one, which is of the caller's organization.
pub data Incumbent (org skill_id : Uuid) (db : Db) : Option SkillVersion → Type 0 where
  vacant : rows_where (holds skill_id) db.skill_versions ≡ [] → Incumbent org skill_id db none
  held :
      (v : SkillVersion)
      → rows_where (holds skill_id) db.skill_versions ≡ v ∷ []
      → v.organization_id ≡ org
      → Incumbent org skill_id db (some v)

rows_where-swap :
    {A : Type 0} (p q : A → Bool) (l : List A)
    → rows_where p (rows_where q l) ≡ rows_where q (rows_where p l)
unfolding rows_where
rows_where-swap p q [] = refl
rows_where-swap p q (x ∷ l) =
    let rest = rows_where-swap p q l in
    elim (Bool-cases (p x)) [
      | inl on ↦ elim (Bool-cases (q x)) [
        | inl e ↦ rw (e, on, e, rest) refl
        | inr e ↦ rw (e, on, e, rest) refl
      ]
      | inr off ↦ elim (Bool-cases (q x)) [
        | inl e ↦ rw (e, off, rest) refl
        | inr e ↦ rw (e, off, rest) refl
      ]
    ]

abbrev pub loaded : World → Db → Option SkillVersion → Option VersionDetail
loaded w db none = none
loaded w db (some v) = some (load_version w db v)

pub get_active_version_lem :
    (w : World) (org skill_id : Uuid) (db : Db) (incumbent : Option SkillVersion) (s : Session)
    → Incumbent org skill_id db incumbent
    → s.working ≡ db
    → get_active_version w org skill_id s ≡ (ok (loaded w db incumbent), s)
unfolding get_active_version select_versions one_or_none rows_where ◌>>=◌
get_active_version_lem w org skill_id db none s (Incumbent.vacant none_active) at =
    rw
      (
        at,
        rows_where-swap (holds skill_id) (λ v. v.organization_id == org) db.skill_versions,
        none_active,
      )
      refl
get_active_version_lem w org skill_id db (some v) s (Incumbent.held _ one owned) at =
    rw
      (
        at,
        rows_where-swap (holds skill_id) (λ v. v.organization_id == org) db.skill_versions,
        one,
        (==_iff v.organization_id org).1 owned,
      )
      refl

-- An entry about a version of a skill.
abbrev pub entry : World → User → ℕ → AuditEvent → Skill → SkillVersion → Payload → AuditLog
entry w user tick event skill version payload = record {
  id = w.uuid4 tick;
  organization_id = user.organization_id;
  actor_user_id = user.id;
  event = event;
  skill_id = some skill.id;
  skill_version_id = some version.id;
  version_number = some version.version_number;
  payload = payload;
  created_at = w.utcnow (tick + 1);
}

pub held-Row :
    (skill_id : Uuid) (v x : SkillVersion) (rows : List SkillVersion)
    → rows_where (holds skill_id) rows ≡ v ∷ []
    → Row x rows
    → holds skill_id x ≡ true
    → x ≡ v
held-Row skill_id v x rows one row on =
    elim (subst (Row x) one (rows_where-Row (holds skill_id) x rows on row)) [
      | inl e ↦ e
      | inr none_left ↦ absurd none_left
    ]

-- The incumbent is stored, active and of the skill.
pub held-IsHeld :
    (skill_id : Uuid) (v : SkillVersion) (rows : List SkillVersion)
    → rows_where (holds skill_id) rows ≡ v ∷ []
    → (holds skill_id v ≡ true) × Row v rows
held-IsHeld skill_id v rows one = Row-rows_where (holds skill_id) v rows (rw one (inl refl))

-- It is not the draft that is to be activated.
pub held-apart :
    (skill_id : Uuid) (v version : SkillVersion) (rows : List SkillVersion)
    → unique_by (λ a b. a.id == b.id) rows ≡ true
    → rows_where (holds skill_id) rows ≡ v ∷ []
    → Row version rows
    → version.status ≡ VersionStatus.draft
    → v.id == version.id ≡ false
held-apart skill_id v version rows ids one row draft =
    let (on, at) = held-IsHeld skill_id v rows one in
    let same = unique_by-Row (λ (x : SkillVersion). x.id) rows v version ids at row in
    let active = status_active v.status (ground arith) in
    elim (Bool-cases (v.id == version.id)) [
      | inl e ↦
          absurd (cc (ap (λ x. x.status) (same ((==_iff v.id version.id).0 e)), active, draft))
      | inr e ↦ e
    ]
