-- ===== src/Repository/Reads.antt =====
-- What each read of the scoped repository returns: rows of its own organization, whatever the key.
use jarvis_skill_registry.Prelude.Members.{Row-sort_by}
use jarvis_skill_registry.Prelude.{
  ℕ, ◌≡◌, refl, sym, ◌∙◌, subst, Text, Bool, true, ◌&&◌, ◌==◌, Option, some, List, [], ◌∷◌, map,
  inl, arith, ==_iff,
}
use jarvis_skill_registry.Prelude.Tables.{Row, rows_where, Row-rows_where}
use jarvis_skill_registry.Core.Enums.{VersionStatus}
use jarvis_skill_registry.Models.{Uuid, Skill, SkillVersion, ToolGrant}
use jarvis_skill_registry.Database.Constraints.{Db, is_active}
use jarvis_skill_registry.Session.{World, Session, query, one_or_none, ◌>>=◌}
use jarvis_skill_registry.Session.Keeps.{Keeps, Yields, keeps_rules, Keeps-query}
use jarvis_skill_registry.Session.Yields.{Yields-bind, Yields-query, Yields-one_or_none}
use jarvis_skill_registry.Repository.{
  VersionDetail, grants_of, select_skills, select_versions, load_version, get_skill,
  get_skill_with_versions, list_skills, get_version, get_active_version, lock_skill,
  next_version_number, find_skill_by_name, active_skill_versions,
}

-- The first row of a SELECT that `one_or_none` accepts is a row of that SELECT.
module _ {κ} {P : Session → Type κ} {A : Type 0} (rows : Db → List A) where
  pub Keeps-select : Keeps P (query rows >>= one_or_none)
  Keeps-select = search keeps_rules

  pub Yields-select :
      {a : A}
      → Yields P (query rows >>= one_or_none) (some a)
      → (s : Session) × P s × (rows s.working ≡ a ∷ [])
  Yields-select y =
      let (found, q, o) = Yields-bind (query rows) one_or_none (Keeps-query rows) y in
      let (s, h, e) = Yields-query rows q in (s, h, sym e ∙ Yields-one_or_none found o)

single-Row : {A : Type 0} {a : A} {l : List A} → l ≡ a ∷ [] → Row a l
single-Row {a = a} e = subst (λ l. Row a l) (sym e) (inl refl)

-- A version that is loaded with its grants was a row of the SELECT under it.
map-single :
    {A B : Type 0} (f : A → B) (l : List A) {b : B}
    → map f l ≡ b ∷ []
    → (a : A) × (l ≡ a ∷ []) × (b ≡ f a)
map-single f [] e = cc
map-single f (a ∷ []) e = (a, refl, cc)
map-single f (a ∷ a' ∷ l) e = cc

module _ {κ} {P : Session → Type κ} (w : World) (org : Uuid) where
  pub Keeps-lock_skill : (id : Uuid) → Keeps P (lock_skill w org id)
  unfolding lock_skill
  Keeps-lock_skill id = Keeps-select _

  pub Yields-lock_skill :
      (id : Uuid) {r : Skill}
      → Yields P (lock_skill w org id) (some r)
      → (s : Session) × P s × Row r (select_skills org s.working) × (r.id ≡ id)
  unfolding lock_skill
  Yields-lock_skill id {r} y =
      let (s, h, e) = Yields-select (λ db. rows_where (λ x. x.id == id) (select_skills org db)) y in
      let (at, row) =
        Row-rows_where (λ x. x.id == id) r (select_skills org s.working) (single-Row e) in
      (s, h, row, (==_iff r.id id).0 at)

  pub Keeps-get_skill : (id : Uuid) → Keeps P (get_skill w org id)
  unfolding get_skill
  Keeps-get_skill id = Keeps-select _

  pub Yields-get_skill :
      (id : Uuid) {r : Skill}
      → Yields P (get_skill w org id) (some r)
      → (s : Session) × P s × Row r (select_skills org s.working) × (r.id ≡ id)
  unfolding get_skill
  Yields-get_skill id {r} y =
      let (s, h, e) = Yields-select (λ db. rows_where (λ x. x.id == id) (select_skills org db)) y in
      let (at, row) =
        Row-rows_where (λ x. x.id == id) r (select_skills org s.working) (single-Row e) in
      (s, h, row, (==_iff r.id id).0 at)

-- A loaded version is a row of its organization, with the grants that refer to it.
pub record IsLoaded (w : World) (org : Uuid) (s : Session) (d : VersionDetail) : Type 0 where
  pub row : Row d.version (select_versions org s.working)
  pub grants : d.tool_grants ≡ grants_of w d.version.id s.working

-- A loaded grant is a row that refers to its version.
pub IsLoaded-grant :
    {w : World} {org : Uuid} {s : Session} {d : VersionDetail} (g : ToolGrant)
    → IsLoaded w org s d
    → Row g d.tool_grants
    → Row g s.working.tool_grants × (g.skill_version_id ≡ d.version.id)
unfolding grants_of
IsLoaded-grant {w} {org} {s} {d} g l r =
    let (at, row) =
      Row-rows_where (λ g. g.skill_version_id == d.version.id) g s.working.tool_grants
        (Row-sort_by _ g _ (subst (λ rows. Row g rows) l.grants r)) in
    (row, (==_iff g.skill_version_id d.version.id).0 at)

module _ (w : World) (org : Uuid) where
  IsLoaded-from :
      (p : SkillVersion → Bool) (s : Session) {d : VersionDetail}
      → map (load_version w s.working) (rows_where p (select_versions org s.working)) ≡ d ∷ []
      → IsLoaded w org s d × (p d.version ≡ true)
  unfolding load_version
  IsLoaded-from p s {d} e =
      let (v, at, made) = map-single (load_version w s.working) _ e in
      let (holds, row) = Row-rows_where p v (select_versions org s.working) (single-Row at) in
      (record { row = rw made row; grants = rw made refl }, rw made holds)

module _ {κ} {P : Session → Type κ} (w : World) (org : Uuid) where
  pub Keeps-get_version : (id : Uuid) (n : ℕ) → Keeps P (get_version w org id n)
  unfolding get_version
  Keeps-get_version id n = Keeps-select _

  pub Yields-get_version :
      (id : Uuid) (n : ℕ) {d : VersionDetail}
      → Yields P (get_version w org id n) (some d)
      → (s : Session) × P s
        × IsLoaded w org s d
        × (d.version.skill_id ≡ id)
        × (d.version.version_number ≡ n)
  unfolding get_version
  Yields-get_version id n {d} y =
      let (s, h, e) = Yields-select _ y in
      let (loaded, at) = IsLoaded-from w org (λ v. v.skill_id == id && v.version_number == n) s e in
      (s, h, loaded, ground arith, ground arith)

  pub Keeps-get_active_version : (id : Uuid) → Keeps P (get_active_version w org id)
  unfolding get_active_version
  Keeps-get_active_version id = Keeps-select _

  pub Yields-get_active_version :
      (id : Uuid) {d : VersionDetail}
      → Yields P (get_active_version w org id) (some d)
      → (s : Session) × P s
        × IsLoaded w org s d
        × (d.version.skill_id ≡ id)
        × (d.version.status ≡ VersionStatus.active)
  unfolding get_active_version
  Yields-get_active_version id {d} y =
      let (s, h, e) = Yields-select _ y in
      let (loaded, at) = IsLoaded-from w org (λ v. v.skill_id == id && is_active v) s e in
      (s, h, loaded, ground arith, ground arith)

module _ {κ} {P : Session → Type κ} where
  pub Keeps-get_skill_with_versions :
      (w : World) (org id : Uuid) → Keeps P (get_skill_with_versions w org id)
  unfolding get_skill_with_versions
  Keeps-get_skill_with_versions w org id = Keeps-select _

  pub Keeps-find_skill_by_name : (org : Uuid) (name : Text) → Keeps P (find_skill_by_name org name)
  unfolding find_skill_by_name
  Keeps-find_skill_by_name org name = Keeps-select _

  pub Keeps-next_version_number : (org id : Uuid) → Keeps P (next_version_number org id)
  unfolding next_version_number
  Keeps-next_version_number org id = Keeps-query _

  pub Keeps-list_skills : (w : World) (org : Uuid) → Keeps P (list_skills w org)
  unfolding list_skills
  Keeps-list_skills w org = Keeps-query _

  pub Keeps-active_skill_versions :
      (w : World) (org : Uuid) (department : Option Text)
      → Keeps P (active_skill_versions w org department)
  unfolding active_skill_versions
  Keeps-active_skill_versions w org department = Keeps-query _

pub ruleset reads = (
  Keeps-lock_skill, Keeps-get_skill, Keeps-get_version, Keeps-get_active_version,
  Keeps-get_skill_with_versions, Keeps-find_skill_by_name, Keeps-next_version_number,
  Keeps-list_skills, Keeps-active_skill_versions,
)
