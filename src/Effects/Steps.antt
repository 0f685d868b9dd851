-- ===== src/Effects/Steps.antt =====
-- The steps of a successful request, each as an equation: a commit whose writes are all accepted,
-- and the reads that find what they ask for.
use jarvis_skill_registry.Prelude.{
  ◌≡◌, ap, refl, ℕ, ◌&&◌, ◌==◌, ==_refl, ==_iff, List, [], ◌∷◌, inl, inr, Bool, Bool-cases, arith,
  ◌∙◌, if◌then◌else◌, map,
}
use jarvis_skill_registry.Prelude.Tables.{rows_where, update_where, Row, Row-rows_where}
use jarvis_skill_registry.Core.Errors.{ok, err, Result}
use jarvis_skill_registry.Models.{Uuid, Skill, SkillVersion}
use jarvis_skill_registry.Database.Constraints.{Db}
use jarvis_skill_registry.Database.Write.{Write, apply_write, apply_writes}
use jarvis_skill_registry.Session.{
  World, Session, flush, commit, mark_durable, one_or_none, or_raise, flushed, ◌>>=◌, ◌>>◌,
}
use jarvis_skill_registry.Repository.{
  select_versions, select_skills, load_version, get_version, lock_skill,
}
use jarvis_skill_registry.Services.Skills.{SkillService, require_version, lock_or_raise}

pub flush_lem :
    (s : Session) (db : Db)
    → apply_writes s.pending s.working ≡ ok db
    → flush s ≡ (ok tt, record s { working = db; pending = [] })
unfolding flush
flush_lem s db accepted = ap (λ r. flushed r s) accepted

pub commit_lem :
    (s : Session) (db : Db)
    → apply_writes s.pending s.working ≡ ok db
    → commit s ≡ (ok tt, record s { committed = db; working = db; pending = [] })
unfolding commit mark_durable
commit_lem s db accepted = rw (flush_lem s db accepted) refl

-- The first write of a flush, and the rest after it.
pub apply_writes-cons :
    (a : Write) (ws : List Write) (db db' : Db) (after : Result Db)
    → apply_write a db ≡ ok db'
    → apply_writes ws db' ≡ after
    → apply_writes (a ∷ ws) db ≡ after
unfolding apply_writes
apply_writes-cons a ws db db' after first rest =
    ap (λ r. elim r [ ok db' ↦ apply_writes ws db' | err e ↦ err e ]) first ∙ rest

module _ (w : World) (svc : SkillService) (skill_id : Uuid) where
  pub require_version_lem :
      (n : ℕ) (s : Session) (version : SkillVersion)
      → rows_where
          (λ v. v.skill_id == skill_id && v.version_number == n)
          (select_versions svc.organization_id s.working)
        ≡ version ∷ []
      → require_version w svc skill_id n s ≡ (ok (load_version w s.working version), s)
  unfolding require_version get_version one_or_none or_raise ◌>>=◌
  require_version_lem n s version at = rw at refl

  pub lock_or_raise_lem :
      (s : Session) (skill : Skill)
      → rows_where (λ k. k.id == skill_id) (select_skills svc.organization_id s.working)
        ≡ skill ∷ []
      → lock_or_raise w svc skill_id s ≡ (ok skill, s)
  unfolding lock_or_raise lock_skill one_or_none or_raise ◌>>=◌
  lock_or_raise_lem s skill at = rw at refl

-- The end of a request about one version: the commit, and the version read again.
pub committed_version :
    (w : World) (svc : SkillService) (skill_id : Uuid) (n : ℕ) (s : Session) (db : Db)
    (version : SkillVersion)
    → apply_writes s.pending s.working ≡ ok db
    → rows_where
        (λ v. v.skill_id == skill_id && v.version_number == n)
        (select_versions svc.organization_id db)
      ≡ version ∷ []
    → (commit >> require_version w svc skill_id n) s
      ≡ (ok (load_version w db version), record s { committed = db; working = db; pending = [] })
unfolding ◌>>=◌
committed_version w svc skill_id n s db version accepted at = rw (commit_lem s db accepted) (
    require_version_lem w svc skill_id n (record s { committed = db; working = db; pending = [] })
      version at)

-- A version that a scoped SELECT has found is stored, in the organization, with that number.
pub record IsFound (org k : Uuid) (n : ℕ) (db : Db) (version : SkillVersion) : Type 0 where
  pub row : Row version db.skill_versions
  pub organization_id : version.organization_id ≡ org
  pub skill_id : version.skill_id ≡ k
  pub version_number : version.version_number ≡ n

pub version-IsFound :
    (org skill_id : Uuid) (n : ℕ) (db : Db) (version : SkillVersion)
    → rows_where (λ v. v.skill_id == skill_id && v.version_number == n) (select_versions org db)
      ≡ version ∷ []
    → IsFound org skill_id n db version
unfolding select_versions
version-IsFound org skill_id n db version at =
    let (named, row) =
      Row-rows_where (λ v. v.skill_id == skill_id && v.version_number == n) version
        (select_versions org db) (rw at (inl refl)) in
    let (owned, stored) =
      Row-rows_where (λ v. v.organization_id == org) version db.skill_versions row in
    record {
      row = stored;
      organization_id = (==_iff version.organization_id org).0 owned;
      skill_id = (==_iff version.skill_id skill_id).0 (ground arith);
      version_number = (==_iff version.version_number n).0 (ground arith);
    }

module _ {A : Type 0} where
  pub update_where-map :
      (reached : A → Bool) (f : A → A) (l : List A)
      → update_where reached f l ≡ map (λ x. if reached x then f x else x) l
  unfolding update_where
  update_where-map reached f [] = refl
  update_where-map reached f (x ∷ l) =
      ap (λ t. (if reached x then f x else x) ∷ t) (update_where-map reached f l)

  -- A SELECT after an UPDATE that leaves its test as it was has the selected rows updated.
  pub rows_where-updated :
      (selected reached : A → Bool) (f : A → A) (l : List A)
      → ((x : A) → selected (f x) ≡ selected x)
      → rows_where selected (update_where reached f l)
        ≡ update_where reached f (rows_where selected l)
  unfolding rows_where update_where
  rows_where-updated selected reached f [] still = refl
  rows_where-updated selected reached f (x ∷ l) still =
      let rest = rows_where-updated selected reached f l still in
      elim (Bool-cases (reached x)) [
        | inl e ↦ elim (Bool-cases (selected x)) [
          | inl on ↦ rw (e, still x, on, e, rest) refl
          | inr off ↦ rw (e, still x, off, rest) refl
        ]
        | inr e ↦ elim (Bool-cases (selected x)) [
          | inl on ↦ rw (e, on, e, rest) refl
          | inr off ↦ rw (e, off, rest) refl
        ]
      ]

-- The version that a request names, after an UPDATE of the row found.
pub version-updated :
    (org skill_id : Uuid) (n : ℕ) (db : Db) (version : SkillVersion)
    (f : SkillVersion → SkillVersion)
    → rows_where (λ v. v.skill_id == skill_id && v.version_number == n) (select_versions org db)
      ≡ version ∷ []
    → ((v : SkillVersion) → (f v).organization_id ≡ v.organization_id)
    → ((v : SkillVersion) → (f v).skill_id ≡ v.skill_id)
    → ((v : SkillVersion) → (f v).version_number ≡ v.version_number)
    → rows_where
        (λ v. v.skill_id == skill_id && v.version_number == n)
        (select_versions org (record db {
          skill_versions = update_where (λ v. v.id == version.id) f db.skill_versions;
        }))
      ≡ f version ∷ []
unfolding select_versions update_where
version-updated org skill_id n db version f at org_kept skill_kept number_kept =
    let reached = λ (v : SkillVersion). v.id == version.id in
    let named = λ (v : SkillVersion). v.skill_id == skill_id && v.version_number == n in
    ap (rows_where named) (
      rows_where-updated (λ v. v.organization_id == org) reached f db.skill_versions
        (λ v. ap (λ k. k == org) (org_kept v)))
    ∙ (rows_where-updated named reached f (select_versions org db)
          (λ v. λ i. skill_kept v i == skill_id && number_kept v i == n)
        ∙ (ap (update_where reached f) at ∙ rw (==_refl version.id) refl))

pub map-Row :
    {A : Type 0} (f g : A → A) (l : List A) → ((x : A) → Row x l → f x ≡ g x) → map f l ≡ map g l
map-Row f g [] same = refl
map-Row f g (x ∷ l) same = rw (same x (inl refl), map-Row f g l (λ y row. same y (inr row))) refl
