-- ===== src/Invariants/Moves.antt =====
-- How a request moves a table, row by row: a relation for the rows that were there, a predicate for
-- those that it adds; and the moves of the table of versions.
use jarvis_skill_registry.Prelude.{
  ℕ, ◌≡◌, refl, ◌∙◌, sym, subst, Bool, true, ◌==◌, ==_iff, List, [], ◌∷◌, ◌++◌, Bool-cases, inl,
  inr, ◌⊎◌,
}
use jarvis_skill_registry.Prelude.Tables.{
  Row, All, All-Row, All-append, All-update_where, update_where, Row-rows_where, unique_by,
}
use jarvis_skill_registry.Prelude.Partition.{unique_by-Row}
use jarvis_skill_registry.Models.{SkillVersion, VersionSet, assign_all, assign_version}
use jarvis_skill_registry.Core.Errors.{ok}
use jarvis_skill_registry.Database.Constraints.{Db}
use jarvis_skill_registry.Database.Write.{Write, apply_write}
use jarvis_skill_registry.Database.Inversion.{
  inserted_skill, inserted_version, inserted_grant, inserted_audit, updated_skill, updated_version,
  updated_grant,
}
use jarvis_skill_registry.Repository.{select_versions}
use jarvis_skill_registry.Session.{World}
use jarvis_skill_registry.Services.Skills.{SkillService}
use jarvis_skill_registry.Services.Discipline.{StepKind, kind_of, VersionStep, NewVersion}
use jarvis_skill_registry.Services.Stable.{Stable, Owned, ServiceWrite}
use jarvis_skill_registry.Invariants.Consistency.{IsConsistent, apply_write-IsConsistent}

-- The old rows are the first of the new ones, related by `E` one by one; `N` holds of the others.
pub data Moves {A : Type 0} (E : A → A → Type 0) (N : A → Type 0) : List A → List A → Type 0 where
  appended : (new : List A) → All N new → Moves E N [] new
  moved :
      {v v' : A} {old new : List A} → E v v' → Moves E N old new → Moves E N (v ∷ old) (v' ∷ new)

module _ {A : Type 0} {E : A → A → Type 0} {N : A → Type 0} where
  pub Moves-refl : ((v : A) → E v v) → (l : List A) → Moves E N l l
  Moves-refl same [] = Moves.appended [] tt
  Moves-refl same (v ∷ l) = Moves.moved (same v) (Moves-refl same l)

  pub Moves-map :
      {F : A → A → Type 0} {M : A → Type 0} {old new : List A}
      → ((v v' : A) → E v v' → F v v')
      → ((l : List A) → All N l → All M l)
      → Moves E N old new
      → Moves F M old new
  Moves-map f g (Moves.appended new h) = Moves.appended new (g new h)
  Moves-map f g (Moves.moved e rest) = Moves.moved (f _ _ e) (Moves-map f g rest)

  -- What the old rows had and each move keeps, all the new rows have.
  pub Moves-All :
      {P : A → Type 0} {old new : List A}
      → ((v v' : A) → E v v' → P v → P v')
      → ((l : List A) → All N l → All P l)
      → Moves E N old new
      → All P old
      → All P new
  Moves-All keep fresh (Moves.appended new h) had = fresh new h
  Moves-All keep fresh (Moves.moved e rest) (p, had) = (keep _ _ e p, Moves-All keep fresh rest had)

  pub Moves-append :
      (x : A) {old new : List A} → N x → Moves E N old new → Moves E N old (new ++ x ∷ [])
  Moves-append x nx (Moves.appended new h) =
      Moves.appended (new ++ x ∷ []) (All-append N new (x ∷ []) h (nx, tt))
  Moves-append x nx (Moves.moved e rest) = Moves.moved e (Moves-append x nx rest)

  pub Moves-update :
      (p : A → Bool) (f : A → A) {old new : List A}
      → ((v v' : A) → Row v old → p v' ≡ true → E v v' → E v (f v'))
      → ((n : A) → N n → N (f n))
      → Moves E N old new
      → Moves E N old (update_where p f new)
  unfolding update_where
  Moves-update p f keep keep_new (Moves.appended new h) =
      Moves.appended (update_where p f new) (All-update_where N p f new keep_new h)
  Moves-update p f keep keep_new (Moves.moved {v} {v'} e rest) =
      Moves.moved
        (elim (Bool-cases (p v')) [
          | inl hit ↦ rw hit (keep v v' (inl refl) hit e)
          | inr miss ↦ rw miss e
        ])
        (Moves-update p f (λ u u' at. keep u u' (inr at)) keep_new rest)

  pub Moves-find :
      {old new : List A} (v : A) → Row v old → Moves E N old new → (v' : A) × Row v' new × E v v'
  Moves-find v at (Moves.appended new h) = absurd at
  Moves-find v (inl e) (Moves.moved {v = u} {v' = u'} related rest) =
      (u', inl refl, subst (λ x. E x u') (sym e) related)
  Moves-find v (inr at) (Moves.moved related rest) =
      let (v', there, found) = Moves-find v at rest in (v', inr there, found)

  -- A row of the new table is a move of an old one or was added.
  pub Moves-origin :
      {old new : List A} (x : A)
      → Row x new
      → Moves E N old new
      → ((v : A) × Row v old × E v x) ⊎ N x
  Moves-origin x at (Moves.appended new h) = inr (All-Row N x new h at)
  Moves-origin x (inl e) (Moves.moved {v} related rest) =
      inl (v, inl refl, subst (E v) (sym e) related)
  Moves-origin x (inr at) (Moves.moved related rest) = elim (Moves-origin x at rest) [
    | inl (v, there, found) ↦ inl (v, inr there, found)
    | inr fresh ↦ inr fresh
  ]

everything : {A : Type 0} (l : List A) → All (λ _. Unit {0}) l
everything [] = tt
everything (x ∷ l) = (tt, everything l)

-- Two sets of moves one after the other.
pub Moves-trans :
    {A : Type 0} {E F G : A → A → Type 0} {N M : A → Type 0} {old mid new : List A}
    → ((a b c : A) → E a b → F b c → G a c)
    → Moves E N old mid
    → Moves F M mid new
    → Moves G (λ _. Unit) old new
Moves-trans {A} {new} join (Moves.appended mid h) second = Moves.appended new (everything new)
Moves-trans join (Moves.moved e rest) (Moves.moved f rest') =
    Moves.moved (join _ _ _ e f) (Moves-trans join rest rest')

-- A row that was read is a move of the row of `base` with its id, where ids are unique and kept.
pub known-row :
    {A : Type 0} {E : A → A → Type 0} {N : A → Type 0} (id : A → ℕ)
    → ((v v' : A) → E v v' → id v' ≡ id v)
    → (base l : List A) (r b : A) → unique_by (λ x y. id x == id y) l ≡ true
    → Moves E N base l
    → Row r l
    → Row b base
    → id b ≡ id r
    → E b r
known-row {A} {E} id ids base l r b unique moves row at same =
    let (b', row', related) = Moves-find b at moves in
    subst (E b) (unique_by-Row id l b' r unique row' row (ids b b' related ∙ same)) related

-- The moves that a service makes where it changes versions only in the ways of `may`.
pub record IsMode (w : World) (svc : SkillService) (may : StepKind → Type 0)
    (E : SkillVersion → SkillVersion → Type 0) (N : SkillVersion → Type 0) : Type 0 where
  pub ids : (v v' : SkillVersion) → E v v' → v'.id ≡ v.id
  pub keep :
      (v v' loaded : SkillVersion) (sets : List VersionSet) (step : VersionStep svc loaded sets)
      → may (kind_of step)
      → E v loaded
      → E v v'
      → E v (assign_all assign_version sets v')
  pub keep_new :
      (n loaded : SkillVersion) (sets : List VersionSet) (step : VersionStep svc loaded sets)
      → may (kind_of step)
      → N n
      → N (assign_all assign_version sets n)
  pub new : (r : SkillVersion) → NewVersion w svc r → may StepKind.create → N r

module _ (w : World) (svc : SkillService) {may : StepKind → Type 0}
    {E : SkillVersion → SkillVersion → Type 0} {N : SkillVersion → Type 0}
    (mode : IsMode w svc may E N) (base : List SkillVersion) where
  -- A version that was read is a move of the row that it was.
  abbrev Known : Owned
  Known = record {
    skill = λ _. Unit;
    version = λ r. (b : SkillVersion) → Row b base → b.id ≡ r.id → E b r;
    grant = λ _. Unit;
  }

  Moves-write :
      (wr : Write) (db db' : Db)
      → ServiceWrite w svc may Known wr
      → Moves E N base db.skill_versions
      → apply_write wr db ≡ ok db'
      → Moves E N base db'.skill_versions
  Moves-write wr db db' (ServiceWrite.new_skill r new) h e = rw ((inserted_skill db r e).1) h
  Moves-write wr db db' (ServiceWrite.new_version r new allowed) h e =
      rw ((inserted_version db r e).1) (Moves-append r (mode.new r new allowed) h)
  Moves-write wr db db' (ServiceWrite.new_grant r new) h e = rw ((inserted_grant db r e).1) h
  Moves-write wr db db' (ServiceWrite.new_audit r new) h e = rw ((inserted_audit db r e).1) h
  Moves-write wr db db' (ServiceWrite.skill_sets r sets own) h e =
      rw ((updated_skill db r sets e).1) h
  Moves-write wr db db' (ServiceWrite.version_sets r sets own step allowed) h e =
      rw ((updated_version db r sets e).result) (
        Moves-update (λ v. v.id == r.id) (assign_all assign_version sets)
          (λ v v' at hit related.
            mode.keep v v' r sets step allowed
              (own v at (sym (mode.ids v v' related) ∙ (==_iff v'.id r.id).0 hit)) related)
          (λ n fresh. mode.keep_new n r sets step allowed fresh) h)
  Moves-write wr db db' (ServiceWrite.grant_sets r sets own step) h e =
      rw ((updated_grant db r sets e).1) h

  pub Moves-Stable : Stable w svc may (λ db. IsConsistent db × Moves E N base db.skill_versions)
  unfolding select_versions
  Moves-Stable = record {
    owned = Known;
    read_skill = λ db r h row. tt;
    read_version = λ db r h row b at same.
        known-row (λ x. x.id) mode.ids base db.skill_versions r b (h.0.versions.ids) h.1
          (Row-rows_where (λ v. v.organization_id == svc.organization_id) r db.skill_versions row).1
          at same;
    read_grant = λ db v g h row at refers. tt;
    step = λ wr before after written kept accepted. (
      apply_write-IsConsistent wr before after kept.0 accepted,
      Moves-write wr before after written kept.1 accepted,
    );
  }
