-- ===== src/Invariants/Granting.antt =====
-- The grants of tools: app/services/skills.py's `grant_tools`, seen from every request.
use jarvis_skill_registry.Prelude.{
  ℕ, ◌≡◌, refl, ◌∙◌, sym, ap, ◌==◌, ==_iff, true, false, ◌⊎◌, inl, inr, some, List,
}
use jarvis_skill_registry.Models.{User, ToolGrant, GrantSet, is_owner, assign_all, assign_grant}
use jarvis_skill_registry.Core.Errors.{ok}
use jarvis_skill_registry.Database.Constraints.{Db}
use jarvis_skill_registry.Database.Write.{Write, apply_write}
use jarvis_skill_registry.Database.Inversion.{
  inserted_skill, inserted_version, inserted_grant, inserted_audit, updated_skill, updated_version,
  updated_grant,
}
use jarvis_skill_registry.Prelude.Tables.{Row}
use jarvis_skill_registry.Session.{World}
use jarvis_skill_registry.Services.Discipline.{GrantStep}
use jarvis_skill_registry.Services.Stable.{AnyStep, Stable, Owned, ServiceWrite, handle-Stable}
use jarvis_skill_registry.Api.Routes.{Request, handle, get_skill_service}
use jarvis_skill_registry.Invariants.Consistency.{IsConsistent, apply_write-IsConsistent}
use jarvis_skill_registry.Invariants.Moves.{
  Moves, Moves-refl, Moves-append, Moves-update, known-row,
}

-- A grant after a request of this user: as it was, or granted now by the user, an owner.
pub record Granting (user : User) (g g' : ToolGrant) : Type 0 where
  pub id : g'.id ≡ g.id
  pub organization_id : g'.organization_id ≡ g.organization_id
  pub skill_version_id : g'.skill_version_id ≡ g.skill_version_id
  pub tool_name : g'.tool_name ≡ g.tool_name
  pub effect :
      (g' ≡ g)
      ⊎ ((g.granted ≡ false)
          × (is_owner user ≡ true)
          × (g'.granted ≡ true)
          × (g'.granted_by ≡ some user.id))

-- A grant that a request of this user adds: of the user's organization, and granted only by an owner.
pub record IsAsked (user : User) (g : ToolGrant) : Type 0 where
  pub organization_id : g.organization_id ≡ user.organization_id
  pub granted : (g.granted ≡ false) ⊎ (is_owner user ≡ true)

Granting-refl : (user : User) (g : ToolGrant) → Granting user g g
Granting-refl user g = record {
  id = refl;
  organization_id = refl;
  skill_version_id = refl;
  tool_name = refl;
  effect = inl refl;
}

module _ (w : World) (user : User) (base : List ToolGrant) where
  abbrev Known : Owned
  Known = record {
    skill = λ _. Unit;
    version = λ _. Unit;
    grant = λ r. (b : ToolGrant) → Row b base → b.id ≡ r.id → Granting user b r;
  }

  -- A grant that was not granted when it was read was not granted before the request.
  ungranted-before : (b r : ToolGrant) → Granting user b r → r.granted ≡ false → b.granted ≡ false
  ungranted-before b r moved now = elim moved.effect [
    | inl same ↦ ap (λ g. g.granted) (sym same) ∙ now
    | inr (was, owner, granted, by) ↦ was
  ]

  grant-step :
      (b b' r : ToolGrant) (sets : List GrantSet)
      → GrantStep (get_skill_service user) r sets
      → Granting user b r
      → Granting user b b'
      → Granting user b (assign_all assign_grant sets b')
  grant-step b b' r sets (GrantStep.grant now owner ungranted) read moved = record {
    id = moved.id;
    organization_id = moved.organization_id;
    skill_version_id = moved.skill_version_id;
    tool_name = moved.tool_name;
    effect = inr (ungranted-before b r read ungranted, owner, refl, refl);
  }

  IsAsked-step :
      (n r : ToolGrant) (sets : List GrantSet)
      → GrantStep (get_skill_service user) r sets
      → IsAsked user n
      → IsAsked user (assign_all assign_grant sets n)
  IsAsked-step n r sets (GrantStep.grant now owner ungranted) asked = record {
    organization_id = asked.organization_id;
    granted = inr owner;
  }

  Moves-write :
      (wr : Write) (db db' : Db)
      → ServiceWrite w (get_skill_service user) AnyStep Known wr
      → Moves (Granting user) (IsAsked user) base db.tool_grants
      → apply_write wr db ≡ ok db'
      → Moves (Granting user) (IsAsked user) base db'.tool_grants
  Moves-write wr db db' (ServiceWrite.new_skill r new) h e = rw ((inserted_skill db r e).1) h
  Moves-write wr db db' (ServiceWrite.new_version r new allowed) h e =
      rw ((inserted_version db r e).1) h
  Moves-write wr db db' (ServiceWrite.new_grant r new) h e =
      rw ((inserted_grant db r e).1)
        (Moves-append r (record { organization_id = new.org; granted = inl new.ungranted }) h)
  Moves-write wr db db' (ServiceWrite.new_audit r new) h e = rw ((inserted_audit db r e).1) h
  Moves-write wr db db' (ServiceWrite.skill_sets r sets own) h e =
      rw ((updated_skill db r sets e).1) h
  Moves-write wr db db' (ServiceWrite.version_sets r sets own step allowed) h e =
      rw ((updated_version db r sets e).result) h
  Moves-write wr db db' (ServiceWrite.grant_sets r sets own step) h e =
      rw ((updated_grant db r sets e).1) (
        Moves-update (λ g. g.id == r.id) (assign_all assign_grant sets)
          (λ b b' at hit moved.
            grant-step b b' r sets step (own b at (sym moved.id ∙ (==_iff b'.id r.id).0 hit)) moved)
          (λ n asked. IsAsked-step n r sets step asked) h)

  Moves-Stable :
      Stable w
        (get_skill_service user)
        AnyStep
        (λ db. IsConsistent db × Moves (Granting user) (IsAsked user) base db.tool_grants)
  Moves-Stable = record {
    owned = Known;
    read_skill = λ db r h row. tt;
    read_version = λ db r h row. tt;
    read_grant = λ db v g h row at refers b stored same.
        known-row (λ x. x.id) (λ x y moved. moved.id) base db.tool_grants g b h.0.grants.ids h.1 at
          stored same;
    step = λ wr before after written kept accepted. (
      apply_write-IsConsistent wr before after kept.0 accepted,
      Moves-write wr before after written kept.1 accepted,
    );
  }

-- If the stored tables satisfy their keys, a request leaves every stored grant where and what it is,
-- or turns one that was not granted into one granted by the caller, who is an owner; a grant that
-- it adds is of the caller's organization and not granted unless the caller is an owner. So no
-- request revokes a grant or changes who granted it, and a member grants nothing.
pub handle-Granting :
    (w : World) (user : User) (request : Request) (db : Db) (tick : ℕ)
    → IsConsistent db
    → Moves
        (Granting user)
        (IsAsked user)
        db.tool_grants
        (handle w user request db tick).1.committed.tool_grants
handle-Granting w user request db tick consistent =
    (handle-Stable w user (Moves-Stable w user db.tool_grants) request (λ kind uses. tt) db tick
      (consistent, Moves-refl (Granting-refl user) db.tool_grants)).1
