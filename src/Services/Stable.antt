-- ===== src/Services/Stable.antt =====
-- From a property of the tables that each of the services' writes preserves to an invariant of
-- every request: the durable state has it after any request, whether it answers or raises.
use jarvis_skill_registry.Prelude.{ℕ, ◌≡◌, refl, List, [], ◌∷◌}
use jarvis_skill_registry.Prelude.Tables.{Row, All, All-append}
use jarvis_skill_registry.Core.Errors.{Result, ok, err}
use jarvis_skill_registry.Models.{
  User, Skill, SkillVersion, ToolGrant, AuditLog, SkillSet, VersionSet, GrantSet,
}
use jarvis_skill_registry.Database.Constraints.{Db}
use jarvis_skill_registry.Database.Write.{Write, apply_write, apply_writes}
use jarvis_skill_registry.Session.{
  World, Session, Exec, queue, flush, flushed, mark_durable, rollback, with_session, open_session,
  settle,
}
use jarvis_skill_registry.Session.Keeps.{Keeps}
use jarvis_skill_registry.Repository.{select_skills, select_versions}
use jarvis_skill_registry.Repository.Reads.{IsLoaded-grant}
use jarvis_skill_registry.Services.Skills.{SkillService}
use jarvis_skill_registry.Services.Discipline.{
  Discipline, StepKind, kind_of, NewSkill, NewVersion, NewGrant, NewAudit, VersionStep, GrantStep,
}
use jarvis_skill_registry.Services.Walk.Routes.{Uses, walk-route}
use jarvis_skill_registry.Api.Routes.{Request, route, handle, get_skill_service}

-- What a table property lets be said of the rows that were read.
pub record Owned : Type 1 where
  pub skill : Skill → Type 0
  pub version : SkillVersion → Type 0
  pub grant : ToolGrant → Type 0

-- For a property that needs nothing of the rows that were read.
abbrev pub no_facts : Owned
no_facts = record { skill = λ _. Unit; version = λ _. Unit; grant = λ _. Unit }

-- For a property that every kind of update keeps.
abbrev pub AnyStep : StepKind → Type 0
AnyStep _ = Unit

-- The writes that the services make, where versions change only in the ways of `may`.
pub data ServiceWrite (w : World) (svc : SkillService) (may : StepKind → Type 0) (o : Owned)
    : Write → Type 0 where
  new_skill : (r : Skill) → NewSkill w svc r → ServiceWrite w svc may o (Write.insert_skill r)
  new_version :
      (r : SkillVersion)
      → NewVersion w svc r
      → may StepKind.create
      → ServiceWrite w svc may o (Write.insert_version r)
  new_grant : (r : ToolGrant) → NewGrant w svc r → ServiceWrite w svc may o (Write.insert_grant r)
  new_audit : (r : AuditLog) → NewAudit w svc r → ServiceWrite w svc may o (Write.insert_audit r)
  skill_sets :
      (r : Skill) (sets : List SkillSet)
      → o.skill r
      → ServiceWrite w svc may o (Write.update_skill r sets)
  version_sets :
      (r : SkillVersion) (sets : List VersionSet)
      → o.version r
      → (step : VersionStep svc r sets) → may (kind_of step)
      → ServiceWrite w svc may o (Write.update_version r sets)
  grant_sets :
      (r : ToolGrant) (sets : List GrantSet)
      → o.grant r
      → GrantStep svc r sets
      → ServiceWrite w svc may o (Write.update_grant r sets)

pub record Stable (w : World) (svc : SkillService) (may : StepKind → Type 0) (R : Db → Type 0)
    : Type 1 where
  pub owned : Owned
  pub read_skill :
      (db : Db) (r : Skill) → R db → Row r (select_skills svc.organization_id db) → owned.skill r
  pub read_version :
      (db : Db) (r : SkillVersion)
      → R db
      → Row r (select_versions svc.organization_id db)
      → owned.version r
  pub read_grant :
      (db : Db) (v : SkillVersion) (g : ToolGrant)
      → R db
      → Row v (select_versions svc.organization_id db)
      → Row g db.tool_grants
      → g.skill_version_id ≡ v.id
      → owned.grant g
  pub step :
      (wr : Write) (db db' : Db)
      → ServiceWrite w svc may owned wr
      → R db
      → apply_write wr db ≡ ok db'
      → R db'

-- The session's part of the invariant.
pub record Holds (w : World) (svc : SkillService) (may : StepKind → Type 0) (o : Owned)
    (R : Db → Type 0) (s : Session) : Type 0 where
  pub committed : R s.committed
  pub working : R s.working
  pub pending : All (ServiceWrite w svc may o) s.pending

module _ (w : World) (svc : SkillService) {may : StepKind → Type 0} {R : Db → Type 0}
    (st : Stable w svc may R) where
  abbrev Kept : Session → Type 0
  Kept = Holds w svc may st.owned R

  -- The outcome of one write, and of a flush.
  abbrev Fine : Result Db → Type 0
  Fine (ok db) = R db
  Fine (err e) = Unit

  Fine-of : (r : Result Db) → ((db : Db) → r ≡ ok db → R db) → Fine r
  Fine-of (ok db) h = h db refl
  Fine-of (err e) h = tt

  writes-Fine :
      (ws : List Write) (db : Db)
      → All (ServiceWrite w svc may st.owned) ws
      → R db
      → Fine (apply_writes ws db)
  unfolding apply_writes
  writes-Fine [] db good h = h
  writes-Fine (wr ∷ ws) db (good, rest) h =
      next (apply_write wr db) (λ db' e. st.step wr db db' good h e)
        (λ db' h'. writes-Fine ws db' rest h')
    where
      next :
          (r : Result Db)
          → ((db' : Db) → r ≡ ok db' → R db')
          → ((db' : Db) → R db' → Fine (apply_writes ws db'))
          → Fine (elim r [ ok db' ↦ apply_writes ws db' | err e ↦ err e ])
      next (ok db') one more = more db' (one db' refl)
      next (err e) one more = tt

  flushed-Kept : (r : Result Db) (s : Session) → Kept s → Fine r → Kept (flushed r s).1
  flushed-Kept (ok db) s h fine = record { committed = h.committed; working = fine; pending = tt }
  flushed-Kept (err e) s h fine = record {
    committed = h.committed;
    working = h.committed;
    pending = tt;
  }

  queue-Keeps : (wr : Write) → ServiceWrite w svc may st.owned wr → Keeps Kept (queue wr)
  unfolding queue
  queue-Keeps wr good = record {
    at = λ s h. record {
      committed = h.committed;
      working = h.working;
      pending =
          All-append (ServiceWrite w svc may st.owned) s.pending (wr ∷ []) h.pending (good, tt);
    };
  }

  flush-Keeps : Keeps Kept flush
  unfolding flush
  flush-Keeps = record {
    at = λ s h.
        flushed-Kept (apply_writes s.pending s.working) s h
          (writes-Fine s.pending s.working h.pending h.working);
  }

  commit-Keeps : Keeps Kept mark_durable
  unfolding mark_durable
  commit-Keeps = record {
    at = λ s h. record { committed = h.working; working = h.working; pending = h.pending };
  }

  rollback-Keeps : Keeps Kept rollback
  unfolding rollback
  rollback-Keeps = record {
    at = λ s h. record { committed = h.committed; working = h.committed; pending = tt };
  }

  discipline : Discipline w svc Kept
  discipline = record {
    may = may;
    OwnSkill = st.owned.skill;
    OwnVersion = st.owned.version;
    OwnGrant = st.owned.grant;
    read_skill = λ s r h row. st.read_skill s.working r h.working row;
    read_version = λ s d h loaded. st.read_version s.working d.version h.working loaded.row;
    read_grant = λ s d g h loaded row.
        let (at, refers) = IsLoaded-grant g loaded row in
        st.read_grant s.working d.version g h.working loaded.row at refers;
    still = λ s n h. record { committed = h.committed; working = h.working; pending = h.pending };
    flushes = flush-Keeps;
    commits = commit-Keeps;
    rolls_back = rollback-Keeps;
    add_skill = λ r new. queue-Keeps _ (ServiceWrite.new_skill r new);
    add_version = λ r new allowed. queue-Keeps _ (ServiceWrite.new_version r new allowed);
    add_grant = λ r new. queue-Keeps _ (ServiceWrite.new_grant r new);
    add_audit = λ r new. queue-Keeps _ (ServiceWrite.new_audit r new);
    set_skill = λ r sets own. queue-Keeps _ (ServiceWrite.skill_sets r sets own);
    set_version = λ r sets own step allowed.
        queue-Keeps _ (ServiceWrite.version_sets r sets own step allowed);
    set_grant = λ r sets own step. queue-Keeps _ (ServiceWrite.grant_sets r sets own step);
  }

  settle-Kept : {A : Type 0} (r : Result A) (s : Session) → Kept s → Kept (settle r s).1
  settle-Kept (ok a) s h = h
  settle-Kept (err e) s h = record { committed = h.committed; working = h.committed; pending = tt }

  with_session-Kept :
      {A : Type 0} (m : Exec A) (db : Db) (tick : ℕ)
      → Keeps Kept m
      → R db
      → Kept (with_session m db tick).1
  unfolding with_session
  with_session-Kept m db tick keeps h =
      settle-Kept (m (open_session db tick)).0 (m (open_session db tick)).1
        (keeps.at (open_session db tick) (record { committed = h; working = h; pending = tt }))

-- The property after any request, in the tables as the request's own session has them at its end.
pub working-Stable :
    (w : World) (user : User) {may : StepKind → Type 0} {R : Db → Type 0}
    (st : Stable w (get_skill_service user) may R) (request : Request)
    → ((kind : StepKind) → Uses request kind → may kind)
    → (db : Db) (tick : ℕ) → R db
    → R (handle w user request db tick).1.working
unfolding handle discipline
working-Stable w user st request permits db tick h =
    let svc = get_skill_service user in
    (with_session-Kept w svc st (route w svc request) db tick
      (walk-route w svc (discipline w svc st) request permits) h).working

-- The invariant after any request of a user whose updates of versions it allows.
pub handle-Stable :
    (w : World) (user : User) {may : StepKind → Type 0} {R : Db → Type 0}
    (st : Stable w (get_skill_service user) may R) (request : Request)
    → ((kind : StepKind) → Uses request kind → may kind)
    → (db : Db) (tick : ℕ) → R db
    → R (handle w user request db tick).1.committed
unfolding handle discipline
handle-Stable w user st request permits db tick h =
    let svc = get_skill_service user in
    (with_session-Kept w svc st (route w svc request) db tick
      (walk-route w svc (discipline w svc st) request permits) h).committed
