-- ===== src/Invariants/AuditTrail.antt =====
-- The audit log under every request: it only grows, and what a request adds is stamped with the
-- caller.
use jarvis_skill_registry.Prelude.{ℕ, ◌≡◌, ◌∙◌, sym, ap, List, [], ◌∷◌, ◌++◌}
use mathlib.Core.List.{append_assoc, append-nil}
use jarvis_skill_registry.Prelude.Tables.{All, All-append}
use jarvis_skill_registry.Models.{User, AuditLog}
use jarvis_skill_registry.Core.Errors.{ok}
use jarvis_skill_registry.Database.Constraints.{Db}
use jarvis_skill_registry.Database.Write.{Write, apply_write}
use jarvis_skill_registry.Database.Inversion.{
  inserted_skill, inserted_version, inserted_grant, inserted_audit, updated_skill, updated_version,
  updated_grant,
}
use jarvis_skill_registry.Session.{World}
use jarvis_skill_registry.Services.Stable.{AnyStep, Stable, no_facts, ServiceWrite, handle-Stable}
use jarvis_skill_registry.Api.Routes.{Request, handle, get_skill_service}

-- An entry in the name of a user: in the user's organization, with the user as its actor.
pub record IsStamped (user : User) (a : AuditLog) : Type 0 where
  pub organization_id : a.organization_id ≡ user.organization_id
  pub actor_user_id : a.actor_user_id ≡ user.id

-- The log is what it was, followed by entries of the user.
abbrev pub Grown : User → List AuditLog → List AuditLog → Type 0
Grown user old new = (tail : List AuditLog) × (new ≡ old ++ tail) × All (IsStamped user) tail

Grown-append :
    (user : User) (old new : List AuditLog) (a : AuditLog)
    → IsStamped user a
    → Grown user old new
    → Grown user old (new ++ a ∷ [])
Grown-append user old new a stamped (tail, e, good) = (
  tail ++ a ∷ [],
  ap (λ l. l ++ a ∷ []) e ∙ append_assoc old tail (a ∷ []),
  All-append (IsStamped user) tail (a ∷ []) good (stamped, tt),
)

module _ (w : World) (user : User) where
  Grown-Stable :
      (base : List AuditLog)
      → Stable w (get_skill_service user) AnyStep (λ db. Grown user base db.audit_log)
  Grown-Stable base = record {
    owned = no_facts;
    read_skill = λ db r h row. tt;
    read_version = λ db r h row. tt;
    read_grant = λ db v g h row at refers. tt;
    step = one;
  }
    where
      one :
          (wr : Write) (db db' : Db)
          → ServiceWrite w (get_skill_service user) AnyStep no_facts wr
          → Grown user base db.audit_log
          → apply_write wr db ≡ ok db'
          → Grown user base db'.audit_log
      one wr db db' (ServiceWrite.new_skill r new) h e = rw ((inserted_skill db r e).1) h
      one wr db db' (ServiceWrite.new_version r new allowed) h e =
          rw ((inserted_version db r e).1) h
      one wr db db' (ServiceWrite.new_grant r new) h e = rw ((inserted_grant db r e).1) h
      one wr db db' (ServiceWrite.new_audit r new) h e = rw ((inserted_audit db r e).1) (
          Grown-append user base db.audit_log r
            (record { organization_id = new.org; actor_user_id = new.actor }) h)
      one wr db db' (ServiceWrite.skill_sets r sets own) h e = rw ((updated_skill db r sets e).1) h
      one wr db db' (ServiceWrite.version_sets r sets own step allowed) h e =
          rw ((updated_version db r sets e).result) h
      one wr db db' (ServiceWrite.grant_sets r sets own step) h e =
          rw ((updated_grant db r sets e).1) h

-- Whatever a request does, the audit log after it is the log before it followed by new entries,
-- and every new entry has the caller's organization and names the caller as its actor. No request
-- changes, removes or reorders an entry.
pub audit_append_only :
    (w : World) (user : User) (request : Request) (db : Db) (tick : ℕ)
    → Grown user db.audit_log (handle w user request db tick).1.committed.audit_log
audit_append_only w user request db tick =
    handle-Stable w user (Grown-Stable w user db.audit_log) request (λ kind uses. tt) db tick
      ([], sym (append-nil db.audit_log), tt)
