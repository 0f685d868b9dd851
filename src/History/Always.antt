-- ===== src/History/Always.antt =====
-- What is true of the registry after any history: of its versions, of its audit log, of its keys.
use jarvis_skill_registry.Prelude.{◌≡◌, refl, ◌∙◌, sym, ap, subst, List, [], ◌∷◌, ◌++◌, arith}
use mathlib.Core.List.{append_assoc, append-nil}
use jarvis_skill_registry.Prelude.Tables.{Row, All, All-append}
use jarvis_skill_registry.Core.Errors.{ok}
use jarvis_skill_registry.Core.Security.{Security}
use jarvis_skill_registry.Models.{User, AuditLog}
use jarvis_skill_registry.Database.Constraints.{Db}
use jarvis_skill_registry.Database.Write.{Write, apply_write}
use jarvis_skill_registry.Database.Inversion.{
  inserted_skill, inserted_version, inserted_grant, inserted_audit, updated_skill, updated_version,
  updated_grant,
}
use jarvis_skill_registry.Session.{World}
use jarvis_skill_registry.Services.Stable.{AnyStep, Stable, no_facts, ServiceWrite, handle-Stable}
use jarvis_skill_registry.Api.Routes.{get_skill_service}
use jarvis_skill_registry.Invariants.Immutability.{
  Extends, Extends-refl, Extends-Stable, SameContent, step-SameContent,
}
use jarvis_skill_registry.Invariants.AuditTrail.{IsStamped}
use jarvis_skill_registry.Invariants.Integrity.{IsIntact, handle-IsIntact}
use jarvis_skill_registry.Invariants.Consistency.{IsConsistent, handle-IsConsistent}
use jarvis_skill_registry.Invariants.Lifecycle.Requests.{IsPassed, handle-IsPassed}
use jarvis_skill_registry.History.{Reach, Reach-keeps}

-- A version that is stored stays stored, in its place, with the content that it had, whatever
-- requests and logins follow.
pub Reach-SameContent :
    {w : World} {c : Security} {db db' : Db}
    → Reach w c db db'
    → Extends SameContent db.skill_versions db'.skill_versions
Reach-SameContent {w} {c} {db} history =
    Reach-keeps (λ at. Extends SameContent db.skill_versions at.skill_versions)
      (λ user request at tick row kept.
        handle-Stable w user
          (Extends-Stable w (get_skill_service user) SameContent db.skill_versions step-SameContent)
          request (λ kind uses. tt) at tick kept)
      (Extends-refl SameContent (λ v. ground arith) db.skill_versions) history

-- If the tables satisfy their keys and every version is intact, both stay true: unique ids, names
-- and version numbers, at most one active version of a skill, and of every version the hash of its
-- own columns and tools that the validation returned.
pub Reach-IsIntact :
    {w : World} {c : Security} {db db' : Db}
    → IsConsistent db
    → All (IsIntact w) db.skill_versions
    → Reach w c db db'
    → IsConsistent db' × All (IsIntact w) db'.skill_versions
Reach-IsIntact {w} {c} keys intact history = (
  Reach-keeps IsConsistent
      (λ user request at tick row kept. handle-IsConsistent w user request at tick kept) keys
      history,
  Reach-keeps (λ at. All (IsIntact w) at.skill_versions)
      (λ user request at tick row kept. handle-IsIntact w user request at tick kept) intact history,
)

-- If the tables satisfy their keys and only drafts lack a review, so it stays: no version is ever
-- active, superseded or disabled without having been reviewed.
pub Reach-IsPassed :
    {w : World} {c : Security} {db db' : Db}
    → IsConsistent db
    → All IsPassed db.skill_versions
    → Reach w c db db'
    → All IsPassed db'.skill_versions
Reach-IsPassed {w} {c} keys passed history =
    (Reach-keeps (λ at. IsConsistent at × All IsPassed at.skill_versions)
      (λ user request at tick row kept. (
        handle-IsConsistent w user request at tick kept.0,
        handle-IsPassed w user request at tick kept.0 kept.1,
      ))
      (keys, passed) history).1

-- An entry that one of these users has caused: it names the user and the user's organization.
pub record IsSigned (users : List User) (a : AuditLog) : Type 0 where
  pub user : User
  pub stored : Row user users
  pub stamp : IsStamped user a

-- The users are the same, and the log has grown by signed entries.
record IsLog (base db : Db) : Type 0 where
  users : db.users ≡ base.users
  tail : List AuditLog
  log : db.audit_log ≡ base.audit_log ++ tail
  signed : All (IsSigned base.users) tail

module _ (w : World) (user : User) (base : Db) (member : Row user base.users) where
  IsLog-write :
      (wr : Write) (db db' : Db)
      → ServiceWrite w (get_skill_service user) AnyStep no_facts wr
      → IsLog base db
      → apply_write wr db ≡ ok db'
      → IsLog base db'
  IsLog-write wr db db' (ServiceWrite.new_skill r new) h e =
      rw ((inserted_skill db r e).1)
        (record { users = h.users; tail = h.tail; log = h.log; signed = h.signed })
  IsLog-write wr db db' (ServiceWrite.new_version r new allowed) h e =
      rw ((inserted_version db r e).1)
        (record { users = h.users; tail = h.tail; log = h.log; signed = h.signed })
  IsLog-write wr db db' (ServiceWrite.new_grant r new) h e =
      rw ((inserted_grant db r e).1)
        (record { users = h.users; tail = h.tail; log = h.log; signed = h.signed })
  IsLog-write wr db db' (ServiceWrite.new_audit r new) h e =
      rw ((inserted_audit db r e).1) (record {
        users = h.users;
        tail = h.tail ++ r ∷ [];
        log = ap (λ l. l ++ r ∷ []) h.log ∙ append_assoc base.audit_log h.tail (r ∷ []);
        signed = All-append (IsSigned base.users) h.tail (r ∷ []) h.signed (
          record {
            user = user;
            stored = member;
            stamp = record { organization_id = new.org; actor_user_id = new.actor };
          },
          tt,
        );
      })
  IsLog-write wr db db' (ServiceWrite.skill_sets r sets own) h e =
      rw ((updated_skill db r sets e).1)
        (record { users = h.users; tail = h.tail; log = h.log; signed = h.signed })
  IsLog-write wr db db' (ServiceWrite.version_sets r sets own step allowed) h e =
      rw ((updated_version db r sets e).result)
        (record { users = h.users; tail = h.tail; log = h.log; signed = h.signed })
  IsLog-write wr db db' (ServiceWrite.grant_sets r sets own step) h e =
      rw ((updated_grant db r sets e).1)
        (record { users = h.users; tail = h.tail; log = h.log; signed = h.signed })

  IsLog-Stable : Stable w (get_skill_service user) AnyStep (IsLog base)
  IsLog-Stable = record {
    owned = no_facts;
    read_skill = λ db r h row. tt;
    read_version = λ db r h row. tt;
    read_grant = λ db v g h row at refers. tt;
    step = IsLog-write;
  }

-- The audit log of any later time is the log of now with more entries behind it, and each of them
-- names a stored user as its actor and that user's organization as its own.
pub Reach-IsSigned :
    {w : World} {c : Security} {db db' : Db}
    → Reach w c db db'
    → (tail : List AuditLog) × (db'.audit_log ≡ db.audit_log ++ tail) × All (IsSigned db.users) tail
Reach-IsSigned {w} {c} {db} history =
    let log =
      Reach-keeps (IsLog db)
        (λ user request at tick row kept.
          handle-Stable w user (IsLog-Stable w user db (subst (Row user) kept.users row)) request
            (λ kind uses. tt) at tick kept)
        (record { users = refl; tail = []; log = sym (append-nil db.audit_log); signed = tt })
        history in
    (log.tail, log.log, log.signed)
