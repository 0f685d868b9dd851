-- ===== src/Effects/Ready.antt =====
-- A session whose queued writes are known to be accepted, and one write more.
use jarvis_skill_registry.Prelude.{ℕ, ◌≡◌, ap, refl, ◌∙◌, List, [], ◌∷◌, ◌++◌}
use jarvis_skill_registry.Core.Errors.{ok, err, Result}
use jarvis_skill_registry.Database.Constraints.{Db}
use jarvis_skill_registry.Database.Write.{Write, apply_write, apply_writes}
use jarvis_skill_registry.Session.{World, Session}
use jarvis_skill_registry.Invariants.Consistency.{IsConsistent}
use jarvis_skill_registry.Effects.Fresh.{IsFresh}

-- The session's writes lead to these tables, which take a new audit entry from the next tick on.
pub record IsReady (w : World) (s : Session) (db : Db) : Type 0 where
  pub leads : apply_writes s.pending s.working ≡ ok db
  pub consistent : IsConsistent db
  pub fresh : IsFresh w db.audit_log s.tick

apply_writes-snoc :
    (ws : List Write) (a : Write) (db db' : Db) (after : Result Db)
    → apply_writes ws db ≡ ok db'
    → apply_write a db' ≡ after
    → apply_writes (ws ++ a ∷ []) db ≡ after
unfolding apply_writes
apply_writes-snoc [] a db db' after first second =
    let same : db ≡ db' = cc in only (apply_write a db) ∙ (ap (apply_write a) same ∙ second)
  where
    only : (r : Result Db) → elim r [ ok d ↦ ok d | err e ↦ err e ] ≡ r
    only (ok d) = refl
    only (err e) = refl
apply_writes-snoc (x ∷ ws) a db db' after first second =
    onward (apply_write x db) (λ d before. apply_writes-snoc ws a d db' after before second) first
  where
    onward :
        (r : Result Db)
        → ((d : Db) → apply_writes ws d ≡ ok db' → apply_writes (ws ++ a ∷ []) d ≡ after)
        → elim r [ ok d ↦ apply_writes ws d | err e ↦ err e ] ≡ ok db'
        → elim r [ ok d ↦ apply_writes (ws ++ a ∷ []) d | err e ↦ err e ] ≡ after
    onward (ok d) rest before = rest d before
    onward (err e) rest before = absurd (cc before)

pub queued-IsReady :
    (w : World) (s : Session) (a : Write) (db db' : Db) (t : ℕ)
    → IsReady w s db
    → (apply_write a db ≡ ok db') × IsConsistent db'
    → IsFresh w db'.audit_log t
    → IsReady w (record s { pending = s.pending ++ a ∷ []; tick = t }) db'
queued-IsReady w s a db db' t ready (accepted, after) fresh = record {
  leads = apply_writes-snoc s.pending a s.working db (ok db') ready.leads accepted;
  consistent = after;
  fresh = fresh;
}
