-- ===== src/Session.antt =====
-- app/db/session.py and the session that SQLAlchemy gives each request. Writes wait until a flush;
-- a commit makes the flushed state durable; whatever raises leaves the durable state as it was.
-- `autoflush=False`: a query sees the flushed rows. An action returns its result, or an
-- exception, beside the session that it leaves.
pub mod Keeps
pub mod Yields
use jarvis_skill_registry.Prelude.{
  ℕ, suc, ◌+◌, Text, Bool, true, false, Option, none, some, List, [], ◌∷◌, ◌++◌, if◌then◌else◌,
}
use jarvis_skill_registry.Core.Errors.{Result, ok, err, Exception}
use jarvis_skill_registry.Models.{Uuid, Time}
use jarvis_skill_registry.Database.Constraints.{Db}
use jarvis_skill_registry.Database.Write.{Write, apply_writes}

-- What is not under this repository: the n-th answer of `uuid.uuid4()` and of
-- `datetime.now(UTC)`, `str.lower`, the hex digest of SHA-256 and the order of the database's text
-- collation.
pub record World : Type 0 where
  pub uuid4 : ℕ → Uuid
  pub utcnow : ℕ → Time
  pub lower : Text → Text
  pub sha256 : Text → Text
  pub collation : Text → Text → Bool

pub record Session : Type 0 where
  pub committed : Db
  pub working : Db
  pub pending : List Write
  pub tick : ℕ

abbrev pub Exec {ℓ} : Type ℓ → Type ℓ
Exec A = Session → Result A × Session

module _ {ℓ} {A : Type ℓ} where
  unfoldable pub pure : A → Exec A
  pure a s = (ok a, s)

  unfoldable pub raise : Exception → Exec A
  raise e s = (err e, s)

  unfoldable pub lift : Result A → Exec A
  lift r s = (r, s)

  -- A SELECT.
  unfoldable pub query : (Db → A) → Exec A
  query f s = (ok (f s.working), s)

module _ {ℓ κ} {A : Type ℓ} {B : Type κ} where
  abbrev pub continue : Result A → (A → Exec B) → Exec B
  continue (ok a) f s = f a s
  continue (err e) f s = (err e, s)

  infixl 5 ◌>>=◌ ◌>>◌
  unfoldable pub ◌>>=◌ : Exec A → (A → Exec B) → Exec B
  unfolding pure raise lift query
  ◌>>=◌ m f s = let (r, s') = m s in continue r f s'

  abbrev pub ◌>>◌ : Exec A → Exec B → Exec B
  m >> k = m >>= λ _. k

-- `raise` under an `if`, and `if x is None: raise`.
unfoldable pub raise_if : Bool → Exception → Exec (Unit {0})
unfolding pure raise
raise_if true e = raise e
raise_if false e = pure tt

unfoldable pub or_raise : {A : Type 0} → Option A → Exception → Exec A
unfolding pure raise
or_raise none e = raise e
or_raise (some a) e = pure a

-- `Result.scalar_one_or_none()` of a SELECT: a second row is an error.
unfoldable pub one_or_none : {A : Type 0} → List A → Exec (Option A)
unfolding pure raise
one_or_none [] = pure none
one_or_none (x ∷ []) = pure (some x)
one_or_none (x ∷ y ∷ rows) = raise Exception.multiple_results

-- `session.add`, or assignments to a loaded object.
unfoldable pub queue : Write → Exec (Unit {0})
queue w s = (ok tt, record s { pending = s.pending ++ w ∷ [] })

-- A column default, drawn when the row is added; the code reads it only after a flush.
unfoldable pub draw_uuid : World → Exec Uuid
draw_uuid w s = (ok (w.uuid4 s.tick), record s { tick = s.tick + 1 })

unfoldable pub draw_now : World → Exec Time
draw_now w s = (ok (w.utcnow s.tick), record s { tick = s.tick + 1 })

abbrev pub rolled_back : Session → Session
rolled_back s = record s { working = s.committed; pending = [] }

-- A flush that fails rolls the transaction back.
abbrev pub flushed : Result Db → Session → Result (Unit {0}) × Session
flushed (ok db) s = (ok tt, record s { working = db; pending = [] })
flushed (err e) s = (err e, rolled_back s)

unfoldable pub flush : Exec (Unit {0})
flush s = flushed (apply_writes s.pending s.working) s

unfoldable pub mark_durable : Exec (Unit {0})
mark_durable s = (ok tt, record s { committed = s.working })

-- `session.commit()` flushes first.
unfoldable pub commit : Exec (Unit {0})
unfolding ◌>>=◌ flush mark_durable
commit = do flush; mark_durable

unfoldable pub rollback : Exec (Unit {0})
rollback s = (ok tt, rolled_back s)

abbrev pub caught : Result (Unit {0}) → Session → Result (Option Exception) × Session
caught (ok _) s = (ok none, s)
caught (err e) s = (ok (some e), s)

-- The body of a `try`, with what it raised as a value.
unfoldable pub attempt : Exec (Unit {0}) → Exec (Option Exception)
attempt m s = let (r, s') = m s in caught r s'

abbrev pub open_session : Db → ℕ → Session
open_session db tick = record { committed = db; working = db; pending = []; tick = tick }

abbrev pub settle {ℓ} : {A : Type ℓ} → Result A → Session → Result A × Session
settle (ok a) s = (ok a, s)
settle (err e) s = (err e, rolled_back s)

-- `get_session`: one session for one request, rolled back if anything escapes. What is left
-- uncommitted when the session closes is lost, so the durable state is `committed`.
unfoldable pub with_session {ℓ} : {A : Type ℓ} → Exec A → Db → ℕ → Result A × Session
with_session m db tick = let (r, s) = m (open_session db tick) in settle r s
