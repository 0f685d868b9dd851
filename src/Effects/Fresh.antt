-- ===== src/Effects/Fresh.antt =====
-- What the services rely on of `uuid.uuid4()` for the ids of the audit entries.
use jarvis_skill_registry.Prelude.{
  ℕ, ◌≡◌, ◌≤◌, ◌<◌, refl, ◌∙◌, false, ◌==◌, ==_iff, List, [], ◌∷◌, ◌++◌, arith, Bool-cases, inl,
  inr,
}
use jarvis_skill_registry.Prelude.Tables.{any}
use jarvis_skill_registry.Prelude.Distinct.{any-append}
use jarvis_skill_registry.Models.{AuditLog}
use jarvis_skill_registry.Session.{World}

-- What the code relies on of `uuid.uuid4()`: no answer repeats an earlier one, and none from here on
-- is the id of a stored audit entry.
pub record IsFresh (w : World) (log : List AuditLog) (tick : ℕ) : Type 0 where
  pub distinct : (m n : ℕ) → w.uuid4 m ≡ w.uuid4 n → m ≡ n
  pub unused : (n : ℕ) → tick ≤ n → any (λ a. w.uuid4 n == a.id) log ≡ false

pub IsFresh-later :
    (w : World) (log : List AuditLog) (t t' : ℕ) → IsFresh w log t → t ≤ t' → IsFresh w log t'
IsFresh-later w log t t' fresh later = record {
  distinct = fresh.distinct;
  unused = λ n at. fresh.unused n (omega arith);
}

pub IsFresh-logged :
    (w : World) (log : List AuditLog) (t t' : ℕ) (e : AuditLog)
    → IsFresh w log t
    → e.id ≡ w.uuid4 t
    → t < t'
    → IsFresh w (log ++ e ∷ []) t'
unfolding any
IsFresh-logged w log t t' e fresh made later = record {
  distinct = fresh.distinct;
  unused = λ n at.
      let old = fresh.unused n (omega arith) in
      let appended = any-append (λ a. w.uuid4 n == a.id) log (e ∷ []) in
      let apart = fresh.distinct n t in
      elim (Bool-cases (w.uuid4 n == e.id)) [
        | inl same ↦
            (let clash = apart ((==_iff (w.uuid4 n) e.id).0 same ∙ made) in
              absurd (omega (arith, clash)))
        | inr other ↦ appended ∙ rw (old, other) refl
      ];
}
