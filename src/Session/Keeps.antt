-- ===== src/Session/Keeps.antt =====
-- Invariants of sessions: one rule for each way to build an action.
use jarvis_skill_registry.Prelude.{
  ℕ, ◌+◌, ◌≡◌, refl, Bool, true, false, Option, none, some, List, [], ◌∷◌, if◌then◌else◌,
}
use jarvis_skill_registry.Core.Errors.{Result, ok, err, Exception}
use jarvis_skill_registry.Database.Constraints.{Db}
use jarvis_skill_registry.Session.{
  Session, Exec, World, pure, raise, lift, query, continue, ◌>>=◌, ◌>>◌, raise_if, or_raise,
  one_or_none, draw_uuid, draw_now, attempt, caught,
}

-- `m` keeps `P`, whether it returns or raises.
pub record Keeps {ℓ κ} {A : Type ℓ} (P : Session → Type κ) (m : Exec A) : Type κ where
  pub at : (s : Session) → P s → P (m s).1

-- `a` is what `m` returned, from a session with `P`.
pub record Yields {ℓ κ} {A : Type ℓ} (P : Session → Type κ) (m : Exec A) (a : A)
    : Type (ℓ ⊔ κ) where
  pub from : Session
  pub before : P from
  pub returned : (m from).0 ≡ ok a

module _ {ℓ κ} {A : Type ℓ} {P : Session → Type κ} where
  pub Keeps-pure : (a : A) → Keeps P (pure a)
  unfolding pure
  Keeps-pure a = record { at = λ s h. h }

  pub Keeps-raise : (e : Exception) → Keeps P (raise {A = A} e)
  unfolding raise
  Keeps-raise e = record { at = λ s h. h }

  pub Keeps-lift : (r : Result A) → Keeps P (lift r)
  unfolding lift
  Keeps-lift r = record { at = λ s h. h }

  pub Keeps-query : (f : Db → A) → Keeps P (query f)
  unfolding query
  Keeps-query f = record { at = λ s h. h }

  pub Keeps-if :
      (b : Bool) (m n : Exec A)
      → (b ≡ true → Keeps P m)
      → (b ≡ false → Keeps P n)
      → Keeps P (if b then m else n)
  Keeps-if false m n when_true when_false = when_false refl
  Keeps-if true m n when_true when_false = when_true refl

module _ {κ} {P : Session → Type κ} where
  pub Keeps-raise_if : (b : Bool) (e : Exception) → Keeps P (raise_if b e)
  unfolding raise_if
  Keeps-raise_if true e = record { at = λ s h. h }
  Keeps-raise_if false e = record { at = λ s h. h }

  pub Keeps-or_raise : {A : Type 0} (o : Option A) (e : Exception) → Keeps P (or_raise o e)
  unfolding or_raise
  Keeps-or_raise none e = record { at = λ s h. h }
  Keeps-or_raise (some a) e = record { at = λ s h. h }

  pub Keeps-one_or_none : {A : Type 0} (rows : List A) → Keeps P (one_or_none rows)
  unfolding one_or_none
  Keeps-one_or_none [] = record { at = λ s h. h }
  Keeps-one_or_none (x ∷ []) = record { at = λ s h. h }
  Keeps-one_or_none (x ∷ y ∷ rows) = record { at = λ s h. h }

module _ {ℓ κ ι} {A : Type ℓ} {B : Type ι} {P : Session → Type κ} where
  continue-at :
      (r : Result A) (f : A → Exec B) (s : Session)
      → P s
      → ((a : A) → r ≡ ok a → Keeps P (f a))
      → P (continue r f s).1
  continue-at (ok a) f s h kf = (kf a refl).at s h
  continue-at (err e) f s h kf = h

  -- The rest of the block may use what the first action can return.
  pub Keeps-bind :
      (m : Exec A) (f : A → Exec B)
      → Keeps P m
      → ((a : A) → Yields P m a → Keeps P (f a))
      → Keeps P (m >>= f)
  unfolding ◌>>=◌
  Keeps-bind m f km kf = record {
    at = λ s h.
        continue-at (m s).0 f (m s).1 (km.at s h)
          (λ a e. kf a (record { from = s; before = h; returned = e }));
  }

  -- The rest of the block does not look at the result.
  pub Keeps-then : {m : Exec A} {k : Exec B} → Keeps P m → Keeps P k → Keeps P (m >> k)
  Keeps-then {m} {k} km kk = Keeps-bind m (λ _. k) km (λ _ _. kk)

caught-at {κ} :
    (P : Session → Type κ) (r : Result (Unit {0})) (s : Session) → P s → P (caught r s).1
caught-at P (ok _) s h = h
caught-at P (err e) s h = h

module _ {κ} {P : Session → Type κ} where
  pub Keeps-attempt : (m : Exec (Unit {0})) → Keeps P m → Keeps P (attempt m)
  unfolding attempt
  Keeps-attempt m km = record { at = λ s h. caught-at P (m s).0 (m s).1 (km.at s h) }

-- A step that only draws from the world keeps what does not speak of the counter.
module _ {κ} {P : Session → Type κ}
    (still : (s : Session) (n : ℕ) → P s → P (record s { tick = n })) where
  pub Keeps-draw_uuid : (w : World) → Keeps P (draw_uuid w)
  unfolding draw_uuid
  Keeps-draw_uuid w = record { at = λ s h. still s (s.tick + 1) h }

  pub Keeps-draw_now : (w : World) → Keeps P (draw_now w)
  unfolding draw_now
  Keeps-draw_now w = record { at = λ s h. still s (s.tick + 1) h }

pub ruleset keeps_rules = (
  Keeps-pure, Keeps-raise, Keeps-lift, Keeps-query, Keeps-if, Keeps-raise_if, Keeps-or_raise,
  Keeps-one_or_none, Keeps-bind,
)
