-- ===== src/Session/Yields.antt =====
-- What the result of an action says, for the rest of the block: inversion of each way to build one.
use jarvis_skill_registry.Prelude.{
  ℕ, ◌≡◌, refl, Bool, true, false, Option, none, some, List, [], ◌∷◌,
}
use jarvis_skill_registry.Core.Errors.{Result, ok, err, Exception}
use jarvis_skill_registry.Models.{Uuid}
use jarvis_skill_registry.Database.Constraints.{Db}
use jarvis_skill_registry.Session.{
  Session, Exec, World, pure, raise, lift, query, continue, ◌>>=◌, raise_if, or_raise, one_or_none,
  draw_uuid,
}
use jarvis_skill_registry.Session.Keeps.{Keeps, Yields}

-- `n` was drawn from the world's source of identifiers.
abbrev pub Drawn : World → Uuid → Type 0
Drawn w id = (n : ℕ) × (id ≡ w.uuid4 n)

module _ {ℓ ι} {A : Type ℓ} {B : Type ι} where
  continue-ok :
      (r : Result A) (f : A → Exec B) (s : Session) {b : B}
      → (continue r f s).0 ≡ ok b
      → (a : A) × (r ≡ ok a) × ((f a s).0 ≡ ok b)
  continue-ok (ok a) f s h = (a, refl, h)
  continue-ok (err e) f s h = cc

module _ {ℓ κ ι} {A : Type ℓ} {B : Type ι} {P : Session → Type κ} where
  pub Yields-bind :
      (m : Exec A) (f : A → Exec B) {b : B}
      → Keeps P m
      → Yields P (m >>= f) b
      → (a : A) × Yields P m a × Yields P (f a) b
  unfolding ◌>>=◌
  Yields-bind m f km y =
      let (a, e, h) = continue-ok (m y.from).0 f (m y.from).1 y.returned in
      (
        a,
        record { from = y.from; before = y.before; returned = e },
        record { from = (m y.from).1; before = km.at y.from y.before; returned = h },
      )

module _ {ℓ κ} {A : Type ℓ} {P : Session → Type κ} where
  pub Yields-query :
      (f : Db → A) {a : A} → Yields P (query f) a → (s : Session) × P s × (a ≡ f s.working)
  unfolding query
  Yields-query f y = (y.from, y.before, cc (y.returned))

  pub Yields-lift : (r : Result A) {a : A} → Yields P (lift r) a → r ≡ ok a
  unfolding lift
  Yields-lift r y = y.returned

  pub Yields-pure : (x : A) {a : A} → Yields P (pure x) a → a ≡ x
  unfolding pure
  Yields-pure x y = cc (y.returned)

module _ {κ} {P : Session → Type κ} where
  pub Yields-raise_if :
      (b : Bool) (e : Exception) {u : Unit {0}} → Yields P (raise_if b e) u → b ≡ false
  unfolding raise_if raise pure
  Yields-raise_if true e y = cc (y.returned)
  Yields-raise_if false e y = refl

  pub Yields-or_raise :
      {A : Type 0} (o : Option A) (e : Exception) {a : A} → Yields P (or_raise o e) a → o ≡ some a
  unfolding or_raise raise pure
  Yields-or_raise none e y = cc (y.returned)
  Yields-or_raise (some x) e y = cc (y.returned)

  pub Yields-one_or_none :
      {A : Type 0} (rows : List A) {a : A} → Yields P (one_or_none rows) (some a) → rows ≡ a ∷ []
  unfolding one_or_none raise pure
  Yields-one_or_none [] y = cc (y.returned)
  Yields-one_or_none (x ∷ []) y = cc (y.returned)
  Yields-one_or_none (x ∷ x' ∷ rows) y = cc (y.returned)

  pub Yields-draw_uuid : (w : World) {id : Uuid} → Yields P (draw_uuid w) id → Drawn w id
  unfolding draw_uuid
  Yields-draw_uuid w y = (y.from.tick, cc (y.returned))
