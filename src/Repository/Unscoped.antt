-- ===== src/Repository/Unscoped.antt =====
-- app/db/repository.py: `UnscopedAuthRepository`, the reads of the login and of a token's user.
use jarvis_skill_registry.Prelude.{Text, text_eq, ◌&&◌, ◌==◌, Option}
use jarvis_skill_registry.Prelude.Tables.{rows_where}
use jarvis_skill_registry.Core.Tools.{strip}
use jarvis_skill_registry.Core.Security.{Security}
use jarvis_skill_registry.Models.{Uuid, User}
use jarvis_skill_registry.Session.{World, Exec, query, one_or_none, ◌>>=◌}

module _ (w : World) (c : Security) where
  -- `func.lower(User.email) == email.strip().lower()`
  unfoldable pub get_user_by_email : Text → Exec (Option User)
  unfolding rows_where text_eq strip
  get_user_by_email email = do
    rows ←
        query
          (λ db. rows_where (λ u. text_eq (c.sql_lower u.email) (w.lower (strip email))) db.users)
    one_or_none rows

unfoldable pub get_user_in_organization : Uuid → Uuid → Exec (Option User)
unfolding rows_where
get_user_in_organization user_id organization_id = do
  rows ←
      query
        (λ db. rows_where (λ u. u.id == user_id && u.organization_id == organization_id) db.users)
  one_or_none rows
