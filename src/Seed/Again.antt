-- ===== src/Seed/Again.antt =====
-- app/seed.py: a second run.
use jarvis_skill_registry.Prelude.{ℕ, ◌+◌, ◌≡◌, refl, Text, List, [], ◌∷◌}
use jarvis_skill_registry.Prelude.Tables.{All}
use jarvis_skill_registry.Core.Errors.{ok}
use jarvis_skill_registry.Core.Security.{Security}
use jarvis_skill_registry.Models.{Uuid, Organization, User}
use jarvis_skill_registry.Database.Constraints.{Db}
use jarvis_skill_registry.Session.{World, Session, open_session, one_or_none}
use jarvis_skill_registry.Database.Write.{apply_writes}
use jarvis_skill_registry.Seed.{
  UserFixture, OrganizationFixture, fixtures, with_slug, with_address, seed_users,
  present_organization, seed_organizations, run_seed,
}

-- The database has one user of this address.
pub record HasUser (db : Db) (f : UserFixture) : Type 0 where
  pub user : User
  pub only : with_address f.email db ≡ user ∷ []

-- The database has one organization of this slug, and the users of the fixture.
pub record HasOrganization (db : Db) (f : OrganizationFixture) : Type 0 where
  pub organization : Organization
  pub only : with_slug f.slug db ≡ organization ∷ []
  pub users : All (HasUser db) f.users

module _ (w : World) (hashed : Text) (s : Session) where
  seed_users-HasUser :
      (id : Uuid) (fs : List UserFixture)
      → All (HasUser s.working) fs
      → seed_users w id hashed fs s ≡ (ok tt, s)
  unfolding seed_users
  seed_users-HasUser id [] h = refl
  seed_users-HasUser id (f ∷ fs) (has, rest) = rw (has.only) (seed_users-HasUser id fs rest)

  seed_organizations-HasOrganization :
      (fs : List OrganizationFixture)
      → All (HasOrganization s.working) fs
      → seed_organizations w hashed fs s ≡ (ok tt, s)
  unfolding seed_organizations present_organization one_or_none
  seed_organizations-HasOrganization [] h = refl
  seed_organizations-HasOrganization (f ∷ fs) (has, rest) =
      rw (has.only, seed_users-HasUser has.organization.id f.users has.users)
        (seed_organizations-HasOrganization fs rest)

-- If the fixtures are there, running the script again succeeds and leaves the database as it was:
-- it adds no organization and no user, and changes no password.
pub run_seed-HasOrganization :
    (w : World) (c : Security) (db : Db) (tick : ℕ)
    → All (HasOrganization db) fixtures
    → run_seed w c db tick ≡ (ok tt, open_session db (tick + 1))
unfolding run_seed apply_writes
run_seed-HasOrganization w c db tick h =
    rw
      (seed_organizations-HasOrganization w (c.hash tick c.seed_password)
        (open_session db (tick + 1)) fixtures h)
      refl
