-- ===== src/Seed.antt =====
-- app/seed.py: the fixture organizations and users, and the script that adds those that are not
-- there. It runs on a session of its own.
pub mod Again
use jarvis_skill_registry.Prelude.{ℕ, Text, text_eq, codes, Option, none, some, List, [], ◌∷◌}
use jarvis_skill_registry.Prelude.Tables.{rows_where}
use jarvis_skill_registry.Core.Enums.{UserRole}
use jarvis_skill_registry.Core.Errors.{Result}
use jarvis_skill_registry.Core.Security.{Security, hash_password}
use jarvis_skill_registry.Models.{Uuid, Organization, User}
use jarvis_skill_registry.Database.Constraints.{Db}
use jarvis_skill_registry.Database.Write.{Write}
use jarvis_skill_registry.Session.{
  World, Session, Exec, pure, query, one_or_none, queue, draw_uuid, draw_now, flush, commit,
  with_session, ◌>>=◌, ◌>>◌,
}

pub record UserFixture : Type 0 where
  pub email : Text
  pub role : UserRole

pub record OrganizationFixture : Type 0 where
  pub name : Text
  pub slug : Text
  pub users : List UserFixture

abbrev pub fixtures : List OrganizationFixture
fixtures =
    record {
      name = codes "ABC Construction";
      slug = codes "abc-construction";
      users =
          record { email = codes "owner@abc-construction.test"; role = UserRole.owner }
          ∷ record { email = codes "member@abc-construction.test"; role = UserRole.member }
          ∷ [];
    }
    ∷ record {
      name = codes "XYZ Builders";
      slug = codes "xyz-builders";
      users =
          record { email = codes "owner@xyz-builders.test"; role = UserRole.owner }
          ∷ record { email = codes "member@xyz-builders.test"; role = UserRole.member }
          ∷ [];
    }
    ∷ []

abbrev pub with_slug : Text → Db → List Organization
with_slug slug db = rows_where (λ o. text_eq o.slug slug) db.organizations

abbrev pub with_address : Text → Db → List User
with_address email db = rows_where (λ u. text_eq u.email email) db.users

module _ (w : World) where
  unfoldable pub add_organization : OrganizationFixture → Exec Organization
  unfolding ◌>>=◌ draw_uuid draw_now queue flush pure
  add_organization fixture = do
    id ← draw_uuid w
    created_at ← draw_now w
    let org : Organization = record {
      id = id;
      name = fixture.name;
      slug = fixture.slug;
      created_at = created_at;
    }
    queue (Write.insert_organization org)
    flush
    pure org

  -- `if org is None: ... else: ...`
  unfoldable pub present_organization :
      OrganizationFixture → Option Organization → Exec Organization
  unfolding add_organization pure
  present_organization fixture none = add_organization fixture
  present_organization fixture (some org) = pure org

  unfoldable pub add_user : Uuid → Text → UserFixture → Option User → Exec (Unit {0})
  unfolding ◌>>=◌ draw_uuid draw_now queue pure
  add_user organization_id hashed fixture (some existing) = pure tt
  add_user organization_id hashed fixture none = do
    id ← draw_uuid w
    created_at ← draw_now w
    queue (
        Write.insert_user (record {
          id = id;
          organization_id = organization_id;
          email = fixture.email;
          role = fixture.role;
          hashed_password = hashed;
          created_at = created_at;
        }))

  unfoldable pub seed_users : Uuid → Text → List UserFixture → Exec (Unit {0})
  unfolding ◌>>=◌ rows_where text_eq one_or_none add_user pure
  seed_users organization_id hashed [] = pure tt
  seed_users organization_id hashed (fixture ∷ rest) = do
    rows ← query (with_address fixture.email)
    existing ← one_or_none rows
    add_user organization_id hashed fixture existing
    seed_users organization_id hashed rest

  unfoldable pub seed_organizations : Text → List OrganizationFixture → Exec (Unit {0})
  unfolding ◌>>=◌ rows_where text_eq one_or_none present_organization seed_users pure
  seed_organizations hashed [] = pure tt
  seed_organizations hashed (fixture ∷ rest) = do
    rows ← query (with_slug fixture.slug)
    found ← one_or_none rows
    org ← present_organization fixture found
    seed_users org.id hashed fixture.users
    seed_organizations hashed rest

  unfoldable pub seed : Security → Exec (Unit {0})
  unfolding ◌>>=◌ hash_password seed_organizations commit
  seed c = do hashed ← hash_password c c.seed_password; seed_organizations hashed fixtures; commit

  unfoldable pub run_seed : Security → Db → ℕ → Result (Unit {0}) × Session
  unfolding seed with_session
  run_seed c = with_session (seed c)
