-- ===== src/Samples.antt =====
-- A small registry on which the definitions run: two organizations, an owner in each and a member.
pub mod Tokens
use jarvis_skill_registry.Prelude.{ℕ, ◌+◌, codes, some, List, [], ◌∷◌, ltb, if◌then◌else◌, map}
use jarvis_skill_registry.Prelude.Sorting.{text_leb}
use jarvis_skill_registry.Core.Enums.{UserRole, SkillStatus, VersionStatus}
use jarvis_skill_registry.Models.{User, Skill, SkillVersion}
use jarvis_skill_registry.Database.Constraints.{Db, empty_db}
use jarvis_skill_registry.Session.{World}
use jarvis_skill_registry.Services.Skills.{SkillCreateRequest}
use jarvis_skill_registry.Api.Routes.{Request, handle}

-- ASCII letters only, which is what Python's `lower` does on ASCII text.
abbrev pub ascii_lower : ℕ → ℕ
ascii_lower c = if ltb c 65 then c else if ltb c 91 then c + 32 else c

-- Identifiers count up, the clock ticks with them, and the "digest" is the text itself.
abbrev pub world : World
world = record {
  uuid4 = λ n. n + 100;
  utcnow = λ n. n;
  lower = map ascii_lower;
  sha256 = λ t. t;
  collation = text_leb;
}

abbrev pub owner_abc : User
owner_abc = record {
  id = 11;
  organization_id = 1;
  email = codes "owner@abc.test";
  role = UserRole.owner;
  hashed_password = codes "x";
  created_at = 0;
}

abbrev pub member_abc : User
member_abc = record owner_abc { id = 12; email = codes "member@abc.test"; role = UserRole.member }

abbrev pub owner_xyz : User
owner_xyz = record owner_abc { id = 21; organization_id = 2; email = codes "owner@xyz.test" }

abbrev pub db0 : Db
db0 = record empty_db { users = owner_abc ∷ member_abc ∷ owner_xyz ∷ [] }

abbrev pub new_skill : SkillCreateRequest
new_skill = record {
  name = codes "a";
  department = codes "d";
  description = [];
  prompt_body = codes "p";
  requested_tools = codes " Read_Project" ∷ codes "query_schedule" ∷ codes "read_project" ∷ [];
}

-- The durable state after a sequence of requests.
abbrev pub play : List (User × Request) → Db → ℕ → Db × ℕ
play [] db tick = (db, tick)
play ((user, request) ∷ rest) db tick =
    let (answer, s) = handle world user request db tick in play rest s.committed s.tick

-- The state in which an owner's skill has one reviewed and active version.
abbrev pub db_active : Db × ℕ
db_active =
    play
      ((owner_abc, Request.create_skill new_skill)
        ∷ (member_abc, Request.review_version 100 1)
        ∷ (owner_abc, Request.activate_version 100 1)
        ∷ [])
      db0 0

-- A version as activation leaves it.
abbrev pub active_version : SkillVersion
active_version = record {
  id = 7;
  skill_id = 5;
  organization_id = 1;
  version_number = 1;
  prompt_body = codes "p";
  requested_tools = codes "read_project" ∷ [];
  content_hash = codes "h";
  status = VersionStatus.active;
  created_by = 11;
  reviewed_by = some 12;
  activated_by = some 11;
  created_at = 1;
  reviewed_at = some 2;
  activated_at = some 3;
}

-- The same version as the next activation supersedes it.
abbrev pub superseded_version : SkillVersion
superseded_version = record active_version { status = VersionStatus.superseded }

-- The skill of that version.
abbrev pub sample_skill : Skill
sample_skill = record {
  id = 5;
  organization_id = 1;
  name = codes "a";
  department = codes "d";
  description = [];
  status = SkillStatus.active;
  created_by = 11;
  created_at = 0;
  updated_at = 3;
}

abbrev pub db_one_version : SkillVersion → Db
db_one_version v = record empty_db { skills = sample_skill ∷ []; skill_versions = v ∷ [] }
