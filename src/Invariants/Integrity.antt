-- ===== src/Invariants/Integrity.antt =====
-- What holds of every stored version: its hash is the hash of its own columns, and its requested
-- tools have passed the allowlist.
use jarvis_skill_registry.Prelude.{ℕ, ◌≡◌, Text, List, [], ◌∷◌}
use jarvis_skill_registry.Prelude.Tables.{All, All-append, All-update_where}
use jarvis_skill_registry.Models.{User, SkillVersion, VersionSet, assign_all, assign_version}
use jarvis_skill_registry.Core.Errors.{ok}
use jarvis_skill_registry.Core.Tools.{validate_requested_tools}
use jarvis_skill_registry.Database.Constraints.{Db}
use jarvis_skill_registry.Database.Write.{Write, apply_write}
use jarvis_skill_registry.Database.Inversion.{
  inserted_skill, inserted_version, inserted_grant, inserted_audit, updated_skill, updated_version,
  updated_grant,
}
use jarvis_skill_registry.Session.{World}
use jarvis_skill_registry.Services.Hashing.{hash_version}
use jarvis_skill_registry.Services.Skills.{SkillService}
use jarvis_skill_registry.Services.Discipline.{VersionStep}
use jarvis_skill_registry.Services.Stable.{AnyStep, Stable, no_facts, ServiceWrite, handle-Stable}
use jarvis_skill_registry.Api.Routes.{Request, handle, get_skill_service}

pub record IsIntact (w : World) (v : SkillVersion) : Type 0 where
  pub hash :
      v.content_hash
      ≡ hash_version w.sha256 v.organization_id v.skill_id v.version_number v.prompt_body
          v.requested_tools
  pub tools : (names : List Text) × (validate_requested_tools w.lower names ≡ ok v.requested_tools)

step-IsIntact :
    {w : World} {svc : SkillService} (v loaded : SkillVersion) (sets : List VersionSet)
    → VersionStep svc loaded sets
    → IsIntact w v
    → IsIntact w (assign_all assign_version sets v)
step-IsIntact v loaded sets (VersionStep.review now _ _) h = record {
  hash = h.hash;
  tools = h.tools;
}
step-IsIntact v loaded sets (VersionStep.activate now _ _ _) h = record {
  hash = h.hash;
  tools = h.tools;
}
step-IsIntact v loaded sets (VersionStep.supersede _ _) h = record {
  hash = h.hash;
  tools = h.tools;
}
step-IsIntact v loaded sets (VersionStep.disable _ _) h = record { hash = h.hash; tools = h.tools }

module _ (w : World) (svc : SkillService) where
  IsIntact-Stable : Stable w svc AnyStep (λ db. All (IsIntact w) db.skill_versions)
  IsIntact-Stable = record {
    owned = no_facts;
    read_skill = λ db r h row. tt;
    read_version = λ db r h row. tt;
    read_grant = λ db v g h row at refers. tt;
    step = one;
  }
    where
      one :
          (wr : Write) (db db' : Db)
          → ServiceWrite w svc AnyStep no_facts wr
          → All (IsIntact w) db.skill_versions
          → apply_write wr db ≡ ok db'
          → All (IsIntact w) db'.skill_versions
      one wr db db' (ServiceWrite.new_skill r new) h e = rw ((inserted_skill db r e).1) h
      one wr db db' (ServiceWrite.new_version r new allowed) h e =
          rw ((inserted_version db r e).1) (
            All-append (IsIntact w) db.skill_versions (r ∷ []) h
              (record { hash = new.hash; tools = new.tools }, tt))
      one wr db db' (ServiceWrite.new_grant r new) h e = rw ((inserted_grant db r e).1) h
      one wr db db' (ServiceWrite.new_audit r new) h e = rw ((inserted_audit db r e).1) h
      one wr db db' (ServiceWrite.skill_sets r sets own) h e = rw ((updated_skill db r sets e).1) h
      one wr db db' (ServiceWrite.version_sets r sets own step allowed) h e =
          rw ((updated_version db r sets e).result) (
            All-update_where (IsIntact w) _ (assign_all assign_version sets) db.skill_versions
              (λ v. step-IsIntact v r sets step) h)
      one wr db db' (ServiceWrite.grant_sets r sets own step) h e =
          rw ((updated_grant db r sets e).1) h

-- If every stored version carries the hash of its own organization, skill, number, prompt and
-- tools, and a tool list that the allowlist validation returned, then so does every version stored
-- after any request of any user.
pub handle-IsIntact :
    (w : World) (user : User) (request : Request) (db : Db) (tick : ℕ)
    → All (IsIntact w) db.skill_versions
    → All (IsIntact w) (handle w user request db tick).1.committed.skill_versions
handle-IsIntact w user request db tick h =
    handle-Stable w user (IsIntact-Stable w (get_skill_service user)) request (λ kind uses. tt) db
      tick h
