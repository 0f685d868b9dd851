-- ===== src/Tests/Content.antt =====
-- The theorems on numbers, pages, texts and hashes, on samples.
use jarvis_skill_registry.Prelude.{
  ℕ, ◌+◌, ◌≤◌, ◌≡◌, refl, ◌↔◌, ◌⊎◌, codes, true, List, [], ◌∷◌, ◌++◌, arith,
}
use jarvis_skill_registry.Prelude.Tables.{Row, length}
use jarvis_skill_registry.Prelude.Sorting.{sort_by, text_leb}
use jarvis_skill_registry.Core.Errors.{ok}
use jarvis_skill_registry.Models.{SkillVersion, AuditLog}
use jarvis_skill_registry.Session.{open_session}
use jarvis_skill_registry.Repository.{next_version_number, select_audit}
use jarvis_skill_registry.Repository.Numbering.{IsVersionOf, next_version_number_lem}
use jarvis_skill_registry.Services.Audit.{audit_page}
use jarvis_skill_registry.Services.Newest.{newest_first, audit_page_lem}
use jarvis_skill_registry.Services.Hashing.{
  uuid_text, VersionPayload, canonical_version_payload, canonical_json,
}
use jarvis_skill_registry.Services.Hashing.Injective.{hash_version-injective}
use jarvis_skill_registry.Invariants.Ownership.{SameSkill, IsOwn, handle-SameSkill}
use jarvis_skill_registry.Invariants.Reading.{IsRead, handle-IsRead}
use jarvis_skill_registry.Invariants.Moves.{Moves}
use jarvis_skill_registry.Invariants.Lifecycle.Requests.{Change, Addition, handle-Change}
use jarvis_skill_registry.Api.Routes.{Request, handle}
use jarvis_skill_registry.Tests.Consistent.{db0-IsConsistent}
use jarvis_skill_registry.Samples.{
  world, owner_abc, db0, db_active, db_one_version, active_version, new_skill,
}

handle-Change_example :
    Moves
      (Change (Request.create_skill new_skill))
      (Addition (Request.create_skill new_skill))
      db0.skill_versions
      (handle world owner_abc (Request.create_skill new_skill) db0 0).1.committed.skill_versions
handle-Change_example =
    handle-Change world owner_abc (Request.create_skill new_skill) db0 0 db0-IsConsistent

next_version_number_lem_example :
    (n : ℕ) × (next_version_number 1 5 (open_session (db_one_version active_version) 0)
      ≡ (ok (n + 1), open_session (db_one_version active_version) 0))
    × ((v : SkillVersion)
        → Row v (db_one_version active_version).skill_versions
        → IsVersionOf 1 5 v
        → v.version_number ≤ n)
    × ((n ≡ 0)
        ⊎ ((v : SkillVersion) × Row v (db_one_version active_version).skill_versions
            × IsVersionOf 1 5 v
            × (v.version_number ≡ n)))
next_version_number_lem_example =
    next_version_number_lem 1 5 (open_session (db_one_version active_version) 0)

audit_page_lem_example :
    (older : List AuditLog) × (newest_first
        (audit_page world 2 (select_audit 1 db_active.0) ++ older)
      ≡ true)
    × ((a : AuditLog)
        → Row a (audit_page world 2 (select_audit 1 db_active.0) ++ older)
          ↔ (Row a db_active.0.audit_log × (a.organization_id ≡ 1)))
    × (length (audit_page world 2 (select_audit 1 db_active.0)) ≤ 2)
    × ((older ≡ []) ⊎ (length (audit_page world 2 (select_audit 1 db_active.0)) ≡ 2))
audit_page_lem_example = audit_page_lem world 1 2 db_active.0

hash_version-injective_example :
    (◌≡◌ {A = ℕ} 1 1)
    × (◌≡◌ {A = ℕ} 5 5)
    × (◌≡◌ {A = ℕ} 2 2)
    × (codes "p" ≡ codes "p")
    × (sort_by text_leb (codes "b" ∷ codes "a" ∷ [])
        ≡ sort_by text_leb (codes "a" ∷ codes "b" ∷ []))
unfolding sort_by jarvis_skill_registry.Services.Hashing.hash_version
hash_version-injective_example =
    hash_version-injective (λ t. t) 1 1 5 5 2 2 (codes "p") (codes "p") (codes "b" ∷ codes "a" ∷ [])
      (codes "a" ∷ codes "b" ∷ []) (λ h. h) (omega arith) (omega arith) (omega arith) (omega arith)
      refl

handle-SameSkill_example :
    Moves SameSkill
      (IsOwn owner_abc)
      db_active.0.skills
      (handle world owner_abc
        (Request.disable_skill 100)
        db_active.0
        db_active.1).1.committed.skills
handle-SameSkill_example =
    handle-SameSkill world owner_abc (Request.disable_skill 100) db_active.0 db_active.1

handle-IsRead_example :
    (handle world owner_abc (Request.get_skill 100) db_active.0 db_active.1).1.committed
    ≡ db_active.0
handle-IsRead_example =
    handle-IsRead world owner_abc (Request.get_skill 100) db_active.0 db_active.1
      (IsRead.get_skill 100)
