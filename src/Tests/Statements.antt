-- ===== src/Tests/Statements.antt =====
-- Statements of a client on a small registry whose audit log names its one version.
use jarvis_skill_registry.Prelude.{◌≡◌, refl, true, some, List, [], ◌∷◌, codes, ◌==◌}
use jarvis_skill_registry.Core.Enums.{VersionStatus, AuditEvent}
use jarvis_skill_registry.Models.{SkillVersion, AuditLog, Payload}
use jarvis_skill_registry.Database.Constraints.{Db, empty_db}
use jarvis_skill_registry.Database.Statements.{Role, Table, Statement, Outcome, Refusal}
use jarvis_skill_registry.Database.Run.{run, run_all}
use jarvis_skill_registry.Database.TamperProof.{IsTamperProof, run-IsTamperProof, run_all-Grows}
use jarvis_skill_registry.Samples.{
  owner_abc, member_abc, active_version, superseded_version, sample_skill,
}

abbrev creation : AuditLog
creation = record {
  id = 90;
  organization_id = 1;
  actor_user_id = 11;
  event = AuditEvent.version_created;
  skill_id = some 5;
  skill_version_id = some 7;
  version_number = some 1;
  payload = Payload.empty;
  created_at = 1;
}

abbrev registry : SkillVersion → Db
registry v = record empty_db {
  organizations = record { id = 1; name = codes "ABC"; slug = codes "abc"; created_at = 0 } ∷ [];
  users = owner_abc ∷ member_abc ∷ [];
  skills = sample_skill ∷ [];
  skill_versions = v ∷ [];
  audit_log = creation ∷ [];
}

abbrev retire : Statement
retire =
    Statement.update_versions (λ v. v.id == 7) (λ v. record v { status = VersionStatus.superseded })

abbrev rewrite : Statement
rewrite = Statement.update_versions (λ v. true) (λ v. record v { prompt_body = codes "q" })

retire_accepted :
    run Role.application retire (registry active_version)
    ≡ Outcome.accepted (registry superseded_version)
unfolding run
retire_accepted = refl

-- The cascade into the log is stopped by the trigger, not by the privileges.
delete_refused :
    run Role.application (Statement.delete_versions (λ v. true)) (registry active_version)
    ≡ Outcome.refused Refusal.append_only
unfolding run
delete_refused = refl

run-IsTamperProof_example : IsTamperProof (registry active_version) (registry superseded_version)
run-IsTamperProof_example =
    run-IsTamperProof Role.application retire (registry active_version)
      (registry superseded_version) retire_accepted

abbrev attempts : List (Role × Statement)
attempts =
    (Role.application, rewrite)
    ∷ (Role.schema_owner, Statement.delete_audit (λ a. true))
    ∷ (Role.schema_owner, Statement.truncate_cascade Table.skills)
    ∷ (Role.application, Statement.insert_audit (record creation { id = 91 }))
    ∷ (Role.application, retire)
    ∷ []

attempts_run :
    (run_all attempts (registry active_version)).audit_log
    ≡ creation ∷ record creation { id = 91 } ∷ []
unfolding run_all
attempts_run = refl

run_all-Grows_example :
    (tail : List AuditLog) × ((run_all attempts (registry active_version)).audit_log
      ≡ creation ∷ tail)
run_all-Grows_example = run_all-Grows attempts (registry active_version)

-- Each statement is within the rules of the trigger, and together they change what was active: the
-- version is retired, rewritten while no rule covers it, and made active again.
abbrev detour : List (Role × Statement)
detour =
    (Role.application, retire)
    ∷ (Role.application, rewrite)
    ∷ (
      Role.application,
      Statement.update_versions (λ v. v.id == 7) (λ v. record v { status = VersionStatus.active }),
    )
    ∷ []

detour_run :
    run_all detour (registry active_version)
    ≡ registry (record active_version { prompt_body = codes "q" })
unfolding run_all
detour_run = refl
