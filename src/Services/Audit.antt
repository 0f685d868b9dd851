-- ===== src/Services/Audit.antt =====
-- app/services/audit.py, and `ScopedRepository.add`, which stamps the organization on a new row.
use jarvis_skill_registry.Prelude.{ℕ, Option, none, some, List, Bool, ◌==◌, ltb, ◌||◌, ◌&&◌}
use jarvis_skill_registry.Prelude.Tables.{take}
use jarvis_skill_registry.Prelude.Sorting.{sort_by, insert}
use jarvis_skill_registry.Core.Enums.{AuditEvent, event_value}
use jarvis_skill_registry.Models.{Uuid, User, Skill, SkillVersion, ToolGrant, AuditLog, Payload}
use jarvis_skill_registry.Database.Write.{Write}
use jarvis_skill_registry.Repository.{select_audit}
use jarvis_skill_registry.Session.{
  World, Exec, pure, query, queue, draw_uuid, draw_now, ◌>>=◌, ◌>>◌,
}

-- An attribute that the constructor call does not give; `add` overwrites the organization.
abbrev pub unset : Uuid
unset = 0

module _ (org : Uuid) where
  unfoldable pub add_skill : Skill → Exec Skill
  unfolding ◌>>=◌ queue
  add_skill row_given =
      let row = record row_given { organization_id = org } in
      do queue (Write.insert_skill row); pure row

  unfoldable pub add_version : SkillVersion → Exec SkillVersion
  unfolding ◌>>=◌ queue
  add_version row_given =
      let row = record row_given { organization_id = org } in
      do queue (Write.insert_version row); pure row

  unfoldable pub add_grant : ToolGrant → Exec ToolGrant
  unfolding ◌>>=◌ queue
  add_grant row_given =
      let row = record row_given { organization_id = org } in
      do queue (Write.insert_grant row); pure row

  unfoldable pub add_audit : AuditLog → Exec AuditLog
  unfolding ◌>>=◌ queue
  add_audit row_given =
      let row = record row_given { organization_id = org } in
      do queue (Write.insert_audit row); pure row

-- `skill.id if skill is not None else (version.skill_id if version else None)`
abbrev pub subject_skill : Option Skill → Option SkillVersion → Option Uuid
subject_skill (some s) version = some s.id
subject_skill none (some v) = some v.skill_id
subject_skill none none = none

abbrev pub subject_version : Option SkillVersion → Option Uuid
subject_version none = none
subject_version (some v) = some v.id

abbrev pub subject_number : Option SkillVersion → Option ℕ
subject_number none = none
subject_number (some v) = some v.version_number

module _ (w : World) (org : Uuid) (actor : User) where
  -- `AuditRecorder.record`
  unfoldable pub record_event :
      AuditEvent → Option Skill → Option SkillVersion → Payload → Exec AuditLog
  unfolding add_audit draw_uuid draw_now
  record_event event skill version payload = do
    id ← draw_uuid w
    created_at ← draw_now w
    add_audit org (record {
      id = id;
      organization_id = unset;
      actor_user_id = actor.id;
      event = event;
      skill_id = subject_skill skill version;
      skill_version_id = subject_version version;
      version_number = subject_number version;
      payload = payload;
      created_at = created_at;
    })

-- ORDER BY created_at DESC, event; the event's text is ordered by the database's collation.
abbrev pub newer : World → AuditLog → AuditLog → Bool
newer w a b =
    ltb b.created_at a.created_at
    || a.created_at == b.created_at && w.collation (event_value a.event) (event_value b.event)

-- `AuditRecorder.list_entries`
unfoldable pub audit_page : World → ℕ → List AuditLog → List AuditLog
unfolding take sort_by insert event_value
audit_page w limit rows = take limit (sort_by (newer w) rows)

module _ (w : World) (org : Uuid) where
  unfoldable pub list_entries : ℕ → Exec (List AuditLog)
  unfolding audit_page select_audit
  list_entries limit = query (λ db. audit_page w limit (select_audit org db))
