-- ===== src/Invariants/Reading.antt =====
-- The requests that only read: the GET routes of app/api/routers/skills.py and audit.py.
use jarvis_skill_registry.Prelude.{ℕ, ◌≡◌, refl, Text, Option}
use jarvis_skill_registry.Core.Errors.{Result, ok, err}
use jarvis_skill_registry.Models.{Uuid, User}
use jarvis_skill_registry.Database.Constraints.{Db}
use jarvis_skill_registry.Session.{World, Session, open_session, settle, with_session}
use jarvis_skill_registry.Session.Keeps.{Keeps, keeps_rules, Keeps-bind, Keeps-pure, Keeps-query}
use jarvis_skill_registry.Repository.Reads.{reads}
use jarvis_skill_registry.Services.Skills.{get_skill_detail}
use jarvis_skill_registry.Services.Audit.{list_entries}
use jarvis_skill_registry.Api.Routes.{Request, Response, route, handle, get_skill_service}

pub data IsRead : Request → Type 0 where
  list_active_skills : (department : Option Text) → IsRead (Request.list_active_skills department)
  list_skills : IsRead Request.list_skills
  get_skill : (skill_id : Uuid) → IsRead (Request.get_skill skill_id)
  list_audit : (limit : ℕ) → IsRead (Request.list_audit limit)

module _ (w : World) (user : User) (db : Db) where
  abbrev Untouched : Session → Type 0
  Untouched s = s.committed ≡ db

  get_skill_detail-Keeps :
      (skill_id : Uuid) → Keeps Untouched (get_skill_detail w (get_skill_service user) skill_id)
  unfolding get_skill_detail
  get_skill_detail-Keeps skill_id = search (keeps_rules, reads)

  list_entries-Keeps : (limit : ℕ) → Keeps Untouched (list_entries w user.organization_id limit)
  unfolding list_entries
  list_entries-Keeps limit = Keeps-query _

  route-Keeps :
      (request : Request)
      → IsRead request
      → Keeps Untouched (route w (get_skill_service user) request)
  unfolding route
  route-Keeps _ (IsRead.list_active_skills department) = search (keeps_rules, reads)
  route-Keeps _ IsRead.list_skills = search (keeps_rules, reads)
  route-Keeps _ (IsRead.get_skill skill_id) =
      Keeps-bind (get_skill_detail w (get_skill_service user) skill_id) _
        (get_skill_detail-Keeps skill_id) (λ x _. Keeps-pure _)
  route-Keeps _ (IsRead.list_audit limit) =
      Keeps-bind (list_entries w user.organization_id limit) _ (list_entries-Keeps limit)
        (λ x _. Keeps-pure _)

-- A request that reads the skills in force, the skills, one skill or the audit log leaves the
-- database as it was, answered or refused.
pub handle-IsRead :
    (w : World) (user : User) (request : Request) (db : Db) (tick : ℕ)
    → IsRead request
    → (handle w user request db tick).1.committed ≡ db
unfolding handle with_session
handle-IsRead w user request db tick reading =
    let m = route w (get_skill_service user) request in
    settled (m (open_session db tick)).0 (m (open_session db tick)).1
      ((route-Keeps w user db request reading).at (open_session db tick) refl)
  where
    settled : (r : Result Response) (s : Session) → s.committed ≡ db → (settle r s).1.committed ≡ db
    settled (ok body) s h = h
    settled (err e) s h = h
