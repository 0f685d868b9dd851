-- ===== src/Services/Walk.antt =====
-- Every method of the services keeps a predicate that has the rules of `Discipline`.
pub mod Review
pub mod Activation
pub mod Grants
pub mod Routes
use jarvis_skill_registry.Prelude.{
  ℕ, ◌≡◌, refl, ap, ◌∙◌, Text, Bool, true, false, not, Option, none, some, List, [], ◌∷◌, arith,
}
use jarvis_skill_registry.Core.Enums.{SkillStatus, VersionStatus, AuditEvent, version_status_eq}
use jarvis_skill_registry.Core.Errors.{Result, ok, Exception, Constraint}
use jarvis_skill_registry.Core.Tools.{validate_requested_tools}
use jarvis_skill_registry.Models.{
  Uuid, Time, Skill, SkillVersion, ToolGrant, AuditLog, Payload, SkillSet, is_owner, is_reviewed,
}
use jarvis_skill_registry.Session.{
  World, Session, pure, lift, raise_if, draw_uuid, draw_now, flush, mark_durable, commit, attempt,
  ◌>>◌,
}
use jarvis_skill_registry.Session.Keeps.{
  Keeps, Yields, keeps_rules, Keeps-bind, Keeps-then, Keeps-if, Keeps-attempt, Keeps-draw_uuid,
  Keeps-draw_now, Keeps-pure, Keeps-raise_if, Keeps-or_raise,
}
use jarvis_skill_registry.Session.Yields.{
  Drawn, Yields-bind, Yields-lift, Yields-raise_if, Yields-or_raise, Yields-draw_uuid,
}
use jarvis_skill_registry.Repository.{
  VersionDetail, lock_skill, get_version, require_skill, get_skill, get_active_version,
}
use jarvis_skill_registry.Repository.Reads.{
  IsLoaded, reads, Keeps-lock_skill, Yields-lock_skill, Keeps-get_version, Yields-get_version,
  Keeps-get_skill, Yields-get_skill, Keeps-get_skill_with_versions, Yields-get_active_version,
}
use jarvis_skill_registry.Services.Audit
use jarvis_skill_registry.Services.Audit.{record_event}
use jarvis_skill_registry.Services.Hashing.{hash_version}
use jarvis_skill_registry.Services.Skills.{
  SkillService, SkillCreateRequest, SkillUpdateRequest, VersionCreateRequest, require_owner,
  lock_or_raise, require_version, get_skill_detail, assign_metadata, set_metadata, set_status,
  add_requests, store_skill, flush_new_skill, record_creation, version_row, skill_row,
  store_version, flush_with_requests, create_version_row, translate_conflict, create_skill,
  record_changes, update_skill, create_version, check_reviewable, mark_reviewed, finish_review,
  review_found, review_version, disable_version, disable_enabled, disable_skill,
}
use jarvis_skill_registry.Services.Discipline.{
  Discipline, StepKind, VersionStep, NewSkill, NewVersion, NewGrant, NewAudit,
}

pub status_of_eq : (a b : VersionStatus) → version_status_eq a b ≡ true → a ≡ b
status_of_eq a b h = ground arith

ok-injective : {A : Type 0} {a b : A} → ◌≡◌ {A = Result A} (ok a) (ok b) → b ≡ a
ok-injective e = cc

pub not-false : (b : Bool) → not b ≡ false → b ≡ true
not-false true h = refl
not-false false h = cc

module _ {P : Session → Type 0} (w : World) (svc : SkillService) (d : Discipline w svc P) where
  open d use {OwnSkill, OwnVersion, OwnGrant}

  pub walk-draw_uuid : Keeps P (draw_uuid w)
  walk-draw_uuid = Keeps-draw_uuid d.still w

  pub walk-draw_now : Keeps P (draw_now w)
  walk-draw_now = Keeps-draw_now d.still w

  pub walk-commit : Keeps P commit
  unfolding commit
  walk-commit = Keeps-bind flush (λ _. mark_durable) d.flushes (λ _ _. d.commits)

  pub walk-add_audit :
      (r : AuditLog)
      → Drawn w r.id
      → r.actor_user_id ≡ svc.actor.id
      → Keeps P (Audit.add_audit svc.organization_id r)
  unfolding Audit.add_audit
  walk-add_audit r drawn actor =
      let new : NewAudit w svc (record r { organization_id = svc.organization_id }) = record {
        drawn = drawn;
        org = refl;
        actor = actor;
      } in
      search (keeps_rules, d.add_audit)

  pub walk-Drawn : (id : Uuid) → Yields P (draw_uuid w) id → Drawn w id
  walk-Drawn id y = Yields-draw_uuid w y

  pub ruleset draws = (keeps_rules, walk-draw_uuid, walk-draw_now, walk-Drawn)

  pub walk-record_event :
      (e : AuditEvent) (s : Option Skill) (v : Option SkillVersion) (p : Payload)
      → Keeps P (record_event w svc.organization_id svc.actor e s v p)
  unfolding record_event
  walk-record_event e s v p = search (draws, walk-add_audit)

  pub Keeps-lock_or_raise : (id : Uuid) → Keeps P (lock_or_raise w svc id)
  unfolding lock_or_raise
  Keeps-lock_or_raise id = search (keeps_rules, reads)

  pub locked-Own : (id : Uuid) {r : Skill} → Yields P (lock_or_raise w svc id) r → OwnSkill r
  unfolding lock_or_raise
  locked-Own id {r} y =
      let (o, found, raised) =
        Yields-bind (lock_skill w svc.organization_id id) _ (Keeps-lock_skill w _ id) y in
      let e = Yields-or_raise o _ raised in
      let (s, h, row, at) = Yields-lock_skill w _ id (rw e at found) in d.read_skill s r h row

  pub Keeps-require_version : (id : Uuid) (n : ℕ) → Keeps P (require_version w svc id n)
  unfolding require_version
  Keeps-require_version id n = search (keeps_rules, reads)

  pub required-IsLoaded :
      (id : Uuid) (n : ℕ) {r : VersionDetail}
      → Yields P (require_version w svc id n) r
      → (s : Session) × P s × IsLoaded w svc.organization_id s r
  unfolding require_version
  required-IsLoaded id n {r} y =
      let (o, found, raised) =
        Yields-bind (get_version w svc.organization_id id n) _ (Keeps-get_version w _ id n) y in
      let e = Yields-or_raise o _ raised in
      let (s, h, loaded, _, _) = Yields-get_version w _ id n (rw e at found) in (s, h, loaded)

  pub required-Own :
      (id : Uuid) (n : ℕ) {r : VersionDetail}
      → Yields P (require_version w svc id n) r
      → OwnVersion r.version
  required-Own id n {r} y =
      let (s, h, loaded) = required-IsLoaded id n y in d.read_version s r h loaded

  pub Keeps-get_skill_detail : (id : Uuid) → Keeps P (get_skill_detail w svc id)
  unfolding get_skill_detail
  Keeps-get_skill_detail id = search (keeps_rules, reads)

  pub Keeps-require_skill : (id : Uuid) → Keeps P (require_skill w svc.organization_id id)
  unfolding require_skill
  Keeps-require_skill id = search (keeps_rules, reads)

  pub required_skill-Own :
      (id : Uuid) {r : Skill} → Yields P (require_skill w svc.organization_id id) r → OwnSkill r
  unfolding require_skill
  required_skill-Own id {r} y =
      let (o, found, raised) =
        Yields-bind (get_skill w svc.organization_id id) _ (Keeps-get_skill w _ id) y in
      let e = Yields-or_raise o _ raised in
      let (s, h, row, at) = Yields-get_skill w _ id (rw e at found) in d.read_skill s r h row

  pub Keeps-require_owner : Keeps P (require_owner w svc)
  unfolding require_owner
  Keeps-require_owner = search keeps_rules

  pub required_owner : {u : Unit {0}} → Yields P (require_owner w svc) u → is_owner svc.actor ≡ true
  unfolding require_owner
  required_owner y = not-false (is_owner svc.actor) (Yields-raise_if _ _ y)

  pub walk-assign_metadata :
      (r : Skill) (sets : List SkillSet) → OwnSkill r → Keeps P (assign_metadata w svc r sets)
  unfolding assign_metadata
  walk-assign_metadata r sets own = search (draws, d.set_skill)

  pub walk-set_metadata :
      (r : Skill) (sets : List SkillSet) → OwnSkill r → Keeps P (set_metadata w svc r sets)
  unfolding set_metadata
  walk-set_metadata r sets own = search (keeps_rules, walk-assign_metadata)

  pub walk-set_status :
      (r : Skill) (status : SkillStatus) → OwnSkill r → Keeps P (set_status w svc r status)
  unfolding set_status
  walk-set_status r status own = search (keeps_rules, walk-assign_metadata)

  pub walk-add_grant :
      (r : ToolGrant)
      → Drawn w r.id
      → Drawn w r.skill_version_id
      → r.granted ≡ false
      → Keeps P (Audit.add_grant svc.organization_id r)
  unfolding Audit.add_grant
  walk-add_grant r drawn version ungranted =
      let new : NewGrant w svc (record r { organization_id = svc.organization_id }) = record {
        drawn = drawn;
        version = version;
        org = refl;
        ungranted = ungranted;
      } in
      search (keeps_rules, d.add_grant)

  pub walk-add_version :
      (r : SkillVersion)
      → Drawn w r.id
      → r.status ≡ VersionStatus.draft
      → r.reviewed_by ≡ none
      → r.activated_by ≡ none
      → (names : List Text) × (validate_requested_tools w.lower names ≡ ok r.requested_tools)
      → r.content_hash
        ≡ hash_version w.sha256 svc.organization_id r.skill_id r.version_number r.prompt_body
            r.requested_tools
      → d.may StepKind.create
      → Keeps P (Audit.add_version svc.organization_id r)
  unfolding Audit.add_version
  walk-add_version r drawn status unreviewed unactivated tools hash allowed =
      let new : NewVersion w svc (record r { organization_id = svc.organization_id }) = record {
        drawn = drawn;
        org = refl;
        status = status;
        unreviewed = unreviewed;
        unactivated = unactivated;
        tools = tools;
        hash = hash;
      } in
      search (keeps_rules, d.add_version)

  pub walk-add_requests :
      (id : Uuid) (tools : List Text) → Drawn w id → Keeps P (add_requests w svc id tools)
  unfolding add_requests
  walk-add_requests id [] drawn = Keeps-pure tt
  walk-add_requests id (tool ∷ tools) drawn =
      let rest = walk-add_requests id tools drawn in search (draws, walk-add_grant)

  -- The tools of a new version have passed the validation.
  abbrev Validated : List Text → Type 0
  Validated tools = (names : List Text) × (validate_requested_tools w.lower names ≡ ok tools)

  pub walk-Validated :
      (names tools : List Text)
      → Yields P (lift (validate_requested_tools w.lower names)) tools
      → Validated tools
  walk-Validated names tools y = (names, Yields-lift _ y)

  pub walk-add_version_row :
      (r : Skill) (n : ℕ) (body : Text) (tools : List Text) (id : Uuid) (now : Time)
      → Drawn w id
      → Validated tools
      → d.may StepKind.create
      → Keeps P (Audit.add_version svc.organization_id (version_row w svc r n body tools id now))
  unfolding version_row
  walk-add_version_row r n body tools id now drawn valid allowed =
      walk-add_version (version_row w svc r n body tools id now) drawn refl refl refl valid refl
        allowed

  added_version-Drawn :
      (r : SkillVersion) (v : SkillVersion)
      → Yields P (Audit.add_version svc.organization_id r) v
      → Drawn w r.id
      → Drawn w v.id
  unfolding Audit.add_version
  added_version-Drawn r v y drawn = (drawn.0, ap (λ x. x.id) (ok-injective y.returned) ∙ drawn.1)

  pub walk-flush_with_requests :
      (v : SkillVersion) (tools : List Text)
      → Drawn w v.id
      → Keeps P (flush_with_requests w svc v tools)
  unfolding flush_with_requests
  walk-flush_with_requests v tools drawn =
      let requests = walk-add_requests v.id tools drawn in
      let flushes = d.flushes in search (keeps_rules, requests, flushes) depth 12

  pub walk-requests_of_added :
      (r v : SkillVersion) (tools : List Text)
      → Yields P (Audit.add_version svc.organization_id r) v
      → Drawn w r.id
      → Keeps P (flush_with_requests w svc v tools)
  walk-requests_of_added r v tools y drawn =
      walk-flush_with_requests v tools (added_version-Drawn r v y drawn)

  pub walk-store_version :
      (r : SkillVersion) (tools : List Text)
      → Drawn w r.id
      → Keeps P (Audit.add_version svc.organization_id r)
      → Keeps P (store_version w svc r tools)
  unfolding store_version
  walk-store_version r tools drawn added = search (keeps_rules, walk-requests_of_added)

  version_row-Drawn :
      (r : Skill) (n : ℕ) (body : Text) (tools : List Text) (id : Uuid) (now : Time)
      → Drawn w id
      → Drawn w (version_row w svc r n body tools id now).id
  unfolding version_row
  version_row-Drawn r n body tools id now drawn = drawn

  pub walk-create_version_row :
      (r : Skill) (n : ℕ) (body : Text) (tools : List Text)
      → Validated tools
      → d.may StepKind.create
      → Keeps P (create_version_row w svc r n body tools)
  unfolding create_version_row
  walk-create_version_row r n body tools valid allowed =
      search (draws, walk-add_version_row, version_row-Drawn, walk-store_version) depth 12

  pub walk-add_skill :
      (r : Skill)
      → Drawn w r.id
      → r.status ≡ SkillStatus.draft
      → r.created_by ≡ svc.actor.id
      → Keeps P (Audit.add_skill svc.organization_id r)
  unfolding Audit.add_skill
  walk-add_skill r drawn status creator =
      let new : NewSkill w svc (record r { organization_id = svc.organization_id }) = record {
        drawn = drawn;
        org = refl;
        status = status;
        creator = creator;
      } in
      search (keeps_rules, d.add_skill)

  pub walk-add_skill_row :
      (p : SkillCreateRequest) (id : Uuid) (created updated : Time)
      → Drawn w id
      → Keeps P (Audit.add_skill svc.organization_id (skill_row w svc p id created updated))
  unfolding skill_row
  walk-add_skill_row p id created updated drawn =
      walk-add_skill (skill_row w svc p id created updated) drawn refl refl

  pub walk-translate_conflict :
      (name : Text) (failure : Option Exception) → Keeps P (translate_conflict w svc name failure)
  unfolding translate_conflict
  walk-translate_conflict name none = search keeps_rules
  walk-translate_conflict name
        (some (Exception.integrity Constraint.uq_skills_organization_id_name)) =
      search (keeps_rules, d.rolls_back)
  walk-translate_conflict name (some (Exception.integrity c)) = search (keeps_rules, d.rolls_back)
  walk-translate_conflict name (some e) = search keeps_rules

  pub ruleset steps = (
    draws, reads, walk-commit, walk-record_event, walk-Validated, walk-create_version_row,
    Keeps-get_skill_detail, Keeps-require_version, Keeps-lock_or_raise, Keeps-require_skill,
    Keeps-require_owner, locked-Own, required-Own, required_skill-Own, required_owner,
  )

  pub walk-flush_new_skill : (r : Skill) → Keeps P (flush_new_skill w svc r)
  unfolding flush_new_skill
  walk-flush_new_skill r =
      Keeps-bind (attempt flush) (λ failure. translate_conflict w svc r.name failure >> pure r)
        (Keeps-attempt flush d.flushes)
        (λ failure _.
          Keeps-bind (translate_conflict w svc r.name failure) (λ _. pure r)
            (walk-translate_conflict r.name failure) (λ _ _. Keeps-pure r))

  pub walk-store_skill :
      (r : Skill) → Keeps P (Audit.add_skill svc.organization_id r) → Keeps P (store_skill w svc r)
  unfolding store_skill
  walk-store_skill r added = search (keeps_rules, added, walk-flush_new_skill)

  pub walk-record_creation :
      (r : Skill) (v : SkillVersion) (tools : List Text) → Keeps P (record_creation w svc r v tools)
  unfolding record_creation
  walk-record_creation r v tools = search (keeps_rules, walk-record_event)

  pub walk-create_skill :
      (p : SkillCreateRequest) → d.may StepKind.create → Keeps P (create_skill w svc p)
  unfolding create_skill
  walk-create_skill p allowed =
      search (steps, walk-add_skill_row, walk-store_skill, walk-record_creation) depth 20 fits 20000

  pub walk-update_skill : (id : Uuid) (p : SkillUpdateRequest) → Keeps P (update_skill w svc id p)
  unfolding update_skill record_changes
  walk-update_skill id p = search (steps, walk-set_metadata) depth 12

  pub walk-create_version :
      (id : Uuid) (p : VersionCreateRequest)
      → d.may StepKind.create
      → Keeps P (create_version w svc id p)
  unfolding create_version
  walk-create_version id p allowed = search steps depth 12

  -- The active version of a skill, as the repository returned it.
  abbrev pub OwnActive : Option VersionDetail → Type 0
  OwnActive none = Unit
  OwnActive (some v) = OwnVersion v.version × (v.version.status ≡ VersionStatus.active)

  pub active-OwnActive :
      (id : Uuid) (found : Option VersionDetail)
      → Yields P (get_active_version w svc.organization_id id) found
      → OwnActive found
  active-OwnActive id none y = tt
  active-OwnActive id (some v) y =
      let (s, h, loaded, _, active) = Yields-get_active_version w _ id y in
      (d.read_version s v h loaded, active)

  pub walk-disable_version :
      (r : Skill) (v : Option VersionDetail)
      → is_owner svc.actor ≡ true
      → OwnActive v
      → d.may StepKind.disable
      → Keeps P (disable_version w svc r v)
  unfolding disable_version
  walk-disable_version r none owner own allowed = search keeps_rules
  walk-disable_version r (some v) owner (own, active) allowed =
      Keeps-then (d.set_version v.version _ own (VersionStep.disable owner active) allowed)
        (search (keeps_rules, walk-record_event))

  pub walk-disable_enabled :
      (id : Uuid) (r : Skill)
      → is_owner svc.actor ≡ true
      → OwnSkill r
      → d.may StepKind.disable
      → Keeps P (disable_enabled w svc id r)
  unfolding disable_enabled
  walk-disable_enabled id r owner own allowed =
      search (steps, walk-disable_version, active-OwnActive, walk-set_status) depth 12

  pub walk-disable_skill : (id : Uuid) → d.may StepKind.disable → Keeps P (disable_skill w svc id)
  unfolding disable_skill
  walk-disable_skill id allowed = search (steps, walk-disable_enabled)
