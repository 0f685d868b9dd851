-- ===== src/Database/Layers.antt =====
-- The application's guard (app/models/events.py) and the database's trigger (alembic 0002) on an
-- active version, against one description of what may happen to it.
use jarvis_skill_registry.Prelude.{
  ℕ, ◌≡◌, sym, ◌↔◌, ◌⊎◌, inl, inr, refl, Text, text_eq_iff, text_eq_sound, text_eq_refl, Bool, true,
  false, not, ◌&&◌, ◌||◌, ◌==◌, ==_iff, List, [], ◌∷◌, arith, Bool-cases, if◌then◌else◌,
}
use jarvis_skill_registry.Prelude.Tables.{Row, any-false-Row}
use jarvis_skill_registry.Core.Enums.{VersionStatus, version_status_eq}
use jarvis_skill_registry.Core.Errors.{ok}
use jarvis_skill_registry.Models.{SkillVersion, VersionSet, assign_all, assign_version}
use jarvis_skill_registry.Models.Guard.{
  texts_eq, same_content, legal_from_active, guard_active_version_immutability,
}
use jarvis_skill_registry.Database.Trigger.{trigger_accepts, stays_or_retires}
use jarvis_skill_registry.Database.Constraints.{Db}
use jarvis_skill_registry.Database.Write.{Write, apply_write, trigger_refuses}
use jarvis_skill_registry.Database.Inversion.{updated_version}

texts_eq_sound : (s t : List Text) → texts_eq s t ≡ true → s ≡ t
unfolding texts_eq
texts_eq_sound [] [] h = refl
texts_eq_sound [] (b ∷ t) h = ground arith
texts_eq_sound (a ∷ s) [] h = ground arith
texts_eq_sound (a ∷ s) (b ∷ t) h = ground (arith, text_eq_sound a b, texts_eq_sound s t)

texts_eq_refl : (s : List Text) → texts_eq s s ≡ true
unfolding texts_eq
texts_eq_refl [] = refl
texts_eq_refl (a ∷ s) = ground (arith, text_eq_refl a, texts_eq_refl s)

-- The content columns, as `CONTENT_COLUMNS` and the trigger list them.
pub record SameColumns (v t : SkillVersion) : Type 0 where
  pub prompt_body : t.prompt_body ≡ v.prompt_body
  pub requested_tools : t.requested_tools ≡ v.requested_tools
  pub content_hash : t.content_hash ≡ v.content_hash
  pub version_number : t.version_number ≡ v.version_number

-- An active version stays active, or is superseded or disabled.
abbrev pub StaysOrRetires : VersionStatus → Type 0
StaysOrRetires s =
    (s ≡ VersionStatus.active) ⊎ (s ≡ VersionStatus.superseded) ⊎ (s ≡ VersionStatus.disabled)

pub same_content_iff : (v t : SkillVersion) → (same_content v t ≡ true) ↔ SameColumns v t
unfolding same_content
same_content_iff v t = (
  λ h. ground (
    arith,
    text_eq_sound v.prompt_body t.prompt_body,
    texts_eq_sound v.requested_tools t.requested_tools,
    text_eq_sound v.content_hash t.content_hash,
  ),
  λ h. ground (
    arith,
    (text_eq_iff v.prompt_body t.prompt_body).1,
    texts_eq_refl v.requested_tools,
    (text_eq_iff v.content_hash t.content_hash).1,
  ),
)

pub status_active :
    (s : VersionStatus) → version_status_eq s VersionStatus.active ≡ true → s ≡ VersionStatus.active
status_active s h = ground arith

stays_sound : (s : VersionStatus) → stays_or_retires s ≡ true → StaysOrRetires s
stays_sound VersionStatus.draft h = cc
stays_sound VersionStatus.active h = inl refl
stays_sound VersionStatus.superseded h = inr (inl refl)
stays_sound VersionStatus.disabled h = inr (inr refl)

-- What the trigger lets an UPDATE of an active row do.
pub record IsFrozen (old new : SkillVersion) : Type 0 where
  pub columns : SameColumns old new
  pub organization_id : new.organization_id ≡ old.organization_id
  pub skill_id : new.skill_id ≡ old.skill_id
  pub status : StaysOrRetires new.status

pub trigger-IsFrozen :
    (old new : SkillVersion)
    → old.status ≡ VersionStatus.active
    → trigger_accepts old new ≡ true
    → IsFrozen old new
unfolding trigger_accepts
trigger-IsFrozen old new active h = elim (Bool-cases (same_content new old)) [
  | inr changed ↦ absurd (cc (rw (active, changed) at h))
  | inl same ↦
      (let columns = (same_content_iff new old).0 same in
        record {
          columns = ground arith;
          organization_id = ground arith;
          skill_id = ground arith;
          status = stays_sound new.status (ground arith);
        })
]

not_refused : (a b : ℕ) (t : Bool) → a ≡ b → a == b && not t ≡ false → t ≡ true
not_refused a b t e h = ground (arith, (==_iff a b).1)

-- Whatever assignments an UPDATE makes, from whatever code and however stale the loaded object,
-- if the database accepts it then every stored row that was active and that it matches keeps its
-- prompt, tools, hash, number, organization and skill, and is active, superseded or disabled
-- afterwards.
pub update_version-IsFrozen :
    (db db' : Db) (loaded : SkillVersion) (sets : List VersionSet) (v : SkillVersion)
    → apply_write (Write.update_version loaded sets) db ≡ ok db'
    → Row v db.skill_versions
    → v.id ≡ loaded.id
    → v.status ≡ VersionStatus.active
    → IsFrozen v (assign_all assign_version sets v)
unfolding trigger_refuses
update_version-IsFrozen db db' loaded sets v e row same active =
    let refused =
      any-false-Row
        (λ x. x.id == loaded.id && not (trigger_accepts x (assign_all assign_version sets x))) v
        db.skill_versions ((updated_version db loaded sets e).triggered) row in
    trigger-IsFrozen v (assign_all assign_version sets v) active
      (not_refused v.id loaded.id _ same refused)

same_content_sym : (v t : SkillVersion) → same_content v t ≡ true → same_content t v ≡ true
same_content_sym v t h =
    let columns = (same_content_iff v t).0 h in
    (same_content_iff t v).1 (record {
      prompt_body = sym columns.prompt_body;
      requested_tools = sym columns.requested_tools;
      content_hash = sym columns.content_hash;
      version_number = sym columns.version_number;
    })

same_content_comm : (v t : SkillVersion) → same_content v t ≡ same_content t v
same_content_comm v t = ground (arith, same_content_sym v t, same_content_sym t v)

-- The two decisions, of the same comparisons.
layers :
    (same org skill : Bool) (before after : VersionStatus)
    → (if version_status_eq before VersionStatus.active
        then (if not same
            then false
            else if not (org && skill)
            then false
            else stays_or_retires after)
        else true)
      ≡ ((let status_changed = not (version_status_eq before after) in
            let previous_status = if status_changed then before else after in
            if not (version_status_eq previous_status VersionStatus.active)
            then true
            else if not same
            then false
            else if status_changed && not (legal_from_active after)
            then false
            else true)
          && (not (version_status_eq before VersionStatus.active) || org && skill))
layers same org skill VersionStatus.draft VersionStatus.draft = refl
layers same org skill VersionStatus.draft VersionStatus.active = refl
layers same org skill VersionStatus.draft VersionStatus.superseded = refl
layers same org skill VersionStatus.draft VersionStatus.disabled = refl
layers true org skill VersionStatus.active VersionStatus.draft = ground arith
layers false org skill VersionStatus.active VersionStatus.draft = ground arith
layers true org skill VersionStatus.active VersionStatus.active = ground arith
layers false org skill VersionStatus.active VersionStatus.active = ground arith
layers true org skill VersionStatus.active VersionStatus.superseded = ground arith
layers false org skill VersionStatus.active VersionStatus.superseded = ground arith
layers true org skill VersionStatus.active VersionStatus.disabled = ground arith
layers false org skill VersionStatus.active VersionStatus.disabled = ground arith
layers same org skill VersionStatus.superseded VersionStatus.draft = refl
layers same org skill VersionStatus.superseded VersionStatus.active = refl
layers same org skill VersionStatus.superseded VersionStatus.superseded = refl
layers same org skill VersionStatus.superseded VersionStatus.disabled = refl
layers same org skill VersionStatus.disabled VersionStatus.draft = refl
layers same org skill VersionStatus.disabled VersionStatus.active = refl
layers same org skill VersionStatus.disabled VersionStatus.superseded = refl
layers same org skill VersionStatus.disabled VersionStatus.disabled = refl

-- For an object that is as the database has it, the two layers differ in ownership alone: the
-- trigger accepts exactly the updates that the guard accepts and that, on an active version, change
-- neither its organization nor its skill.
pub trigger-eq-guard :
    (v t : SkillVersion)
    → trigger_accepts v t ≡ (
        guard_active_version_immutability v t
        && (not (version_status_eq v.status VersionStatus.active)
            || t.organization_id == v.organization_id && t.skill_id == v.skill_id))
unfolding trigger_accepts guard_active_version_immutability
trigger-eq-guard v t = rw (same_content_comm t v) (
    layers (same_content v t) (t.organization_id == v.organization_id) (t.skill_id == v.skill_id)
      v.status t.status)
