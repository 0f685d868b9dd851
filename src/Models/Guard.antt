-- ===== src/Models/Guard.antt =====
-- app/models/events.py: the `before_update` guard on an active version. `loaded` is the object as
-- the session read it, `target` the object with its assignments; a column has changes where the
-- two differ.
use jarvis_skill_registry.Prelude.{
  Text, text_eq, Bool, true, false, not, ◌&&◌, List, [], ◌∷◌, ◌==◌, if◌then◌else◌,
}
use jarvis_skill_registry.Core.Enums.{VersionStatus, version_status_eq}
use jarvis_skill_registry.Models.{SkillVersion}

unfoldable pub texts_eq : List Text → List Text → Bool
unfolding text_eq
texts_eq [] [] = true
texts_eq (a ∷ s) (b ∷ t) = text_eq a b && texts_eq s t
texts_eq _ _ = false

-- `LEGAL_TRANSITIONS_FROM_ACTIVE`
abbrev pub legal_from_active : VersionStatus → Bool
legal_from_active VersionStatus.superseded = true
legal_from_active VersionStatus.disabled = true
legal_from_active _ = false

-- No column of `SkillVersion.CONTENT_COLUMNS` has changed.
unfoldable pub same_content : SkillVersion → SkillVersion → Bool
unfolding texts_eq text_eq
same_content a b =
    text_eq a.prompt_body b.prompt_body
    && (texts_eq a.requested_tools b.requested_tools
        && (text_eq a.content_hash b.content_hash && a.version_number == b.version_number))

-- `true` where the guard returns, `false` where it raises `ImmutableVersionError`.
unfoldable pub guard_active_version_immutability : SkillVersion → SkillVersion → Bool
unfolding same_content
guard_active_version_immutability loaded target =
    let status_changed = not (version_status_eq loaded.status target.status) in
    let previous_status = if status_changed then loaded.status else target.status in
    if not (version_status_eq previous_status VersionStatus.active)
    then true
    else if not (same_content loaded target)
    then false
    else if status_changed && not (legal_from_active target.status)
    then false
    else true
