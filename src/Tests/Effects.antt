-- ===== src/Tests/Effects.antt =====
-- Requests that succeed on a small registry: an owner's skill with an active version and a draft.
use jarvis_skill_registry.Prelude.{
  ℕ, ◌≡◌, ◌+◌, refl, true, false, none, some, [], ◌∷◌, codes, arith,
}
use jarvis_skill_registry.Core.Enums.{VersionStatus}
use jarvis_skill_registry.Core.Errors.{ok}
use jarvis_skill_registry.Models.{SkillVersion}
use jarvis_skill_registry.Database.Constraints.{Db, empty_db}
use jarvis_skill_registry.Session.{open_session}
use jarvis_skill_registry.Repository.{load_version, load_skill}
use jarvis_skill_registry.Api.Routes.{Request, Response, handle}
use jarvis_skill_registry.Invariants.Consistency.{IsConsistent}
use jarvis_skill_registry.Invariants.OneOwner.{HasOneOwner}
use jarvis_skill_registry.Prelude.{sym, ◌∙◌}
use jarvis_skill_registry.Prelude.Tables.{All-Row}
use jarvis_skill_registry.Api.Confidential.{IsOwn, handle-IsOwn}
use jarvis_skill_registry.Effects.Fresh.{IsFresh}
use jarvis_skill_registry.Effects.Incumbent.{Incumbent}
use jarvis_skill_registry.Effects.Review.{reviewed_db, review_stamp, handle-review_version}
use jarvis_skill_registry.Effects.Succession.{switched_db, successor}
use jarvis_skill_registry.Effects.Activation.{handle-activate_version}
use jarvis_skill_registry.Effects.Disabled.{disabled_db, disabled_skill}
use jarvis_skill_registry.Effects.Disable.{handle-disable_skill}
use jarvis_skill_registry.Samples.{world, owner_abc, member_abc, active_version, sample_skill}

abbrev draft_version : SkillVersion
draft_version = record active_version {
  id = 8;
  version_number = 2;
  status = VersionStatus.draft;
  reviewed_at = none;
  reviewed_by = none;
  activated_at = none;
  activated_by = none;
}

abbrev reviewed_draft : SkillVersion
reviewed_draft = record draft_version { reviewed_at = some 5; reviewed_by = some 12 }

abbrev two_versions : SkillVersion → Db
two_versions v = record empty_db {
  skills = sample_skill ∷ [];
  skill_versions = active_version ∷ v ∷ [];
}

draft-IsConsistent : IsConsistent (two_versions draft_version)
unfolding jarvis_skill_registry.Prelude.Tables.unique_by
    jarvis_skill_registry.Prelude.Tables.rows_where jarvis_skill_registry.Prelude.Tables.any
    jarvis_skill_registry.Database.Constraints.all_rows
draft-IsConsistent = record {
  skills = record { ids = refl; names = refl };
  versions = record { ids = refl; numbers = refl; positive = refl; one_active = refl };
  grants = record { ids = refl; tools = refl };
  audit = refl;
  version_skills = refl;
  grant_versions = refl;
}

reviewed-IsConsistent : IsConsistent (two_versions reviewed_draft)
unfolding jarvis_skill_registry.Prelude.Tables.unique_by
    jarvis_skill_registry.Prelude.Tables.rows_where jarvis_skill_registry.Prelude.Tables.any
    jarvis_skill_registry.Database.Constraints.all_rows
reviewed-IsConsistent = record {
  skills = record { ids = refl; names = refl };
  versions = record { ids = refl; numbers = refl; positive = refl; one_active = refl };
  grants = record { ids = refl; tools = refl };
  audit = refl;
  version_skills = refl;
  grant_versions = refl;
}

world-IsFresh : IsFresh world [] 50
unfolding jarvis_skill_registry.Prelude.Tables.any
world-IsFresh = record { distinct = λ m n e. omega (arith, e); unused = λ n at. refl }

handle-review_version_example :
    handle world member_abc (Request.review_version 5 2) (two_versions draft_version) 50 ≡ (
      ok (
          Response.version (
            load_version world
              (reviewed_db world member_abc 50 draft_version (two_versions draft_version))
              (review_stamp world member_abc 50 draft_version))),
      open_session (reviewed_db world member_abc 50 draft_version (two_versions draft_version)) 53,
    )
unfolding jarvis_skill_registry.Repository.select_versions
    jarvis_skill_registry.Prelude.Tables.rows_where jarvis_skill_registry.Models.is_reviewed
handle-review_version_example =
    handle-review_version world member_abc 5 2 (two_versions draft_version) 50 draft_version
      draft-IsConsistent world-IsFresh refl refl refl

handle-activate_version_example :
    handle world owner_abc (Request.activate_version 5 2) (two_versions reviewed_draft) 50 ≡ (
      ok (
          Response.activation
            (load_version world
              (switched_db world owner_abc 50 sample_skill reviewed_draft
                (some active_version)
                (two_versions reviewed_draft))
              (successor world owner_abc 50 sample_skill reviewed_draft reviewed_draft))
            true),
      open_session
          (switched_db world owner_abc 50 sample_skill reviewed_draft
            (some active_version)
            (two_versions reviewed_draft))
          55,
    )
unfolding jarvis_skill_registry.Repository.select_versions
    jarvis_skill_registry.Repository.select_skills jarvis_skill_registry.Prelude.Tables.rows_where
    jarvis_skill_registry.Models.is_reviewed
handle-activate_version_example =
    handle-activate_version world owner_abc 5 2 (two_versions reviewed_draft) 50 sample_skill
      reviewed_draft (some active_version) reviewed-IsConsistent world-IsFresh refl refl
      (Incumbent.held active_version refl refl) refl refl refl refl

draft-HasOneOwner : HasOneOwner (two_versions draft_version)
draft-HasOneOwner = record {
  same = λ k v at_k at_v refers.
      All-Row (λ x. x.organization_id ≡ 1) v (active_version ∷ draft_version ∷ [])
        (refl, (refl, tt)) at_v
      ∙ sym (All-Row (λ x. x.organization_id ≡ 1) k (sample_skill ∷ []) (refl, tt) at_k);
}

-- The skill is shown with both of its versions.
handle-IsOwn_example :
    IsOwn world 1
      (handle world owner_abc (Request.get_skill 5) (two_versions draft_version) 50).1.working
      (Response.skill (load_skill world (two_versions draft_version) sample_skill))
unfolding handle jarvis_skill_registry.Repository.select_skills
    jarvis_skill_registry.Services.Skills.get_skill_detail
    jarvis_skill_registry.Repository.get_skill_with_versions
    jarvis_skill_registry.Prelude.Tables.rows_where jarvis_skill_registry.Session.one_or_none
    jarvis_skill_registry.Session.or_raise
handle-IsOwn_example =
    handle-IsOwn world owner_abc (Request.get_skill 5) (two_versions draft_version) 50
      (Response.skill (load_skill world (two_versions draft_version) sample_skill))
      draft-IsConsistent draft-HasOneOwner refl

handle-disable_skill_example :
    handle world owner_abc (Request.disable_skill 5) (two_versions draft_version) 50 ≡ (
      ok (
          Response.skill (
            load_skill world
              (disabled_db world owner_abc sample_skill 5 50
                (some active_version)
                (two_versions draft_version))
              (disabled_skill world owner_abc sample_skill 52 sample_skill))),
      open_session
          (disabled_db world owner_abc sample_skill 5 50
            (some active_version)
            (two_versions draft_version))
          55,
    )
unfolding jarvis_skill_registry.Repository.select_skills
    jarvis_skill_registry.Prelude.Tables.rows_where
handle-disable_skill_example =
    handle-disable_skill world owner_abc 5 (two_versions draft_version) 50 sample_skill
      (some active_version) draft-IsConsistent world-IsFresh refl
      (Incumbent.held active_version refl refl) refl refl
