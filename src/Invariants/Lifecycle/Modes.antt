-- ===== src/Invariants/Lifecycle/Modes.antt =====
-- Which updates of the services are which step of a version's life.
use jarvis_skill_registry.Prelude.{◌≡◌, refl, ◌∙◌, sym, ap, inl, inr, List, arith}
use jarvis_skill_registry.Core.Enums.{VersionStatus}
use jarvis_skill_registry.Models.{SkillVersion, VersionSet, assign_all, assign_version}
use jarvis_skill_registry.Session.{World}
use jarvis_skill_registry.Services.Skills.{SkillService}
use jarvis_skill_registry.Services.Discipline.{StepKind, kind_of, VersionStep}
use jarvis_skill_registry.Invariants.Immutability.{step-SameContent}
use jarvis_skill_registry.Invariants.Moves.{IsMode}
use jarvis_skill_registry.Invariants.Lifecycle.{
  Reviewed, Advanced, IsFresh, SameReview-is_reviewed, Onward-draft, Onward-retired,
}

-- The three ways of a request to change versions.
abbrev pub Creating : StepKind → Type 0
Creating StepKind.create = Unit
Creating _ = ⊥

abbrev pub Reviewing : StepKind → Type 0
Reviewing StepKind.review = Unit
Reviewing _ = ⊥

abbrev pub Advancing : StepKind → Type 0
Advancing StepKind.activate = Unit
Advancing StepKind.supersede = Unit
Advancing StepKind.disable = Unit
Advancing _ = ⊥

module _ (w : World) (svc : SkillService) where
  pub still-IsMode : IsMode w svc (λ _. ⊥) (λ b v. v ≡ b) (λ _. ⊥)
  still-IsMode = record {
    ids = λ v v' e. ap (λ x. x.id) e;
    keep = λ v v' loaded sets step allowed h k. absurd allowed;
    keep_new = λ n loaded sets step allowed fresh. absurd fresh;
    new = λ r new allowed. absurd allowed;
  }

  pub Creating-IsMode : IsMode w svc Creating (λ b v. v ≡ b) IsFresh
  Creating-IsMode = record {
    ids = λ v v' e. ap (λ x. x.id) e;
    keep = keep;
    keep_new = keep_new;
    new = λ r new allowed. record {
      status = new.status;
      unreviewed = new.unreviewed;
      unactivated = new.unactivated;
    };
  }
    where
      keep :
          (v v' loaded : SkillVersion) (sets : List VersionSet) (step : VersionStep svc loaded sets)
          → Creating (kind_of step)
          → loaded ≡ v
          → v' ≡ v
          → assign_all assign_version sets v' ≡ v
      keep v v' loaded sets (VersionStep.review _ _ _) allowed = absurd allowed
      keep v v' loaded sets (VersionStep.activate _ _ _ _) allowed = absurd allowed
      keep v v' loaded sets (VersionStep.supersede _ _) allowed = absurd allowed
      keep v v' loaded sets (VersionStep.disable _ _) allowed = absurd allowed

      keep_new :
          (n loaded : SkillVersion) (sets : List VersionSet) (step : VersionStep svc loaded sets)
          → Creating (kind_of step)
          → IsFresh n
          → IsFresh (assign_all assign_version sets n)
      keep_new n loaded sets (VersionStep.review _ _ _) allowed = absurd allowed
      keep_new n loaded sets (VersionStep.activate _ _ _ _) allowed = absurd allowed
      keep_new n loaded sets (VersionStep.supersede _ _) allowed = absurd allowed
      keep_new n loaded sets (VersionStep.disable _ _) allowed = absurd allowed

  pub Reviewing-IsMode : IsMode w svc Reviewing Reviewed (λ _. ⊥)
  Reviewing-IsMode = record {
    ids = λ v v' e. e.content.id;
    keep = keep;
    keep_new = λ n loaded sets step allowed fresh. absurd fresh;
    new = λ r new allowed. absurd allowed;
  }
    where
      keep :
          (v v' loaded : SkillVersion) (sets : List VersionSet) (step : VersionStep svc loaded sets)
          → Reviewing (kind_of step)
          → Reviewed v loaded
          → Reviewed v v'
          → Reviewed v (assign_all assign_version sets v')
      keep v v' loaded sets (VersionStep.review now draft fresh) allowed h k = record {
        content =
            step-SameContent {svc = svc} v v' loaded sets (VersionStep.review now draft fresh)
              k.content;
        life = record {
          status = k.life.status;
          activated_at = k.life.activated_at;
          activated_by = k.life.activated_by;
        };
        review = inr (
          sym h.life.status ∙ draft,
          elim h.review [
            | inl same ↦ sym (SameReview-is_reviewed v loaded same) ∙ fresh
            | inr (was, unreviewed) ↦ unreviewed
          ],
        );
      }
      keep v v' loaded sets (VersionStep.activate _ _ _ _) allowed h k = absurd allowed
      keep v v' loaded sets (VersionStep.supersede _ _) allowed h k = absurd allowed
      keep v v' loaded sets (VersionStep.disable _ _) allowed h k = absurd allowed

  pub Advancing-IsMode : IsMode w svc Advancing Advanced (λ _. ⊥)
  Advancing-IsMode = record {
    ids = λ v v' e. e.content.id;
    keep = keep;
    keep_new = λ n loaded sets step allowed fresh. absurd fresh;
    new = λ r new allowed. absurd allowed;
  }
    where
      keep :
          (v v' loaded : SkillVersion) (sets : List VersionSet) (step : VersionStep svc loaded sets)
          → Advancing (kind_of step)
          → Advanced v loaded
          → Advanced v v'
          → Advanced v (assign_all assign_version sets v')
      keep v v' loaded sets (VersionStep.review _ _ _) allowed h k = absurd allowed
      keep v v' loaded sets (VersionStep.activate now owner draft reviewed) allowed h k =
          let was = Onward-draft v loaded.status h.status draft in
          let passed = sym (SameReview-is_reviewed v loaded h.review) ∙ reviewed in
          record {
            content =
                step-SameContent {svc = svc} v v' loaded sets
                  (VersionStep.activate now owner draft reviewed) k.content;
            review = record {
              reviewed_at = k.review.reviewed_at;
              reviewed_by = k.review.reviewed_by;
            };
            status = inr (inl (was, passed, λ still. ground arith));
            activation = inr (was, passed);
          }
      keep v v' loaded sets (VersionStep.supersede owner active) allowed h k = record {
        content =
            step-SameContent {svc = svc} v v' loaded sets (VersionStep.supersede owner active)
              k.content;
        review = record { reviewed_at = k.review.reviewed_at; reviewed_by = k.review.reviewed_by };
        status = Onward-retired v loaded.status VersionStatus.superseded h.status active (inl refl);
        activation = k.activation;
      }
      keep v v' loaded sets (VersionStep.disable owner active) allowed h k = record {
        content =
            step-SameContent {svc = svc} v v' loaded sets (VersionStep.disable owner active)
              k.content;
        review = record { reviewed_at = k.review.reviewed_at; reviewed_by = k.review.reviewed_by };
        status = Onward-retired v loaded.status VersionStatus.disabled h.status active (inr refl);
        activation = k.activation;
      }
