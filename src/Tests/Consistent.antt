-- ===== src/Tests/Consistent.antt =====
-- The sample registry satisfies its keys.
use jarvis_skill_registry.Prelude.{refl}
use jarvis_skill_registry.Invariants.Consistency.{IsConsistent}
use jarvis_skill_registry.Samples.{db0}

pub db0-IsConsistent : IsConsistent db0
unfolding jarvis_skill_registry.Prelude.Tables.unique_by
    jarvis_skill_registry.Prelude.Tables.rows_where
    jarvis_skill_registry.Database.Constraints.all_rows
db0-IsConsistent = record {
  skills = record { ids = refl; names = refl };
  versions = record { ids = refl; numbers = refl; positive = refl; one_active = refl };
  grants = record { ids = refl; tools = refl };
  audit = refl;
  version_skills = refl;
  grant_versions = refl;
}
