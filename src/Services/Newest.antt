-- ===== src/Services/Newest.antt =====
-- app/services/audit.py's `list_entries`: which entries a page of the audit log has, in which order.
use jarvis_skill_registry.Prelude.{
  ℕ, zero, suc, ◌≤◌, ◌≡◌, refl, sym, ap, subst, ◌↔◌, ◌⊎◌, inl, inr, leb, ◌==◌, ==_iff, Bool, true,
  List, [], ◌∷◌, ◌++◌, arith,
}
use jarvis_skill_registry.Prelude.Tables.{
  Row, rows_where, Row-rows_where, rows_where-Row, take, length,
}
use jarvis_skill_registry.Prelude.Sorting.{sort_by}
use jarvis_skill_registry.Prelude.Sorted.{chained, chained-sort_by}
use jarvis_skill_registry.Models.{Uuid, AuditLog}
use jarvis_skill_registry.Database.Constraints.{Db}
use jarvis_skill_registry.Session.{World}
use jarvis_skill_registry.Repository.{select_audit}
use jarvis_skill_registry.Prelude.Members.{Row-sort_by, sort_by-Row}
use jarvis_skill_registry.Services.Audit.{newer, audit_page}

-- No entry comes before one that is younger.
abbrev pub newest_first : List AuditLog → Bool
newest_first = chained (λ a b. leb b.created_at a.created_at)

newest_first-sort_by : (w : World) (l : List AuditLog) → newest_first (sort_by (newer w) l) ≡ true
newest_first-sort_by w l =
    chained-sort_by (λ a b. leb b.created_at a.created_at) (newer w) (λ a b h. ground arith)
      (λ a b h. ground arith) l

-- The first `n` of a list, and what follows them.
take-split :
    {A : Type 0} (n : ℕ) (l : List A)
    → (rest : List A) × (l ≡ take n l ++ rest)
      × (length (take n l) ≤ n)
      × ((rest ≡ []) ⊎ (length (take n l) ≡ n))
unfolding take
take-split zero l = (l, refl, ground arith, inr refl)
take-split (suc n) [] = ([], refl, ground arith, inl refl)
take-split (suc n) (x ∷ l) =
    let (rest, split, short, full) = take-split n l in
    (
      rest,
      ap (λ t. x ∷ t) split,
      ground arith,
      elim full [ inl all ↦ inl all | inr full_page ↦ inr (ap suc full_page) ],
    )

-- A page of the audit log has the newest entries of the organization: with some older entries
-- behind it, it is all of the organization's entries and no others, newest first; it has at most
-- `limit` entries, and where it leaves some out it has `limit`.
pub audit_page_lem :
    (w : World) (org : Uuid) (limit : ℕ) (db : Db)
    → (older : List AuditLog) × (newest_first (audit_page w limit (select_audit org db) ++ older)
        ≡ true)
      × ((a : AuditLog)
          → Row a (audit_page w limit (select_audit org db) ++ older)
            ↔ (Row a db.audit_log × (a.organization_id ≡ org)))
      × (length (audit_page w limit (select_audit org db)) ≤ limit)
      × ((older ≡ []) ⊎ (length (audit_page w limit (select_audit org db)) ≡ limit))
unfolding audit_page select_audit
audit_page_lem w org limit db =
    let own = rows_where (λ a. a.organization_id == org) db.audit_log in
    let ordered = sort_by (newer w) own in
    let (older, split, short, full) = take-split limit ordered in
    (
      older,
      subst (λ l. newest_first l ≡ true) split (newest_first-sort_by w own),
      λ a. (
        λ at.
            (let (stamped, stored) =
                Row-rows_where (λ x. x.organization_id == org) a db.audit_log
                  (Row-sort_by (newer w) a own (subst (Row a) (sym split) at)) in
              (stored, (==_iff a.organization_id org).0 stamped)),
        λ (stored, stamped). subst (Row a) split (
            sort_by-Row (newer w) a own (
              rows_where-Row (λ x. x.organization_id == org) a db.audit_log
                ((==_iff a.organization_id org).1 stamped) stored)),
      ),
      short,
      full,
    )
