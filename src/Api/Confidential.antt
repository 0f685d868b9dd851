-- ===== src/Api/Confidential.antt =====
-- app/api/routers and app/db/repository.py: whose rows an answer has.
use jarvis_skill_registry.Prelude.{
  ℕ, zero, suc, ◌≡◌, refl, sym, ap, ◌∙◌, subst, inl, inr, Bool, true, false, ◌==◌, ==_iff, Text,
  Option, List, [], ◌∷◌, map, if◌then◌else◌,
}
use jarvis_skill_registry.Prelude.Tables.{Row, rows_where, Row-rows_where, take}
use jarvis_skill_registry.Prelude.Members.{Row-sort_by}
use jarvis_skill_registry.Core.Errors.{Result, ok, err}
use jarvis_skill_registry.Models.{Uuid, User, Skill, SkillVersion, AuditLog}
use jarvis_skill_registry.Database.Constraints.{Db}
use jarvis_skill_registry.Session.{
  World, Session, Exec, pure, query, settle, continue, open_session, with_session, one_or_none,
  or_raise, ◌>>=◌,
}
use jarvis_skill_registry.Invariants.Consistency.{IsConsistent}
use jarvis_skill_registry.Invariants.OneOwner.{HasOneOwner, IsTidy, handle-IsTidy}
use jarvis_skill_registry.Session.Keeps.{Yields}
use jarvis_skill_registry.Session.Yields.{Yields-bind, Yields-or_raise}
use jarvis_skill_registry.Repository.Reads.{Keeps-get_version, Yields-get_version}
use jarvis_skill_registry.Repository.{
  SkillDetail, VersionDetail, load_skill, load_version, versions_of, select_skills, select_versions,
  select_audit, get_version, get_skill_with_versions, list_skills, active_skill_versions,
}
use jarvis_skill_registry.Repository.Selection.{active_rows_iff}
use jarvis_skill_registry.Services.Audit.{list_entries, audit_page}
use jarvis_skill_registry.Services.Skills.{
  SkillService, SkillCreateRequest, SkillUpdateRequest, VersionCreateRequest, ToolGrantRequest,
  skill_not_found, get_skill_detail, require_version, create_skill, update_skill, create_version,
  review_version, review_found, finish_review, disable_skill, disable_enabled,
}
use jarvis_skill_registry.Services.Grants.{grant_tools, grant_found}
use jarvis_skill_registry.Services.Activation.{
  ActivationResult, activate, activate_found, activate_inactive, switch_versions,
}
use jarvis_skill_registry.Api.Routes.{
  Request, Response, route, handle, get_skill_service, active_skill_response, ActiveSkillResponse,
}

-- An entry of the runtime selection is that of a stored skill and a stored version of it, both of
-- the organization.
pub record IsOwnEntry (w : World) (org : Uuid) (db : Db) (x : ActiveSkillResponse) : Type 0 where
  pub skill : Skill
  pub version : SkillVersion
  pub at_skill : Row skill db.skills
  pub at_version : Row version db.skill_versions
  pub skill_organization : skill.organization_id ≡ org
  pub version_organization : version.organization_id ≡ org
  pub joined : version.skill_id ≡ skill.id
  pub is : x ≡ active_skill_response (skill, load_version w db version)

-- Every skill, every version and every audit entry that the answer has is of the organization, the
-- versions of a skill and those that the runtime loads included.
pub data IsOwn (w : World) (org : Uuid) (db : Db) : Response → Type 0 where
  active_skills :
      (rows : List ActiveSkillResponse)
      → ((x : ActiveSkillResponse) → Row x rows → IsOwnEntry w org db x)
      → IsOwn w org db (Response.active_skills rows)
  skills :
      (rows : List Skill)
      → ((x : Skill) → Row x rows → x.organization_id ≡ org)
      → IsOwn w org db (Response.skills rows)
  skill :
      (d : SkillDetail)
      → d.skill.organization_id ≡ org
      → ((v : VersionDetail) → Row v d.versions → v.version.organization_id ≡ org)
      → IsOwn w org db (Response.skill d)
  version :
      (d : VersionDetail) → d.version.organization_id ≡ org → IsOwn w org db (Response.version d)
  activation :
      (d : VersionDetail) (changed : Bool)
      → d.version.organization_id ≡ org
      → IsOwn w org db (Response.activation d changed)
  audit :
      (rows : List AuditLog)
      → ((x : AuditLog) → Row x rows → x.organization_id ≡ org)
      → IsOwn w org db (Response.audit rows)

-- What an action returns and the session that it leaves have the property.
pub record Ensures {A : Type 0} (Q : A → Session → Type 0) (m : Exec A) : Type 0 where
  pub at : (s : Session) (a : A) → (m s).0 ≡ ok a → Q a (m s).1

module _ {A B : Type 0} where
  continued :
      (r : Result A) (f : A → Exec B) (s : Session) (P : A → Session → Type 0)
      (Q : B → Session → Type 0) (b : B)
      → ((a : A) → r ≡ ok a → P a s)
      → ((a : A) → P a s → (f a s).0 ≡ ok b → Q b (f a s).1)
      → (continue r f s).0 ≡ ok b
      → Q b (continue r f s).1
  continued (ok a) f s P Q b first next e = next a (first a refl) e
  continued (err x) f s P Q b first next e = absurd (cc e)

  Ensures-bind :
      (m : Exec A) (f : A → Exec B) (P : A → Session → Type 0) (Q : B → Session → Type 0)
      → Ensures P m
      → ((a : A) (s : Session) → P a s → Ensures Q (f a))
      → Ensures Q (m >>= f)
  unfolding ◌>>=◌
  Ensures-bind m f P Q first next = record {
    at = λ s b e.
        continued (m s).0 f (m s).1 P Q b (λ a r. first.at s a r)
          (λ a p. (next a (m s).1 p).at (m s).1 b) e;
  }

  -- What comes before the last action does not matter.
  Ensures-last :
      (m : Exec A) (f : A → Exec B) (Q : B → Session → Type 0)
      → ((a : A) → Ensures Q (f a))
      → Ensures Q (m >>= f)
  Ensures-last m f Q next =
      Ensures-bind m f (λ _ _. Unit) Q (record { at = λ s a e. tt }) (λ a s _. next a)

  -- The result is made from that of the last action, in the session that it leaves.
  Ensures-map :
      (m : Exec A) (f : A → B) (P : A → Session → Type 0) (Q : B → Session → Type 0)
      → Ensures P m
      → ((a : A) (s : Session) → P a s → Q (f a) s)
      → Ensures Q (m >>= λ a. pure (f a))
  unfolding ◌>>=◌ pure
  Ensures-map m f P Q first next = record {
    at = λ s b e.
        continued (m s).0 (λ a. pure (f a)) (m s).1 P Q b (λ a r. first.at s a r)
          (λ a p r. subst (λ x. Q x (m s).1) (cc r) (next a (m s).1 p)) e;
  }

Ensures-pure :
    {A : Type 0} (Q : A → Session → Type 0) (a : A) → ((s : Session) → Q a s) → Ensures Q (pure a)
unfolding pure
Ensures-pure Q a q = record { at = λ s b e. subst (λ x. Q x s) (cc e) (q s) }

abbrev Any : Session → Type 0
Any s = Unit

Row-map :
    {A B : Type 0} (f : A → B) (l : List A) (y : B)
    → Row y (map f l)
    → (x : A) × Row x l × (y ≡ f x)
Row-map f [] y row = absurd row
Row-map f (x ∷ l) y (inl e) = (x, inl refl, e)
Row-map f (x ∷ l) y (inr row) = let (z, at, e) = Row-map f l y row in (z, inr at, e)

Row-take : {A : Type 0} (n : ℕ) (l : List A) (x : A) → Row x (take n l) → Row x l
unfolding take
Row-take zero l x row = absurd row
Row-take (suc n) [] x row = absurd row
Row-take (suc n) (y ∷ l) x (inl e) = inl e
Row-take (suc n) (y ∷ l) x (inr row) = inr (Row-take n l x row)

module _ (w : World) (svc : SkillService) where
  abbrev OwnVersion : VersionDetail → Session → Type 0
  OwnVersion d s = d.version.organization_id ≡ svc.organization_id

  -- With its versions, in tables where they are those of the skill's organization.
  abbrev OwnSkill : SkillDetail → Session → Type 0
  OwnSkill d s =
      IsTidy svc.organization_id s.working
      → (d.skill.organization_id ≡ svc.organization_id)
        × ((v : VersionDetail) → Row v d.versions → v.version.organization_id ≡ svc.organization_id)

  load_skill-own :
      (db : Db) (k : Skill)
      → IsTidy svc.organization_id db
      → Row k db.skills
      → k.organization_id ≡ svc.organization_id
      → (v : VersionDetail) → Row v (load_skill w db k).versions
      → v.version.organization_id ≡ svc.organization_id
  unfolding load_skill versions_of load_version
  load_skill-own db k tidy at own v row =
      let (r, there, made) = Row-map (load_version w db) _ v row in
      let (refers, stored) =
        Row-rows_where (λ x. x.skill_id == k.id) r db.skill_versions (Row-sort_by _ r _ there) in
      ap (λ x. x.version.organization_id) made
      ∙ tidy.own k r at own stored ((==_iff r.skill_id k.id).0 refers)

  Ensures-require_version : (id : Uuid) (n : ℕ) → Ensures OwnVersion (require_version w svc id n)
  unfolding require_version select_versions
  Ensures-require_version id n = record {
    at = λ s d e.
        let y : Yields Any (require_version w svc id n) d = record {
          from = s;
          before = tt;
          returned = e;
        } in
        let (o, q, r) =
          Yields-bind (get_version w svc.organization_id id n) _
            (Keeps-get_version w svc.organization_id id n) y in
        let same = Yields-or_raise o _ r in
        let (t, _, loaded, _, _) = Yields-get_version w svc.organization_id id n (rw same at q) in
        (==_iff d.version.organization_id svc.organization_id).0 (
          (Row-rows_where (λ v. v.organization_id == svc.organization_id) d.version
            t.working.skill_versions loaded.row).0);
  }

  -- A SELECT and the choice of its row leave the session as it was.
  detail-OwnSkill :
      (id : Uuid) (rows : List SkillDetail) (s : Session) (d : SkillDetail)
      → ((x : SkillDetail) → Row x rows → OwnSkill x s)
      → ((one_or_none rows >>= λ found. or_raise found (skill_not_found id)) s).0 ≡ ok d
      → OwnSkill d ((one_or_none rows >>= λ found. or_raise found (skill_not_found id)) s).1
  unfolding one_or_none or_raise ◌>>=◌
  detail-OwnSkill id [] s d own e = absurd (cc e)
  detail-OwnSkill id (x ∷ []) s d own e =
      let same : x ≡ d = cc in subst (λ y. OwnSkill y s) same (own x (inl refl))
  detail-OwnSkill id (x ∷ y ∷ rows) s d own e = absurd (cc e)

  Ensures-get_skill_detail : (id : Uuid) → Ensures OwnSkill (get_skill_detail w svc id)
  unfolding get_skill_detail get_skill_with_versions select_skills query ◌>>=◌ load_skill
  Ensures-get_skill_detail id = record {
    at = λ s d e.
        detail-OwnSkill id
          (map (load_skill w s.working)
            (rows_where (λ x. x.id == id) (select_skills svc.organization_id s.working)))
          s d
          (λ x row tidy.
            let (k, at, made) = Row-map (load_skill w s.working) _ x row in
            let (_, scoped) =
              Row-rows_where (λ y. y.id == id) k (select_skills svc.organization_id s.working) at in
            let (mine, stored) =
              Row-rows_where (λ y. y.organization_id == svc.organization_id) k s.working.skills
                scoped in
            let own = (==_iff k.organization_id svc.organization_id).0 mine in
            (
              ap (λ y. y.skill.organization_id) made ∙ own,
              λ v at_v.
                  load_skill-own s.working k tidy stored own v
                    (subst (λ y. Row v y.versions) made at_v),
            ))
          e;
  }

Ensures-if :
    {A : Type 0} (Q : A → Session → Type 0) (b : Bool) (m n : Exec A)
    → Ensures Q m
    → Ensures Q n
    → Ensures Q (if b then m else n)
Ensures-if Q true m n first second = first
Ensures-if Q false m n first second = second

Ensures-query :
    {A : Type 0} (Q : A → Session → Type 0) (f : Db → A)
    → ((s : Session) → Q (f s.working) s)
    → Ensures Q (query f)
unfolding query
Ensures-query Q f every = record { at = λ s a e. subst (λ x. Q x s) (cc e) (every s) }

module _ (w : World) (svc : SkillService) where
  ruleset ensures_rules =
      (Ensures-last, Ensures-if, Ensures-require_version, Ensures-get_skill_detail)

  Ensures-create_skill : (p : SkillCreateRequest) → Ensures (OwnSkill w svc) (create_skill w svc p)
  unfolding create_skill
  Ensures-create_skill p = search ensures_rules depth 16

  Ensures-update_skill :
      (id : Uuid) (p : SkillUpdateRequest) → Ensures (OwnSkill w svc) (update_skill w svc id p)
  unfolding update_skill
  Ensures-update_skill id p = search ensures_rules depth 16

  Ensures-disable_skill : (id : Uuid) → Ensures (OwnSkill w svc) (disable_skill w svc id)
  unfolding disable_skill disable_enabled
  Ensures-disable_skill id = search ensures_rules depth 16

  Ensures-create_version :
      (id : Uuid) (p : VersionCreateRequest)
      → Ensures (OwnVersion w svc) (create_version w svc id p)
  unfolding create_version
  Ensures-create_version id p = search ensures_rules depth 16

  Ensures-review_version :
      (id : Uuid) (n : ℕ) → Ensures (OwnVersion w svc) (review_version w svc id n)
  unfolding review_version review_found finish_review
  Ensures-review_version id n = search ensures_rules depth 16

  Ensures-grant_tools :
      (id : Uuid) (n : ℕ) (p : ToolGrantRequest)
      → Ensures (OwnVersion w svc) (grant_tools w svc id n p)
  unfolding grant_tools grant_found
  Ensures-grant_tools id n p = search ensures_rules depth 16

  OwnResult : ActivationResult → Session → Type 0
  OwnResult r s = OwnVersion w svc r.version s

  Ensures-switch_versions :
      (id : Uuid) (n : ℕ) (k : Skill) (v : SkillVersion)
      → Ensures OwnResult (switch_versions w svc id n k v)
  unfolding switch_versions OwnResult
  Ensures-switch_versions id n k v = Ensures-last _ _ _ (λ now. Ensures-last _ _ _ (λ incumbent.
      Ensures-last _ _ _ (λ _. Ensures-last _ _ _ (λ _. Ensures-last _ _ _ (λ _.
        Ensures-last _ _ _ (λ _. Ensures-last _ _ _ (λ _.
          Ensures-map _ _ (OwnVersion w svc) _ (Ensures-require_version w svc id n)
            (λ d s own. own))))))))

  Ensures-activate : (id : Uuid) (n : ℕ) → Ensures OwnResult (activate w svc id n)
  unfolding activate activate_found activate_inactive OwnResult
  Ensures-activate id n = Ensures-last _ _ _ (λ k.
      Ensures-bind _ _ (OwnVersion w svc) _ (Ensures-require_version w svc id n) (λ found s own.
        Ensures-last _ _ _ (λ _.
          Ensures-if _ _ _ _ (Ensures-pure _ _ (λ _. own))
            (Ensures-last _ _ _ (λ _. Ensures-switch_versions id n k found.version)))))

  abbrev OwnRows : {A : Type 0} → (A → Uuid) → List A → Session → Type 0
  OwnRows {A} org_of rows s = (x : A) → Row x rows → org_of x ≡ svc.organization_id

  abbrev OwnPairs : List (Skill × VersionDetail) → Session → Type 0
  OwnPairs rows s =
      (p : Skill × VersionDetail)
      → Row p rows
      → IsOwnEntry w svc.organization_id s.working (active_skill_response p)

  Ensures-list_skills :
      Ensures (OwnRows (λ (k : Skill). k.organization_id)) (list_skills w svc.organization_id)
  unfolding list_skills select_skills
  Ensures-list_skills = Ensures-query _ _ (λ s x row.
      (==_iff x.organization_id svc.organization_id).0 (
        (Row-rows_where (λ k. k.organization_id == svc.organization_id) x s.working.skills
          (Row-sort_by _ x _ row)).0))

  Ensures-list_entries :
      (limit : ℕ)
      → Ensures
          (OwnRows (λ (a : AuditLog). a.organization_id))
          (list_entries w svc.organization_id limit)
  unfolding list_entries audit_page select_audit
  Ensures-list_entries limit = Ensures-query _ _ (λ s x row.
      (==_iff x.organization_id svc.organization_id).0 (
        (Row-rows_where (λ a. a.organization_id == svc.organization_id) x s.working.audit_log
          (Row-sort_by _ x _ (Row-take limit _ x row))).0))

  Ensures-active_skill_versions :
      (department : Option Text)
      → Ensures OwnPairs (active_skill_versions w svc.organization_id department)
  unfolding active_skill_versions
  Ensures-active_skill_versions department = Ensures-query _ _ (λ s p row.
      let (offered, loaded) =
        (active_rows_iff w svc.organization_id department s.working p).0 row in
      record {
        skill = p.0;
        version = p.1.version;
        at_skill = offered.skill;
        at_version = offered.version;
        skill_organization = offered.skill_organization;
        version_organization = offered.version_organization;
        joined = offered.joined;
        is = ap (λ found. active_skill_response (p.0, found)) loaded;
      })

  -- The answer, in tables where the versions of a skill are those of its organization.
  abbrev OwnAnswer : Response → Session → Type 0
  OwnAnswer response s =
      IsTidy svc.organization_id s.working → IsOwn w svc.organization_id s.working response

  Ensures-skill :
      (m : Exec SkillDetail)
      → Ensures (OwnSkill w svc) m
      → Ensures OwnAnswer (m >>= λ d. pure (Response.skill d))
  Ensures-skill m own =
      Ensures-map _ _ (OwnSkill w svc) _ own
        (λ d s h tidy. let (mine, versions) = h tidy in IsOwn.skill d mine versions)

  Ensures-version :
      (m : Exec VersionDetail)
      → Ensures (OwnVersion w svc) m
      → Ensures OwnAnswer (m >>= λ d. pure (Response.version d))
  Ensures-version m own = Ensures-map _ _ (OwnVersion w svc) _ own (λ d s h tidy. IsOwn.version d h)

  -- The routes.
  Ensures-route : (request : Request) → Ensures OwnAnswer (route w svc request)
  unfolding route OwnResult
  Ensures-route (Request.list_active_skills department) =
      Ensures-map _ _ OwnPairs _ (Ensures-active_skill_versions department) (λ rows s own tidy.
        IsOwn.active_skills (map active_skill_response rows) (λ x row.
          let (p, at, e) = Row-map active_skill_response rows x row in
          subst (IsOwnEntry w svc.organization_id s.working) (sym e) (own p at)))
  Ensures-route (Request.create_skill p) = Ensures-skill _ (Ensures-create_skill p)
  Ensures-route Request.list_skills =
      Ensures-map _ _ (OwnRows (λ (k : Skill). k.organization_id)) _ Ensures-list_skills
        (λ rows s own tidy. IsOwn.skills rows own)
  Ensures-route (Request.get_skill id) = Ensures-skill _ (Ensures-get_skill_detail w svc id)
  Ensures-route (Request.update_skill id p) = Ensures-skill _ (Ensures-update_skill id p)
  Ensures-route (Request.create_version id p) = Ensures-version _ (Ensures-create_version id p)
  Ensures-route (Request.review_version id n) = Ensures-version _ (Ensures-review_version id n)
  Ensures-route (Request.activate_version id n) =
      Ensures-map _ _ OwnResult _ (Ensures-activate id n)
        (λ r s own tidy. IsOwn.activation r.version r.changed own)
  Ensures-route (Request.grant_tools id n p) = Ensures-version _ (Ensures-grant_tools id n p)
  Ensures-route (Request.disable_skill id) = Ensures-skill _ (Ensures-disable_skill id)
  Ensures-route (Request.list_audit limit) =
      Ensures-map _ _ (OwnRows (λ (a : AuditLog). a.organization_id)) _ (Ensures-list_entries limit)
        (λ rows s own tidy. IsOwn.audit rows own)

-- A request that is answered ends in the session that its route leaves.
settled :
    {A : Type 0} (Q : A → Session → Type 0) (r : Result A) (s : Session) (a : A)
    → ((b : A) → r ≡ ok b → Q b s)
    → (settle r s).0 ≡ ok a
    → Q a (settle r s).1
settled Q (ok b) s a q e = subst (λ x. Q x s) (cc e) (q b refl)
settled Q (err x) s a q e = absurd (cc e)

-- If the stored tables satisfy their keys and every version has the organization of its skill, then
-- every skill, every version and every audit entry of the answer to a request is of the caller's
-- organization: the version or the skill that it names, each version that a skill is shown with, and
-- each skill and version that the runtime loads, which are rows of the tables as the request's
-- session has them at its end.
pub handle-IsOwn :
    (w : World) (user : User) (request : Request) (db : Db) (tick : ℕ) (response : Response)
    → IsConsistent db
    → HasOneOwner db
    → (handle w user request db tick).0 ≡ ok response
    → IsOwn w user.organization_id (handle w user request db tick).1.working response
unfolding handle with_session
handle-IsOwn w user request db tick response valid owners answered =
    let svc = get_skill_service user in
    let outcome = route w svc request (open_session db tick) in
    settled (OwnAnswer w svc) outcome.0 outcome.1 response
      (λ a e. (Ensures-route w svc request).at (open_session db tick) a e) answered
      (handle-IsTidy w user request db tick valid owners)
