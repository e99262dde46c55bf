-- ===== src/Fixtures/Catalogue/Consistency/Agreement.antt =====
-- What `ValidateConsistency` promises of the checked-in documents.
use indexjack.Prelude.{
  true, false, ◌&&◌, not, List, [], ◌∷◌, Option-cases, ok, >>=-eq-ok, >>-eq-ok, if-eq-ok, Text,
  text_eq, text_eq_iff, member, any, find?, Within, Within-find?, map-Within, map, Distinct, ◌≡◌,
  ◌⊎◌, inl, inr, arith,
}
use indexjack.SourcePolicy.{Source, Policy}
use indexjack.BuildManifest
use indexjack.BuildManifest.{Dependency}
use indexjack.LockFile.{Lock}
use indexjack.Registry.{FixtureSet}
use indexjack.Fixtures
use indexjack.Fixtures.{Scenario, scenario_id, Candidate, resolver_secure, resolver_combined_index}
use indexjack.Fixtures.Catalogue.{
  Catalogue, wrapped, unknown, ArtifactInfo, artifacts, registry_set, registry_urls,
}
use indexjack.Fixtures.Catalogue.Consistency.{
  Served, is_at, invert, check_resolver, check_source, check_sources, check_scenario,
  check_scenarios, validate_consistency,
}
use indexjack.Fixtures.Catalogue.Consistency.Locks.{
  IsAgreed, check_resolver-inv, check_dependencies-IsAgreed,
}
use indexjack.Fixtures.Catalogue.Published.{wrapped-eq-ok}

-- A source of a policy that a checked-in registry serves.
pub record IsServed {T : Type 0} (cat : Catalogue T) (served : List Served) (s : Scenario)
    (source : Source) : Type 0 where
  pub id : Text
  pub listed : Within (id, source.url) served
  pub set : FixtureSet
  pub built : registry_set cat id ≡ ok set
  pub role : set.role ≡ source.role
  pub marked : set.vulnerable ≡ true → s.vulnerable ≡ true

pub record IsConsistent {T : Type 0} (cat : Catalogue T) (served : List Served)
    (built : List ArtifactInfo) (s : Scenario) : Type 0 where
  pub resolver :
      (s.resolver ≡ resolver_secure)
      ⊎ ((s.resolver ≡ resolver_combined_index) × (s.vulnerable ≡ true))
  pub policy : Policy
  pub has_policy : Fixtures.source_policy cat.embedded s.source_policy ≡ ok policy
  pub manifest : BuildManifest.Manifest
  pub has_manifest : Fixtures.build_manifest cat.embedded s.manifest ≡ ok manifest
  pub lock : Lock
  pub has_lock : Fixtures.lock_document cat.embedded s.lock ≡ ok lock
  pub candidate : Candidate
  pub has_candidate : Fixtures.load_candidate cat.embedded s.candidate ≡ ok candidate
  pub sources : (x : Source) → Within x policy.sources → IsServed cat served s x
  pub dependencies :
      (d : Dependency) → Within d manifest.dependencies → IsAgreed built policy lock d

invert-Within :
    (seen rest out : List Served) (x : Served)
    → invert seen rest ≡ ok out
    → Within x out
    → Within x seen ⊎ Within x rest
unfolding invert
invert-Within seen [] out x h w = let e : seen ≡ out = cc in inl (rw e w)
invert-Within seen ((id, url) ∷ rest) out x h w =
    let (fresh, more) =
      if-eq-ok (any (is_at url) seen) unknown (invert ((id, url) ∷ seen) rest) h in
    elim (invert-Within ((id, url) ∷ seen) rest out x more w) [
      | inl front ↦ elim front [ inl here ↦ inr (inl here) | inr there ↦ inl there ]
      | inr behind ↦ inr (inr behind)
    ]

module _ {T : Type 0} (cat : Catalogue T) (served : List Served) (s : Scenario) where
  check_source-IsServed :
      (source : Source) → check_source cat served s source ≡ ok tt → IsServed cat served s source
  unfolding check_source
  check_source-IsServed source h = elim (Option-cases (find? (is_at source.url) served)) [
    | inl e ↦ absurd (ground (arith, e, h))
    | inr ((id, url), e) ↦
        let (w, at) = Within-find? (is_at source.url) served (id, url) e in
        let (set, f, h1) = >>=-eq-ok (registry_set cat id) _ (rw (e, check_source) at h) in
        let (role, h2) = if-eq-ok (not (text_eq set.role source.role)) unknown _ h1 in
        let (marked, h3) = if-eq-ok (set.vulnerable && not s.vulnerable) unknown (ok tt) h2 in
        let same : url ≡ source.url = (text_eq_iff url source.url).0 at in
        record {
          id = id;
          listed = rw (← same) w;
          set = set;
          built = f;
          role = ground (arith, role, text_eq_iff set.role source.role);
          marked = λ v. ground (arith, marked, v);
        }
  ]

  check_sources-IsServed :
      (sources : List Source)
      → check_sources cat served s sources ≡ ok tt
      → (x : Source) → Within x sources
      → IsServed cat served s x
  unfolding check_sources
  check_sources-IsServed [] h x w = elim w [ ]
  check_sources-IsServed (source ∷ sources) h x w =
      let (first, rest) = >>-eq-ok (check_source cat served s source) _ h in
      elim w [
        | inl here ↦ rw here (check_source-IsServed source first)
        | inr there ↦ check_sources-IsServed sources rest x there
      ]

  check_scenario-IsConsistent :
      (built : List ArtifactInfo)
      → check_scenario cat served built s ≡ ok tt
      → IsConsistent cat served built s
  unfolding check_scenario
  check_scenario-IsConsistent built h =
      let (r, h0) = >>-eq-ok (check_resolver s) _ h in
      let (p, ep, h1) =
        >>=-eq-ok (wrapped _ (Fixtures.source_policy cat.embedded s.source_policy)) _ h0 in
      let (m, em, h2) =
        >>=-eq-ok (wrapped _ (Fixtures.build_manifest cat.embedded s.manifest)) _ h1 in
      let (l, el, h3) = >>=-eq-ok (wrapped _ (Fixtures.lock_document cat.embedded s.lock)) _ h2 in
      let (c, ec, h4) =
        >>=-eq-ok (wrapped _ (Fixtures.load_candidate cat.embedded s.candidate)) _ h3 in
      let (sources, deps) = >>-eq-ok (check_sources cat served s p.sources) _ h4 in
      record {
        resolver = check_resolver-inv s r;
        policy = p;
        has_policy = wrapped-eq-ok _ (Fixtures.source_policy cat.embedded s.source_policy) p ep;
        manifest = m;
        has_manifest = wrapped-eq-ok _ (Fixtures.build_manifest cat.embedded s.manifest) m em;
        lock = l;
        has_lock = wrapped-eq-ok _ (Fixtures.lock_document cat.embedded s.lock) l el;
        candidate = c;
        has_candidate = wrapped-eq-ok _ (Fixtures.load_candidate cat.embedded s.candidate) c ec;
        sources = check_sources-IsServed p.sources sources;
        dependencies = check_dependencies-IsAgreed built p l m.dependencies deps;
      }

module _ {T : Type 0} (cat : Catalogue T) (served : List Served) (built : List ArtifactInfo) where
  check_scenarios-unseen :
      (seen : List Text) (ss : List Scenario)
      → check_scenarios cat served built seen ss ≡ ok tt
      → (t : Scenario) → Within t ss
      → member t.id seen ≡ false
  unfolding check_scenarios member
  check_scenarios-unseen seen [] h t w = elim w [ ]
  check_scenarios-unseen seen (s ∷ ss) h t w =
      let (fresh, more) = if-eq-ok (member s.id seen) unknown _ h in
      let (first, rest) = >>-eq-ok (check_scenario cat served built s) _ more in
      elim w [
        | inl here ↦ rw here fresh
        | inr there ↦ ground (arith, check_scenarios-unseen (s.id ∷ seen) ss rest t there)
      ]

  check_scenarios-IsConsistent :
      (seen : List Text) (ss : List Scenario)
      → check_scenarios cat served built seen ss ≡ ok tt
      → Distinct (map scenario_id ss)
        × ((s : Scenario) → Within s ss → IsConsistent cat served built s)
  unfolding check_scenarios member
  check_scenarios-IsConsistent seen [] h = (tt, λ s w. elim w [ ])
  check_scenarios-IsConsistent seen (s ∷ ss) h =
      let (fresh, more) = if-eq-ok (member s.id seen) unknown _ h in
      let (first, rest) = >>-eq-ok (check_scenario cat served built s) _ more in
      let (distinct, all) = check_scenarios-IsConsistent (s.id ∷ seen) ss rest in
      (
        (
          λ w.
              let (t, v, e) = map-Within scenario_id ss s.id w in
              ground
                (arith, e, text_eq_iff t.id s.id, check_scenarios-unseen (s.id ∷ seen) ss rest t v),
          distinct,
        ),
        λ x w. elim w [
          | inl here ↦ rw here (check_scenario-IsConsistent cat served s built first)
          | inr there ↦ all x there
        ],
      )

widened :
    {T : Type 0} (cat : Catalogue T) (few many : List Served) (built : List ArtifactInfo)
    (s : Scenario)
    → ((x : Served) → Within x few → Within x many)
    → IsConsistent cat few built s
    → IsConsistent cat many built s
widened cat few many built s within c = record {
  resolver = c.resolver;
  policy = c.policy;
  has_policy = c.has_policy;
  manifest = c.manifest;
  has_manifest = c.has_manifest;
  lock = c.lock;
  has_lock = c.has_lock;
  candidate = c.candidate;
  has_candidate = c.has_candidate;
  sources = λ x w.
      let v = c.sources x w in
      record {
        id = v.id;
        listed = within (v.id, x.url) v.listed;
        set = v.set;
        built = v.built;
        role = v.role;
        marked = v.marked;
      };
  dependencies = c.dependencies;
}

-- What the checked-in documents are where they agree.
pub record IsAgreement {T : Type 0} (cat : Catalogue T) : Type 0 where
  pub urls : List Served
  pub served : registry_urls cat ≡ ok urls
  pub built : List ArtifactInfo
  pub reproduced : artifacts cat ≡ ok built
  pub all : List Scenario
  pub read : Fixtures.scenarios cat.embedded ≡ ok all
  pub distinct : Distinct (map scenario_id all)
  pub consistent : (s : Scenario) → Within s all → IsConsistent cat urls built s

-- Where the consistency check passes, the scenario ids are distinct, and each scenario names a
-- known resolver, the combined index only if it is marked vulnerable, and documents that load; each
-- source of its policy is served by a listed registry of that role, one of the vulnerable half only
-- if the scenario is marked; and each dependency has a lock record of its name that an artifact
-- built from the sources matches in name, version, size and digest, and whose source is the bound
-- one where the mapping is exclusive.
pub validate_consistency-IsAgreement :
    {T : Type 0} (cat : Catalogue T) → validate_consistency cat ≡ ok tt → IsAgreement cat
unfolding validate_consistency
validate_consistency-IsAgreement cat h =
    let (urls, eu, h1) = >>=-eq-ok (registry_urls cat) _ h in
    let (served, es, h2) = >>=-eq-ok (invert [] urls) _ h1 in
    let (built, eb, h3) = >>=-eq-ok (artifacts cat) _ h2 in
    let (all, ea, h4) = >>=-eq-ok (wrapped _ (Fixtures.scenarios cat.embedded)) _ h3 in
    let (distinct, consistent) = check_scenarios-IsConsistent cat served built [] all h4 in
    record {
      urls = urls;
      served = eu;
      built = built;
      reproduced = eb;
      all = all;
      read = wrapped-eq-ok _ (Fixtures.scenarios cat.embedded) all ea;
      distinct = distinct;
      consistent = λ s w.
          widened cat served urls built s
            (λ x v. elim (invert-Within [] urls served x es v) [
              | inl none_of ↦ elim none_of [ ]
              | inr there ↦ there
            ])
            (consistent s w);
    }
