-- ===== src/Fixtures/Catalogue/Consistency.antt =====
-- internal/fixtures/fixtures.go: the function `ValidateConsistency`, loop by loop.
pub mod Locks
pub mod Agreement
use indexjack.Prelude.{
  if◌then◌else◌, Bool, ◌&&◌, not, List, [], ◌∷◌, Option, none, some, Result, ok, err, ◌>>=◌, ◌>>◌,
  Text, text_eq, member, any, find?, int_eq,
}
use indexjack.SourcePolicy
use indexjack.SourcePolicy.{Source, Policy, mode_exclusive}
use indexjack.BuildManifest.{Dependency}
use indexjack.LockFile
use indexjack.LockFile.{Lock, Record}
use indexjack.Fixtures
use indexjack.Fixtures.{Scenario, resolver_secure, resolver_combined_index}
use indexjack.Fixtures.Catalogue.{
  Catalogue, Error, no_lock_record, unresolved_name, fixture_error, wrapped, unknown, ArtifactInfo,
  artifacts, registry_set, registry_urls,
}

-- A registry and where it is served.
abbrev pub Served : Type 0
Served = Text × Text

abbrev pub is_at : Text → Served → Bool
is_at url (id, u) = text_eq u url

-- The loop that inverts the map of URLs.
pub invert : List Served → List Served → Result Error (List Served)
invert seen [] = ok seen
invert seen ((id, url) ∷ rest) =
    let more = invert ((id, url) ∷ seen) rest in if any (is_at url) seen then err unknown else more

-- Whether an artifact is the one that a lock record pins.
abbrev pub is_pinned : Record → ArtifactInfo → Bool
is_pinned r a =
    text_eq a.name r.name
    && (text_eq a.version r.version && (int_eq a.size r.size && text_eq a.sha256 r.sha256))

-- The switch on the resolver.
pub check_resolver : Scenario → Result Error (Unit {0})
check_resolver s =
    if text_eq s.resolver resolver_secure
    then ok tt
    else if text_eq s.resolver resolver_combined_index
    then (if not s.vulnerable then err unknown else ok tt)
    else err unknown

pub check_decision : List ArtifactInfo → Record → SourcePolicy.Decision → Result Error (Unit {0})
check_decision built r d =
    if text_eq d.mode mode_exclusive && not (text_eq d.bound.id r.source)
    then err unknown
    else if not (any (is_pinned r) built)
    then err unknown
    else ok tt

-- One dependency.
pub check_dependency : List ArtifactInfo → Policy → Lock → Dependency → Result Error (Unit {0})
check_dependency built p l dep =
    wrapped (λ _. no_lock_record) (LockFile.record_of l dep.alias) >>= λ r.
    if not (text_eq r.name dep.name)
    then err unknown
    else wrapped (λ _. unresolved_name) (SourcePolicy.resolve p dep.name) >>= check_decision built r

pub check_dependencies :
    List ArtifactInfo → Policy → Lock → List Dependency → Result Error (Unit {0})
check_dependencies built p l [] = ok tt
check_dependencies built p l (dep ∷ deps) =
    check_dependency built p l dep >> check_dependencies built p l deps

module _ {T : Type 0} (cat : Catalogue T) where
  -- One source of a scenario's policy.
  pub check_source : List Served → Scenario → Source → Result Error (Unit {0})
  check_source served s source = elim (find? (is_at source.url) served) [
    | none ↦ err unknown
    | some (id, url) ↦ registry_set cat id >>= λ set.
        if not (text_eq set.role source.role)
        then err unknown
        else if set.vulnerable && not s.vulnerable
        then err unknown
        else ok tt
  ]

  pub check_sources : List Served → Scenario → List Source → Result Error (Unit {0})
  check_sources served s [] = ok tt
  check_sources served s (source ∷ sources) =
      check_source served s source >> check_sources served s sources

  -- One scenario, behind the check for a repeated id.
  pub check_scenario : List Served → List ArtifactInfo → Scenario → Result Error (Unit {0})
  check_scenario served built s = do
    check_resolver s
    p ← wrapped fixture_error (Fixtures.source_policy cat.embedded s.source_policy)
    m ← wrapped fixture_error (Fixtures.build_manifest cat.embedded s.manifest)
    l ← wrapped fixture_error (Fixtures.lock_document cat.embedded s.lock)
    c ← wrapped fixture_error (Fixtures.load_candidate cat.embedded s.candidate)
    check_sources served s p.sources
    check_dependencies built p l m.dependencies

  pub check_scenarios :
      List Served → List ArtifactInfo → List Text → List Scenario → Result Error (Unit {0})
  check_scenarios served built seen [] = ok tt
  check_scenarios served built seen (s ∷ ss) =
      if member s.id seen
      then err unknown
      else (check_scenario served built s >> check_scenarios served built (s.id ∷ seen) ss)

  unfoldable pub validate_consistency : Result Error (Unit {0})
  unfolding invert check_resolver check_decision check_dependency check_dependencies check_source
      check_sources check_scenario check_scenarios
  validate_consistency = do
    urls ← registry_urls cat
    served ← invert [] urls
    built ← artifacts cat
    all ← wrapped fixture_error (Fixtures.scenarios cat.embedded)
    check_scenarios served built [] all
