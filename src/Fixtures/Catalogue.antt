-- ===== src/Fixtures/Catalogue.antt =====
-- internal/fixtures/fixtures.go: the package sources, the artifacts built from them, and the contents
-- of the registries. `Catalogue` is what the embedded file system, encoding/json and archive/tar
-- answer on them.
pub mod Published
pub mod Consistency
use indexjack.Prelude.{
  ℕ, ◌-◌, ltb, ◌==◌, if◌then◌else◌, Bool, ◌&&◌, ◌||◌, not, List, [], ◌∷◌, ◌++◌, map, Option, none,
  some, Result, ok, err, ◌>>=◌, Text, Bytes, codes, text_eq, text_lt, has_suffix, is_empty, any,
  select, take, length, sort, ℤ, pos, negsuc, suc, int_eq,
}
use indexjack.CanonicalJson.{Decoder}
use indexjack.Semver
use indexjack.Printing.{int_text}
use indexjack.SourcePolicy.{role_private, role_public}
use indexjack.PkgArchive
use indexjack.PkgArchive.Identity.{digest}
use indexjack.PkgArchive.Building
use indexjack.PkgArchive.Building.{Writer}
use indexjack.Registry.{Artifact, Package, FixtureSet, ReceiptConfig}
use indexjack.Registry.Sorting.{sort_set}
use indexjack.Fixtures
use indexjack.Fixtures.{Embedded, read, document, unknown_fixture}

abbrev pub registry_format : Text
registry_format = codes "indexjack-registry-fixtures/1"

abbrev pub network_format : Text
network_format = codes "indexjack-network/1"

abbrev taxonomy_format : Text
taxonomy_format = codes "indexjack-taxonomy/1"

pub record TaxonomyEntry : Type 0 where
  pub id : Text
  pub title : Text
  pub reference : Text
  pub role : Text
  pub why : Text
  pub quotes : Text

pub record Taxonomy : Type 0 where
  pub format : Text
  pub summary : Text
  pub claimed : List TaxonomyEntry
  pub not_claimed : List TaxonomyEntry
  pub no_real_package_manager_claim : Text
  pub checked : Text

pub record NetworkDoc : Type 0 where
  pub format : Text
  pub summary : Text
  pub receipt_credential : Text
  pub receipt_signing_key : Text

pub record VersionRef : Type 0 where
  pub version : Text
  pub package_dir : Text

pub record PackageRef : Type 0 where
  pub name : Text
  pub versions : List VersionRef

pub record RegistryDoc : Type 0 where
  pub format : Text
  pub id : Text
  pub role : Text
  pub revision : Text
  pub host : Text
  pub port : ℤ
  pub vulnerable : Bool
  pub packages : List PackageRef

pub record ArtifactInfo : Type 0 where
  pub package_dir : Text
  pub name : Text
  pub version : Text
  pub size : ℤ
  pub sha256 : Text

-- `fs.DirEntry`
pub record DirEntry : Type 0 where
  pub name : Text
  pub is_dir : Bool

pub record Catalogue (T : Type 0) : Type 0 where
  pub embedded : Embedded
  pub read_dir : Text → Option (List DirEntry)
  pub package_manifest_decoder : Decoder PkgArchive.Manifest
  pub package_policy_decoder : Decoder PkgArchive.Policy
  pub registry_decoder : Decoder RegistryDoc
  pub network_decoder : Decoder NetworkDoc
  pub taxonomy_decoder : Decoder Taxonomy
  pub writer : Writer T
  pub sha256 : Bytes → Bytes

pub data Error : Type 0 where
  fixture_error : Fixtures.Error → Error
  build_error : Building.Error → Error
  version_error : Semver.Error → Error
  no_directory no_lock_record unresolved_name : Error

abbrev pub unknown : Error
unknown = fixture_error unknown_fixture

-- An error that another package reports, wrapped.
abbrev pub wrapped : {E A : Type 0} → (E → Error) → Result E A → Result Error A
wrapped f (ok a) = ok a
wrapped f (err e) = err (f e)

-- `IDs`
unfoldable pub ids_of : List TaxonomyEntry → List Text
ids_of entries = map (λ e. e.id) entries

abbrev pub is_incomplete : TaxonomyEntry → Bool
is_incomplete e = is_empty e.id || (is_empty e.title || (is_empty e.why || is_empty e.reference))

abbrev pub is_file_of : Text → DirEntry → Bool
is_file_of suffix e =
    not e.is_dir && (ltb (length suffix) (length e.name) && has_suffix e.name suffix)

module _ {T : Type 0} (cat : Catalogue T) where
  reads : {A : Type 0} → Decoder A → Text → Result Error A
  reads decoder name = wrapped fixture_error (read cat.embedded decoder name)

  unfoldable pub load_taxonomy : Result Error Taxonomy
  unfolding reads
  load_taxonomy = reads cat.taxonomy_decoder (codes "taxonomy.json") >>= λ doc.
      if not (text_eq doc.format taxonomy_format)
      then err unknown
      else if (length doc.claimed == 0)
          || ((length doc.not_claimed == 0) || is_empty doc.no_real_package_manager_claim)
      then err unknown
      else if any is_incomplete (doc.claimed ++ doc.not_claimed)
      then err unknown
      else ok doc

  -- `BuildLog`
  unfoldable pub build_log : Result Error Bytes
  build_log = elim (cat.embedded.read_file (codes "data/logs/vulnerable-build.log")) [
    | none ↦ err unknown
    | some raw ↦ ok raw
  ]

  unfoldable pub receipt_boundary : Result Error ReceiptConfig
  unfolding reads
  receipt_boundary = reads cat.network_decoder (codes "network.json") >>= λ doc.
      if not (text_eq doc.format network_format)
      then err unknown
      else if is_empty doc.receipt_credential || is_empty doc.receipt_signing_key
      then err unknown
      else ok
          (record { credential = doc.receipt_credential; signing_key = doc.receipt_signing_key })

  -- `names`: the files of a directory with a suffix, without it, in order.
  unfoldable pub names : Text → Text → Result Error (List Text)
  names dir suffix = elim (cat.read_dir (cat.embedded.join (codes "data" ∷ dir ∷ []))) [
    | none ↦ err no_directory
    | some entries ↦ ok (
        sort text_lt (
          map (λ (e : DirEntry). take (length e.name - length suffix) e.name)
            (select (is_file_of suffix) entries)))
  ]

  unfoldable pub lock_names : Result Error (List Text)
  lock_names = names (codes "locks") (codes ".json")

  unfoldable pub candidate_ids : Result Error (List Text)
  candidate_ids = names (codes "candidates") (codes ".json")

  unfoldable pub registry_set_ids : Result Error (List Text)
  registry_set_ids = names (codes "registries") (codes ".json")

  unfoldable pub package_dirs : Result Error (List Text)
  package_dirs = elim (cat.read_dir (codes "data/packages")) [
    | none ↦ err no_directory
    | some entries ↦ ok (
        sort text_lt (map (λ (e : DirEntry). e.name) (select (λ (e : DirEntry). e.is_dir) entries)))
  ]

  package_file : Text → Text → Text
  package_file dir file = cat.embedded.join (codes "packages" ∷ dir ∷ file ∷ [])

  unfoldable pub build_package : Text → Result Error (Bytes × PkgArchive.Manifest)
  unfolding reads package_file
  build_package dir =
      reads cat.package_manifest_decoder (package_file dir (codes "manifest.json")) >>= λ m.
      reads cat.package_policy_decoder (package_file dir (codes "policy.json")) >>= λ p.
      wrapped build_error (Building.build cat.writer m p) >>= λ raw. ok (raw, m)

  abbrev pub info_of : Text → Bytes × PkgArchive.Manifest → ArtifactInfo
  info_of dir (raw, m) = record {
    package_dir = dir;
    name = m.name;
    version = m.version;
    size = pos (length raw);
    sha256 = digest cat.sha256 raw;
  }

  -- The loop of `Artifacts`.
  pub artifacts_of : List Text → Result Error (List ArtifactInfo)
  artifacts_of [] = ok []
  artifacts_of (dir ∷ dirs) =
      build_package dir >>= λ built. artifacts_of dirs >>= λ rest. ok (info_of dir built ∷ rest)

  unfoldable pub artifacts : Result Error (List ArtifactInfo)
  unfolding artifacts_of
  artifacts = package_dirs >>= artifacts_of

  -- One published version: it may not be labelled otherwise than the artifact labels itself.
  pub published_version : Text → VersionRef → Result Error Artifact
  published_version name ref = build_package ref.package_dir >>= λ (raw, m).
      if not (text_eq m.name name) || not (text_eq m.version ref.version)
      then err unknown
      else ok (record { version = ref.version; bytes = raw })

  pub published_versions : Text → List VersionRef → Result Error (List Artifact)
  published_versions name [] = ok []
  published_versions name (ref ∷ refs) =
      published_version name ref >>= λ a. published_versions name refs >>= λ rest. ok (a ∷ rest)

  pub published_packages : List PackageRef → Result Error (List Package)
  published_packages [] = ok []
  published_packages (p ∷ ps) = published_versions p.name p.versions >>= λ vs.
      published_packages ps >>= λ rest. ok (record { name = p.name; versions = vs } ∷ rest)

  registry_document : Text → Result Error RegistryDoc
  registry_document id = reads cat.registry_decoder (document cat.embedded (codes "registries") id)

  -- Behind the checks on the document.
  pub filled_set : RegistryDoc → Result Error FixtureSet
  filled_set doc = published_packages doc.packages >>= λ ps. wrapped version_error (
      sort_set (record {
        id = doc.id;
        role = doc.role;
        revision = doc.revision;
        vulnerable = doc.vulnerable;
        packages = ps;
      }))

  unfoldable pub registry_set : Text → Result Error FixtureSet
  unfolding reads registry_document published_version published_versions published_packages
      filled_set
  registry_set id = registry_document id >>= λ doc.
      if not (text_eq doc.format registry_format)
      then err unknown
      else if not (text_eq doc.id id)
      then err unknown
      else if not (text_eq doc.role role_private) && not (text_eq doc.role role_public)
      then err unknown
      else filled_set doc

  unfoldable pub registry_url : Text → Result Error Text
  unfolding reads registry_document
  registry_url id = registry_document id >>= λ doc.
      if is_empty doc.host || int_eq doc.port (pos 0)
      then err unknown
      else ok (codes "http://" ++ (doc.host ++ (b':' ∷ int_text doc.port)))

  -- The loop of `RegistryURLs`; the map is the list of its entries, in the order of the ids.
  pub urls_of : List Text → Result Error (List (Text × Text))
  urls_of [] = ok []
  urls_of (id ∷ ids) = registry_url id >>= λ url. urls_of ids >>= λ rest. ok ((id, url) ∷ rest)

  unfoldable pub registry_urls : Result Error (List (Text × Text))
  unfolding urls_of
  registry_urls = registry_set_ids >>= urls_of
