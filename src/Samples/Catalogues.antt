-- ===== src/Samples/Catalogues.antt =====
-- Tests of the package sources and of the checked-in registries.
use indexjack.Prelude
use indexjack.Prelude.{
  ℕ, zero, suc, if◌then◌else◌, Bool, true, false, List, [], ◌∷◌, none, some, Result, ok, err, Text,
  Bytes, codes, text_eq, Within, length, pos, ◌≡◌, ◌⊎◌, refl,
}
use indexjack.Semver
use indexjack.Semver.Decimal
use indexjack.SourcePolicy
use indexjack.SourcePolicy.{Policy, Source, role_private, role_public}
use indexjack.BuildManifest
use indexjack.LockFile
use indexjack.CanonicalJson
use indexjack.CanonicalJson.{unmarshal}
use indexjack.PkgArchive
use indexjack.PkgArchive.{Reader, entry, end_of_archive, manifest_entry, policy_entry, parse}
use indexjack.PkgArchive.Identity
use indexjack.PkgArchive.Identity.{manifest_format}
use indexjack.PkgArchive.Building
use indexjack.PkgArchive.Building.{Writer, build}
use indexjack.Registry.{FixtureSet, Artifact, Package}
use indexjack.Registry.Sorting
use indexjack.Fixtures
use indexjack.Fixtures.{Embedded}
use indexjack.Fixtures.Catalogue
use indexjack.Fixtures.Catalogue.{
  Catalogue, RegistryDoc, DirEntry, registry_format, network_format, registry_set,
}
use indexjack.Fixtures.Catalogue.Published.{IsDeclared, registry_set-IsDeclared}
use indexjack.Fixtures.Catalogue.Consistency.{validate_consistency}
use indexjack.Fixtures.Catalogue.Consistency.Agreement.{
  IsAgreement, validate_consistency-IsAgreement,
}
use indexjack.Samples.{always, exclusive_policy, corporate, policy_name, release_policy}
use indexjack.Samples.Releases.{embedded}

abbrev package_manifest : PkgArchive.Manifest
package_manifest = record { format = manifest_format; name = policy_name; version = codes "1.4.0" }

-- An archive is written as the seven, whatever is in it.
abbrev writer : Writer ℕ
writer = record {
  encode_manifest = λ _. some (1 ∷ []);
  encode_policy = λ _. some (2 ∷ []);
  start = 0;
  write_header = λ _ n. some n;
  write = λ _ n. some (suc n);
  close = λ _. some (7 ∷ []);
}

-- The seven is read as the two entries.
abbrev archive_reader : Reader
archive_reader = record {
  listing = λ _.
      entry (Building.header_of manifest_entry (1 ∷ [])) (some (1 ∷ []))
        (entry (Building.header_of policy_entry (2 ∷ [])) (some (2 ∷ [])) end_of_archive);
  manifest_decoder = always package_manifest;
  policy_decoder = always release_policy;
}

-- One registry, that publishes the one package.
abbrev registry : RegistryDoc
registry = record {
  format = registry_format;
  id = codes "corp";
  role = role_private;
  revision = codes "r1";
  host = codes "corp";
  port = pos 80;
  vulnerable = false;
  packages =
      record {
        name = policy_name;
        versions = record { version = codes "1.4.0"; package_dir = codes "policy" } ∷ [];
      }
      ∷ [];
}

-- The policy has that registry as its source.
abbrev served_policy : Policy
served_policy = record exclusive_policy {
  sources = record corporate { url = codes "http://corp:80" } ∷ [];
}

abbrev pub catalogue : Catalogue ℕ
catalogue = record {
  embedded = record embedded { policy_decoder = always served_policy };
  read_dir = λ path.
      if text_eq path (codes "data/packages")
      then some (record { name = codes "policy"; is_dir = true } ∷ [])
      else some (record { name = codes "corp.json"; is_dir = false } ∷ []);
  package_manifest_decoder = always package_manifest;
  package_policy_decoder = always release_policy;
  registry_decoder = always registry;
  network_decoder = always (record {
    format = network_format;
    summary = [];
    receipt_credential = codes "c";
    receipt_signing_key = codes "k";
  });
  taxonomy_decoder = always (record {
    format = [];
    summary = [];
    claimed = [];
    not_claimed = [];
    no_real_package_manager_claim = [];
    checked = [];
  });
  writer = writer;
  sha256 = λ raw. raw;
}

abbrev published : FixtureSet
published = record {
  id = codes "corp";
  role = role_private;
  revision = codes "r1";
  vulnerable = false;
  packages =
      record {
        name = policy_name;
        versions = record { version = codes "1.4.0"; bytes = 7 ∷ [] } ∷ [];
      }
      ∷ [];
}

publishes : registry_set catalogue (codes "corp") ≡ ok published
unfolding registry_set Catalogue.build_package Prelude.text_eq Prelude.is_empty Prelude.sort
    Prelude.select Prelude.has_suffix Prelude.any Prelude.member Prelude.insert Fixtures.read
    Fixtures.document CanonicalJson.unmarshal CanonicalJson.check_duplicate_keys Building.build
    PkgArchive.validate_manifest PkgArchive.validate_policy PkgArchive.lookup Building.archive
    Sorting.sort_set Semver.parse Prelude.split_on
publishes = refl

registry_set-IsDeclared_example :
    (published.id ≡ codes "corp")
    × ((published.role ≡ role_private) ⊎ (published.role ≡ role_public))
    × ((p : Package)
        → Within p published.packages
        → (a : Artifact) → Within a p.versions
        → IsDeclared catalogue p.name a)
registry_set-IsDeclared_example =
    registry_set-IsDeclared catalogue (codes "corp") published publishes

is_consistent : validate_consistency catalogue ≡ ok tt
unfolding validate_consistency registry_set Catalogue.build_package Catalogue.registry_urls
    Catalogue.registry_set_ids Catalogue.names Catalogue.registry_url Prelude.text_eq
    Prelude.is_empty Prelude.sort Prelude.select Prelude.has_suffix Prelude.any Prelude.member
    Prelude.insert Fixtures.read Fixtures.document CanonicalJson.unmarshal
    CanonicalJson.check_duplicate_keys Building.build PkgArchive.validate_manifest
    PkgArchive.validate_policy Catalogue.artifacts Catalogue.package_dirs PkgArchive.lookup
    Building.archive Fixtures.scenarios Fixtures.source_policy SourcePolicy.validate
    Prelude.count_byte Prelude.contains Prelude.has_prefix SourcePolicy.source_by_id Prelude.find?
    Fixtures.build_manifest BuildManifest.validate Semver.parse_range Semver.parse Prelude.split_on
    Building.header_of Prelude.text_lt Prelude.trim_prefix indexjack.Printing.int_text
    Decimal.all_digits Decimal.decimal Decimal.leading_zero Decimal.scan_uint Fixtures.lock_document
    LockFile.validate Fixtures.load_candidate Sorting.sort_set LockFile.record_of
    LockFile.records_of SourcePolicy.resolve SourcePolicy.matching SourcePolicy.matches
    Prelude.trim_suffix Identity.digest
is_consistent = refl

validate_consistency-IsAgreement_example : IsAgreement catalogue
validate_consistency-IsAgreement_example = validate_consistency-IsAgreement catalogue is_consistent
