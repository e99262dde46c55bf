-- ===== src/Samples/Policies.antt =====
-- Tests of the source policy, the lock, and the package's release policy.
use indexjack.Prelude
use indexjack.Prelude.{
  ℕ, Bool, true, false, List, [], ◌∷◌, Option, some, Result, ok, err, Text, codes, Within, ◌≡◌, ◌↔◌,
  ◌⊎◌, refl,
}
use indexjack.Semver
use indexjack.Semver.Decimal
use indexjack.SourcePolicy
use indexjack.SourcePolicy.{Decision, Source, validate, matches, matching, resolve, mode_exclusive}
use indexjack.SourcePolicy.Descriptions.{IsValid}
use indexjack.SourcePolicy.Validity.{validate-IsValid}
use indexjack.SourcePolicy.Binding.{Binds, resolve-Binds}
use indexjack.LockFile
use indexjack.LockFile.{record_of}
use indexjack.LockFile.Records.{IsPinned, record_of-IsPinned}
use indexjack.PkgArchive
use indexjack.PkgArchive.{
  validate_policy, policy_lookup, verdict_approve, verdict_reject, Package, parse,
}
use indexjack.PkgArchive.Loader.{IsLoaded, parse-IsLoaded}
use indexjack.CanonicalJson
use indexjack.Samples.{
  corporate, mirror_source, policy_name, exclusive_policy, pooled_policy, lock_file, locked,
  artifact_bytes, release_policy, reader,
}

abbrev decided : Decision
decided = record {
  name = policy_name;
  pattern = codes "acme-*";
  mode = mode_exclusive;
  bound = corporate;
  pool = corporate ∷ [];
  excluded = mirror_source ∷ [];
}

is_resolved : resolve exclusive_policy policy_name ≡ ok decided
unfolding Prelude.text_eq Prelude.is_empty Prelude.member Prelude.count_byte Prelude.contains
    Prelude.has_prefix Prelude.has_suffix Prelude.find? Prelude.select Prelude.trim_suffix
    SourcePolicy.source_by_id SourcePolicy.resolve SourcePolicy.matching SourcePolicy.matches
    SourcePolicy.validate
is_resolved = refl

validate-IsValid_example : (validate pooled_policy ≡ ok tt) ↔ IsValid pooled_policy
validate-IsValid_example = validate-IsValid pooled_policy

resolve-Binds_example : Binds exclusive_policy policy_name decided
resolve-Binds_example = resolve-Binds exclusive_policy policy_name decided is_resolved refl

is_recorded : record_of lock_file (codes "release-policy") ≡ ok locked
unfolding LockFile.record_of LockFile.records_of LockFile.validate Prelude.select Prelude.text_eq
    Prelude.is_empty Semver.parse Prelude.split_on Decimal.all_digits Decimal.leading_zero
    Decimal.scan_uint
is_recorded = refl

record_of-IsPinned_example : IsPinned lock_file (codes "release-policy") locked
record_of-IsPinned_example =
    record_of-IsPinned lock_file (codes "release-policy") locked is_recorded

abbrev package_read : Package
package_read = record {
  manifest = record {
    format = PkgArchive.Identity.manifest_format;
    name = policy_name;
    version = codes "1.4.0";
  };
  policy = release_policy;
}

is_parsed : parse reader artifact_bytes ≡ ok package_read
unfolding PkgArchive.parse Prelude.text_eq Prelude.is_empty Prelude.member CanonicalJson.unmarshal
    CanonicalJson.check_duplicate_keys
is_parsed = refl

parse-IsLoaded_example : IsLoaded reader artifact_bytes package_read
parse-IsLoaded_example = parse-IsLoaded reader artifact_bytes package_read is_parsed
