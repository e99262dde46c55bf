-- ===== src/Samples/Resolutions.antt =====
-- Tests of the two resolvers.
use indexjack.Prelude
use indexjack.Prelude.{
  Bool, true, false, List, [], ◌∷◌, Option, none, some, Result, ok, err, codes, ℕ, ◌≡◌, refl, ◌↔◌,
  pos, length, ok-injective, sym, ◌∙◌, IsSorted, Within,
}
use mathlib.Core.Path.{subst}
use indexjack.Semver
use indexjack.Semver.Decimal
use indexjack.SourcePolicy
use indexjack.SourcePolicy.{Decision, mode_exclusive}
use indexjack.BuildManifest.{Dependency}
use indexjack.LockFile
use indexjack.PkgArchive
use indexjack.PkgArchive.Identity
use indexjack.PkgArchive.Identity.{digest}
use indexjack.CanonicalJson
use indexjack.Vulnerable
use indexjack.Resolver
use indexjack.Resolver.{
  resolve, order_candidates, comes_before, Candidate, Attempt, Failure, lock_missing, lock,
  unverified, started, highest_version,
}
use indexjack.Resolver.Accepted.{resolve-IsAccepted, IsAccepted, agreed}
use indexjack.Resolver.Delivered.{finished, chosen}
use indexjack.Resolver.FailsClosed.{FailsClosed, resolve-FailsClosed}
use indexjack.Resolver.Isolation.{resolve-redialled, redialled}
use indexjack.CombinedIndex
use indexjack.CombinedIndex.{attempted, refused}
use indexjack.CombinedIndex.Highest.{IsHighest, resolve-IsHighest}
use indexjack.CombinedIndex.Merged.{MergesPool, resolve-MergesPool}
use indexjack.Samples.{
  corporate, mirror_source, policy_name, dial, exclusive_policy, dependency, config, pooled_config,
  platform, dial_corporate, acknowledging,
}

abbrev stray : Dependency
stray = record dependency { alias = codes "stray" }

abbrev refusal : Failure
refusal = record { class = lock_missing; stage = lock }

succeeds : (resolve platform config dependency 0).failure ≡ none
unfolding resolve Prelude.text_eq Prelude.is_empty Prelude.member Prelude.count_byte
    Prelude.contains Prelude.has_prefix Prelude.has_suffix SourcePolicy.source_by_id Prelude.find?
    SourcePolicy.resolve SourcePolicy.matching Prelude.select SourcePolicy.matches
    Prelude.trim_suffix LockFile.record_of LockFile.validate Semver.parse LockFile.records_of
    LockFile.verify_bytes Identity.digest Identity.hex PkgArchive.parse Prelude.insert Prelude.sort
    Prelude.split_on Prelude.trim_prefix Resolver.order_candidates Decimal.all_digits
    Decimal.leading_zero Decimal.scan_uint Semver.compare Semver.parse_range Semver.satisfies
    SourcePolicy.display_order SourcePolicy.validate CanonicalJson.unmarshal
    CanonicalJson.check_duplicate_keys
succeeds = refl

is_refused : (resolve platform config stray 0).failure ≡ some refusal
unfolding resolve Prelude.text_eq Prelude.is_empty Prelude.member Prelude.count_byte
    Prelude.contains Prelude.has_prefix Prelude.has_suffix SourcePolicy.source_by_id Prelude.find?
    SourcePolicy.resolve SourcePolicy.matching Prelude.select SourcePolicy.matches
    Prelude.trim_suffix LockFile.record_of LockFile.validate Semver.parse LockFile.records_of
    LockFile.verify_bytes Identity.digest Identity.hex PkgArchive.parse Prelude.insert Prelude.sort
    Prelude.split_on Prelude.trim_prefix Resolver.order_candidates Decimal.all_digits
    Decimal.leading_zero Decimal.scan_uint Semver.compare Semver.parse_range Semver.satisfies
    SourcePolicy.display_order SourcePolicy.validate CanonicalJson.unmarshal
    CanonicalJson.check_duplicate_keys
is_refused = refl

-- The decision on the name, with the excluded source.
abbrev decision : Decision
decision = record {
  name = policy_name;
  pattern = codes "acme-*";
  mode = mode_exclusive;
  bound = corporate;
  pool = corporate ∷ [];
  excluded = mirror_source ∷ [];
}

is_decided : SourcePolicy.resolve exclusive_policy policy_name ≡ ok decision
unfolding Prelude.text_eq Prelude.is_empty Prelude.member Prelude.count_byte Prelude.contains
    Prelude.has_prefix Prelude.has_suffix SourcePolicy.source_by_id Prelude.find?
    SourcePolicy.resolve SourcePolicy.matching Prelude.select SourcePolicy.matches
    Prelude.trim_suffix LockFile.record_of LockFile.validate Semver.parse LockFile.records_of
    LockFile.verify_bytes Identity.digest Identity.hex PkgArchive.parse Prelude.insert Prelude.sort
    Prelude.split_on Prelude.trim_prefix Resolver.order_candidates Decimal.all_digits
    Decimal.leading_zero Decimal.scan_uint Semver.compare Semver.parse_range Semver.satisfies
    SourcePolicy.display_order SourcePolicy.validate CanonicalJson.unmarshal
    CanonicalJson.check_duplicate_keys
is_decided = refl

resolve-IsAccepted_example :
    (x : IsAccepted platform config dependency 0) × ((resolve platform config dependency
        0).resolution
      ≡ finished platform
          (chosen x.decision
            (record (agreed platform config dependency x.decision x.locked) {
              queried = x.decision.bound.id ∷ [];
            })
            x.delivered.meta
            x.delivered.candidate)
          x.delivered.raw
          x.delivered.pkg)
    × (pos (length x.delivered.raw) ≡ x.locked.size)
    × (digest platform.sha256 x.delivered.raw ≡ x.locked.sha256)
resolve-IsAccepted_example = resolve-IsAccepted platform config dependency 0 succeeds

resolve-FailsClosed_example : FailsClosed 0 (resolve platform config stray 0) refusal
resolve-FailsClosed_example = resolve-FailsClosed platform 0 config stray refusal is_refused

-- The mirror is unreachable, and nothing changes.
dials_alike :
    (d : Decision)
    → SourcePolicy.resolve exclusive_policy policy_name ≡ ok d
    → d.mode ≡ mode_exclusive
    → dial d.bound ≡ dial_corporate d.bound
unfolding Prelude.text_eq
dials_alike d e m =
    let same : decision ≡ d = ok-injective (sym is_decided ∙ e) in
    subst (λ (x : Decision). dial x.bound ≡ dial_corporate x.bound) same refl

resolve-redialled_example :
    resolve platform config dependency 0
    ≡ resolve platform (redialled platform config dial_corporate) dependency 0
resolve-redialled_example =
    resolve-redialled platform config dial_corporate dependency 0 dials_alike

-- The public version 1.9.0 wins over the locked 1.4.0.
abbrev confused : Attempt ℕ
confused = elim (CombinedIndex.resolve platform pooled_config dependency acknowledging 0) [
  | attempted a ↦ a
  | refused r n ↦ record {
    resolution = started highest_version dependency;
    failure = none;
    network = n;
  }
]

is_confused :
    CombinedIndex.resolve platform pooled_config dependency acknowledging 0 ≡ attempted confused
unfolding CombinedIndex.resolve Vulnerable.gate Prelude.text_eq Prelude.is_empty Prelude.member
    Prelude.count_byte Prelude.contains Prelude.has_prefix Prelude.has_suffix
    SourcePolicy.source_by_id Prelude.find? SourcePolicy.resolve SourcePolicy.matching
    Prelude.select SourcePolicy.matches Prelude.trim_suffix LockFile.record_of LockFile.validate
    Semver.parse LockFile.records_of LockFile.verify_bytes Identity.digest Identity.hex
    PkgArchive.parse Prelude.insert Prelude.sort Prelude.split_on Prelude.trim_prefix
    Resolver.order_candidates Decimal.all_digits Decimal.leading_zero Decimal.scan_uint
    Semver.compare Semver.parse_range Semver.satisfies SourcePolicy.display_order
    SourcePolicy.validate CanonicalJson.unmarshal CanonicalJson.check_duplicate_keys
is_confused = refl

confused_succeeds : confused.failure ≡ none
unfolding CombinedIndex.resolve Vulnerable.gate Prelude.text_eq Prelude.is_empty Prelude.member
    Prelude.count_byte Prelude.contains Prelude.has_prefix Prelude.has_suffix
    SourcePolicy.source_by_id Prelude.find? SourcePolicy.resolve SourcePolicy.matching
    Prelude.select SourcePolicy.matches Prelude.trim_suffix LockFile.record_of LockFile.validate
    Semver.parse LockFile.records_of LockFile.verify_bytes Identity.digest Identity.hex
    PkgArchive.parse Prelude.insert Prelude.sort Prelude.split_on Prelude.trim_prefix
    Resolver.order_candidates Decimal.all_digits Decimal.leading_zero Decimal.scan_uint
    Semver.compare Semver.parse_range Semver.satisfies SourcePolicy.display_order
    SourcePolicy.validate CanonicalJson.unmarshal CanonicalJson.check_duplicate_keys
confused_succeeds = refl

picks_public : confused.resolution.selected.source ≡ codes "pub"
unfolding CombinedIndex.resolve Vulnerable.gate Prelude.text_eq Prelude.is_empty Prelude.member
    Prelude.count_byte Prelude.contains Prelude.has_prefix Prelude.has_suffix
    SourcePolicy.source_by_id Prelude.find? SourcePolicy.resolve SourcePolicy.matching
    Prelude.select SourcePolicy.matches Prelude.trim_suffix LockFile.record_of LockFile.validate
    Semver.parse LockFile.records_of LockFile.verify_bytes Identity.digest Identity.hex
    PkgArchive.parse Prelude.insert Prelude.sort Prelude.split_on Prelude.trim_prefix
    Resolver.order_candidates Decimal.all_digits Decimal.leading_zero Decimal.scan_uint
    Semver.compare Semver.parse_range Semver.satisfies SourcePolicy.display_order
    SourcePolicy.validate CanonicalJson.unmarshal CanonicalJson.check_duplicate_keys
picks_public = refl

resolve-IsHighest_example :
    (Vulnerable.gate acknowledging ≡ ok tt)
    × (confused.resolution.integrity ≡ unverified)
    × IsHighest confused.resolution
resolve-IsHighest_example =
    resolve-IsHighest platform pooled_config dependency acknowledging 0 confused is_confused
      confused_succeeds

abbrev silent : Vulnerable.Environment
silent = record { acknowledgement = []; profile = [] }

resolve-MergesPool_example : MergesPool platform pooled_config dependency 0 confused.resolution
resolve-MergesPool_example =
    resolve-MergesPool platform pooled_config dependency acknowledging 0 confused is_confused
      confused_succeeds
