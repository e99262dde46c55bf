-- ===== src/ReleaseGate/Texts.antt =====
-- The constants that spell the stages and classes of a failure in an audit record.
use indexjack.Prelude.{Text, codes}
use indexjack.Resolver.{
  Stage, Class, source_policy, lock, registry_query, artifact_fetch, integrity, artifact_parse,
  policy_evaluation, source_policy_unresolved, source_policy_ambiguous, source_policy_invalid,
  source_policy_not_exclusive, lock_missing, lock_duplicate, lock_invalid, lock_source_mismatch,
  lock_name_mismatch, lock_range_conflict, registry_unavailable, artifact_unavailable,
  artifact_size_mismatch, artifact_digest_mismatch, artifact_malformed, manifest_mismatch,
  no_compatible_candidate, policy_candidate_unknown, policy_kind_unexpected,
}

abbrev pub stage_text : Stage → Text
stage_text source_policy = codes "source_policy"
stage_text lock = codes "lock"
stage_text registry_query = codes "registry_query"
stage_text artifact_fetch = codes "artifact_fetch"
stage_text integrity = codes "integrity"
stage_text artifact_parse = codes "artifact_parse"
stage_text policy_evaluation = codes "policy_evaluation"

abbrev pub class_text : Class → Text
class_text source_policy_unresolved = codes "SOURCE_POLICY_UNRESOLVED"
class_text source_policy_ambiguous = codes "SOURCE_POLICY_AMBIGUOUS"
class_text source_policy_invalid = codes "SOURCE_POLICY_INVALID"
class_text source_policy_not_exclusive = codes "SOURCE_POLICY_NOT_EXCLUSIVE"
class_text lock_missing = codes "LOCK_MISSING"
class_text lock_duplicate = codes "LOCK_DUPLICATE"
class_text lock_invalid = codes "LOCK_INVALID"
class_text lock_source_mismatch = codes "LOCK_SOURCE_MISMATCH"
class_text lock_name_mismatch = codes "LOCK_NAME_MISMATCH"
class_text lock_range_conflict = codes "LOCK_RANGE_CONFLICT"
class_text registry_unavailable = codes "REGISTRY_UNAVAILABLE"
class_text artifact_unavailable = codes "ARTIFACT_UNAVAILABLE"
class_text artifact_size_mismatch = codes "ARTIFACT_SIZE_MISMATCH"
class_text artifact_digest_mismatch = codes "ARTIFACT_DIGEST_MISMATCH"
class_text artifact_malformed = codes "ARTIFACT_MALFORMED"
class_text manifest_mismatch = codes "MANIFEST_MISMATCH"
class_text no_compatible_candidate = codes "NO_COMPATIBLE_CANDIDATE"
class_text policy_candidate_unknown = codes "POLICY_CANDIDATE_UNKNOWN"
class_text policy_kind_unexpected = codes "POLICY_KIND_UNEXPECTED"
