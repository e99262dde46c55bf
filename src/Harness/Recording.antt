-- ===== src/Harness/Recording.antt =====
-- internal/harness/harness.go: from the outcome of a run to its transcript.
use indexjack.Prelude.{
  ℕ, if◌then◌else◌, Bool, ◌&&◌, not, List, [], ◌∷◌, ◌++◌, map, Option, none, some, Text, Bytes,
  codes, text_eq, is_empty, find?,
}
use indexjack.SourcePolicy.{Decision, mode_exclusive, source_id, has_id}
use indexjack.Resolver
use indexjack.Resolver.{Resolution, Failure}
use indexjack.Audit.{Event, correlation_id}
use indexjack.Fixtures
use indexjack.ReleaseGate
use indexjack.ReleaseGate.{client_response, untouched, approved, suppressed_duplicate}
use indexjack.Harness
use indexjack.Harness.{
  Trust, bound, pooled, unstated, Verdict, not_reached, rejected, verified, unverified, Enforcement,
  enforced, unenforced, Candidate, Dependency, AuditRecord, RegistryReceipt, Transcript,
}
use indexjack.Harness.Reconciling.{reconcile}

-- `trustOf`
pub trust_of : Decision → Trust
trust_of d =
    if text_eq d.mode mode_exclusive && not (is_empty d.bound.id)
    then bound
    else if is_empty d.mode
    then unstated
    else pooled

-- `poolOf`
abbrev pub pool_of : Decision → List Text
pool_of d = map source_id d.pool

-- `roleOf`
pub role_of : Decision → Text → Text
role_of d id = elim (find? (has_id id) d.pool) [
  | some s ↦ s.role
  | none ↦ if text_eq d.bound.id id then d.bound.role else []
]

-- Where the failure of the dependency, if there is one, is that of the comparison with the lock.
pub is_refused_content : Option Failure → Bool
is_refused_content none = Bool.false
is_refused_content (some f) = elim f.stage [
  | Resolver.integrity ↦ Bool.true
  | Resolver.source_policy ↦ Bool.false
  | Resolver.lock ↦ Bool.false
  | Resolver.registry_query ↦ Bool.false
  | Resolver.artifact_fetch ↦ Bool.false
  | Resolver.artifact_parse ↦ Bool.false
  | Resolver.policy_evaluation ↦ Bool.false
]

pub integrity_of : Option Failure → Resolver.Integrity → Verdict
integrity_of failure Resolver.verified = verified
integrity_of failure Resolver.unverified = unverified
integrity_of failure Resolver.unset = if is_refused_content failure then rejected else not_reached

abbrev pub candidate_of : Resolver.Candidate → Candidate
candidate_of c = record { source = c.source; version = c.version; size = c.size; sha256 = c.sha256 }

-- `dependencyRecord`. A nil slice is the empty one.
unfoldable pub dependency_record : Resolution → Option Failure → Dependency
unfolding trust_of role_of is_refused_content integrity_of
dependency_record res failure = record {
  alias = res.alias;
  query = record { name = res.name; range = res.range };
  source_policy = record {
    pattern = res.policy.pattern;
    mode = res.policy.mode;
    trust = trust_of res.policy;
    bound = res.policy.bound.id;
    pool = pool_of res.policy;
    excluded = res.excluded;
  };
  index_display_order = res.display_order;
  queried_sources = res.queried;
  candidates = map candidate_of res.candidates;
  selection_rule = res.selection_rule;
  selected = record {
    source = res.selected.source;
    role = if is_empty res.selected.source then [] else role_of res.policy res.selected.source;
    version = res.selected.version;
    size = res.size;
    sha256 = res.digest;
  };
  integrity = integrity_of failure res.integrity;
}

abbrev pub lock_enforcement : ReleaseGate.Outcome → Enforcement
lock_enforcement o = if o.lock_enforced then enforced else unenforced

abbrev pub label : Text
label = codes "intentionally vulnerable local educational material"

abbrev pub warning : Fixtures.Scenario → Text
warning s = if s.vulnerable then label else []

-- `ledgerEntries`
abbrev pub ledger_entries : ReleaseGate.Outcome → ℕ
ledger_entries o = elim o.mutation [ approved ↦ 1 | suppressed_duplicate ↦ 1 | untouched ↦ 0 ]

abbrev pub audit_record : Event → AuditRecord
audit_record e = record {
  event = e.event;
  stage = e.stage;
  failure_class = e.failure_class;
  candidate = e.candidate_id;
  alias = e.dependency_alias;
}

abbrev pub resolved_record : Resolution → Dependency
resolved_record res = dependency_record res none

-- The dependency that a failed build stopped on.
abbrev pub attempted_record : ReleaseGate.Outcome → List Dependency
attempted_record o = elim o.attempted [
  | none ↦ []
  | some res ↦ dependency_record res o.failure ∷ []
]

-- `build`
unfoldable pub build :
    (Bytes → Bytes) → Fixtures.Scenario → ReleaseGate.Outcome → List RegistryReceipt → Transcript
build sha256 s o receipts = record {
  format = Harness.format;
  scenario = record {
    id = s.id;
    summary = s.summary;
    source_policy = s.source_policy;
    manifest = s.manifest;
    lock = s.lock;
    candidate = s.candidate;
    vulnerable = s.vulnerable;
  };
  resolver = o.resolver;
  lock_enforcement = lock_enforcement o;
  warning = warning s;
  project = o.project;
  correlation_id = correlation_id sha256 s.id;
  dependencies = map resolved_record o.resolutions ++ attempted_record o;
  failure = o.failure;
  release = record {
    candidate = s.candidate;
    gate_classification = o.classification;
    policy_verdict = o.verdict;
    mutation = o.mutation;
  };
  ledger = record {
    before = o.ledger_before;
    after = o.ledger_after;
    changed = not (text_eq o.ledger_before o.ledger_after);
    entries = ledger_entries o;
  };
  audit = map audit_record o.audit_events;
  receipts = receipts;
  client_response = client_response o;
  reconciliation = reconcile o;
}
