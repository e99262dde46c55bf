-- ===== src/Samples/Releases.antt =====
-- Tests of the release gate, its ledger and its audit.
use indexjack.Prelude
use indexjack.Prelude.{
  ℕ, Bool, true, false, List, [], ◌∷◌, ◌++◌, Option, none, some, Result, ok, err, Text, Bytes,
  codes, Within, ◌≡◌, ◌↔◌, ◌⊎◌, inl, inr, refl, length,
}
use indexjack.Semver
use indexjack.Semver.Decimal
use indexjack.SourcePolicy
use indexjack.BuildManifest
use indexjack.LockFile
use indexjack.PkgArchive
use indexjack.PkgArchive.Identity
use indexjack.CanonicalJson
use indexjack.CanonicalJson.{unmarshal}
use indexjack.Resolver
use indexjack.Ledger
use indexjack.Ledger.{Codec, Disk, fresh, save, load}
use indexjack.Ledger.Atomic.{IsAtomic, save-IsAtomic, save-load}
use indexjack.Audit
use indexjack.Audit.{Event, Sink, emit, event_build_failed}
use indexjack.Audit.Emitted.{IsRecorded, emit-IsRecorded}
use indexjack.Fixtures
use indexjack.Fixtures.{Scenario, Embedded, scenarios, scenario_ids, load_scenario}
use indexjack.ReleaseGate
use indexjack.ReleaseGate.{Options, Outcome, World}
use indexjack.ReleaseGate.Execution.{execute, opening}
use indexjack.ReleaseGate.Execution.Reached.{execute-Reached}
use indexjack.Samples.{
  always, exclusive_policy, dependency, lock_file, dial, platform, acknowledging,
}

-- A ledger is written as the number of its rows, and read as the empty one.
abbrev pub codec : Codec
codec = record { encode = λ l. some (length l.entries ∷ []); decoder = always fresh }

abbrev no_faults : Ledger.Faults
no_faults = record {
  read = false;
  mkdir = false;
  create = false;
  write = false;
  sync = false;
  close = false;
  chmod = false;
  rename = false;
  remove = false;
  written = 0;
}

abbrev failing_rename : Ledger.Faults
failing_rename = record no_faults { rename = true }

abbrev empty_disk : Disk
empty_disk = record { ledger = none; temp = none }

save-IsAtomic_example :
    IsAtomic codec fresh failing_rename empty_disk (save codec failing_rename fresh empty_disk)
save-IsAtomic_example = save-IsAtomic codec fresh failing_rename empty_disk

reads_back :
    (body : Bytes) → codec.encode fresh ≡ some body → unmarshal codec.decoder body ≡ ok fresh
unfolding CanonicalJson.unmarshal CanonicalJson.check_duplicate_keys
reads_back body e = refl

saves : (save codec no_faults fresh empty_disk).0 ≡ ok tt
unfolding Ledger.save Ledger.bytes Prelude.text_eq
saves = refl

save-load_example :
    load codec no_faults (save codec no_faults fresh empty_disk).1
    ≡ (ok fresh, (save codec no_faults fresh empty_disk).1)
save-load_example = save-load codec fresh no_faults no_faults empty_disk reads_back saves refl

abbrev pub audit_platform : Audit.Platform
audit_platform = record { sha256 = λ raw. raw; lower = λ s. s; encode = λ _. some (codes "record") }

abbrev pub audit_faults : Audit.Faults
audit_faults = record {
  mkdir = false;
  open_file = false;
  write = false;
  close = false;
  mirror = true;
  written = 0;
  mirror_written = 3;
}

abbrev pub sink : Sink
sink = record { scenario = codes "s1"; emitted = []; files = record { log = []; mirror = some [] } }

abbrev pub event : Event
event = record {
  format = [];
  event = event_build_failed;
  correlation_id = [];
  scenario_id = [];
  stage = codes "lock";
  dependency_alias = codes "release-policy";
  failure_class = codes "LOCK_MISSING";
  candidate_id = [];
}

emit-IsRecorded_example :
    IsRecorded audit_platform event sink (emit audit_platform audit_faults event sink)
emit-IsRecorded_example = emit-IsRecorded audit_platform audit_faults event sink

abbrev pub scenario : Scenario
scenario = record {
  id = codes "s1";
  summary = [];
  resolver = Fixtures.resolver_secure;
  source_policy = codes "p";
  manifest = codes "m";
  lock = codes "l";
  candidate = codes "MODEL-CANDIDATE-17";
  vulnerable = false;
}

abbrev marked : Scenario
marked = record scenario { id = codes "s2"; vulnerable = true }

abbrev pub embedded : Embedded
embedded = record {
  read_file = λ _. some [];
  join = λ _. [];
  policy_decoder = always exclusive_policy;
  manifest_decoder = always (record {
    format = BuildManifest.format;
    project = codes "demo";
    dependencies = dependency ∷ [];
  });
  lock_decoder = always lock_file;
  candidate_decoder = always (record {
    format = codes "indexjack-candidate/1";
    id = codes "MODEL-CANDIDATE-17";
    family = [];
    submitted_by = [];
    evaluation_inputs = [];
    summary = [];
  });
  classification_decoder =
      always (record { format = codes "indexjack-classification/1"; summary = []; entries = [] });
  scenario_decoder =
      always
        (record { format = codes "indexjack-scenarios/1"; scenarios = scenario ∷ marked ∷ [] });
}

lists : scenarios embedded ≡ ok (scenario ∷ marked ∷ [])
unfolding scenarios CanonicalJson.unmarshal CanonicalJson.check_duplicate_keys Prelude.text_eq
lists = refl

abbrev pub gate_platform : ReleaseGate.Platform
gate_platform = record {
  resolver = platform;
  audit = audit_platform;
  codec = codec;
  embedded = embedded;
  environment = acknowledging;
}

abbrev pub gate_faults : ReleaseGate.Faults
gate_faults = record {
  load = no_faults;
  before = no_faults;
  save = no_faults;
  after = no_faults;
  audit = record audit_faults { mirror = false };
}

abbrev pub options : Options ℕ
options = record { scenario = scenario; state_dir = codes "/state"; dial = dial }

abbrev pub start : World ℕ
start = record { disk = empty_disk; files = record { log = []; mirror = none }; network = 0 }

abbrev unresolved : Outcome
unresolved = opening gate_platform gate_faults options [] (record {
  policy = exclusive_policy;
  manifest = record { format = []; project = []; dependencies = [] };
  lock = lock_file;
  table = [];
})

-- The outcome of the run.
abbrev pub released_outcome : Outcome
released_outcome = elim (execute gate_platform gate_faults options start).0 [
  | ok out ↦ out
  | err _ ↦ unresolved
]

pub runs : (execute gate_platform gate_faults options start).0 ≡ ok released_outcome
unfolding execute Prelude.text_eq Prelude.is_empty Prelude.member Prelude.count_byte
    Prelude.contains Prelude.has_prefix Prelude.has_suffix SourcePolicy.source_by_id Prelude.find?
    SourcePolicy.resolve SourcePolicy.matching Prelude.select SourcePolicy.matches
    Prelude.trim_suffix LockFile.record_of LockFile.validate Semver.parse LockFile.records_of
    LockFile.verify_bytes Identity.digest Identity.hex PkgArchive.parse Prelude.insert Prelude.sort
    Prelude.split_on Prelude.trim_prefix Resolver.order_candidates Decimal.all_digits
    Decimal.leading_zero Decimal.scan_uint Semver.compare Semver.parse_range Semver.satisfies
    SourcePolicy.display_order SourcePolicy.validate CanonicalJson.unmarshal
    CanonicalJson.check_duplicate_keys Resolver.resolve Ledger.load Ledger.save Ledger.bytes
    Ledger.digest Ledger.approved Prelude.any Audit.emit Audit.validate Audit.stamped
    Audit.correlation_id Audit.new_sink ReleaseGate.reported Fixtures.source_policy
    Fixtures.build_manifest Fixtures.lock_document Fixtures.classifications Fixtures.load_candidate
    Fixtures.classification_of BuildManifest.validate PkgArchive.policy_lookup
runs = refl

adds_a_row : released_outcome.mutation ≡ ReleaseGate.approved
unfolding execute Prelude.text_eq Prelude.is_empty Prelude.member Prelude.count_byte
    Prelude.contains Prelude.has_prefix Prelude.has_suffix SourcePolicy.source_by_id Prelude.find?
    SourcePolicy.resolve SourcePolicy.matching Prelude.select SourcePolicy.matches
    Prelude.trim_suffix LockFile.record_of LockFile.validate Semver.parse LockFile.records_of
    LockFile.verify_bytes Identity.digest Identity.hex PkgArchive.parse Prelude.insert Prelude.sort
    Prelude.split_on Prelude.trim_prefix Resolver.order_candidates Decimal.all_digits
    Decimal.leading_zero Decimal.scan_uint Semver.compare Semver.parse_range Semver.satisfies
    SourcePolicy.display_order SourcePolicy.validate CanonicalJson.unmarshal
    CanonicalJson.check_duplicate_keys Resolver.resolve Ledger.load Ledger.save Ledger.bytes
    Ledger.digest Ledger.approved Prelude.any Audit.emit Audit.validate Audit.stamped
    Audit.correlation_id Audit.new_sink ReleaseGate.reported Fixtures.source_policy
    Fixtures.build_manifest Fixtures.lock_document Fixtures.classifications Fixtures.load_candidate
    Fixtures.classification_of BuildManifest.validate PkgArchive.policy_lookup
adds_a_row = refl

-- A run without a state directory.
refuses_to_start :
    (execute gate_platform gate_faults (record options { state_dir = [] }) start).0
    ≡ err ReleaseGate.no_state_dir
unfolding execute Prelude.is_empty
refuses_to_start = refl

execute-Reached_example :
    ¬ (ReleaseGate.no_state_dir ≡ ReleaseGate.nil_package)
    × ¬ (ReleaseGate.no_state_dir ≡ ReleaseGate.unvalidated_verdict)
execute-Reached_example =
    execute-Reached gate_platform gate_faults (record options { state_dir = [] }) start
      ReleaseGate.no_state_dir refuses_to_start
