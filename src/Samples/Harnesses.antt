-- ===== src/Samples/Harnesses.antt =====
-- Tests of the harness.
use indexjack.Prelude
use indexjack.Prelude.{
  ℕ, suc, false, List, [], ◌∷◌, none, some, Result, ok, err, Text, codes, length, Result-cases, pos,
  ◌≡◌, ◌↔◌, refl,
}
use indexjack.Semver
use indexjack.Semver.Decimal
use indexjack.SourcePolicy
use indexjack.BuildManifest
use indexjack.LockFile
use indexjack.PkgArchive
use indexjack.PkgArchive.Identity
use indexjack.PkgArchive.Identity.{manifest_format}
use indexjack.CanonicalJson
use indexjack.Vulnerable
use indexjack.Resolver
use indexjack.Ledger
use indexjack.Audit
use indexjack.Printing
use indexjack.Registry.{Metadata, Receipt, ReceiptConfig, FetchError}
use indexjack.Registry.Service.{metadata_format, receipt_format}
use indexjack.Registry.Client
use indexjack.Registry.Client.{Address, Transport}
use indexjack.Fixtures
use indexjack.Fixtures.Catalogue
use indexjack.Fixtures.Catalogue.{registry_urls}
use indexjack.ReleaseGate
use indexjack.ReleaseGate.Execution.{execute}
use indexjack.Harness.{RegistryReceipt, Transcript, pass}
use indexjack.Harness.Recording.{build}
use indexjack.Harness.Reconciling.{reconcile}
use indexjack.Harness.Running.{Platform, Faults, Options, World, collect_receipts, run}
use indexjack.Harness.Running.Judged.{Expected, executed-Expected}
use indexjack.Harness.Matrix.Runs.{Turn, matrix}
use indexjack.Samples.{always, offer_of, policy_name}
use indexjack.Samples.Releases.{
  gate_platform, gate_faults, options, start, released_outcome, runs, scenario,
}
use indexjack.Samples.Registries.{encoder}
use indexjack.Samples.Catalogues.{catalogue}

executed-Expected_example : ((reconcile released_outcome).result ≡ pass) ↔ Expected released_outcome
executed-Expected_example =
    executed-Expected gate_platform gate_faults options start released_outcome runs

abbrev address : Address
address = record { scheme = codes "http"; hostname = codes "corp.private.example"; port = [] }

abbrev metadata : Metadata
metadata = record {
  format = metadata_format;
  source = codes "corp";
  role = codes "private";
  name = policy_name;
  versions = offer_of (codes "1.4.0") ∷ [];
}

-- The run of the identifier 07 has made one request.
abbrev receipt : Receipt
receipt = record {
  format = receipt_format;
  source = codes "corp";
  role = codes "private";
  revision = codes "r1";
  run = codes "07";
  request_count = 0;
  requests = [];
  signature = [];
}

-- The registry answers each request with the artifact's bytes, which stand for the documents too.
abbrev network : Transport ℕ
network = record {
  parse_url = λ _. some address;
  send = λ _ n. (some (record { status = 200; body = some (7 ∷ []) }), suc n);
  metadata_decoder = always metadata;
  receipt_decoder = always receipt;
}

abbrev laboratory : Platform ℕ ℕ
laboratory = record {
  gate = gate_platform;
  catalogue = catalogue;
  transport = network;
  encoder = encoder;
  random = some (7 ∷ []);
  encode = λ _. some (codes "transcript");
}

abbrev faults : Faults
faults = record { mkdir = false; gate = gate_faults; open_file = false; write = false; written = 0 }

abbrev request : Options
request = record { scenario_id = codes "s1"; state_dir = codes "/state"; endpoints = [] }

abbrev world : World ℕ
world = record { gate = start; transcript = none }

abbrev boundary : ReceiptConfig
boundary = record { credential = codes "c"; signing_key = codes "k" }

-- The receipts of the run.
abbrev collected : List RegistryReceipt
collected = elim (collect_receipts laboratory request boundary (codes "07") 0).0 [
  | ok receipts ↦ receipts
  | err _ ↦ []
]

-- A transcript that says nothing.
abbrev silent : Transcript
silent = build (λ raw. raw) scenario released_outcome []

abbrev pub transcript : Transcript
transcript = elim (run laboratory request faults world).0 [ ok t ↦ t | err _ ↦ silent ]

-- The run of the table.
abbrev turns : Text → Turn
turns id = record { remove_all = false; random = some (7 ∷ []); faults = faults }

-- Without the acknowledgement, the table has the one scenario that anyone may run.
abbrev plain : Platform ℕ ℕ
plain = record laboratory {
  gate = record gate_platform { environment = record { acknowledgement = []; profile = [] } };
}

abbrev listed : List Transcript
listed = elim (matrix plain [] (λ id. id) turns 0).0 [ ok ts ↦ ts | err _ ↦ [] ]

releases_once : (length listed ≡ 1) × (transcript.reconciliation.result ≡ pass)
unfolding matrix Fixtures.scenario_ids Vulnerable.acknowledged run collect_receipts
    Fixtures.load_scenario Fixtures.scenarios CanonicalJson.unmarshal
    CanonicalJson.check_duplicate_keys Prelude.text_eq Prelude.find? Prelude.is_empty
    Catalogue.receipt_boundary execute Ledger.load Ledger.save Ledger.bytes Ledger.digest
    Fixtures.source_policy SourcePolicy.validate Prelude.member Prelude.count_byte Catalogue.names
    Catalogue.registry_set_ids registry_urls Fixtures.document Fixtures.read Identity.digest
    Identity.hex Prelude.select Prelude.insert Prelude.sort Prelude.has_suffix Prelude.text_lt
    Vulnerable.check Vulnerable.gate Prelude.contains Prelude.has_prefix SourcePolicy.source_by_id
    Fixtures.build_manifest BuildManifest.validate Semver.parse_range Semver.parse Prelude.split_on
    Prelude.trim_prefix Fixtures.lock_document LockFile.validate Fixtures.classifications
    Fixtures.load_candidate Resolver.resolve SourcePolicy.resolve Decimal.leading_zero
    Decimal.scan_uint Semver.compare SourcePolicy.display_order Catalogue.registry_url
    Catalogue.registry_set Catalogue.build_package indexjack.PkgArchive.Building.build
    indexjack.PkgArchive.Building.archive indexjack.Registry.Sorting.sort_set Client.client_receipt
    SourcePolicy.matching SourcePolicy.matches Prelude.trim_suffix LockFile.record_of
    LockFile.records_of Semver.satisfies Client.new_client Client.client_metadata
    Resolver.order_candidates Client.client_artifact LockFile.verify_bytes PkgArchive.parse
    PkgArchive.policy_lookup Ledger.approved Prelude.any Audit.emit Audit.validate Audit.stamped
    Audit.new_sink Audit.correlation_id PkgArchive.lookup PkgArchive.validate_manifest
    PkgArchive.validate_policy Client.allowed_host Client.received Decimal.all_digits
    ReleaseGate.reported Fixtures.classification_of build reconcile
releases_once = (refl, refl)
