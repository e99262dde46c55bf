-- ===== src/Harness/Running.antt =====
-- internal/harness/harness.go: the functions `Run` and `collectReceipts`.
pub mod Collected
pub mod Evidence
pub mod Judged
use indexjack.Prelude.{
  ℕ, if◌then◌else◌, Bool, ◌&&◌, not, List, [], ◌∷◌, ◌++◌, map, Option, none, some, Result, ok, err,
  Text, Bytes, text_eq, text_lt, is_empty, sort, take,
}
use indexjack.SourcePolicy.{Source}
use indexjack.Vulnerable
use indexjack.Vulnerable.{Refusal, acknowledged}
use indexjack.PkgArchive.Identity.{hex}
use indexjack.Registry.{FetchError, Receipt, ReceiptConfig}
use indexjack.Registry.Service.{Encoder, entry_of}
use indexjack.Registry.Receipts.{verify_receipt}
use indexjack.Registry.Client
use indexjack.Registry.Client.{
  Client, Transport, new_client, client_metadata, client_artifact, client_receipt,
}
use indexjack.Resolver.{Fetcher}
use indexjack.Fixtures
use indexjack.Fixtures.{Scenario, load_scenario}
use indexjack.Fixtures.Catalogue
use indexjack.Fixtures.Catalogue.{Catalogue, receipt_boundary, registry_set, registry_urls}
use indexjack.ReleaseGate
use indexjack.ReleaseGate.Execution.{execute}
use indexjack.Harness.{RegistryReceipt, Transcript}
use indexjack.Harness.Recording.{build}

-- What the harness stands on. `random` is what crypto/rand reads, `encode` what encoding/json makes
-- of a transcript.
pub record Platform (T N : Type 0) : Type 0 where
  pub gate : ReleaseGate.Platform
  pub catalogue : Catalogue T
  pub transport : Transport N
  pub encoder : Encoder
  pub random : Option Bytes
  pub encode : Transcript → Option Bytes

-- The gate of a run reads the same embedded files.
abbrev pub gate_of : {T N : Type 0} → Platform T N → ReleaseGate.Platform
gate_of p = record p.gate { embedded = p.catalogue.embedded }

pub record Faults : Type 0 where
  pub mkdir : Bool
  pub gate : ReleaseGate.Faults
  pub open_file : Bool
  pub write : Bool
  pub written : ℕ

pub data Error : Type 0 where
  unknown_scenario no_state_dir os_error no_random not_encoded foreign_receipt : Error
  not_acknowledged : Refusal → Error
  catalogue_error : Catalogue.Error → Error
  gate_error : ReleaseGate.Error → Error
  fetch_error : FetchError → Error

pub record Options : Type 0 where
  pub scenario_id : Text
  pub state_dir : Text
  pub endpoints : List (Text × Text)

-- What a run works on, with its transcript file.
pub record World (N : Type 0) : Type 0 where
  pub gate : ReleaseGate.World N
  pub transcript : Option Bytes

abbrev pub Answer : Type 0 → Type 0
Answer N = Result Error Transcript × World N

-- `endpoint`
pub endpoint : List (Text × Text) → Text → Text
endpoint endpoints checked_in = elim (entry_of checked_in endpoints) [
  | some replacement ↦ replacement
  | none ↦ checked_in
]

-- `newRunID`; the array has 16 bytes.
abbrev pub new_run_id : Option Bytes → Option Text
new_run_id random = elim random [ none ↦ none | some raw ↦ some (hex (take 16 raw)) ]

abbrev pub url_of : Text → List (Text × Text) → Text
url_of id urls = elim (entry_of id urls) [ some url ↦ url | none ↦ [] ]

abbrev pub id_of : Text × Text → Text
id_of (id, url) = id

module _ {T N : Type 0} (p : Platform T N) (opts : Options) where
  -- The client as the resolvers take it.
  pub fetcher_of : Client → Fetcher N
  fetcher_of c = record {
    metadata = client_metadata p.transport c;
    artifact = client_artifact p.transport c;
  }

  -- The function `Dial` of a run.
  pub dial : Text → Source → Result FetchError (Fetcher N)
  dial run_id source = elim (new_client p.transport (endpoint opts.endpoints source.url) run_id) [
    | err e ↦ err e
    | ok c ↦ ok (fetcher_of c)
  ]

  -- The record of one receipt.
  abbrev pub receipt_record : ReceiptConfig → Receipt → RegistryReceipt
  receipt_record boundary r = record {
    source = r.source;
    role = r.role;
    revision = r.revision;
    request_count = r.request_count;
    requests = r.requests;
    signature_verified = verify_receipt p.encoder r boundary.signing_key;
  }

  -- The statement of one registry.
  pub accepted_receipt :
      ReceiptConfig → Text → Result FetchError Receipt × N → Result Error RegistryReceipt × N
  accepted_receipt boundary id (err e, n) = (err (fetch_error e), n)
  accepted_receipt boundary id (ok r, n) =
      if not (text_eq r.source id)
      then (err foreign_receipt, n)
      else (ok (receipt_record boundary r), n)

  pub ask_registry : ReceiptConfig → Text → Text → Text → N → Result Error RegistryReceipt × N
  ask_registry boundary run_id id url n =
      elim (new_client p.transport (endpoint opts.endpoints url) []) [
        | err e ↦ (err (fetch_error e), n)
        | ok c ↦
            accepted_receipt boundary id (client_receipt p.transport c run_id boundary.credential n)
      ]

  -- The loop over the registries, with the records so far.
  pub ask_each :
      ReceiptConfig
      → Text
      → List (Text × Text)
      → List Text
      → List RegistryReceipt
      → N
      → Result Error (List RegistryReceipt) × N
  ask_each boundary run_id urls [] out n = (ok out, n)
  ask_each boundary run_id urls (id ∷ ids) out n = elim (registry_set p.catalogue id) [
    | err e ↦ (err (catalogue_error e), n)
    | ok set ↦ elim (set.vulnerable && not (acknowledged p.gate.environment)) [
      | Bool.true ↦ ask_each boundary run_id urls ids out n
      | Bool.false ↦
          let (answer, m) = ask_registry boundary run_id id (url_of id urls) n in
          elim answer [
            | err e ↦ (err e, m)
            | ok r ↦ ask_each boundary run_id urls ids (out ++ r ∷ []) m
          ]
    ]
  ]

  unfoldable pub collect_receipts :
      ReceiptConfig → Text → N → Result Error (List RegistryReceipt) × N
  unfolding endpoint accepted_receipt ask_registry ask_each
  collect_receipts boundary run_id n = elim (registry_urls p.catalogue) [
    | err e ↦ (err (catalogue_error e), n)
    | ok urls ↦ ask_each boundary run_id urls (sort text_lt (map id_of urls)) [] n
  ]

  module _ (faults : Faults) where
    -- `os.WriteFile` of the transcript.
    pub written_stage : Transcript → Bytes → World N → Answer N
    written_stage t body w =
        if faults.open_file
        then (err os_error, w)
        else if faults.write
        then (err os_error, record w { transcript = some (take faults.written body) })
        else (ok t, record w { transcript = some body })

    pub record_stage :
        Scenario
        → ReleaseGate.Outcome
        → World N
        → Result Error (List RegistryReceipt) × N
        → Answer N
    record_stage s o w (err e, n) = (err e, record w { gate = record w.gate { network = n } })
    record_stage s o w (ok receipts, n) =
        let t = build p.gate.audit.sha256 s o receipts in
        let w2 = record w { gate = record w.gate { network = n } } in
        elim (p.encode t) [ none ↦ (err not_encoded, w2) | some body ↦ written_stage t body w2 ]

    pub receipts_stage : Scenario → ReceiptConfig → Text → World N → ReleaseGate.Run N → Answer N
    receipts_stage s boundary run_id w (err e, g) = (err (gate_error e), record w { gate = g })
    receipts_stage s boundary run_id w (ok o, g) =
        record_stage s o (record w { gate = g }) (collect_receipts boundary run_id g.network)

    pub execute_stage : Scenario → ReceiptConfig → Text → World N → Answer N
    execute_stage s boundary run_id w = receipts_stage s boundary run_id w (
        execute (gate_of p) faults.gate
          (record { scenario = s; state_dir = opts.state_dir; dial = dial run_id }) w.gate)

    pub start_stage : Scenario → World N → Answer N
    start_stage s w =
        if is_empty opts.state_dir
        then (err no_state_dir, w)
        else if faults.mkdir
        then (err os_error, w)
        else elim (receipt_boundary p.catalogue) [
          | err e ↦ (err (catalogue_error e), w)
          | ok boundary ↦ elim (new_run_id p.random) [
            | none ↦ (err no_random, w)
            | some run_id ↦ execute_stage s boundary run_id w
          ]
        ]

    unfoldable pub run : World N → Answer N
    unfolding fetcher_of dial written_stage record_stage receipts_stage execute_stage start_stage
    run w = elim (load_scenario p.catalogue.embedded opts.scenario_id) [
      | err e ↦ (err unknown_scenario, w)
      | ok s ↦ elim s.vulnerable [
        | Bool.true ↦ elim (Vulnerable.gate p.gate.environment) [
          | err r ↦ (err (not_acknowledged r), w)
          | ok _ ↦ start_stage s w
        ]
        | Bool.false ↦ start_stage s w
      ]
    ]
