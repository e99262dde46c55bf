-- ===== src/Harness/Running/Evidence.antt =====
-- internal/harness/harness.go: `Run`, where it returns a transcript.
use indexjack.Prelude.{true, List, some, Result, ok, Text, Bytes, ◌≡◌}
use indexjack.Vulnerable
use indexjack.Registry.{ReceiptConfig}
use indexjack.Fixtures.{Scenario, load_scenario}
use indexjack.Fixtures.Catalogue.{receipt_boundary}
use indexjack.ReleaseGate
use indexjack.ReleaseGate.{
  failed, build_ok, build_failed, untouched, approved, suppressed_duplicate,
}
use indexjack.ReleaseGate.Execution.{execute}
use indexjack.Harness.{RegistryReceipt, Transcript}
use indexjack.Harness.Recording.{build}
use indexjack.Harness.Running.{
  Platform, gate_of, Faults, Options, Error, World, new_run_id, dial, collect_receipts, run,
}

module _ {T N : Type 0} (p : Platform T N) (opts : Options) (faults : Faults) where
  -- The steps behind a transcript that a run returned.
  pub record IsEvidence (w : World N) (t : Transcript) : Type 0 where
    pub scenario : Scenario
    pub enumerated : load_scenario p.catalogue.embedded opts.scenario_id ≡ ok scenario
    pub allowed : scenario.vulnerable ≡ true → Vulnerable.gate p.gate.environment ≡ ok tt
    pub boundary : ReceiptConfig
    pub bounded : receipt_boundary p.catalogue ≡ ok boundary
    pub run_id : Text
    pub fresh : new_run_id p.random ≡ some run_id
    pub outcome : ReleaseGate.Outcome
    pub after : ReleaseGate.World N
    pub executed :
        execute
          (gate_of p)
          faults.gate
          (record { scenario = scenario; state_dir = opts.state_dir; dial = dial p opts run_id })
          w.gate
        ≡ (ok outcome, after)
    pub receipts : List RegistryReceipt
    pub collected : (collect_receipts p opts boundary run_id after.network).0 ≡ ok receipts
    pub recorded : t ≡ build p.gate.audit.sha256 scenario outcome receipts
    pub body : Bytes
    pub encoded : p.encode t ≡ some body
    pub kept : (run p opts faults w).1.transcript ≡ some body
    pub ledger : (run p opts faults w).1.gate.disk ≡ after.disk

  -- From the collected receipts on.
  record IsRecorded (s : Scenario) (o : ReleaseGate.Outcome) (w : World N)
      (answer : Result Error (List RegistryReceipt) × N) (t : Transcript) (final : World N)
      : Type 0 where
    receipts : List RegistryReceipt
    collected : answer.0 ≡ ok receipts
    recorded : t ≡ build p.gate.audit.sha256 s o receipts
    body : Bytes
    encoded : p.encode t ≡ some body
    kept : final.transcript ≡ some body
    ledger : final.gate.disk ≡ w.gate.disk

  -- From the executed scenario on.
  record IsReceived (s : Scenario) (boundary : ReceiptConfig) (run_id : Text)
      (answer : ReleaseGate.Run N) (t : Transcript) (final : World N) : Type 0 where
    outcome : ReleaseGate.Outcome
    after : ReleaseGate.World N
    executed : answer ≡ (ok outcome, after)
    receipts : List RegistryReceipt
    collected : (collect_receipts p opts boundary run_id after.network).0 ≡ ok receipts
    recorded : t ≡ build p.gate.audit.sha256 s outcome receipts
    body : Bytes
    encoded : p.encode t ≡ some body
    kept : final.transcript ≡ some body
    ledger : final.gate.disk ≡ after.disk
