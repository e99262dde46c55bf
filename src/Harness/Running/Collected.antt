-- ===== src/Harness/Running/Collected.antt =====
-- Which receipts a run collects.
use indexjack.Prelude.{true, false, List, [], ok, Text, length, Within, ◌≡◌, ◌⊎◌}
use indexjack.Vulnerable.{acknowledged}
use indexjack.Registry.{FixtureSet, Receipt, ReceiptConfig}
use indexjack.Registry.Client.{Client, new_client, client_receipt}
use indexjack.Fixtures.Catalogue.{registry_set}
use indexjack.Harness.{RegistryReceipt}
use indexjack.Harness.Running.{Platform, Options, endpoint, receipt_record}

module _ {T N : Type 0} (p : Platform T N) (opts : Options) (boundary : ReceiptConfig)
    (run_id : Text) where
  -- A record of what a registry itself has stated of this run.
  pub record IsStated (id : Text) (out : RegistryReceipt) : Type 0 where
    pub receipt : Receipt
    pub recorded : out ≡ receipt_record p opts boundary receipt
    pub url : Text
    pub client : Client
    pub connected : new_client p.transport (endpoint opts.endpoints url) [] ≡ ok client
    pub network : N
    pub answered :
        (client_receipt p.transport client run_id boundary.credential network).0 ≡ ok receipt
    pub from : receipt.source ≡ id
    pub of_run : receipt.run ≡ run_id
    pub counted : receipt.request_count ≡ length receipt.requests

  -- A registry of an id, and whether it has to be asked.
  abbrev pub IsWithheld : Text → Type 0
  IsWithheld id =
      (set : FixtureSet) × (registry_set p.catalogue id ≡ ok set)
      × (set.vulnerable ≡ true)
      × (acknowledged p.gate.environment ≡ false)

  -- What the loop adds to the records of the ids that it has gone through.
  record Asked (ids : List Text) (out receipts : List RegistryReceipt) : Type 0 where
    kept : (x : RegistryReceipt) → Within x out → Within x receipts
    stated :
        (x : RegistryReceipt)
        → Within x receipts
        → Within x out ⊎ ((id : Text) × Within id ids × IsStated id x)
    complete :
        (id : Text)
        → Within id ids
        → IsWithheld id ⊎ ((x : RegistryReceipt) × Within x receipts × IsStated id x)
