-- ===== src/Samples/Registries.antt =====
-- Tests of the registry's service.
use indexjack.Prelude.{false, [], ◌∷◌, some, codes, ◌≡◌, refl}
use indexjack.PkgArchive.Identity
use indexjack.Registry.{FixtureSet, ReceiptConfig, Receipt}
use indexjack.Registry.Service.{
  Handler, new_handler, Incoming, Encoder, metadata_path, artifact_path, receipt_path,
}
use indexjack.Registry.Receipts
use indexjack.Registry.Receipts.{receipt_on, statement}
use indexjack.Registry.Observed.{IsStatement, receipt_on-IsStatement}

abbrev pub encoder : Encoder
encoder = record {
  metadata = λ _. some [];
  receipt = λ _. some (1 ∷ []);
  sha256 = λ raw. raw;
  hmac = λ key message. message;
  trim_space = λ s. s;
}

abbrev pub fixture_set : FixtureSet
fixture_set = record {
  id = codes "corp";
  role = codes "private";
  revision = codes "r1";
  vulnerable = false;
  packages =
      record {
        name = codes "acme-policy";
        versions = record { version = codes "1.4.0"; bytes = 7 ∷ [] } ∷ [];
      }
      ∷ [];
}

abbrev receipt_config : ReceiptConfig
receipt_config = record { credential = codes "c"; signing_key = codes "k" }

abbrev asks_metadata : Incoming
asks_metadata = record {
  method = codes "GET";
  path = metadata_path;
  run = codes "run1";
  authorization = [];
  query = (codes "name", codes "acme-policy" ∷ []) ∷ [];
}

abbrev asks_artifact : Incoming
asks_artifact = record {
  method = codes "GET";
  path = artifact_path;
  run = codes "run2";
  authorization = [];
  query = (codes "name", codes "acme-policy" ∷ []) ∷ (codes "version", codes "1.4.0" ∷ []) ∷ [];
}

abbrev asks_receipt : Incoming
asks_receipt = record asks_metadata {
  path = receipt_path;
  query = (codes "run", codes "run1" ∷ []) ∷ [];
}

abbrev handler : Handler
handler = new_handler fixture_set receipt_config

abbrev signed : Receipt
signed = record (statement handler (codes "run1")) { signature = codes "hmac-sha256:01" }

is_signed : receipt_on encoder handler (codes "run1") ≡ some signed
unfolding Receipts.receipt_on Receipts.sign_receipt Identity.hex
is_signed = refl

receipt_on-IsStatement_example : IsStatement encoder handler (codes "run1") signed
receipt_on-IsStatement_example =
    receipt_on-IsStatement encoder handler (codes "run1") signed is_signed
