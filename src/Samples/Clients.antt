-- ===== src/Samples/Clients.antt =====
-- Tests of the registry's client.
use indexjack.Prelude.{ℕ, suc, [], ◌∷◌, some, ok, codes, ◌≡◌, refl, true, text_eq, has_suffix}
use indexjack.CanonicalJson.{other}
use indexjack.Registry.{Metadata, Receipt}
use indexjack.Registry.Service.{metadata_format, receipt_format}
use indexjack.Registry.Client.{Address, Transport, Client, allowed_host, new_client}
use indexjack.Registry.Client.Confined.{IsLaboratoryHost, new_client-confined}

abbrev address : Address
address = record { scheme = codes "http"; hostname = codes "corp.private.example"; port = [] }

abbrev metadata : Metadata
metadata = record {
  format = metadata_format;
  source = codes "corp";
  role = codes "private";
  name = codes "acme-policy";
  versions = [];
}

abbrev receipt : Receipt
receipt = record {
  format = receipt_format;
  source = codes "corp";
  role = codes "private";
  revision = codes "r1";
  run = codes "r";
  request_count = 0;
  requests = [];
  signature = [];
}

-- A network that answers every request, and counts them.
abbrev network : Transport ℕ
network = record {
  parse_url = λ _. some address;
  send = λ _ n. (some (record { status = 200; body = some (7 ∷ 8 ∷ []) }), suc n);
  metadata_decoder = record { tokens = λ _. other ∷ []; decode = λ _. some (metadata, true) };
  receipt_decoder = record { tokens = λ _. other ∷ []; decode = λ _. some (receipt, true) };
}

abbrev client : Client
client = record { base = address; run_id = codes "r" }

new_client_accepts :
    new_client network (codes "http://corp.private.example") (codes "r") ≡ ok client
unfolding new_client allowed_host text_eq has_suffix
new_client_accepts = refl

new_client-confined_example :
    (network.parse_url (codes "http://corp.private.example") ≡ some client.base)
    × (client.run_id ≡ codes "r")
    × (client.base.scheme ≡ codes "http")
    × IsLaboratoryHost client.base.hostname
new_client-confined_example =
    new_client-confined network (codes "http://corp.private.example") (codes "r") client
      new_client_accepts
