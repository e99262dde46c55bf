-- ===== src/Registry/Client.antt =====
-- internal/registry/registry.go: the client. `Transport` has what net/url and net/http do with an
-- address and a request, and what encoding/json decodes.
pub mod Confined
use indexjack.Prelude.{
  ℕ, suc, ◌*◌, ◌^◌, ltb, ◌==◌, if◌then◌else◌, Bool, ◌||◌, not, List, [], ◌∷◌, ◌++◌, Option, none,
  some, Result, ok, err, Text, Bytes, codes, text_eq, has_suffix, take, length,
}
use indexjack.CanonicalJson.{Decoder, unmarshal}
use indexjack.Registry.{
  FetchError, not_found, unavailable, protocol, disallowed, unauthorized, Metadata, Receipt,
}
use indexjack.Registry.Service.{
  metadata_format, receipt_format, metadata_path, artifact_path, receipt_path, receipt_scheme,
}

abbrev pub max_metadata_bytes : ℕ
max_metadata_bytes = 64 * 2 ^ 10

abbrev pub max_artifact_bytes : ℕ
max_artifact_bytes = 256 * 2 ^ 10

abbrev pub max_receipt_bytes : ℕ
max_receipt_bytes = 256 * 2 ^ 10

-- A parsed address.
pub record Address : Type 0 where
  pub scheme : Text
  pub hostname : Text
  pub port : Text

-- A GET request; an empty `run` sends no header of it.
pub record Outgoing : Type 0 where
  pub base : Address
  pub path : Text
  pub query : List (Text × Text)
  pub run : Text
  pub authorization : Option Text

-- A response; `none` is a body that cannot be read.
pub record Incoming : Type 0 where
  pub status : ℕ
  pub body : Option Bytes

pub record Transport (N : Type 0) : Type 0 where
  pub parse_url : Text → Option Address
  pub send : Outgoing → N → Option Incoming × N
  pub metadata_decoder : Decoder Metadata
  pub receipt_decoder : Decoder Receipt

pub record Client : Type 0 where
  pub base : Address
  pub run_id : Text

unfoldable pub allowed_host : Text → Bool
allowed_host host =
    text_eq host (codes "localhost")
    || (text_eq host (codes "127.0.0.1")
        || (text_eq host (codes "::1")
            || (has_suffix host (codes ".private.example")
                || has_suffix host (codes ".public.example"))))

-- What `get` makes of a response.
unfoldable pub received : ℕ → Option Incoming → Result FetchError Bytes
received limit none = err unavailable
received limit (some r) =
    if r.status == 200
    then elim r.body [
      | none ↦ err unavailable
      | some all ↦
          let body = take (suc limit) all in
          if ltb limit (length body) then err protocol else ok body
    ]
    else if r.status == 404
    then err not_found
    else if r.status == 401
    then err unauthorized
    else err unavailable

-- The checks on decoded metadata.
checked_metadata : Text → Metadata → Result FetchError Metadata
checked_metadata name meta =
    if not (text_eq meta.format metadata_format) || not (text_eq meta.name name)
    then err protocol
    else ok meta

checked_receipt : Text → Receipt → Result FetchError Receipt
checked_receipt run r =
    if not (text_eq r.format receipt_format) || not (text_eq r.run run)
    then err protocol
    else if not (r.request_count == length r.requests)
    then err protocol
    else ok r

module _ {N : Type 0} (net : Transport N) where
  unfoldable pub new_client : Text → Text → Result FetchError Client
  unfolding allowed_host
  new_client base run_id = elim (net.parse_url base) [
    | none ↦ err disallowed
    | some u ↦
        if not (text_eq u.scheme (codes "http"))
        then err disallowed
        else if not (allowed_host u.hostname)
        then err disallowed
        else ok (record { base = u; run_id = run_id })
  ]

  pub request : Client → Text → List (Text × Text) → Option Text → Outgoing
  request c path query authorization = record {
    base = c.base;
    path = path;
    query = query;
    run = c.run_id;
    authorization = authorization;
  }

  get : Client → Text → List (Text × Text) → ℕ → Option Text → N → Result FetchError Bytes × N
  unfolding request received
  get c path query limit authorization n =
      let (r, m) = net.send (request c path query authorization) n in (received limit r, m)

  decoded_metadata : Text → Result FetchError Bytes × N → Result FetchError Metadata × N
  unfolding checked_metadata
  decoded_metadata name (err e, n) = (err e, n)
  decoded_metadata name (ok body, n) = elim (unmarshal net.metadata_decoder body) [
    | err _ ↦ (err protocol, n)
    | ok meta ↦ (checked_metadata name meta, n)
  ]

  decoded_receipt : Text → Result FetchError Bytes × N → Result FetchError Receipt × N
  unfolding checked_receipt
  decoded_receipt run (err e, n) = (err e, n)
  decoded_receipt run (ok body, n) = elim (unmarshal net.receipt_decoder body) [
    | err _ ↦ (err protocol, n)
    | ok r ↦ (checked_receipt run r, n)
  ]

  unfoldable pub client_metadata : Client → Text → N → Result FetchError Metadata × N
  unfolding get decoded_metadata
  client_metadata c name n =
      decoded_metadata name
        (get c metadata_path ((codes "name", name) ∷ []) max_metadata_bytes none n)

  unfoldable pub client_artifact : Client → Text → Text → N → Result FetchError Bytes × N
  unfolding get
  client_artifact c name version n =
      get c artifact_path ((codes "name", name) ∷ (codes "version", version) ∷ [])
        max_artifact_bytes none n

  unfoldable pub client_receipt : Client → Text → Text → N → Result FetchError Receipt × N
  unfolding get decoded_receipt
  client_receipt c run credential n = decoded_receipt run (
      get c receipt_path ((codes "run", run) ∷ []) max_receipt_bytes
        (some (receipt_scheme ++ codes " " ++ credential)) n)
