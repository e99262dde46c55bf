-- ===== src/Registry/Service.antt =====
-- internal/registry/registry.go: the read-only service. A request is what net/http makes of it, and
-- `Encoder` has what encoding/json, crypto/hmac and strings.TrimSpace compute.
use indexjack.Prelude.{
  ℕ, ◌==◌, if◌then◌else◌, Bool, true, false, ◌||◌, not, List, [], ◌∷◌, ◌++◌, map, Option, none,
  some, Text, Bytes, codes, text_eq, is_empty, find?, length, pos,
}
use indexjack.PkgArchive.Identity.{digest}
use indexjack.Registry.{
  Artifact, Package, FixtureSet, Request, Receipt, ReceiptConfig, Metadata, VersionInfo,
}

abbrev pub metadata_format : Text
metadata_format = codes "indexjack-registry-metadata/1"

abbrev pub receipt_format : Text
receipt_format = codes "indexjack-registry-receipt/1"

abbrev pub metadata_path : Text
metadata_path = codes "/v1/metadata"

abbrev pub artifact_path : Text
artifact_path = codes "/v1/artifact"

abbrev pub receipt_path : Text
receipt_path = codes "/v1/receipts"

abbrev pub receipt_scheme : Text
receipt_scheme = codes "Fixture"

-- A map with texts for keys, as the list of its entries.
abbrev pub Table : Type 0 → Type 0
Table A = List (Text × A)

-- `m[key]` with its `ok`.
unfoldable pub entry_of : {A : Type 0} → Text → Table A → Option A
entry_of key [] = none
entry_of key ((k, v) ∷ m) = let rest = entry_of key m in if text_eq k key then some v else rest

pub record Handler : Type 0 where
  pub set : FixtureSet
  pub receipts : ReceiptConfig
  pub requests : List Request
  pub by_run : Table (List Request)

unfoldable pub new_handler : FixtureSet → ReceiptConfig → Handler
new_handler set receipts = record { set = set; receipts = receipts; requests = []; by_run = [] }

-- `RunRequests`; a missing key is the empty slice.
unfoldable pub run_requests : Handler → Text → List Request
unfolding entry_of
run_requests h run = elim (entry_of run h.by_run) [ some rs ↦ rs | none ↦ [] ]

unfoldable pub reset : Handler → Handler
reset h = record h { requests = []; by_run = [] }

-- `h.byRun[run] = append(h.byRun[run], r)`
unfoldable pub append_run : Text → Request → Table (List Request) → Table (List Request)
append_run run r [] = (run, r ∷ []) ∷ []
append_run run r ((k, rs) ∷ m) =
    let rest = append_run run r m in if text_eq k run then (k, rs ++ r ∷ []) ∷ m else (k, rs) ∷ rest

unfoldable pub record_request : Request → Text → Handler → Handler
record_request r run h =
    let logged = record h { requests = h.requests ++ r ∷ [] } in
    if is_empty run then logged else record logged { by_run = append_run run r h.by_run }

-- A request as the handler sees it.
pub record Incoming : Type 0 where
  pub method : Text
  pub path : Text
  pub run : Text
  pub authorization : Text
  pub query : Table (List Text)

-- The headers are those of every response; `octets` marks the content type of an artifact.
pub record Response : Type 0 where
  pub role : Text
  pub revision : Text
  pub source : Text
  pub labelled : Bool
  pub octets : Bool
  pub status : ℕ
  pub body : Bytes

pub record Encoder : Type 0 where
  pub metadata : Metadata → Option Bytes
  pub receipt : Receipt → Option Bytes
  pub sha256 : Bytes → Bytes
  pub hmac : Bytes → Bytes → Bytes
  pub trim_space : Text → Text

-- The sole value of a key.
pub single : Table (List Text) → Text → Option Text
unfolding entry_of
single q key = elim (entry_of key q) [
  | none ↦ none
  | some vs ↦ elim vs [
    | [] ↦ none
    | v ∷ more ↦ elim more [ [] ↦ if is_empty v then none else some v | _ ∷ _ ↦ none ]
  ]
]

abbrev quote : Bytes
quote = b'"' ∷ []

-- `{"error":"code"}` and a newline.
abbrev pub error_body : Text → Bytes
error_body code =
    b'{' ∷ quote ++ codes "error" ++ quote ++ b':' ∷ quote ++ code ++ quote ++ b'}' ∷ 10 ∷ []

-- What a branch of the handler has decided: the request as it will be logged, and the response.
pub record Served : Type 0 where
  pub request : Request
  pub response : Response

module _ (enc : Encoder) (h : Handler) where
  pub answer : ℕ → Bool → Bytes → Response
  answer status octets body = record {
    role = h.set.role;
    revision = h.set.revision;
    source = h.set.id;
    labelled = h.set.vulnerable;
    octets = octets;
    status = status;
    body = body;
  }

  pub refuse : Request → ℕ → Text → Served
  unfolding answer
  refuse r status code = record {
    request = record r { status = status };
    response = answer status false (error_body code);
  }

  succeed : Request → Bool → Bytes → Served
  unfolding answer
  succeed r octets body = record {
    request = record r { status = 200 };
    response = answer 200 octets body;
  }

  pkg_of : Text → Option Package
  pkg_of name = find? (λ p. text_eq p.name name) h.set.packages

  artifact_of : Text → Text → Option Artifact
  unfolding pkg_of
  artifact_of name version = elim (pkg_of name) [
    | none ↦ none
    | some p ↦ find? (λ a. text_eq a.version version) p.versions
  ]

  info_of : Artifact → VersionInfo
  info_of a = record {
    version = a.version;
    size = pos (length a.bytes);
    sha256 = digest enc.sha256 a.bytes;
  }

  serve_metadata : Request → Table (List Text) → Served
  unfolding refuse succeed pkg_of single info_of
  serve_metadata r query = elim (single query (codes "name")) [
    | none ↦ refuse r 400 (codes "bad_request")
    | some name ↦
        if not (length query == 1) then refuse r 400 (codes "bad_request") else elim (pkg_of name) [
          | none ↦ refuse (record r { name = name }) 404 (codes "not_found")
          | some p ↦
              elim (enc.metadata (record {
                format = metadata_format;
                source = h.set.id;
                role = h.set.role;
                name = p.name;
                versions = map info_of p.versions;
              })) [
                | none ↦ refuse (record r { name = name }) 500 (codes "internal_error")
                | some body ↦ succeed (record r { name = name }) false body
              ]
        ]
  ]

  serve_artifact : Request → Table (List Text) → Served
  unfolding refuse succeed artifact_of single
  serve_artifact r query = elim (single query (codes "name")) [
    | none ↦ refuse r 400 (codes "bad_request")
    | some name ↦ elim (single query (codes "version")) [
      | none ↦ refuse r 400 (codes "bad_request")
      | some version ↦
          let asked = record r { name = name; version = version } in
          if not (length query == 2)
          then refuse r 400 (codes "bad_request")
          else elim (artifact_of name version) [
            | none ↦ refuse asked 404 (codes "not_found")
            | some a ↦ succeed asked true a.bytes
          ]
    ]
  ]

  -- What is logged of a request before its path is looked at.
  unnamed : Incoming → Request
  unnamed i = record { method = i.method; path = i.path; name = []; version = []; status = 0 }

  abbrev pub reads_only : Text → Bool
  reads_only method = text_eq method (codes "GET") || text_eq method (codes "HEAD")

  -- The branches whose request is logged.
  unfoldable pub serve_query : Incoming → Served
  unfolding refuse unnamed serve_metadata serve_artifact
  serve_query i =
      if not (reads_only i.method)
      then refuse (unnamed i) 405 (codes "method_not_allowed")
      else if text_eq i.path metadata_path
      then serve_metadata (unnamed i) i.query
      else if text_eq i.path artifact_path
      then serve_artifact (unnamed i) i.query
      else refuse (unnamed i) 404 (codes "not_found")
