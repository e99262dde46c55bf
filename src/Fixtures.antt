-- ===== src/Fixtures.antt =====
-- internal/fixtures/fixtures.go: the checked-in documents, as far as a run reads them. `Embedded` is
-- the embedded file system, `path.Join`, and what encoding/json makes of each kind of document.
pub mod Enumerated
pub mod Catalogue
use indexjack.Prelude.{
  ℕ, ◌==◌, if◌then◌else◌, Bool, ◌&&◌, ◌||◌, not, List, [], ◌∷◌, ◌++◌, map, Option, none, some,
  Result, ok, err, ◌>>=◌, Text, Bytes, codes, text_eq, find?, select, any, length,
}
use indexjack.CanonicalJson.{Decoder, unmarshal}
use indexjack.SourcePolicy
use indexjack.BuildManifest
use indexjack.LockFile

abbrev candidate_format : Text
candidate_format = codes "indexjack-candidate/1"

abbrev classification_format : Text
classification_format = codes "indexjack-classification/1"

abbrev scenario_format : Text
scenario_format = codes "indexjack-scenarios/1"

-- `ErrUnknownFixture`, a document that is not strict JSON, and one that its own check refuses.
pub data Error : Type 0 where
  unknown_fixture bad_document invalid_document : Error

abbrev pub known_unsafe : Text
known_unsafe = codes "known_unsafe"

abbrev pub release_ready : Text
release_ready = codes "release_ready"

pub record Candidate : Type 0 where
  pub format : Text
  pub id : Text
  pub family : Text
  pub submitted_by : Text
  pub evaluation_inputs : Text
  pub summary : Text

pub record Classification : Type 0 where
  pub candidate_id : Text
  pub classification : Text

pub record ClassificationDoc : Type 0 where
  pub format : Text
  pub summary : Text
  pub entries : List Classification

abbrev pub resolver_secure : Text
resolver_secure = codes "secure"

abbrev pub resolver_combined_index : Text
resolver_combined_index = codes "combined-index"

pub record Scenario : Type 0 where
  pub id : Text
  pub summary : Text
  pub resolver : Text
  pub source_policy : Text
  pub manifest : Text
  pub lock : Text
  pub candidate : Text
  pub vulnerable : Bool

pub record ScenarioDoc : Type 0 where
  pub format : Text
  pub scenarios : List Scenario

pub record Embedded : Type 0 where
  pub read_file : Text → Option Bytes
  pub join : List Text → Text
  pub policy_decoder : Decoder SourcePolicy.Policy
  pub manifest_decoder : Decoder BuildManifest.Manifest
  pub lock_decoder : Decoder LockFile.Lock
  pub candidate_decoder : Decoder Candidate
  pub classification_decoder : Decoder ClassificationDoc
  pub scenario_decoder : Decoder ScenarioDoc

-- The table of a map, as an association list.
abbrev pub Table : Type 0
Table = List Classification

abbrev pub is_of : Text → Classification → Bool
is_of id c = text_eq c.candidate_id id

abbrev pub is_known : Text → Bool
is_known label = text_eq label known_unsafe || text_eq label release_ready

-- The loop over the entries, with the table built so far.
tabulate : Table → List Classification → Result Error Table
tabulate table [] = ok table
tabulate table (e ∷ es) =
    let rest = tabulate (table ++ e ∷ []) es in
    if not (is_known e.classification)
    then err unknown_fixture
    else if any (is_of e.candidate_id) table
    then err unknown_fixture
    else rest

-- `classifications[id]`, the empty text on a missing key.
unfoldable pub classification_of : Table → Text → Text
classification_of table id = elim (find? (is_of id) table) [ some c ↦ c.classification | none ↦ [] ]

abbrev pub is_listed : Bool → Scenario → Bool
is_listed include_vulnerable s = not (s.vulnerable && not include_vulnerable)

abbrev pub scenario_id : Scenario → Text
scenario_id s = s.id

abbrev pub is_named : Text → Scenario → Bool
is_named id s = text_eq s.id id

module _ (data_ : Embedded) where
  unfoldable pub read : {A : Type 0} → Decoder A → Text → Result Error A
  read decoder name = elim (data_.read_file (data_.join (codes "data" ∷ name ∷ []))) [
    | none ↦ err unknown_fixture
    | some raw ↦ elim (unmarshal decoder raw) [ err _ ↦ err bad_document | ok v ↦ ok v ]
  ]

  unfoldable pub document : Text → Text → Text
  document dir name = data_.join (dir ∷ (name ++ codes ".json") ∷ [])

  unfoldable pub source_policy : Text → Result Error SourcePolicy.Policy
  unfolding read document
  source_policy name = read data_.policy_decoder (document (codes "policies") name) >>= λ p.
      elim (SourcePolicy.validate p) [ err _ ↦ err invalid_document | ok _ ↦ ok p ]

  unfoldable pub build_manifest : Text → Result Error BuildManifest.Manifest
  unfolding read document
  build_manifest name = read data_.manifest_decoder (document (codes "manifests") name) >>= λ m.
      elim (BuildManifest.validate m) [ err _ ↦ err invalid_document | ok _ ↦ ok m ]

  unfoldable pub lock_document : Text → Result Error LockFile.Lock
  unfolding read document
  lock_document name = read data_.lock_decoder (document (codes "locks") name) >>= λ l.
      elim (LockFile.validate l) [ err _ ↦ err invalid_document | ok _ ↦ ok l ]

  unfoldable pub load_candidate : Text → Result Error Candidate
  unfolding read document
  load_candidate id = read data_.candidate_decoder (document (codes "candidates") id) >>= λ c.
      if not (text_eq c.format candidate_format) || not (text_eq c.id id)
      then err unknown_fixture
      else ok c

  unfoldable pub classifications : Result Error Table
  unfolding read tabulate
  classifications = read data_.classification_decoder (codes "gate/classifications.json") >>= λ doc.
      if not (text_eq doc.format classification_format)
      then err unknown_fixture
      else tabulate [] doc.entries

  unfoldable pub scenarios : Result Error (List Scenario)
  unfolding read
  scenarios = read data_.scenario_decoder (codes "scenarios.json") >>= λ doc.
      if not (text_eq doc.format scenario_format)
      then err unknown_fixture
      else if length doc.scenarios == 0
      then err unknown_fixture
      else ok doc.scenarios

  -- `scenarioIDs`
  unfoldable pub scenario_ids : Bool → Result Error (List Text)
  scenario_ids include_vulnerable =
      scenarios >>= λ all. ok (map scenario_id (select (is_listed include_vulnerable) all))

  unfoldable pub load_scenario : Text → Result Error Scenario
  load_scenario id = scenarios >>= λ all. elim (find? (is_named id) all) [
    | some s ↦ ok s
    | none ↦ err unknown_fixture
  ]
