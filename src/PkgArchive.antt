-- ===== src/PkgArchive.antt =====
-- internal/pkgarchive/pkgarchive.go: the package artifact and its loader. What archive/tar and
-- encoding/json read from bytes is the parameter `Reader`.
pub mod Identity
pub mod Policies
pub mod Entries
pub mod Rounds
pub mod Loader
pub mod Building
use Identity.{manifest_format, digest}
use indexjack.Prelude.{
  ℕ, suc, ◌+◌, ◌*◌, ◌^◌, ltb, leb, ◌==◌, if◌then◌else◌, Bool, true, false, ◌&&◌, ◌||◌, not, List,
  [], ◌∷◌, Option, none, some, Result, ok, err, ◌>>=◌, ◌>>◌, Text, Bytes, codes, text_eq, text_lt,
  member, is_empty, any, find?, take, get_elem?, length, sort, map, ℤ, pos, int_eq, int_lt,
}
use indexjack.CanonicalJson.{Decoder, unmarshal}

abbrev pub policy_format : Text
policy_format = codes "indexjack-policy/1"

abbrev pub manifest_entry : Text
manifest_entry = codes "manifest.json"

abbrev pub policy_entry : Text
policy_entry = codes "policy.json"

abbrev pub max_archive_size : ℕ
max_archive_size = 256 * 2 ^ 10

abbrev pub max_entry_size : ℕ
max_entry_size = 64 * 2 ^ 10

abbrev pub entry_mode : ℤ
entry_mode = pos 0o444

-- The sentinels that the errors wrap.
pub data Error : Type 0 where
  archive_too_large unexpected_entry entry_order duplicate_entry missing_entry : Error
  not_regular_file unsafe_entry_mode entry_too_large entry_metadata malformed_content : Error
  unsupported_kind unknown_policy_key policy_value policy_order format_version : Error

pub record Manifest : Type 0 where
  pub format : Text
  pub name : Text
  pub version : Text

pub record PolicyEntry : Type 0 where
  pub key : Text
  pub value : Text

pub record Policy : Type 0 where
  pub format : Text
  pub kind : Text
  pub entries : List PolicyEntry

pub record Package : Type 0 where
  pub manifest : Manifest
  pub policy : Policy

abbrev pub kind_release_policy : Text
kind_release_policy = codes "release-policy"

abbrev pub kind_report_format : Text
kind_report_format = codes "report-format"

abbrev pub verdict_approve : Text
verdict_approve = codes "APPROVE"

abbrev pub verdict_reject : Text
verdict_reject = codes "REJECT"

-- A map with texts for keys, as the list of its entries.
abbrev pub Table : Type 0 → Type 0
Table A = List (Text × A)

unfoldable pub lookup : {A : Type 0} → Text → Table A → Option A
lookup k [] = none
lookup k ((j, v) ∷ m) = let rest = lookup k m in if text_eq j k then some v else rest

abbrev pub verdicts : List Text
verdicts = verdict_approve ∷ verdict_reject ∷ []

abbrev pub release_keys : Table (List Text)
release_keys = (codes "MODEL-CANDIDATE-04", verdicts) ∷ (codes "MODEL-CANDIDATE-17", verdicts) ∷ []

abbrev pub schema : Table (Table (List Text))
schema =
    (kind_release_policy, release_keys)
    ∷ (
      kind_report_format,
      (codes "divider", codes "dash" ∷ codes "equals" ∷ [])
          ∷ (codes "field_case", codes "lower" ∷ codes "upper" ∷ [])
          ∷ (codes "title_style", codes "plain" ∷ codes "upper" ∷ [])
          ∷ [],
    )
    ∷ []

-- `Kinds`
abbrev kinds : List Text
kinds = sort text_lt (map (λ (k : Text × Table (List Text)). k.0) schema)

-- The method `Lookup` of a policy.
unfoldable pub policy_lookup : Policy → Text → Option Text
policy_lookup p key = elim (find? (λ e. text_eq e.key key) p.entries) [
  | none ↦ none
  | some e ↦ some e.value
]

unfoldable pub validate_manifest : Manifest → Result Error (Unit {0})
validate_manifest m =
    if not (text_eq m.format manifest_format)
    then err format_version
    else if is_empty m.name || is_empty m.version
    then err malformed_content
    else ok tt

-- `i > 0 && e.Key <= previous`, where `previous` is `none` before the first entry.
out_of_order : Option Text → Text → Bool
out_of_order none key = false
out_of_order (some previous) key = not (text_lt previous key)

-- The loop of `validatePolicy`.
check_entries : Table (List Text) → Option Text → List PolicyEntry → Result Error (Unit {0})
check_entries keys previous [] = ok tt
check_entries keys previous (e ∷ es) =
    let rest = check_entries keys (some e.key) es in
    elim (lookup e.key keys) [
      | none ↦ err unknown_policy_key
      | some values ↦
          if out_of_order previous e.key
          then err policy_order
          else if not (member e.value values)
          then err policy_value
          else rest
    ]

unfoldable pub validate_policy : Policy → Result Error (Unit {0})
unfolding out_of_order check_entries
validate_policy p =
    if not (text_eq p.format policy_format)
    then err format_version
    else elim (lookup p.kind schema) [
      | none ↦ err unsupported_kind
      | some keys ↦
          if length p.entries == 0 then err malformed_content else check_entries keys none p.entries
    ]

-- `tar.Header`, as far as it is read.
pub record Header : Type 0 where
  pub name : Text
  pub typeflag : ℕ
  pub mode : ℤ
  pub linkname : Text
  pub uid : ℤ
  pub gid : ℤ
  pub uname : Text
  pub gname : Text
  pub mod_seconds : ℤ
  pub mod_nanoseconds : ℕ
  pub pax_records : ℕ
  pub size : ℤ

-- What the calls of `Next` answer, with the body that `ReadAll` would read behind each header
-- (`none` is an error of the read).
pub data Listing : Type 0 where
  end_of_archive broken : Listing
  entry : Header → Option Bytes → Listing → Listing

pub record Reader : Type 0 where
  pub listing : Bytes → Listing
  pub manifest_decoder : Decoder Manifest
  pub policy_decoder : Decoder Policy

abbrev pub wanted : List Text
wanted = manifest_entry ∷ policy_entry ∷ []

-- `tar.TypeReg`
abbrev pub type_regular : ℕ
type_regular = b'0'

carries_metadata : Header → Bool
carries_metadata h =
    not (is_empty h.linkname)
    || (not (int_eq h.uid (pos 0))
        || (not (int_eq h.gid (pos 0))
            || (not (is_empty h.uname)
                || (not (is_empty h.gname)
                    || (not (int_eq h.mod_seconds (pos 0) && (h.mod_nanoseconds == 0))
                        || ltb 0 h.pax_records)))))

-- The checks on the header of one round of the loop.
pub check_header : Header → Result Error (Unit {0})
check_header h =
    if not (h.typeflag == type_regular)
    then err not_regular_file
    else if not (int_eq h.mode entry_mode)
    then err unsafe_entry_mode
    else if carries_metadata h
    then err entry_metadata
    else if int_lt (pos max_entry_size) h.size
    then err entry_too_large
    else ok tt

-- The comparison of what was read with the declared size.
sized : Header → Bytes → Result Error Bytes
sized h body = if int_eq (pos (length body)) h.size then ok body else err malformed_content

-- `io.ReadAll(io.LimitReader(tr, maxEntrySize+1))`
pub read_body : Header → Option Bytes → Result Error Bytes
read_body h none = err malformed_content
read_body h (some content) = sized h (take (max_entry_size + 1) content)

abbrev pub has_key : {A : Type 0} → Text → Table A → Bool
has_key k m = elim (lookup k m) [ none ↦ false | some _ ↦ true ]

-- The checks on the name, at a position and after the bodies read so far.
check_name : ℕ → Table Bytes → Text → Result Error (Unit {0})
check_name index bodies name = elim (get_elem? wanted index) [
  | none ↦ err unexpected_entry
  | some w ↦
      if has_key name bodies
      then err duplicate_entry
      else if text_eq name w
      then ok tt
      else if member name wanted
      then err entry_order
      else err unexpected_entry
]

-- The loop of `Parse`.
pub read_entries : ℕ → Table Bytes → Listing → Result Error (Table Bytes)
read_entries index bodies end_of_archive = ok bodies
read_entries index bodies broken = err malformed_content
read_entries index bodies (entry h content more) = do
  check_name index bodies h.name
  check_header h
  body ← read_body h content
  read_entries (suc index) ((h.name, body) ∷ bodies) more

pub body_of : Text → Table Bytes → Result Error Bytes
body_of name bodies = elim (lookup name bodies) [ none ↦ err missing_entry | some b ↦ ok b ]

pub decoded : {A : Type 0} → Decoder A → Bytes → Result Error A
decoded d raw = elim (unmarshal d raw) [ ok v ↦ ok v | err _ ↦ err malformed_content ]

-- What `Parse` does with an archive that is not too large.
load : Reader → Bytes → Result Error Package
load r raw = do
  bodies ← read_entries 0 [] (r.listing raw)
  manifest_body ← body_of manifest_entry bodies
  policy_body ← body_of policy_entry bodies
  m ← decoded r.manifest_decoder manifest_body
  p ← decoded r.policy_decoder policy_body
  validate_manifest m
  validate_policy p
  ok (record { manifest = m; policy = p })

unfoldable pub parse : Reader → Bytes → Result Error Package
unfolding lookup validate_manifest out_of_order check_entries validate_policy carries_metadata
    check_header sized read_body check_name read_entries body_of decoded load
parse r raw = if ltb max_archive_size (length raw) then err archive_too_large else load r raw

-- `Entries`: the names and modes, or the error of a broken archive.
unfoldable pub entries : Listing → Result Error (List (Text × ℤ))
entries end_of_archive = ok []
entries broken = err malformed_content
entries (entry h content more) = entries more >>= λ rest. ok ((h.name, h.mode) ∷ rest)
