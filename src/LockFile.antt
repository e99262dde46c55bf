-- ===== src/LockFile.antt =====
-- internal/lockfile/lockfile.go: the identity of an artifact. `sha256` is the hash function of the
-- standard library.
pub mod Records
use indexjack.Prelude.{
  ℕ, ◌==◌, if◌then◌else◌, Bool, true, false, ◌||◌, not, List, [], ◌∷◌, Result, ok, err, ◌>>◌, Text,
  Bytes, codes, text_eq, is_empty, select, length, ℤ, pos, int_eq, int_lt,
}
use indexjack.Semver
use indexjack.PkgArchive.Identity.{manifest_format, digest}

abbrev pub format : Text
format = codes "indexjack-lock/1"

pub data Error : Type 0 where
  invalid_lock missing_record duplicate_record size_mismatch digest_mismatch : Error

pub record Record : Type 0 where
  pub alias : Text
  pub name : Text
  pub version : Text
  pub source : Text
  pub size : ℤ
  pub sha256 : Text
  pub artifact_format : Text

-- The zero value of a record.
abbrev pub no_record : Record
no_record = record {
  alias = [];
  name = [];
  version = [];
  source = [];
  size = pos 0;
  sha256 = [];
  artifact_format = [];
}

pub record Lock : Type 0 where
  pub format : Text
  pub records : List Record

-- The loop in `Validate`.
check_records : List Record → Result Error (Unit {0})
check_records [] = ok tt
check_records (r ∷ rs) =
    let rest = check_records rs in
    if is_empty r.alias || (is_empty r.name || (is_empty r.source || is_empty r.sha256))
    then err invalid_lock
    else if not (int_lt (pos 0) r.size)
    then err invalid_lock
    else elim (Semver.parse r.version) [
      | err _ ↦ err invalid_lock
      | ok _ ↦ if not (text_eq r.artifact_format manifest_format) then err invalid_lock else rest
    ]

unfoldable pub validate : Lock → Result Error (Unit {0})
unfolding check_records
validate l =
    if not (text_eq l.format format)
    then err invalid_lock
    else if length l.records == 0
    then err invalid_lock
    else check_records l.records

-- The `switch` over the number of records found.
single_record : List Record → Result Error Record
single_record [] = err missing_record
single_record (r ∷ []) = ok r
single_record (r ∷ s ∷ rs) = err duplicate_record

-- The records of an alias.
unfoldable pub records_of : Lock → Text → List Record
records_of l alias = select (λ r. text_eq r.alias alias) l.records

-- The method `Record` of a lock.
unfoldable pub record_of : Lock → Text → Result Error Record
unfolding single_record
record_of l alias = validate l >> single_record (records_of l alias)

-- Size first, and then digest.
unfoldable pub verify_bytes : (Bytes → Bytes) → Record → Bytes → Result Error (Unit {0})
verify_bytes sha256 r raw =
    if not (int_eq (pos (length raw)) r.size)
    then err size_mismatch
    else if not (text_eq (digest sha256 raw) r.sha256)
    then err digest_mismatch
    else ok tt
