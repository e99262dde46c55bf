-- ===== src/Ledger.antt =====
-- internal/ledger/ledger.go: the release ledger on disk. `encode` and `decoder` are what encoding/json
-- makes of a ledger, and `Faults` says which of the calls into the operating system fail.
pub mod Atomic
use indexjack.Prelude.{
  ℕ, if◌then◌else◌, Bool, not, List, [], ◌∷◌, Option, none, some, Result, ok, err, Text, Bytes,
  codes, text_eq, any, take,
}
use indexjack.CanonicalJson.{Decoder, unmarshal}
use indexjack.PkgArchive.Identity

abbrev pub format : Text
format = codes "indexjack-ledger/1"

pub data Error : Type 0 where
  invalid_ledger not_encoded os_error : Error

pub record Entry : Type 0 where
  pub candidate_id : Text
  pub policy_name : Text
  pub policy_source : Text
  pub policy_version : Text
  pub policy_digest : Text

pub record Ledger : Type 0 where
  pub format : Text
  pub entries : List Entry

abbrev pub fresh : Ledger
fresh = record { format = format; entries = [] }

-- What encoding/json does with a ledger.
pub record Codec : Type 0 where
  pub encode : Ledger → Option Bytes
  pub decoder : Decoder Ledger

-- The method `Bytes`. A nil slice of entries is the empty one here.
unfoldable pub bytes : Codec → Ledger → Result Error Bytes
bytes codec l =
    if not (text_eq l.format format)
    then err invalid_ledger
    else elim (codec.encode l) [ some body ↦ ok body | none ↦ err not_encoded ]

abbrev pub is_about : Text → Entry → Bool
is_about id e = text_eq e.candidate_id id

unfoldable pub approved : Ledger → Text → Bool
approved l id = any (is_about id) l.entries

-- The ledger file and the temporary file beside it.
pub record Disk : Type 0 where
  pub ledger : Option Bytes
  pub temp : Option Bytes

-- Which calls fail, and what a failing write has written before.
pub record Faults : Type 0 where
  pub read : Bool
  pub mkdir : Bool
  pub create : Bool
  pub write : Bool
  pub sync : Bool
  pub close : Bool
  pub chmod : Bool
  pub rename : Bool
  pub remove : Bool
  pub written : ℕ

-- The deferred removal of the temporary file.
cleaned : Faults → Disk → Disk
cleaned faults d = if faults.remove then d else record d { temp = none }

-- From the temporary file's creation on.
replace : Faults → Bytes → Disk → Result Error (Unit {0}) × Disk
unfolding cleaned
replace faults body d =
    let full = record d { temp = some body } in
    if faults.write
    then (err os_error, cleaned faults (record d { temp = some (take faults.written body) }))
    else if faults.sync
    then (err os_error, cleaned faults full)
    else if faults.close
    then (err os_error, cleaned faults full)
    else if faults.chmod
    then (err os_error, cleaned faults full)
    else if faults.rename
    then (err os_error, cleaned faults full)
    else (ok tt, cleaned faults (record { ledger = some body; temp = none }))

unfoldable pub save : Codec → Faults → Ledger → Disk → Result Error (Unit {0}) × Disk
unfolding replace
save codec faults l d = elim (bytes codec l) [
  | err e ↦ (err e, d)
  | ok body ↦
      if faults.mkdir
      then (err os_error, d)
      else if faults.create
      then (err os_error, d)
      else replace faults body d
]

read_back : Codec → Bytes → Result Error Ledger
read_back codec raw = elim (unmarshal codec.decoder raw) [
  | err _ ↦ err invalid_ledger
  | ok l ↦ if not (text_eq l.format format) then err invalid_ledger else ok l
]

created : Result Error (Unit {0}) × Disk → Result Error Ledger × Disk
created (err e, d) = (err e, d)
created (ok _, d) = (ok fresh, d)

unfoldable pub load : Codec → Faults → Disk → Result Error Ledger × Disk
unfolding read_back created
load codec faults d = if faults.read then (err os_error, d) else elim d.ledger [
  | none ↦ created (save codec faults fresh d)
  | some raw ↦ (read_back codec raw, d)
]

unfoldable pub digest : (Bytes → Bytes) → Faults → Disk → Result Error Text
digest sha256 faults d =
    if faults.read
    then err os_error
    else elim d.ledger [ none ↦ err os_error | some raw ↦ ok (Identity.digest sha256 raw) ]
