-- ===== src/Audit.antt =====
-- internal/audit/audit.go: the structured evidence of a run. `lower` is strings.ToLower, `encode` is
-- what encoding/json makes of an event.
pub mod Emitted
pub mod Reading
use indexjack.Prelude.{
  ℕ, if◌then◌else◌, Bool, ◌||◌, List, [], ◌∷◌, ◌++◌, Option, none, some, Result, ok, err, Text,
  Bytes, codes, contains, is_empty, any, take,
}
use indexjack.PkgArchive.Identity.{hex}

abbrev pub format : Text
format = codes "indexjack-audit/1"

abbrev pub event_build_failed : Text
event_build_failed = codes "BUILD_FAILED"

abbrev pub event_release_rejected : Text
event_release_rejected = codes "RELEASE_REJECTED"

abbrev pub event_release_approved : Text
event_release_approved = codes "RELEASE_APPROVED"

abbrev pub event_release_duplicate : Text
event_release_duplicate = codes "RELEASE_DUPLICATE"

pub data Error : Type 0 where
  incomplete disallowed_content not_encoded os_error mirror_error : Error

pub record Event : Type 0 where
  pub format : Text
  pub event : Text
  pub correlation_id : Text
  pub scenario_id : Text
  pub stage : Text
  pub dependency_alias : Text
  pub failure_class : Text
  pub candidate_id : Text

-- What the audit stands on: the hash function, `strings.ToLower`, and the encoding.
pub record Platform : Type 0 where
  pub sha256 : Bytes → Bytes
  pub lower : Text → Text
  pub encode : Event → Option Bytes

unfoldable pub correlation_id : (Bytes → Bytes) → Text → Text
correlation_id sha256 scenario = take 16 (hex (sha256 (codes "indexjack-correlation:" ++ scenario)))

-- The audit file and what the mirror has received, where there is one.
pub record Files : Type 0 where
  pub log : Bytes
  pub mirror : Option Bytes

pub record Sink : Type 0 where
  pub scenario : Text
  pub emitted : List Event
  pub files : Files

unfoldable pub new_sink : Text → Files → Sink
new_sink scenario files = record { scenario = scenario; emitted = []; files = files }

-- Which calls into the operating system fail, and what a failing write has written before.
pub record Faults : Type 0 where
  pub mkdir : Bool
  pub open_file : Bool
  pub write : Bool
  pub close : Bool
  pub mirror : Bool
  pub written : ℕ
  pub mirror_written : ℕ

abbrev pub forbidden : List Text
forbidden =
    codes "http://"
    ∷ codes "https://"
    ∷ codes "-----BEGIN"
    ∷ codes "password"
    ∷ codes "token"
    ∷ codes "secret"
    ∷ []

-- The fields that `validate` looks into, in its order.
abbrev pub fields : Event → List Text
fields e =
    e.event ∷ e.scenario_id ∷ e.stage ∷ e.dependency_alias ∷ e.failure_class ∷ e.candidate_id ∷ []

abbrev pub holds : (Text → Text) → Text → Text → Bool
holds lower field bad = contains (lower field) (lower bad)

-- The two loops of `validate`.
abbrev pub is_dirty : (Text → Text) → Text → Bool
is_dirty lower field = any (holds lower field) forbidden

unfoldable pub validate : (Text → Text) → Event → Result Error (Unit {0})
validate lower e =
    if is_empty e.event || is_empty e.stage || is_empty e.scenario_id || is_empty e.correlation_id
    then err incomplete
    else if any (is_dirty lower) (fields e)
    then err disallowed_content
    else ok tt

-- What `Emit` fills in.
unfoldable pub stamped : (Bytes → Bytes) → Text → Event → Event
stamped sha256 scenario e = record e {
  format = format;
  scenario_id = scenario;
  correlation_id = correlation_id sha256 scenario;
}

mirrored : Faults → Bytes → Event → Sink → Result Error (Unit {0}) × Sink
mirrored faults line e s =
    let files = s.files in
    let done = record s {
      emitted = s.emitted ++ e ∷ [];
      files = record files { log = files.log ++ line };
    } in
    let copy = codes "audit: " ++ line in
    let mirroring : Bytes → Sink =
      λ shown. record done { files = record { log = files.log ++ line; mirror = some shown } } in
    elim files.mirror [
      | none ↦ (ok tt, done)
      | some seen ↦
          if faults.mirror
          then (err mirror_error, mirroring (seen ++ take faults.mirror_written copy))
          else (ok tt, mirroring (seen ++ copy))
    ]

write : Faults → Bytes → Event → Sink → Result Error (Unit {0}) × Sink
unfolding mirrored
write faults line e s =
    let files = s.files in
    let part = record s { files = record files { log = files.log ++ take faults.written line } } in
    let full = record s { files = record files { log = files.log ++ line } } in
    if faults.mkdir
    then (err os_error, s)
    else if faults.open_file
    then (err os_error, s)
    else if faults.write
    then (err os_error, part)
    else if faults.close
    then (err os_error, full)
    else mirrored faults line e s

unfoldable pub emit : Platform → Faults → Event → Sink → Result Error (Unit {0}) × Sink
unfolding write
emit platform faults e s =
    let e2 = stamped platform.sha256 s.scenario e in
    elim (validate platform.lower e2) [
      | err x ↦ (err x, s)
      | ok _ ↦ elim (platform.encode e2) [
        | none ↦ (err not_encoded, s)
        | some line ↦ write faults line e2 s
      ]
    ]
