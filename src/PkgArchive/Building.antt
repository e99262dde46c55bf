-- ===== src/PkgArchive/Building.antt =====
-- internal/pkgarchive/pkgarchive.go: the function `Build`. `Writer` is what encoding/json and
-- archive/tar make of documents and entries.
pub mod RoundTrip
use indexjack.Prelude.{List, [], ◌∷◌, Option, none, some, Result, ok, err, Text, Bytes, length, pos}
use indexjack.PkgArchive
use indexjack.PkgArchive.{
  Manifest, Policy, Header, validate_manifest, validate_policy, manifest_entry, policy_entry,
  entry_mode, type_regular,
}

-- `tar.Writer`, with its state `T`: each call answers `none` where it fails.
pub record Writer (T : Type 0) : Type 0 where
  pub encode_manifest : Manifest → Option Bytes
  pub encode_policy : Policy → Option Bytes
  pub start : T
  pub write_header : Header → T → Option T
  pub write : Bytes → T → Option T
  pub close : T → Option Bytes

pub data Error : Type 0 where
  refused : PkgArchive.Error → Error
  not_encoded not_archived : Error

-- The header of an entry. What the literal does not set is zero.
unfoldable pub header_of : Text → Bytes → Header
header_of name body = record {
  name = name;
  typeflag = type_regular;
  mode = entry_mode;
  linkname = [];
  uid = pos 0;
  gid = pos 0;
  uname = [];
  gname = [];
  mod_seconds = pos 0;
  mod_nanoseconds = 0;
  pax_records = 0;
  size = pos (length body);
}

module _ {T : Type 0} (w : Writer T) where
  write_entry : Text → Bytes → T → Option T
  write_entry name body t = elim (w.write_header (header_of name body) t) [
    | none ↦ none
    | some u ↦ w.write body u
  ]

  write_all : List (Text × Bytes) → T → Option T
  write_all [] t = some t
  write_all ((name, body) ∷ more) t = elim (write_entry name body t) [
    | none ↦ none
    | some u ↦ write_all more u
  ]

  -- The archive of the two encoded documents.
  unfoldable pub archive : Bytes → Bytes → Option Bytes
  unfolding write_entry write_all header_of
  archive manifest policy =
      elim (write_all ((manifest_entry, manifest) ∷ (policy_entry, policy) ∷ []) w.start) [
        | none ↦ none
        | some t ↦ w.close t
      ]

  archived : Bytes → Bytes → Result Error Bytes
  archived manifest policy = elim (archive manifest policy) [
    | none ↦ err not_archived
    | some raw ↦ ok raw
  ]

  encoded : Manifest → Policy → Result Error Bytes
  encoded m p = elim (w.encode_manifest m) [
    | none ↦ err not_encoded
    | some manifest ↦ elim (w.encode_policy p) [
      | none ↦ err not_encoded
      | some policy ↦ archived manifest policy
    ]
  ]

  unfoldable pub build : Manifest → Policy → Result Error Bytes
  unfolding archived encoded
  build m p = elim (validate_manifest m) [
    | err e ↦ err (refused e)
    | ok _ ↦ elim (validate_policy p) [ err e ↦ err (refused e) | ok _ ↦ encoded m p ]
  ]
