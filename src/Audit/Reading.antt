-- ===== src/Audit/Reading.antt =====
-- internal/audit/audit.go: the function `Read`, and what it finds in the file of a sink. `Reader` is
-- strings.TrimSpace and what encoding/json makes of a line.
pub mod Recovered
use indexjack.Prelude.{
  ℕ, if◌then◌else◌, Bool, Bool-cases, false, ◌==◌, List, [], ◌∷◌, ◌++◌, Option, Option-cases, none,
  some, Result, Result-cases, ok, err, Text, Bytes, is_empty, split_on, All, ◌≡◌, refl, sym, ap,
  ◌∙◌, arith,
}
use indexjack.CanonicalJson.{Decoder, unmarshal}
use indexjack.Audit.{Error, Event, Platform, Sink, Faults, validate, stamped, mirrored, write, emit}

pub record Reader : Type 0 where
  pub trim_space : Text → Text
  pub decoder : Decoder Event

pub data ReadError : Type 0 where
  no_file not_decoded : ReadError

abbrev pub line_feed : ℕ
line_feed = 10

-- The loop over the lines.
pub read_lines : Reader → List Text → Result ReadError (List Event)
read_lines r [] = ok []
read_lines r (line ∷ lines) =
    let rest = read_lines r lines in
    if is_empty (r.trim_space line) then rest else elim (unmarshal r.decoder line) [
      | err _ ↦ err not_decoded
      | ok e ↦ elim rest [ err x ↦ err x | ok es ↦ ok (e ∷ es) ]
    ]

-- `Read`, of the file's bytes.
unfoldable pub read : Reader → Option Bytes → Result ReadError (List Event)
unfolding read_lines
read r none = err no_file
read r (some raw) = read_lines r (split_on line_feed (r.trim_space raw))
