-- ===== src/Samples/Audits.antt =====
-- Tests of the audit file.
use indexjack.Prelude
use indexjack.Prelude.{
  ℕ, Bool-cases, if◌then◌else◌, ◌==◌, ◌&&◌, false, [], ◌∷◌, ◌++◌, some, ok, Text, Bytes, is_empty,
  codes, inl, inr, ◌≡◌, refl, ap, arith,
}
use indexjack.PkgArchive.Identity
use indexjack.CanonicalJson
use indexjack.CanonicalJson.{unmarshal}
use indexjack.Audit
use indexjack.Audit.{Event, Faults, Platform, stamped, emit}
use indexjack.Audit.Reading.{Reader, line_feed, read}
use indexjack.Audit.Reading.Recovered.{IsTrimming, IsLine, nothing, emit-read}
use indexjack.Samples.{always}
use indexjack.Samples.Releases.{audit_platform, audit_faults, sink, event}

-- Without the line feeds at the end.
trimmed : Text → Text
trimmed [] = []
trimmed (c ∷ s) = let rest = trimmed s in if (c == line_feed) && is_empty rest then [] else c ∷ rest

abbrev braces : Bytes
braces = b'{' ∷ b'}' ∷ line_feed ∷ []

abbrev writer : Platform
writer = record audit_platform { encode = λ _. some braces }

abbrev reader : Reader
reader = record {
  trim_space = trimmed;
  decoder = always (stamped writer.sha256 sink.scenario event);
}

trimmed-before : (c : ℕ) (s t : Text) → trimmed s ≡ t → is_empty t ≡ false → trimmed (c ∷ s) ≡ c ∷ t
unfolding trimmed
trimmed-before c s t h f = elim (Bool-cases (c == line_feed)) [
  | inl e ↦ rw (h, e, f, trimmed) refl
  | inr e ↦ rw (h, e, trimmed) refl
]

is_empty-object : (s : Text) → is_empty (s ++ b'}' ∷ []) ≡ false
unfolding is_empty
is_empty-object [] = refl
is_empty-object (c ∷ s) = refl

trimmed-kept : (s : Text) → trimmed (s ++ b'}' ∷ []) ≡ s ++ b'}' ∷ []
unfolding trimmed is_empty
trimmed-kept [] = refl
trimmed-kept (c ∷ s) =
    trimmed-before c (s ++ b'}' ∷ []) (s ++ b'}' ∷ []) (trimmed-kept s) (is_empty-object s)

trimmed-ended : (s : Text) → trimmed ((s ++ b'}' ∷ []) ++ line_feed ∷ []) ≡ s ++ b'}' ∷ []
unfolding trimmed is_empty
trimmed-ended [] = refl
trimmed-ended (c ∷ s) =
    trimmed-before c ((s ++ b'}' ∷ []) ++ line_feed ∷ []) (s ++ b'}' ∷ []) (trimmed-ended s)
      (is_empty-object s)

trims : IsTrimming reader
unfolding trimmed
trims = record {
  blank = refl;
  kept = λ s. trimmed-kept (b'{' ∷ s);
  ended = λ s. trimmed-ended (b'{' ∷ s);
}

is_line :
    (body : Bytes)
    → some braces ≡ some body
    → IsLine reader (stamped writer.sha256 sink.scenario event) body
unfolding unmarshal CanonicalJson.check_duplicate_keys
is_line body h =
    let same : braces ≡ body = cc in
    rw (← same) (record { inner = []; body_is = refl; one_line = tt; decoded = refl })

abbrev faults : Faults
faults = record audit_faults { mirror = false }

emits : (emit writer faults event sink).0 ≡ ok tt
unfolding emit Audit.validate is_empty stamped Audit.correlation_id Identity.hex Prelude.any
    Prelude.contains Prelude.has_prefix
emits = refl

emit-read_example :
    read reader (some (emit writer faults event sink).1.files.log)
    ≡ ok (emit writer faults event sink).1.emitted
emit-read_example = emit-read writer faults reader event sink trims nothing is_line emits
