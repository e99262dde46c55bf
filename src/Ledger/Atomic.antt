-- ===== src/Ledger/Atomic.antt =====
-- The ledger file is replaced as a whole or not at all.
use indexjack.Prelude.{
  false, none, some, Result, Result-cases, ok, err, Bytes, text_eq_iff, ◌≡◌, inl, inr, refl, arith,
}
use indexjack.CanonicalJson.{unmarshal}
use indexjack.Ledger.{
  Error, Ledger, Codec, bytes, Disk, Faults, cleaned, replace, save, read_back, load, format,
}

-- Where `save` leads.
pub record IsAtomic (codec : Codec) (l : Ledger) (faults : Faults) (before : Disk)
    (answer : Result Error (Unit {0}) × Disk) : Type 0 where
  pub succeeds :
      answer.0 ≡ ok tt → (body : Bytes) × (bytes codec l ≡ ok body) × (answer.1.ledger ≡ some body)
  pub fails : (e : Error) → answer.0 ≡ err e → answer.1.ledger ≡ before.ledger
  pub clean : faults.remove ≡ false → before.temp ≡ none → answer.1.temp ≡ none

-- `save` that succeeds has put the whole encoded ledger in place; one that fails, in whichever
-- system call, has left the ledger file as it was; and no temporary file stays unless its removal
-- fails.
pub save-IsAtomic :
    (codec : Codec) (l : Ledger) (faults : Faults) (d : Disk)
    → IsAtomic codec l faults d (save codec faults l d)
unfolding save replace cleaned
save-IsAtomic codec l faults d = elim (Result-cases (bytes codec l)) [
  | inl (body, e) ↦ record {
    succeeds = λ h. (body, e, ground (arith, e, h));
    fails = λ x h. ground (arith, e, h);
    clean = λ r t. ground (arith, e, r, t);
  }
  | inr (x, e) ↦ record {
    succeeds = λ h. absurd (ground (arith, e, h));
    fails = λ y h. ground (arith, e, h);
    clean = λ r t. ground (arith, e, r, t);
  }
]

bytes-format :
    (codec : Codec) (l : Ledger) (body : Bytes)
    → bytes codec l ≡ ok body
    → (l.format ≡ format) × (codec.encode l ≡ some body)
unfolding bytes
bytes-format codec l body h = ground (arith, text_eq_iff l.format format)

read_back-ok :
    (codec : Codec) (body : Bytes) (l : Ledger)
    → unmarshal codec.decoder body ≡ ok l
    → l.format ≡ format
    → read_back codec body ≡ ok l
unfolding read_back
read_back-ok codec body l e f = ground (arith, e, text_eq_iff l.format format)

-- Where the encoding decodes to what it encodes, `save` succeeds and the later read does not fail,
-- `load` answers the saved ledger and leaves the disk as it is.
pub save-load :
    (codec : Codec) (l : Ledger) (faults later : Faults) (d : Disk)
    → ((body : Bytes) → codec.encode l ≡ some body → unmarshal codec.decoder body ≡ ok l)
    → (save codec faults l d).0 ≡ ok tt
    → later.read ≡ false
    → load codec later (save codec faults l d).1 ≡ (ok l, (save codec faults l d).1)
unfolding load
save-load codec l faults later d round h r =
    let (body, e, put) = (save-IsAtomic codec l faults d).succeeds h in
    let (same, encoded) = bytes-format codec l body e in
    rw (r, put, read_back-ok codec body l (round body encoded) same) refl
