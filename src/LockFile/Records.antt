-- ===== src/LockFile/Records.antt =====
-- What a lock promises of the record that it returns, and what `verify_bytes` establishes.
use indexjack.Prelude.{
  ℕ, ◌<◌, true, false, List, [], ◌∷◌, Result-cases, ok, err, Text, Bytes, text_eq, text_eq_iff,
  is_empty, is_empty_iff, select, length, ℤ, pos, negsuc, int_eq, int_lt, int_eq_iff, Within,
  Within-select, select-Within, All, All-Within, ◌≡◌, ◌≢◌, ◌↔◌, inl, inr, refl, arith,
}
use indexjack.Semver
use indexjack.PkgArchive.Identity.{manifest_format, digest}
use indexjack.LockFile.{
  size_mismatch, digest_mismatch, Record, Lock, check_records, validate, single_record, records_of,
  record_of, verify_bytes,
}

-- A record that pins something: every field is there, and the version has a reading.
pub record IsComplete (r : Record) : Type 0 where
  pub alias : r.alias ≢ []
  pub name : r.name ≢ []
  pub source : r.source ≢ []
  pub sha256 : r.sha256 ≢ []
  pub size : (n : ℕ) × (r.size ≡ pos n) × (0 < n)
  pub version : (v : Semver.Version) × (Semver.parse r.version ≡ ok v)
  pub artifact_format : r.artifact_format ≡ manifest_format

positive : (z : ℤ) → int_lt (pos 0) z ≡ true → (n : ℕ) × (z ≡ pos n) × (0 < n)
positive (pos n) h = (n, refl, ground arith)
positive (negsuc n) h = cc

check_records-cons :
    (r : Record) (rs : List Record)
    → check_records (r ∷ rs) ≡ ok tt
    → (is_empty r.alias ≡ false)
      × (is_empty r.name ≡ false)
      × (is_empty r.source ≡ false)
      × (is_empty r.sha256 ≡ false)
      × (int_lt (pos 0) r.size ≡ true)
      × ((v : Semver.Version) × (Semver.parse r.version ≡ ok v))
      × (text_eq r.artifact_format manifest_format ≡ true)
      × (check_records rs ≡ ok tt)
unfolding check_records
check_records-cons r rs h = elim (Result-cases (Semver.parse r.version)) [
  | inl (v, e) ↦ ground (arith, e)
  | inr (x, e) ↦ absurd (ground (arith, e))
]

not_empty : (t : Text) → is_empty t ≡ false → t ≢ []
not_empty t h e = cc (h, (is_empty_iff t).1 e)

records-IsComplete : (rs : List Record) → check_records rs ≡ ok tt → All IsComplete rs
records-IsComplete [] h = tt
records-IsComplete (r ∷ rs) h =
    let (a, n, s, d, z, v, f, rest) = check_records-cons r rs h in
    (
      record {
        alias = not_empty r.alias a;
        name = not_empty r.name n;
        source = not_empty r.source s;
        sha256 = not_empty r.sha256 d;
        size = positive r.size z;
        version = v;
        artifact_format = (text_eq_iff r.artifact_format manifest_format).0 f;
      },
      records-IsComplete rs rest,
    )

validate-inv : (l : Lock) → validate l ≡ ok tt → check_records l.records ≡ ok tt
unfolding validate
validate-inv l h = ground arith

single_record-inv : (rs : List Record) (r : Record) → single_record rs ≡ ok r → rs ≡ r ∷ []
unfolding single_record
single_record-inv [] r h = cc
single_record-inv (s ∷ []) r h = cc
single_record-inv (s ∷ t ∷ rs) r h = cc

record_of-inv :
    (l : Lock) (alias : Text) (r : Record)
    → record_of l alias ≡ ok r
    → (validate l ≡ ok tt) × (single_record (records_of l alias) ≡ ok r)
unfolding record_of
record_of-inv l alias r h = ground arith

-- What a record that the lock returns for an alias is.
pub record IsPinned (l : Lock) (alias : Text) (r : Record) : Type 0 where
  pub listed : Within r l.records
  pub named : r.alias ≡ alias
  pub only : (s : Record) → Within s l.records → s.alias ≡ alias → s ≡ r
  pub complete : IsComplete r

-- Where a lock answers an alias with a record, that record is listed, is of that alias, is the only
-- one of it, and is complete: no empty field, a positive size, a version that can be read and the
-- known artifact format.
pub record_of-IsPinned :
    (l : Lock) (alias : Text) (r : Record) → record_of l alias ≡ ok r → IsPinned l alias r
unfolding records_of
record_of-IsPinned l alias r h =
    let (v, s) = record_of-inv l alias r h in
    let test = λ (k : Record). text_eq k.alias alias in
    let one = single_record-inv (select test l.records) r s in
    let listed : Within r (select test l.records) = rw one (inl refl) in
    let (w, e) = Within-select test l.records r listed in
    record {
      listed = w;
      named = (text_eq_iff r.alias alias).0 e;
      only = λ k wk ek.
          alone (rw one at (select-Within test l.records k wk ((text_eq_iff k.alias alias).1 ek)));
      complete =
          All-Within IsComplete l.records r (records-IsComplete l.records (validate-inv l v)) w;
    }
  where
    alone : {k : Record} → Within k (r ∷ []) → k ≡ r
    alone (inl e) = e
    alone (inr w) = elim w [ ]

-- What `verify_bytes` answers, in the order of its checks.
pub record Verifies (sha256 : Bytes → Bytes) (r : Record) (raw : Bytes) : Type 0 where
  pub size_first : (pos (length raw) ≢ r.size) → verify_bytes sha256 r raw ≡ err size_mismatch
  pub digest_next :
      pos (length raw) ≡ r.size
      → digest sha256 raw ≢ r.sha256
      → verify_bytes sha256 r raw ≡ err digest_mismatch
  pub accepts :
      (verify_bytes sha256 r raw ≡ ok tt)
      ↔ ((pos (length raw) ≡ r.size) × (digest sha256 raw ≡ r.sha256))

-- `verify_bytes` reports another size first, then another digest, and accepts exactly the bytes of
-- the locked size and the locked digest.
pub verify_bytes-Verifies :
    (sha256 : Bytes → Bytes) (r : Record) (raw : Bytes) → Verifies sha256 r raw
unfolding verify_bytes
verify_bytes-Verifies sha256 r raw = record {
  size_first = λ n. ground (arith, size, n);
  digest_next = λ e n. ground (arith, size, hash);
  accepts = ground (arith, size, hash);
}
  where
    size : (int_eq (pos (length raw)) r.size ≡ true) ↔ (pos (length raw) ≡ r.size)
    size = int_eq_iff (pos (length raw)) r.size

    hash : (text_eq (digest sha256 raw) r.sha256 ≡ true) ↔ (digest sha256 raw ≡ r.sha256)
    hash = text_eq_iff (digest sha256 raw) r.sha256
