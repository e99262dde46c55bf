-- ===== src/PkgArchive/Entries.antt =====
-- One entry of an archive: its header and its body.
use indexjack.Prelude.{
  ℕ, zero, suc, ◌+◌, ◌≤◌, true, false, [], ◌∷◌, Option, none, some, ok, Text, Bytes, is_empty,
  is_empty_iff, take, length, ℤ, pos, negsuc, int_eq, int_lt, int_eq_iff, ◌≡◌, refl, sym, ap, arith,
}
use indexjack.PkgArchive.{
  Header, Listing, end_of_archive, entry, manifest_entry, policy_entry, type_regular, entry_mode,
  max_entry_size, carries_metadata, check_header, sized, read_body,
}

-- A regular, read-only entry without ownership or other metadata, whose content has the declared
-- size and is not too large.
pub record IsData (name : Text) (h : Header) (content : Bytes) : Type 0 where
  pub entry_name : h.name ≡ name
  pub regular : h.typeflag ≡ type_regular
  pub read_only : h.mode ≡ entry_mode
  pub no_link : h.linkname ≡ []
  pub uid : h.uid ≡ pos 0
  pub gid : h.gid ≡ pos 0
  pub uname : h.uname ≡ []
  pub gname : h.gname ≡ []
  pub seconds : h.mod_seconds ≡ pos 0
  pub nanoseconds : h.mod_nanoseconds ≡ 0
  pub pax_records : h.pax_records ≡ 0
  pub size : h.size ≡ pos (length content)
  pub bounded : length content ≤ max_entry_size

-- Exactly the two entries, in order.
pub record IsCanonical (l : Listing) (manifest policy : Bytes) : Type 0 where
  pub first : Header
  pub second : Header
  pub shape : l ≡ entry first (some manifest) (entry second (some policy) end_of_archive)
  pub manifest_data : IsData manifest_entry first manifest
  pub policy_data : IsData policy_entry second policy

take_short : (n : ℕ) (c : Bytes) → suc (length (take n c)) ≤ n → take n c ≡ c
take_short zero c h = elim h [ ]
take_short (suc n) [] h = refl
take_short (suc n) (x ∷ c) h = ap (λ t. x ∷ t) (take_short n c (omega arith))

sized-inv :
    (h : Header) (raw body : Bytes)
    → sized h raw ≡ ok body
    → (body ≡ raw) × (int_eq (pos (length body)) h.size ≡ true)
unfolding sized
sized-inv h raw body e = ground arith

read_body-inv :
    (h : Header) (content : Option Bytes) (body : Bytes)
    → read_body h content ≡ ok body
    → (c : Bytes) × (content ≡ some c)
      × (body ≡ take (max_entry_size + 1) c)
      × (int_eq (pos (length body)) h.size ≡ true)
unfolding read_body
read_body-inv h none body e = cc
read_body-inv h (some c) body e =
    let (same, size) = sized-inv h (take (max_entry_size + 1) c) body e in (c, refl, same, size)

header-facts :
    (h : Header)
    → check_header h ≡ ok tt
    → (h.typeflag ≡ type_regular)
      × (int_eq h.mode entry_mode ≡ true)
      × (carries_metadata h ≡ false)
      × (int_lt (pos max_entry_size) h.size ≡ false)
unfolding check_header
header-facts h e = ground arith

pub record NoMetadata (h : Header) : Type 0 where
  pub no_link : is_empty h.linkname ≡ true
  pub uid : int_eq h.uid (pos 0) ≡ true
  pub gid : int_eq h.gid (pos 0) ≡ true
  pub uname : is_empty h.uname ≡ true
  pub gname : is_empty h.gname ≡ true
  pub seconds : int_eq h.mod_seconds (pos 0) ≡ true
  pub nanoseconds : h.mod_nanoseconds ≡ 0
  pub pax_records : h.pax_records ≡ 0

metadata-facts : (h : Header) → carries_metadata h ≡ false → NoMetadata h
unfolding carries_metadata
metadata-facts h e = record {
  no_link = ground arith;
  uid = ground arith;
  gid = ground arith;
  uname = ground arith;
  gname = ground arith;
  seconds = ground arith;
  nanoseconds = ground arith;
  pax_records = ground arith;
}

size_small :
    (n : ℕ) (z : ℤ)
    → int_eq (pos n) z ≡ true
    → int_lt (pos max_entry_size) z ≡ false
    → n ≤ max_entry_size
size_small n (pos m) e l = ground arith
size_small n (negsuc m) e l = cc

pub entry-IsData :
    (name : Text) (h : Header) (content : Option Bytes) (body : Bytes)
    → h.name ≡ name
    → check_header h ≡ ok tt
    → read_body h content ≡ ok body
    → (content ≡ some body) × IsData name h body
entry-IsData name h content body e k r =
    let (regular, mode, plain, small) = header-facts h k in
    let m = metadata-facts h plain in
    let (c, some_c, cut, size) = read_body-inv h content body r in
    let bounded = size_small (length body) h.size size small in
    let whole : take (max_entry_size + 1) c ≡ c =
      take_short (max_entry_size + 1) c (rw (← cut) (omega (arith, bounded))) in
    (
      cc (some_c, cut, whole),
      record {
        entry_name = e;
        regular = regular;
        read_only = (int_eq_iff h.mode entry_mode).0 mode;
        no_link = (is_empty_iff h.linkname).0 m.no_link;
        uid = (int_eq_iff h.uid (pos 0)).0 m.uid;
        gid = (int_eq_iff h.gid (pos 0)).0 m.gid;
        uname = (is_empty_iff h.uname).0 m.uname;
        gname = (is_empty_iff h.gname).0 m.gname;
        seconds = (int_eq_iff h.mod_seconds (pos 0)).0 m.seconds;
        nanoseconds = m.nanoseconds;
        pax_records = m.pax_records;
        size = sym ((int_eq_iff (pos (length body)) h.size).0 size);
        bounded = bounded;
      },
    )
