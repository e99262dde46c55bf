-- ===== src/PkgArchive/Rounds.antt =====
-- The loop over the entries of an archive.
use indexjack.Prelude.{
  ℕ, suc, [], ◌∷◌, Option, none, some, Result-cases, ok, Text, Bytes, text_eq, text_eq_iff, ◌≡◌,
  refl, sym, ap, ◌∙◌, arith, inl, inr,
}
use mathlib.Core.Path.{subst, ap₂}
use indexjack.PkgArchive.{
  Header, Listing, end_of_archive, broken, entry, manifest_entry, policy_entry, Table, lookup,
  check_header, read_body, check_name, read_entries, body_of,
}
use indexjack.PkgArchive.Entries.{IsData, IsCanonical, entry-IsData}

-- One round of the loop that did not stop.
record Round (index : ℕ) (bodies : Table Bytes) (h : Header) (content : Option Bytes)
    (more : Listing) (out : Table Bytes) : Type 0 where
  named : check_name index bodies h.name ≡ ok tt
  checked : check_header h ≡ ok tt
  body : Bytes
  read : read_body h content ≡ ok body
  rest : read_entries (suc index) ((h.name, body) ∷ bodies) more ≡ ok out

round :
    (index : ℕ) (bodies : Table Bytes) (h : Header) (content : Option Bytes) (more : Listing)
    (out : Table Bytes)
    → read_entries index bodies (entry h content more) ≡ ok out
    → Round index bodies h content more out
unfolding read_entries
round index bodies h content more out e = elim (Result-cases (read_body h content)) [
  | inl (body, r) ↦ record {
    named = ground arith;
    checked = ground arith;
    body = body;
    read = r;
    rest = ground (arith, r);
  }
  | inr (x, r) ↦ absurd (ground (arith, r))
]

first_name : (name : Text) → check_name 0 [] name ≡ ok tt → name ≡ manifest_entry
unfolding check_name lookup
first_name name h = ground (arith, text_eq_iff name manifest_entry)

second_name :
    (name : Text) (bodies : Table Bytes) → check_name 1 bodies name ≡ ok tt → name ≡ policy_entry
unfolding check_name
second_name name bodies h = ground (arith, text_eq_iff name policy_entry)

third_name : (name : Text) (bodies : Table Bytes) → ¬ (check_name 2 bodies name ≡ ok tt)
unfolding check_name
third_name name bodies h = cc

lookup_pair :
    (m p : Bytes) → lookup manifest_entry ((policy_entry, p) ∷ (manifest_entry, m) ∷ []) ≡ some m
unfolding lookup text_eq
lookup_pair m p = refl

lookup_policy :
    (m p : Bytes) → lookup policy_entry ((policy_entry, p) ∷ (manifest_entry, m) ∷ []) ≡ some p
unfolding lookup text_eq
lookup_policy m p = refl

lookup_alone : (m : Bytes) → lookup policy_entry ((manifest_entry, m) ∷ []) ≡ none
unfolding lookup text_eq
lookup_alone m = refl

body_of-found :
    (name : Text) (bodies : Table Bytes) (b c : Bytes)
    → body_of name bodies ≡ ok b
    → lookup name bodies ≡ some c
    → c ≡ b
unfolding body_of
body_of-found name bodies b c h e = ground (arith, e)

body_of-missing :
    (name : Text) (bodies : Table Bytes) (b : Bytes)
    → body_of name bodies ≡ ok b
    → ¬ (lookup name bodies ≡ none)
unfolding body_of
body_of-missing name bodies b h e = ground (arith, e)

-- After two rounds nothing more may come.
at_end :
    (l : Listing) (bodies out : Table Bytes)
    → read_entries 2 bodies l ≡ ok out
    → (l ≡ end_of_archive) × (bodies ≡ out)
unfolding read_entries
at_end end_of_archive bodies out e = (refl, ground arith)
at_end broken bodies out e = cc
at_end (entry h content more) bodies out e =
    absurd (third_name h.name bodies ((round 2 bodies h content more out e).named))

ends-after-one :
    (h : Header) (b : Bytes) (out : Table Bytes) (p : Bytes)
    → h.name ≡ manifest_entry
    → (h.name, b) ∷ [] ≡ out
    → ¬ (body_of policy_entry out ≡ ok p)
ends-after-one h b out p n e bp =
    let same : (manifest_entry, b) ∷ [] ≡ out = ap (λ (t : Text). (t, b) ∷ []) (sym n) ∙ e in
    body_of-missing policy_entry out p bp (ap (lookup policy_entry) (sym same) ∙ lookup_alone b)

second_entry :
    (h g : Header) (b : Bytes) (content : Option Bytes) (more : Listing) (out : Table Bytes)
    (m p : Bytes)
    → h.name ≡ manifest_entry
    → IsData manifest_entry h b
    → Round 1 ((h.name, b) ∷ []) g content more out
    → body_of manifest_entry out ≡ ok m
    → body_of policy_entry out ≡ ok p
    → IsCanonical (entry h (some b) (entry g content more)) m p
second_entry h g b content more out m p n d r bm bp =
    let gn = second_name g.name ((h.name, b) ∷ []) r.named in
    let (full, gd) = entry-IsData policy_entry g content r.body gn r.checked r.read in
    let (stop, same) = at_end more ((g.name, r.body) ∷ (h.name, b) ∷ []) out r.rest in
    let known : (policy_entry, r.body) ∷ (manifest_entry, b) ∷ [] ≡ out =
      ap₂ (λ (s t : Text). (s, r.body) ∷ (t, b) ∷ []) (sym gn) (sym n) ∙ same in
    let first =
      body_of-found manifest_entry out m b bm
        (ap (lookup manifest_entry) (sym known) ∙ lookup_pair b r.body) in
    let second =
      body_of-found policy_entry out p r.body bp
        (ap (lookup policy_entry) (sym known) ∙ lookup_policy b r.body) in
    record {
      first = h;
      second = g;
      shape = rw (full, stop, first, second) refl;
      manifest_data = subst (IsData manifest_entry h) first d;
      policy_data = subst (IsData policy_entry g) second gd;
    }

second_round :
    (l : Listing) (h : Header) (b : Bytes) (out : Table Bytes) (m p : Bytes)
    → h.name ≡ manifest_entry
    → IsData manifest_entry h b
    → read_entries 1 ((h.name, b) ∷ []) l ≡ ok out
    → body_of manifest_entry out ≡ ok m
    → body_of policy_entry out ≡ ok p
    → IsCanonical (entry h (some b) l) m p
second_round end_of_archive h b out m p n d e bm bp =
    absurd (ends-after-one h b out p n (unfold read_entries in ground arith) bp)
second_round broken h b out m p n d e bm bp = unfold read_entries in cc
second_round (entry g content more) h b out m p n d e bm bp =
    second_entry h g b content more out m p n d (round 1 ((h.name, b) ∷ []) g content more out e) bm
      bp

pub two_entries :
    (l : Listing) (out : Table Bytes) (m p : Bytes)
    → read_entries 0 [] l ≡ ok out
    → body_of manifest_entry out ≡ ok m
    → body_of policy_entry out ≡ ok p
    → IsCanonical l m p
two_entries end_of_archive out m p e bm bp =
    absurd (body_of-missing policy_entry out p bp (unfold read_entries lookup in ground arith))
two_entries broken out m p e bm bp = unfold read_entries in cc
two_entries (entry h content more) out m p e bm bp =
    let r = round 0 [] h content more out e in
    let n = first_name h.name r.named in
    let (full, d) = entry-IsData manifest_entry h content r.body n r.checked r.read in
    subst (λ c. IsCanonical (entry h c more) m p) (sym full)
      (second_round more h r.body out m p n d r.rest bm bp)
