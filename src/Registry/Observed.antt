-- ===== src/Registry/Observed.antt =====
-- What a registry observes of a run, and what its receipt says.
use indexjack.Prelude.{
  if◌then◌else◌, true, List, [], ◌∷◌, none, some, Option-cases, Text, text_eq, text_eq_iff, length,
  ◌≡◌, inl, inr, refl, arith,
}
use indexjack.Registry.{Receipt, Request}
use indexjack.Registry.Service.{
  Table, Handler, Incoming, Encoder, run_requests, entry_of, serve_query, receipt_path,
}
use indexjack.Registry.Receipts.{receipt_on, sign_receipt, verify_receipt, statement}

-- What a receipt on a run has to say.
pub record IsStatement (enc : Encoder) (h : Handler) (run : Text) (r : Receipt) : Type 0 where
  pub signed : verify_receipt enc r h.receipts.signing_key ≡ true
  pub about : r.run ≡ run
  pub issuer : r.source ≡ h.set.id
  pub observed : r.requests ≡ run_requests h run
  pub counted : r.request_count ≡ length r.requests

-- A signature does not sign itself.
verify_lem :
    (enc : Encoder) (receipt : Receipt) (key signature : Text)
    → sign_receipt enc receipt key ≡ some signature
    → verify_receipt enc (record receipt { signature = signature }) key ≡ true
unfolding verify_receipt sign_receipt
verify_lem enc receipt key signature f = ground (arith, f, text_eq_iff signature signature)

receipt_lem :
    (enc : Encoder) (h : Handler) (run signature : Text) (r : Receipt)
    → sign_receipt enc (statement h run) h.receipts.signing_key ≡ some signature
    → record (statement h run) { signature = signature } ≡ r
    → IsStatement enc h run r
unfolding statement
receipt_lem enc h run signature r f same = rw (← same) (record {
  signed = verify_lem enc (statement h run) h.receipts.signing_key signature f;
  about = refl;
  issuer = refl;
  observed = refl;
  counted = refl;
})

-- A receipt that a registry issues on a run carries a signature that verifies under its signing
-- key, names the run and the registry, lists the requests that the registry has recorded of the
-- run, and counts them.
pub receipt_on-IsStatement :
    (enc : Encoder) (h : Handler) (run : Text) (r : Receipt)
    → receipt_on enc h run ≡ some r
    → IsStatement enc h run r
unfolding receipt_on
receipt_on-IsStatement enc h run r e =
    elim (Option-cases (sign_receipt enc (statement h run) h.receipts.signing_key)) [
      | inl f ↦ absurd (ground (arith, f, e))
      | inr (signature, f) ↦ receipt_lem enc h run signature r f (ground (arith, e, f))
    ]

run_of : Table (List Request) → Text → List Request
run_of m run = elim (entry_of run m) [ some rs ↦ rs | none ↦ [] ]

-- The entry of a request in the record of a run: none for a receipt, and none for another run.
pub observed : Encoder → Handler → Text → List Incoming → List Request
observed enc h run [] = []
observed enc h run (i ∷ is) =
    let rest = observed enc h run is in
    if text_eq i.path receipt_path
    then rest
    else if text_eq i.run run
    then (serve_query enc h i).request ∷ rest
    else rest
