-- ===== src/Registry/Receipts.antt =====
-- internal/registry/registry.go: receipts, and the whole handler `ServeHTTP`.
use indexjack.Prelude.{
  ℕ, ◌==◌, if◌then◌else◌, Bool, false, ◌||◌, not, List, [], ◌∷◌, ◌++◌, Option, none, some, Text,
  codes, text_eq, is_empty, length,
}
use indexjack.PkgArchive.Identity.{hex}
use indexjack.Registry.{Receipt}
use indexjack.Registry.Service.{
  Handler, Incoming, Response, Encoder, Served, answer, error_body, single, run_requests,
  record_request, serve_query, reads_only, receipt_path, receipt_format, receipt_scheme,
}

-- `strings.Cut(s, " ")`
cut : Text → Option (Text × Text)
cut [] = none
cut (c ∷ s) =
    let rest = cut s in
    if c == b' ' then some ([], s) else elim rest [ none ↦ none | some (a, b) ↦ some (c ∷ a, b) ]

pub credential_matches : Encoder → Text → Text → Bool
unfolding cut
credential_matches enc header expected = elim (cut header) [
  | none ↦ false
  | some (scheme, presented) ↦
      if not (text_eq scheme receipt_scheme)
      then false
      else text_eq (enc.trim_space presented) expected
]

unfoldable pub sign_receipt : Encoder → Receipt → Text → Option Text
sign_receipt enc receipt key = elim (enc.receipt (record receipt { signature = [] })) [
  | none ↦ none
  | some body ↦
      some (codes "hmac-sha256:" ++ hex (enc.hmac (key ++ codes ":" ++ receipt.source) body))
]

unfoldable pub verify_receipt : Encoder → Receipt → Text → Bool
unfolding sign_receipt
verify_receipt enc receipt key = elim (sign_receipt enc receipt key) [
  | none ↦ false
  | some expected ↦ text_eq receipt.signature expected
]

-- The statement on a run, before it is signed.
unfoldable pub statement : Handler → Text → Receipt
statement h run = record {
  format = receipt_format;
  source = h.set.id;
  role = h.set.role;
  revision = h.set.revision;
  run = run;
  request_count = length (run_requests h run);
  requests = run_requests h run;
  signature = [];
}

-- The signed receipt on a run.
unfoldable pub receipt_on : Encoder → Handler → Text → Option Receipt
unfolding statement
receipt_on enc h run = elim (sign_receipt enc (statement h run) h.receipts.signing_key) [
  | none ↦ none
  | some signature ↦ some (record (statement h run) { signature = signature })
]

module _ (enc : Encoder) (h : Handler) where
  refused : ℕ → Text → Response
  refused status code = answer enc h status false (error_body code)

  serve_receipt : Incoming → Response
  unfolding refused
  serve_receipt i =
      if is_empty h.receipts.credential || is_empty h.receipts.signing_key
      then refused 404 (codes "not_found")
      else if not (credential_matches enc i.authorization h.receipts.credential)
      then refused 401 (codes "unauthorized")
      else elim (single i.query (codes "run")) [
        | none ↦ refused 400 (codes "bad_request")
        | some run ↦
            if not (length i.query == 1)
            then refused 400 (codes "bad_request")
            else elim (receipt_on enc h run) [
              | none ↦ refused 500 (codes "internal_error")
              | some receipt ↦ elim (enc.receipt receipt) [
                | none ↦ refused 500 (codes "internal_error")
                | some body ↦ answer enc h 200 false body
              ]
            ]
      ]

  logged : Incoming → Served → Response × Handler
  logged i s = (s.response, record_request s.request i.run h)

  -- Reading a receipt is not logged; every other request is.
  unfoldable pub serve : Incoming → Response × Handler
  unfolding serve_receipt logged
  serve i =
      if text_eq i.path receipt_path
      then (if not (reads_only enc h i.method)
          then (refused 405 (codes "method_not_allowed"), h)
          else (serve_receipt i, h))
      else logged i (serve_query enc h i)

-- A sequence of requests, one after the other.
unfoldable pub serve_all : Encoder → List Incoming → Handler → Handler
unfolding serve
serve_all enc [] h = h
serve_all enc (i ∷ is) h = serve_all enc is (serve enc h i).1
