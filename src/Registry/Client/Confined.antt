-- ===== src/Registry/Client/Confined.antt =====
-- internal/registry/registry.go: what the client accepts, and whom it asks.
use mathlib.Core.Path.{subst}
use indexjack.Prelude.{
  ◌==◌, true, Bool-cases, [], ◌∷◌, ◌++◌, none, some, Option-cases, Result, Result-cases, ok, err,
  Text, Bytes, codes, text_eq, text_eq_iff, has_suffix, length, ◌≡◌, ◌⊎◌, inl, inr, sym, ap, ◌∙◌,
  arith,
}
use indexjack.CanonicalJson.{unmarshal}
use indexjack.Registry.{FetchError, Metadata, Receipt}
use indexjack.Registry.Service.{
  metadata_format, metadata_path, receipt_format, receipt_path, receipt_scheme,
}
use indexjack.Registry.Client.{
  Transport, Client, allowed_host, new_client, checked_metadata, decoded_metadata, client_metadata,
  get, max_metadata_bytes, checked_receipt, decoded_receipt, client_receipt, max_receipt_bytes,
}

-- The hosts of the laboratory.
pub IsLaboratoryHost : Text → Type 0
IsLaboratoryHost host =
    (host ≡ codes "localhost")
    ⊎ ((host ≡ codes "127.0.0.1")
        ⊎ ((host ≡ codes "::1")
            ⊎ ((has_suffix host (codes ".private.example") ≡ true)
                ⊎ (has_suffix host (codes ".public.example") ≡ true))))

allowed_host-cases : (host : Text) → allowed_host host ≡ true → IsLaboratoryHost host
unfolding allowed_host IsLaboratoryHost
allowed_host-cases host h = elim (Bool-cases (text_eq host (codes "localhost"))) [
  | inl e ↦ inl ((text_eq_iff host (codes "localhost")).0 e)
  | inr e ↦ elim (Bool-cases (text_eq host (codes "127.0.0.1"))) [
    | inl f ↦ inr (inl ((text_eq_iff host (codes "127.0.0.1")).0 f))
    | inr f ↦ elim (Bool-cases (text_eq host (codes "::1"))) [
      | inl g ↦ inr (inr (inl ((text_eq_iff host (codes "::1")).0 g)))
      | inr g ↦ elim (Bool-cases (has_suffix host (codes ".private.example"))) [
        | inl i ↦ inr (inr (inr (inl i)))
        | inr i ↦ inr (inr (inr (inr (ground (arith, h, e, f, g, i)))))
      ]
    ]
  ]
]

checked_metadata-ok :
    (name : Text) (meta result : Metadata)
    → checked_metadata name meta ≡ ok result
    → (result.format ≡ metadata_format) × (result.name ≡ name)
unfolding checked_metadata
checked_metadata-ok name meta result h =
    let f = text_eq_iff meta.format metadata_format in
    let g = text_eq_iff meta.name name in
    elim (Bool-cases (text_eq meta.format metadata_format)) [
      | inr e ↦ absurd (ground (arith, e, h))
      | inl e ↦ elim (Bool-cases (text_eq meta.name name)) [
        | inr i ↦ absurd (ground (arith, e, i, h))
        | inl i ↦
            let k : ok meta ≡ ok result = rw (e, i) at h in
            let same : meta ≡ result = cc in
            (ap (λ m. m.format) (sym same) ∙ f.0 e, ap (λ m. m.name) (sym same) ∙ g.0 i)
      ]
    ]

decoded_metadata-ok :
    {N : Type 0} (net : Transport N) (name : Text) (r : Result FetchError Bytes) (n : N)
    (result : Metadata)
    → (decoded_metadata net name (r, n)).0 ≡ ok result
    → (result.format ≡ metadata_format) × (result.name ≡ name)
unfolding decoded_metadata
decoded_metadata-ok net name (err e) n result h = absurd cc
decoded_metadata-ok net name (ok body) n result h =
    elim (Result-cases (unmarshal net.metadata_decoder body)) [
      | inl (meta, e) ↦ checked_metadata-ok name meta result (rw (e, decoded_metadata) at h)
      | inr (x, e) ↦ absurd (ground (arith, e, h))
    ]

-- Metadata that the client answers has the known format and the name asked for.
pub client_metadata-checked :
    {N : Type 0} (net : Transport N) (c : Client) (name : Text) (n : N) (result : Metadata)
    → (client_metadata net c name n).0 ≡ ok result
    → (result.format ≡ metadata_format) × (result.name ≡ name)
unfolding client_metadata
client_metadata-checked net c name n result h =
    decoded_metadata-ok net name
      (get net c metadata_path ((codes "name", name) ∷ []) max_metadata_bytes none n).0
      (get net c metadata_path ((codes "name", name) ∷ []) max_metadata_bytes none n).1 result h

-- A client that `new_client` makes has the address that its text parses to, the run id asked for,
-- the scheme `http`, and a host that is localhost, 127.0.0.1 or ::1, or ends in .private.example or
-- .public.example.
pub new_client-confined :
    {N : Type 0} (net : Transport N) (base run_id : Text) (c : Client)
    → new_client net base run_id ≡ ok c
    → (net.parse_url base ≡ some c.base)
      × (c.run_id ≡ run_id)
      × (c.base.scheme ≡ codes "http")
      × IsLaboratoryHost c.base.hostname
unfolding new_client
new_client-confined net base run_id c h = elim (Option-cases (net.parse_url base)) [
  | inl e ↦ absurd (ground (arith, e, h))
  | inr (u, e) ↦ elim (Bool-cases (text_eq u.scheme (codes "http"))) [
    | inr i ↦ absurd (ground (arith, e, i, h))
    | inl i ↦ elim (Bool-cases (allowed_host u.hostname)) [
      | inr j ↦ absurd (ground (arith, e, i, j, h))
      | inl j ↦
          let k : ok (record { base = u; run_id = run_id }) ≡ ok c =
            rw (e, i, j, new_client) at h in
          let same : record { base = u; run_id = run_id } ≡ c = cc in
          (
            e ∙ ap (λ d. some d.base) same,
            sym (ap (λ d. d.run_id) same),
            ap (λ d. d.base.scheme) (sym same) ∙ (text_eq_iff u.scheme (codes "http")).0 i,
            allowed_host-cases c.base.hostname
                (ap (λ d. allowed_host d.base.hostname) (sym same) ∙ j),
          )
    ]
  ]
]

checked_receipt-ok :
    (run : Text) (r result : Receipt)
    → checked_receipt run r ≡ ok result
    → (result.format ≡ receipt_format)
      × (result.run ≡ run)
      × (result.request_count ≡ length result.requests)
unfolding checked_receipt
checked_receipt-ok run r result h = elim (Bool-cases (text_eq r.format receipt_format)) [
  | inr e ↦ absurd (ground (arith, e, h))
  | inl e ↦ elim (Bool-cases (text_eq r.run run)) [
    | inr i ↦ absurd (ground (arith, e, i, h))
    | inl i ↦ elim (Bool-cases (r.request_count == length r.requests)) [
      | inr j ↦ absurd (ground (arith, e, i, j, h))
      | inl j ↦
          let k : ok r ≡ ok result = rw (e, i, j) at h in
          let same : r ≡ result = cc in
          subst
            (λ m.
              (m.format ≡ receipt_format) × (m.run ≡ run) × (m.request_count ≡ length m.requests))
            same
            (
              (text_eq_iff r.format receipt_format).0 e,
              (text_eq_iff r.run run).0 i,
              ground (arith, j),
            )
    ]
  ]
]

decoded_receipt-ok :
    {N : Type 0} (net : Transport N) (run : Text) (r : Result FetchError Bytes) (n : N)
    (result : Receipt)
    → (decoded_receipt net run (r, n)).0 ≡ ok result
    → (result.format ≡ receipt_format)
      × (result.run ≡ run)
      × (result.request_count ≡ length result.requests)
unfolding decoded_receipt
decoded_receipt-ok net run (err e) n result h = absurd cc
decoded_receipt-ok net run (ok body) n result h =
    elim (Result-cases (unmarshal net.receipt_decoder body)) [
      | inl (r, e) ↦ checked_receipt-ok run r result (rw (e, decoded_receipt) at h)
      | inr (x, e) ↦ absurd (ground (arith, e, h))
    ]

-- A receipt that the client answers has the known format, is of the run asked for, and counts the
-- requests that it lists.
pub client_receipt-checked :
    {N : Type 0} (net : Transport N) (c : Client) (run credential : Text) (n : N) (result : Receipt)
    → (client_receipt net c run credential n).0 ≡ ok result
    → (result.format ≡ receipt_format)
      × (result.run ≡ run)
      × (result.request_count ≡ length result.requests)
unfolding client_receipt get
client_receipt-checked net c run credential n result h =
    let (r, m) =
      get net c receipt_path ((codes "run", run) ∷ []) max_receipt_bytes
        (some (receipt_scheme ++ codes " " ++ credential)) n in
    decoded_receipt-ok net run r m result h
