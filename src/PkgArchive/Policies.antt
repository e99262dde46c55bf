-- ===== src/PkgArchive/Policies.antt =====
-- `validatePolicy`: an accepted table holds enumerated values under enumerated keys, in order.
use indexjack.Prelude.{
  true, false, List, [], ◌∷◌, Option, none, some, Option-cases, ok, Text, text_eq, text_eq_iff,
  text_lt, member→Within, find?, Within, Within-find?, All, All-Within, ◌≡◌, ◌⊎◌, inl, inr, refl,
  sym, ap, ◌∙◌, arith,
}
use indexjack.PkgArchive.{
  Policy, PolicyEntry, Table, lookup, schema, release_keys, verdicts, policy_format,
  kind_release_policy, verdict_approve, verdict_reject, policy_lookup, out_of_order, check_entries,
  validate_policy,
}

-- An entry whose value is among those that the schema lists for its key.
abbrev pub IsEnumerated : Table (List Text) → PolicyEntry → Type 0
IsEnumerated keys e =
    (values : List Text) × (lookup e.key keys ≡ some values) × Within e.value values

abbrev After : Option Text → Text → Type 0
After none key = Unit
After (some previous) key = text_lt previous key ≡ true

-- Keys in strictly ascending order, behind a previous one.
abbrev pub IsAscending : Option Text → List PolicyEntry → Type 0
IsAscending previous [] = Unit
IsAscending previous (e ∷ es) = After previous e.key × IsAscending (some e.key) es

pub record IsAccepted (p : Policy) : Type 0 where
  pub format : p.format ≡ policy_format
  pub keys : Table (List Text)
  pub known : lookup p.kind schema ≡ some keys
  pub enumerated : All (IsEnumerated keys) p.entries
  pub ascending : IsAscending none p.entries

in_order :
    (previous : Option Text) (key : Text) → out_of_order previous key ≡ false → After previous key
unfolding out_of_order
in_order none key h = tt
in_order (some q) key h = ground arith

check_entries-cons :
    (keys : Table (List Text)) (previous : Option Text) (e : PolicyEntry) (es : List PolicyEntry)
    → check_entries keys previous (e ∷ es) ≡ ok tt
    → IsEnumerated keys e
      × (out_of_order previous e.key ≡ false)
      × (check_entries keys (some e.key) es ≡ ok tt)
unfolding check_entries
check_entries-cons keys previous e es h = elim (Option-cases (lookup e.key keys)) [
  | inl none_found ↦ absurd (ground (arith, none_found))
  | inr (values, found) ↦ (
    (values, found, member→Within e.value values (ground (arith, found))),
    ground (arith, found),
    ground (arith, found),
  )
]

entries-IsAccepted :
    (keys : Table (List Text)) (previous : Option Text) (es : List PolicyEntry)
    → check_entries keys previous es ≡ ok tt
    → All (IsEnumerated keys) es × IsAscending previous es
entries-IsAccepted keys previous [] h = (tt, tt)
entries-IsAccepted keys previous (e ∷ es) h =
    let (v, o, rest) = check_entries-cons keys previous e es h in
    let (vs, os) = entries-IsAccepted keys (some e.key) es rest in
    ((v, vs), (in_order previous e.key o, os))

-- A package's policy that passes its check has the known format and a known kind, only keys and
-- values that the kind enumerates, and strictly ascending keys.
pub validate_policy-IsAccepted : (p : Policy) → validate_policy p ≡ ok tt → IsAccepted p
unfolding validate_policy
validate_policy-IsAccepted p h = elim (Option-cases (lookup p.kind schema)) [
  | inl none_found ↦ absurd (ground (arith, none_found))
  | inr (keys, found) ↦
      let (vs, os) = entries-IsAccepted keys none p.entries (ground (arith, found)) in
      record {
        format = (text_eq_iff p.format policy_format).0 (ground arith);
        keys = keys;
        known = found;
        enumerated = vs;
        ascending = os;
      }
]

lookup-entry :
    (p : Policy) (key v : Text)
    → policy_lookup p key ≡ some v
    → (e : PolicyEntry) × Within e p.entries × (e.key ≡ key) × (e.value ≡ v)
unfolding policy_lookup
lookup-entry p key v h = elim (Option-cases (find? (λ e. text_eq e.key key) p.entries)) [
  | inl none_found ↦ absurd (ground (arith, none_found))
  | inr (e, found) ↦
      let (w, same) = Within-find? (λ k. text_eq k.key key) p.entries e found in
      (e, w, (text_eq_iff e.key key).0 same, ground (arith, found))
]

-- What is looked up is one of the values that the schema lists.
pub policy_lookup_listed :
    (p : Policy) (key v : Text) (keys : Table (List Text)) (values : List Text)
    → IsAccepted p
    → lookup p.kind schema ≡ some keys
    → lookup key keys ≡ some values
    → policy_lookup p key ≡ some v
    → Within v values
policy_lookup_listed p key v keys values a listed of_key h =
    let (e, w, k, same) = lookup-entry p key v h in
    let (found_values, found, within) =
      All-Within (IsEnumerated a.keys) p.entries e a.enumerated w in
    let both : a.keys ≡ keys = cc (a.known, listed) in
    let one : found_values ≡ values =
      cc (found, of_key, ap (λ t. lookup t a.keys) k, ap (lookup key) both) in
    rw (one, same) at within

release_schema : lookup kind_release_policy schema ≡ some release_keys
unfolding lookup text_eq
release_schema = refl

release_values :
    (key : Text) (values : List Text) → lookup key release_keys ≡ some values → values ≡ verdicts
unfolding lookup
release_values key values h = ground arith

-- What is looked up in an accepted policy of kind release-policy is APPROVE or REJECT.
pub policy_lookup_verdict :
    (p : Policy) (key v : Text)
    → IsAccepted p
    → p.kind ≡ kind_release_policy
    → policy_lookup p key ≡ some v
    → (v ≡ verdict_approve) ⊎ (v ≡ verdict_reject)
policy_lookup_verdict p key v a kind h =
    let (e, w, k, same) = lookup-entry p key v h in
    let (values, found, within) = All-Within (IsEnumerated a.keys) p.entries e a.enumerated w in
    let listed : lookup p.kind schema ≡ some release_keys =
      ap (λ k. lookup k schema) kind ∙ release_schema in
    let keys : a.keys ≡ release_keys = cc (a.known, listed) in
    let two = release_values e.key values (ap (lookup e.key) (sym keys) ∙ found) in
    verdict (rw (two, same) at within)
  where
    verdict :
        Within v (verdict_approve ∷ verdict_reject ∷ [])
        → (v ≡ verdict_approve) ⊎ (v ≡ verdict_reject)
    verdict (inl e) = inl e
    verdict (inr (inl e)) = inr e
    verdict (inr (inr w)) = elim w [ ]
