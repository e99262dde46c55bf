-- ===== src/SourcePolicy/Mappings.antt =====
-- The loops over the sources and over a pool, and the mode of a mapping.
use indexjack.Prelude.{
  true, false, List, [], ◌∷◌, map, some, Option-cases, ok, Text, text_eq, text_eq_iff, member,
  is_empty_iff, length, Within, Within-find?, find?-Within, All, Fresh, Fresh→Distinct,
  Distinct→Fresh, not-member, not-Within, ◌≡◌, ◌⊎◌, ◌↔◌, inl, inr, refl, arith, Bool-cases,
}
use indexjack.SourcePolicy.{
  Source, Mapping, Policy, source_id, source_by_id, has_id, mode_exclusive, mode_combined,
  role_private, role_public, check_sources, declares, check_pool, check_mode,
}
use indexjack.SourcePolicy.Descriptions.{IsValidSource, Declares, IsExclusive, IsCombined}

-- What `source_by_id` finds.
pub source_by_id-found :
    (p : Policy) (id : Text) (s : Source)
    → source_by_id p id ≡ some s
    → Within s p.sources × (s.id ≡ id)
unfolding source_by_id
source_by_id-found p id s h =
    let (w, e) = Within-find? (has_id id) p.sources s h in (w, (text_eq_iff s.id id).0 e)

pub source_by_id-Declares :
    (p : Policy) (id : Text) → Declares p id → (s : Source) × (source_by_id p id ≡ some s)
unfolding source_by_id
source_by_id-Declares p id (s, w, e) =
    find?-Within (has_id id) p.sources s w ((text_eq_iff s.id id).1 e)

declares-Declares : (p : Policy) (id : Text) → declares p id ≡ true → Declares p id
declares-Declares p id h = elim (Option-cases (source_by_id p id)) [
  | inl e ↦ absurd (ground (arith, e))
  | inr (s, e) ↦ let (w, same) = source_by_id-found p id s e in (s, w, same)
]

Declares-declares : (p : Policy) (id : Text) → Declares p id → declares p id ≡ true
Declares-declares p id d = let (s, e) = source_by_id-Declares p id d in rw (e, declares)

-- One round of each loop, and then the loop: it accepts what has the property and does not repeat.
check_sources-cons :
    (seen : List Text) (s : Source) (ss : List Source)
    → check_sources seen (s ∷ ss) ≡ ok tt
    → IsValidSource s × (member s.id seen ≡ false) × (check_sources (s.id ∷ seen) ss ≡ ok tt)
unfolding check_sources
check_sources-cons seen s ss h = ground (
  arith,
  is_empty_iff s.id,
  is_empty_iff s.url,
  text_eq_iff s.role role_private,
  text_eq_iff s.role role_public,
)

pub sources-IsValid :
    (seen : List Text) (ss : List Source)
    → check_sources seen ss ≡ ok tt
    → All IsValidSource ss × Fresh seen (map source_id ss)
sources-IsValid seen [] h = (tt, tt)
sources-IsValid seen (s ∷ ss) h =
    let (v, new, rest) = check_sources-cons seen s ss h in
    let (vs, fs) = sources-IsValid (s.id ∷ seen) ss rest in
    ((v, vs), (not-member s.id seen new, fs))

pub IsValid-sources :
    (seen : List Text) (ss : List Source)
    → All IsValidSource ss
    → Fresh seen (map source_id ss)
    → check_sources seen ss ≡ ok tt
unfolding check_sources
IsValid-sources seen [] v f = refl
IsValid-sources seen (s ∷ ss) v f =
    let (i, u, r) = v.0 in
    let new = not-Within s.id seen f.0 in
    ground (
      arith,
      is_empty_iff s.id,
      is_empty_iff s.url,
      text_eq_iff s.role role_private,
      text_eq_iff s.role role_public,
      IsValid-sources (s.id ∷ seen) ss v.1 f.1,
    )

check_pool-cons :
    (p : Policy) (seen : List Text) (id : Text) (ids : List Text)
    → check_pool p seen (id ∷ ids) ≡ ok tt
    → (declares p id ≡ true) × (member id seen ≡ false) × (check_pool p (id ∷ seen) ids ≡ ok tt)
unfolding check_pool
check_pool-cons p seen id ids h = ground arith

pool-IsValid :
    (p : Policy) (seen ids : List Text)
    → check_pool p seen ids ≡ ok tt
    → All (Declares p) ids × Fresh seen ids
pool-IsValid p seen [] h = (tt, tt)
pool-IsValid p seen (id ∷ ids) h =
    let (d, new, rest) = check_pool-cons p seen id ids h in
    let (ds, fs) = pool-IsValid p (id ∷ seen) ids rest in
    ((declares-Declares p id d, ds), (not-member id seen new, fs))

IsValid-pool :
    (p : Policy) (seen ids : List Text)
    → All (Declares p) ids
    → Fresh seen ids
    → check_pool p seen ids ≡ ok tt
unfolding check_pool
IsValid-pool p seen [] v f = refl
IsValid-pool p seen (id ∷ ids) v f =
    let known = Declares-declares p id v.0 in
    let new = not-Within id seen f.0 in
    rw (new, IsValid-pool p (id ∷ seen) ids v.1 f.1) (ground (arith, known))

pub empty_length : {A : Type 0} (xs : List A) → (length xs ≡ 0) ↔ (xs ≡ [])
empty_length [] = ground arith
empty_length (x ∷ xs) = ground arith

pub mode-IsValid :
    (p : Policy) (m : Mapping) → check_mode p m ≡ ok tt → IsExclusive p m ⊎ IsCombined p m
unfolding check_mode
mode-IsValid p m h = elim (Bool-cases (text_eq m.mode mode_exclusive)) [
  | inl e ↦ inl (
    (text_eq_iff m.mode mode_exclusive).0 e,
    ground (arith, is_empty_iff m.source),
    (empty_length m.sources).0 (ground arith),
    declares-Declares p m.source (ground arith),
  )
  | inr e ↦
      let (ds, fs) = pool-IsValid p [] m.sources (ground arith) in
      inr (
        (text_eq_iff m.mode mode_combined).0 (ground arith),
        ground (arith, is_empty_iff m.source),
        ground arith,
        Fresh→Distinct [] m.sources fs,
        ds,
      )
]

pub IsValid-mode :
    (p : Policy) (m : Mapping) → IsExclusive p m ⊎ IsCombined p m → check_mode p m ≡ ok tt
unfolding check_mode
IsValid-mode p m (inl (e, s, n, d)) =
    let known = Declares-declares p m.source d in
    rw (known, (text_eq_iff m.mode mode_exclusive).1 e, n)
      (ground (arith, is_empty_iff m.source, known))
IsValid-mode p m (inr (e, s, n, d, ds)) =
    let loop = IsValid-pool p [] m.sources ds (Distinct→Fresh m.sources d) in
    ground (
      arith,
      text_eq_iff m.mode mode_exclusive,
      text_eq_iff m.mode mode_combined,
      is_empty_iff m.source,
      loop,
    )
