-- ===== src/SourcePolicy.antt =====
-- internal/sourcepolicy/sourcepolicy.go: where a dependency name may come from.
pub mod Descriptions
pub mod Mappings
pub mod Validity
pub mod Matching
pub mod Answering
pub mod Binding
pub mod Resolution
use indexjack.Prelude.{
  ℕ, ltb, ◌==◌, if◌then◌else◌, Bool, true, false, ◌&&◌, ◌||◌, not, List, [], ◌∷◌, map, Option, none,
  some, Result, ok, err, ◌>>=◌, ◌>>◌, Text, codes, text_eq, has_prefix, has_suffix, trim_suffix,
  contains, count_byte, member, is_empty, select, find?, length,
}

abbrev pub mode_exclusive : Text
mode_exclusive = codes "exclusive"

abbrev pub mode_combined : Text
mode_combined = codes "combined"

abbrev pub role_private : Text
role_private = codes "private"

abbrev pub role_public : Text
role_public = codes "public"

abbrev pub format : Text
format = codes "indexjack-source-policy/1"

-- The sentinels that the errors wrap.
pub data Error : Type 0 where
  no_mapping ambiguous_mapping unknown_source unsupported_mode invalid_policy : Error

pub record Source : Type 0 where
  pub id : Text
  pub role : Text
  pub url : Text

abbrev pub no_source : Source
no_source = record { id = []; role = []; url = [] }

pub record Mapping : Type 0 where
  pub pattern : Text
  pub mode : Text
  pub source : Text
  pub sources : List Text

pub record Policy : Type 0 where
  pub format : Text
  pub sources : List Source
  pub mappings : List Mapping

pub record Decision : Type 0 where
  pub name : Text
  pub pattern : Text
  pub mode : Text
  pub bound : Source
  pub pool : List Source
  pub excluded : List Source

-- The zero value of a decision.
abbrev pub no_decision : Decision
no_decision = record {
  name = [];
  pattern = [];
  mode = [];
  bound = no_source;
  pool = [];
  excluded = [];
}

abbrev pub source_id : Source → Text
source_id s = s.id

unfoldable pub display_order : Policy → List Text
display_order p = map source_id p.sources

abbrev pub has_id : Text → Source → Bool
has_id id s = text_eq s.id id

-- The method `Source`.
unfoldable pub source_by_id : Policy → Text → Option Source
source_by_id p id = find? (has_id id) p.sources

abbrev star : Text
star = codes "*"

pub validate_pattern : Text → Result Error (Unit {0})
validate_pattern pattern =
    if is_empty pattern
    then err invalid_policy
    else if ltb 1 (count_byte b'*' pattern)
        || (contains pattern star && not (has_suffix pattern star))
    then err invalid_policy
    else ok tt

-- The loop over the sources in `Validate`.
pub check_sources : List Text → List Source → Result Error (Unit {0})
check_sources seen [] = ok tt
check_sources seen (s ∷ ss) =
    let rest = check_sources (s.id ∷ seen) ss in
    if is_empty s.id || is_empty s.url
    then err invalid_policy
    else if not (text_eq s.role role_private) && not (text_eq s.role role_public)
    then err invalid_policy
    else if member s.id seen
    then err invalid_policy
    else rest

abbrev declares : Policy → Text → Bool
declares p id = elim (source_by_id p id) [ none ↦ false | some _ ↦ true ]

-- The loop over the pool of a combined mapping.
check_pool : Policy → List Text → List Text → Result Error (Unit {0})
check_pool p seen [] = ok tt
check_pool p seen (id ∷ ids) =
    let rest = check_pool p (id ∷ seen) ids in
    if not (declares p id)
    then err unknown_source
    else if member id seen
    then err invalid_policy
    else rest

-- The `switch` over the mode.
pub check_mode : Policy → Mapping → Result Error (Unit {0})
check_mode p m =
    if text_eq m.mode mode_exclusive
    then if is_empty m.source || ltb 0 (length m.sources)
      then err invalid_policy
      else if not (declares p m.source)
      then err unknown_source
      else ok tt
    else if text_eq m.mode mode_combined
    then if not (is_empty m.source) || ltb (length m.sources) 2
      then err invalid_policy
      else check_pool p [] m.sources
    else err unsupported_mode

-- The loop over the mappings in `Validate`.
check_mappings : Policy → List Text → List Mapping → Result Error (Unit {0})
check_mappings p seen [] = ok tt
check_mappings p seen (m ∷ ms) =
    let rest = check_mappings p (m.pattern ∷ seen) ms in
    validate_pattern m.pattern
    >> (if member m.pattern seen then err invalid_policy else (check_mode p m >> rest))

unfoldable pub validate : Policy → Result Error (Unit {0})
unfolding check_sources check_mappings validate_pattern check_mode check_pool
validate p =
    if not (text_eq p.format format)
    then err invalid_policy
    else if length p.sources == 0 || length p.mappings == 0
    then err invalid_policy
    else (check_sources [] p.sources >> check_mappings p [] p.mappings)

unfoldable pub matches : Text → Text → Bool
matches pattern name =
    if has_suffix pattern star
    then has_prefix name (trim_suffix pattern star)
    else text_eq pattern name

-- The sources of a combined mapping, in declared order.
collect : Policy → List Text → Result Error (List Source)
collect p [] = ok []
collect p (id ∷ ids) = elim (source_by_id p id) [
  | none ↦ err unknown_source
  | some s ↦ (collect p ids >>= λ rest. ok (s ∷ rest))
]

-- The sources that are not pooled.
pub excluded_by : Policy → List Text → List Source
excluded_by p pooled = select (λ s. not (member s.id pooled)) p.sources

abbrev pooled_decision : Policy → Text → Mapping → List Source → Decision
pooled_decision p name m pool = record {
  name = name;
  pattern = m.pattern;
  mode = m.mode;
  bound = no_source;
  pool = pool;
  excluded = excluded_by p m.sources;
}

abbrev bound_decision : Policy → Text → Mapping → Source → Decision
bound_decision p name m bound = record {
  name = name;
  pattern = m.pattern;
  mode = m.mode;
  bound = bound;
  pool = bound ∷ [];
  excluded = excluded_by p (bound.id ∷ []);
}

pub decide : Policy → Text → Mapping → Result Error Decision
decide p name m =
    if text_eq m.mode mode_combined
    then (do pool ← collect p m.sources; ok (pooled_decision p name m pool))
    else elim (source_by_id p m.source) [
      | none ↦ err unknown_source
      | some bound ↦ ok (bound_decision p name m bound)
    ]

-- The `switch` over the number of matches.
pub resolve_matched : Policy → Text → List Mapping → Result Error Decision
resolve_matched p name [] = err no_mapping
resolve_matched p name (m ∷ []) = decide p name m
resolve_matched p name (m ∷ n ∷ ms) = err ambiguous_mapping

unfoldable pub matching : Policy → Text → List Mapping
matching p name = select (λ m. matches m.pattern name) p.mappings

unfoldable pub resolve : Policy → Text → Result Error Decision
unfolding resolve_matched decide collect excluded_by
resolve p name = validate p >> resolve_matched p name (matching p name)
