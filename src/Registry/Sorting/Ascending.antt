-- ===== src/Registry/Sorting/Ascending.antt =====
-- A sorted fixture set.
use indexjack.Prelude.{
  true, false, List, [], ◌∷◌, map, ok, >>=-eq-ok, ok-injective, Text, text_lt, text_lt_asym,
  text_lt_behind, sort, sort-Within, sort-IsSorted, IsSorted, All, All-of, All-Within, Within,
  Within-map, map-Within, ◌≡◌, ◌↔◌, inl, inr, refl, ap, arith,
}
use indexjack.Semver
use indexjack.Semver.{Version}
use indexjack.Semver.Order.{compare-flip, not_less_trans}
use indexjack.Registry.{Artifact, Package, FixtureSet}
use indexjack.Registry.Sorting.{
  by_name, Dated, by_version, dated, undated, sort_versions, sort_each, sort_set,
}

abbrev pub name_of : Package → Text
name_of p = p.name

abbrev IsDated : Dated → Type 0
IsDated (v, a) = Semver.parse a.version ≡ ok v

dated-IsDated :
    (xs : List Artifact) (found : List Dated)
    → dated xs ≡ ok found
    → All IsDated found × (map undated found ≡ xs)
unfolding dated
dated-IsDated [] found h = let e : [] ≡ found = ok-injective h in rw (← e) (tt, refl)
dated-IsDated (a ∷ as_) found h =
    let (v, e, h1) = >>=-eq-ok (Semver.parse a.version) _ h in
    let (rest, f, h2) = >>=-eq-ok (dated as_) _ h1 in
    let same : (v, a) ∷ rest ≡ found = ok-injective h2 in
    let (all, back) = dated-IsDated as_ rest f in rw (← same) ((e, all), ap (λ t. a ∷ t) back)

IsDated-dated : (found : List Dated) → All IsDated found → dated (map undated found) ≡ ok found
unfolding dated
IsDated-dated [] h = refl
IsDated-dated ((v, a) ∷ rest) h = rw (h.0, IsDated-dated rest h.1) refl

by_version-asym : (a b : Dated) → by_version a b ≡ true → by_version b a ≡ false
by_version-asym (v, a) (w, b) h = ground (arith, compare-flip v w)

by_version-behind :
    (a b c : Dated) → by_version c b ≡ false → by_version b a ≡ false → by_version c a ≡ false
by_version-behind (v, a) (w, b) (u, c) p q = ground (arith, not_less_trans u w v)

All-sort : (xs : List Dated) → All IsDated xs → All IsDated (sort by_version xs)
All-sort xs h =
    All-of IsDated (sort by_version xs)
      (λ d w. All-Within IsDated xs d h ((sort-Within by_version xs d).0 w))

sorted_same :
    (found : List Dated) (a : Artifact)
    → Within a (map undated (sort by_version found)) ↔ Within a (map undated found)
sorted_same found a = (
  λ w.
      let (d, v, e) = map-Within undated (sort by_version found) a w in
      rw e (Within-map undated found d ((sort-Within by_version found d).0 v)),
  λ w.
      let (d, v, e) = map-Within undated found a w in
      rw e (Within-map undated (sort by_version found) d ((sort-Within by_version found d).1 v)),
)

-- The same package with its versions in ascending order.
pub record IsAscending (p q : Package) : Type 0 where
  pub name : q.name ≡ p.name
  pub same : (a : Artifact) → Within a q.versions ↔ Within a p.versions
  pub found : List Dated
  pub readable : dated q.versions ≡ ok found
  pub ascending : IsSorted by_version found

sort_versions-IsAscending : (p q : Package) → sort_versions p ≡ ok q → IsAscending p q
unfolding sort_versions
sort_versions-IsAscending p q h =
    let (found, e, h1) = >>=-eq-ok (dated p.versions) _ h in
    let is : record p { versions = map undated (sort by_version found) } ≡ q = ok-injective h1 in
    let (all, back) = dated-IsDated p.versions found e in
    rw (← is) (record {
      name = refl;
      same = λ a. rw (← back) (sorted_same found a);
      found = sort by_version found;
      readable = IsDated-dated (sort by_version found) (All-sort found all);
      ascending = sort-IsSorted by_version by_version-asym by_version-behind found;
    })

sort_each-IsAscending :
    (ps qs : List Package)
    → sort_each ps ≡ ok qs
    → (q : Package) → Within q qs
    → (p : Package) × Within p ps × IsAscending p q
unfolding sort_each
sort_each-IsAscending [] qs h q w = let e : [] ≡ qs = ok-injective h in elim (rw (← e) at w) [ ]
sort_each-IsAscending (p ∷ ps) qs h q w =
    let (x, e, h1) = >>=-eq-ok (sort_versions p) _ h in
    let (rest, f, h2) = >>=-eq-ok (sort_each ps) _ h1 in
    let same : x ∷ rest ≡ qs = ok-injective h2 in
    let v : Within q (x ∷ rest) = rw (← same) at w in
    elim v [
      | inl here ↦ (p, inl refl, rw here (sort_versions-IsAscending p x e))
      | inr there ↦ let (r, u, is) = sort_each-IsAscending ps rest f q there in (r, inr u, is)
    ]

sort_each-names : (ps qs : List Package) → sort_each ps ≡ ok qs → map name_of qs ≡ map name_of ps
unfolding sort_each
sort_each-names [] qs h = let e : [] ≡ qs = ok-injective h in rw (← e) refl
sort_each-names (p ∷ ps) qs h =
    let (x, e, h1) = >>=-eq-ok (sort_versions p) _ h in
    let (rest, f, h2) = >>=-eq-ok (sort_each ps) _ h1 in
    let same : x ∷ rest ≡ qs = ok-injective h2 in
    rw (← same, (sort_versions-IsAscending p x e).name, sort_each-names ps rest f) refl

names_behind :
    (p : Package) (ps : List Package)
    → All (λ q. by_name q p ≡ false) ps
    → All (λ t. text_lt t p.name ≡ false) (map name_of ps)
names_behind p [] h = tt
names_behind p (q ∷ ps) h = (h.0, names_behind p ps h.1)

names-IsSorted : (ps : List Package) → IsSorted by_name ps → IsSorted text_lt (map name_of ps)
names-IsSorted [] h = tt
names-IsSorted (p ∷ ps) h = (names_behind p ps h.0, names-IsSorted ps h.1)

-- A sorted set has its packages by name, and in each the versions of a package of the set before, in
-- ascending order.
pub sort_set-IsAscending :
    (s t : FixtureSet)
    → sort_set s ≡ ok t
    → IsSorted text_lt (map name_of t.packages)
      × ((q : Package)
          → Within q t.packages
          → (p : Package) × Within p s.packages × IsAscending p q)
unfolding sort_set
sort_set-IsAscending s t h =
    let (ps, e, h1) = >>=-eq-ok (sort_each (sort by_name s.packages)) _ h in
    let is : record s { packages = ps } ≡ t = ok-injective h1 in
    rw (← is) (
      rw (sort_each-names (sort by_name s.packages) ps e) (
          names-IsSorted (sort by_name s.packages) (
            sort-IsSorted by_name (λ p q. text_lt_asym p.name q.name)
              (λ p q r. text_lt_behind p.name q.name r.name) s.packages)),
      λ q w.
          let (p, u, found) = sort_each-IsAscending (sort by_name s.packages) ps e q w in
          (p, (sort-Within by_name s.packages p).0 u, found),
    )

-- Sorting changes the packages only.
pub sort_set-keeps :
    (s t : FixtureSet)
    → sort_set s ≡ ok t
    → (t.id ≡ s.id) × (t.role ≡ s.role) × (t.revision ≡ s.revision) × (t.vulnerable ≡ s.vulnerable)
unfolding sort_set
sort_set-keeps s t h =
    let (ps, e, h1) = >>=-eq-ok (sort_each (sort by_name s.packages)) _ h in
    let is : record s { packages = ps } ≡ t = ok-injective h1 in rw (← is) (refl, refl, refl, refl)
