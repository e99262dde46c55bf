-- ===== src/CombinedIndex/Merged.antt =====
-- What the combined index merges: the compatible versions of every pooled source.
use indexjack.Prelude.{
  ℕ, ◌+◌, List, [], ◌∷◌, ◌++◌, map, none, Result, Result-cases, ok, err, >>=-eq-ok, sort,
  sort-Within, Within, Within-map, map-Within, ◌≡◌, ◌⊎◌, ◌↔◌, inl, inr, refl, arith,
}
use mathlib.Core.Path.{subst}
use indexjack.Semver
use indexjack.SourcePolicy
use indexjack.SourcePolicy.{Source, Decision}
use indexjack.BuildManifest.{Dependency}
use indexjack.Registry.{
  FetchError, not_found, unavailable, protocol, disallowed, unauthorized, Metadata,
}
use indexjack.Vulnerable.{Environment, gate}
use indexjack.Resolver.{Candidate, Resolution, Fetcher, Platform, Attempt}
use indexjack.CombinedIndex.{
  Config, attempted, Offer, compatible, ahead, candidate_in, hear, ask, poll, Pooled, select_stage,
  merged, range_stage, policy_stage, attempt, resolve,
}
use indexjack.CombinedIndex.Highest.{poll-stops, fetch_stage-record}
use indexjack.CombinedIndex.Compatible.{
  Answered, all_asked, answered, absent, IsCompatible, IsPooled, compatible-IsCompatible,
}

abbrev Held : List Offer → Candidate → Type 0
Held offers c = Within c (map candidate_in offers)

append-Held : (xs ys : List Offer) (c : Candidate) → Held (xs ++ ys) c ↔ (Held xs c ⊎ Held ys c)
append-Held [] ys c = (λ w. inr w, λ h. elim h [ inl w ↦ elim w [ ] | inr w ↦ w ])
append-Held (x ∷ xs) ys c =
    let (to, from) = append-Held xs ys c in
    (
      λ w. elim w [
        | inl here ↦ inl (inl here)
        | inr there ↦ elim (to there) [ inl v ↦ inl (inr v) | inr v ↦ inr v ]
      ],
      λ h. elim h [
        | inl w ↦ elim w [ inl here ↦ inl here | inr there ↦ inr (from (inl there)) ]
        | inr w ↦ inr (from (inr w))
      ],
    )

sort-Held : (offers : List Offer) (c : Candidate) → Held (sort ahead offers) c ↔ Held offers c
sort-Held offers c = (
  λ w.
      let (o, v, e) = map-Within candidate_in (sort ahead offers) c w in
      rw e (Within-map candidate_in offers o ((sort-Within ahead offers o).0 v)),
  λ w.
      let (o, v, e) = map-Within candidate_in offers c w in
      rw e (Within-map candidate_in (sort ahead offers) o ((sort-Within ahead offers o).1 v)),
)

-- The offers held at the end, where those held before are the first ones and a source's.
answered-Held :
    (last before offers more : List Offer) (These Those : Candidate → Type 0)
    → before ≡ offers ++ more
    → ((c : Candidate) → Held more c ↔ These c)
    → ((c : Candidate) → Held last c ↔ (Held before c ⊎ Those c))
    → (c : Candidate) → Held last c ↔ (Held offers c ⊎ (These c ⊎ Those c))
answered-Held last before offers more These Those same these held c =
    let (to, from) = held c in
    let (split, join) = append-Held offers more c in
    let (here, there) = these c in
    (
      λ w. elim (to w) [
        | inr p ↦ inr (inr p)
        | inl v ↦ elim (split (rw same at v)) [ inl u ↦ inl u | inr u ↦ inr (inl (here u)) ]
      ],
      λ h. elim h [
        | inl u ↦ from (inl (rw same (join (inl u))))
        | inr p ↦ elim p [
          | inl t ↦ from (inl (rw same (join (inr (there t)))))
          | inr q ↦ from (inr q)
        ]
      ],
    )

module _ {N : Type 0} (platform : Platform) (cfg : Config N) (dep : Dependency) where
  hear_lem :
      (range : Semver.Range) (rank : ℕ) (s : Source) (offers : List Offer) (res : Resolution)
      (answer : Result FetchError Metadata × N) (p : Pooled N)
      → hear platform cfg dep range rank s offers res answer ≡ ok p
      → ((meta : Metadata) × (answer ≡ (ok meta, p.network))
          × (p.offers ≡ offers ++ compatible range s.id rank meta.name meta.versions))
        ⊎ ((answer ≡ (err not_found, p.network)) × (p.offers ≡ offers))
  unfolding hear
  hear_lem range rank s offers res (ok meta, n) p h = inl (meta, cc, cc)
  hear_lem range rank s offers res (err not_found, n) p h = inr (cc, cc)
  hear_lem range rank s offers res (err unavailable, n) p h = absurd cc
  hear_lem range rank s offers res (err protocol, n) p h = absurd cc
  hear_lem range rank s offers res (err disallowed, n) p h = absurd cc
  hear_lem range rank s offers res (err unauthorized, n) p h = absurd cc

  -- One question: the source answers, or it does not carry the name.
  ask-cases :
      (range : Semver.Range) (rank : ℕ) (s : Source) (offers : List Offer) (res : Resolution)
      (n : N) (p : Pooled N)
      → ask platform cfg dep range rank s offers res n ≡ ok p
      → (client : Fetcher N) × (cfg.dial s ≡ ok client)
        × (((meta : Metadata) × (client.metadata dep.name n ≡ (ok meta, p.network))
              × (p.offers ≡ offers ++ compatible range s.id rank meta.name meta.versions))
            ⊎ ((client.metadata dep.name n ≡ (err not_found, p.network)) × (p.offers ≡ offers)))
  unfolding ask
  ask-cases range rank s offers res n p h = elim (Result-cases (cfg.dial s)) [
    | inr (x, e) ↦ absurd (ground (arith, e, h))
    | inl (client, e) ↦ (
      client,
      e,
      hear_lem range rank s offers _ (client.metadata dep.name n) p (rw (e, ask) at h),
    )
  ]

  poll-Answered :
      (range : Semver.Range) (rank : ℕ) (pool : List Source) (offers : List Offer)
      (res : Resolution) (n : N) (p : Pooled N)
      → poll platform cfg dep range rank pool offers res n ≡ ok p
      → (heard : List (Source × Metadata)) × Answered cfg dep pool n heard p.network
        × ((c : Candidate) → Held p.offers c ↔ (Held offers c ⊎ IsPooled range heard c))
  unfolding poll
  poll-Answered range rank [] offers res n p h =
      let same : offers ≡ p.offers = cc in
      let still : n ≡ p.network = cc in
      (
        [],
        subst (λ (m : N). Answered cfg dep [] n [] m) still all_asked,
        λ c. (λ w. inl (rw same w), λ u. elim u [ inl w ↦ rw (← same) w | inr x ↦ elim x [ ] ]),
      )
  poll-Answered range rank (s ∷ pool) offers res n p h =
      let (q, asked, h2) = >>=-eq-ok (ask platform cfg dep range rank s offers res n) _ h in
      let (heard, rest, held) =
        poll-Answered range (1 + rank) pool q.offers q.resolution q.network p h2 in
      let (client, dialled, cases) = ask-cases range rank s offers res n q asked in
      elim cases [
        | inr (gone, same) ↦ (
          heard,
          absent dialled gone rest,
          subst
              (λ (o : List Offer).
                (c : Candidate) → Held p.offers c ↔ (Held o c ⊎ IsPooled range heard c))
              same held,
        )
        | inl (meta, found, same) ↦ (
          (s, meta) ∷ heard,
          answered dialled found rest,
          answered-Held p.offers q.offers offers
              (compatible range s.id rank meta.name meta.versions)
              (IsCompatible range s.id meta.name meta.versions) (IsPooled range heard) same
              (compatible-IsCompatible range s.id rank meta.name meta.versions) held,
        )
      ]

  -- What is merged of a policy's decision.
  pub record IsMerged (pool : List Source) (range : Semver.Range) (n : N) (res : Resolution)
      : Type 0 where
    pub heard : List (Source × Metadata)
    pub network : N
    pub asked : Answered cfg dep pool n heard network
    pub candidates : (c : Candidate) → Within c res.candidates ↔ IsPooled range heard c

  select_stage-candidates :
      (pool : List Source) (offers : List Offer) (res : Resolution) (n : N)
      → (select_stage platform cfg dep pool offers res n).failure ≡ none
      → (select_stage platform cfg dep pool offers res n).resolution.candidates
        ≡ map candidate_in offers
  unfolding select_stage
  select_stage-candidates pool [] res n h = absurd cc
  select_stage-candidates pool (o ∷ offers) res n h =
      (fetch_stage-record platform cfg dep pool o.candidate _ n h).1

  merged-IsMerged :
      (range : Semver.Range) (pool : List Source) (res : Resolution) (n : N)
      (r : Result (Attempt N) (Pooled N))
      → poll platform cfg dep range 0 pool [] res n ≡ r
      → (merged platform cfg dep pool r).failure ≡ none
      → IsMerged pool range n (merged platform cfg dep pool r).resolution
  unfolding merged
  merged-IsMerged range pool res n (err a) e h =
      absurd (poll-stops platform cfg dep range 0 pool [] res n a e h)
  merged-IsMerged range pool res n (ok p) e h =
      let (heard, asked, held) = poll-Answered range 0 pool [] res n p e in
      let same = select_stage-candidates pool (sort ahead p.offers) p.resolution p.network h in
      record {
        heard = heard;
        network = p.network;
        asked = asked;
        candidates = λ c.
            let (to, from) = held c in
            let (unsort, resort) = sort-Held p.offers c in
            (
              λ w. elim (to (unsort (rw same at w))) [ inl x ↦ elim x [ ] | inr u ↦ u ],
              λ u. rw same (resort (from (inr u))),
            );
      }

  range_stage-IsMerged :
      (d : Decision) (res : Resolution) (n : N)
      → (range_stage platform cfg dep d res n).failure ≡ none
      → (range : Semver.Range) × (Semver.parse_range dep.range ≡ ok range)
        × IsMerged d.pool range n (range_stage platform cfg dep d res n).resolution
  unfolding range_stage
  range_stage-IsMerged d res n h = elim (Result-cases (Semver.parse_range dep.range)) [
    | inl (range, e) ↦
        let merging =
          merged-IsMerged range d.pool res n (poll platform cfg dep range 0 d.pool [] res n) refl
            (rw (e, range_stage) at h) in
        (range, e, rw (e, range_stage) merging)
    | inr (x, e) ↦ absurd (ground (arith, e, h))
  ]

  -- What the policy decides, and what is merged of it.
  abbrev pub MergesPool : N → Resolution → Type 0
  MergesPool n res =
      (d : Decision) × (SourcePolicy.resolve cfg.policy dep.name ≡ ok d)
      × (range : Semver.Range) × (Semver.parse_range dep.range ≡ ok range)
      × IsMerged d.pool range n res

  policy_stage-MergesPool :
      (res : Resolution) (n : N)
      → (policy_stage platform cfg dep res n).failure ≡ none
      → MergesPool n (policy_stage platform cfg dep res n).resolution
  unfolding policy_stage
  policy_stage-MergesPool res n h = elim (Result-cases (SourcePolicy.resolve cfg.policy dep.name)) [
    | inl (d, e) ↦
        let (range, ranged, merging) = range_stage-IsMerged d _ n (rw (e, policy_stage) at h) in
        (d, e, range, ranged, rw (e, policy_stage) merging)
    | inr (x, e) ↦ absurd (ground (arith, e, h))
  ]

  attempt-MergesPool :
      (n : N)
      → (attempt platform cfg dep n).failure ≡ none
      → MergesPool n (attempt platform cfg dep n).resolution
  unfolding attempt
  attempt-MergesPool n h = elim (Result-cases (SourcePolicy.validate cfg.policy)) [
    | inl (_, e) ↦ rw (e, attempt) (policy_stage-MergesPool _ n (rw (e, attempt) at h))
    | inr (x, e) ↦ absurd (ground (arith, e, h))
  ]

  -- Where the combined-index resolver succeeds, the policy has decided on a pool and the range can
  -- be read, each source of the pool was asked in order, and the merged candidates are exactly the
  -- versions that the answering sources publish, that can be read and that lie in the range: no
  -- source's trust decides.
  pub resolve-MergesPool :
      (env : Environment) (n : N) (a : Attempt N)
      → resolve platform cfg dep env n ≡ attempted a
      → a.failure ≡ none
      → MergesPool n a.resolution
  unfolding resolve
  resolve-MergesPool env n a h f = elim (Result-cases (gate env)) [
    | inl (_, e) ↦
        let same : attempt platform cfg dep n ≡ a = ground (arith, e, h) in
        let merging = attempt-MergesPool n (rw same f) in rw same at merging
    | inr (x, e) ↦ absurd (ground (arith, e, h))
  ]
