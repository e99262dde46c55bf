-- ===== src/CombinedIndex/Highest.antt =====
-- What the combined index selects: the highest version that any pooled source offers.
use indexjack.Prelude.{
  ℕ, ◌+◌, true, false, List, [], ◌∷◌, ◌++◌, map, none, Result, Result-cases, ok, err, Bytes, sort,
  sort-Within, IsSorted, sort-IsSorted, All, All-Within, Within, append-Within, map-Within, ◌≡◌,
  ◌↔◌, >>=-eq-ok, inl, inr, refl, arith,
}
use indexjack.Semver
use indexjack.Semver.Order.{compare_self}
use indexjack.SourcePolicy
use indexjack.SourcePolicy.{Source, Decision}
use indexjack.BuildManifest.{Dependency}
use indexjack.Registry.{FetchError, Metadata}
use indexjack.Vulnerable.{Environment, Refusal, gate}
use indexjack.Resolver.{Candidate, Resolution, unverified, parsed, Platform, Attempt}
use indexjack.CombinedIndex.{
  Config, attempted, refused, Offer, compatible, ahead, candidate_in, parse_stage, hear, ask, poll,
  Pooled, fetch_stage, source_by_id, select_stage, merged, range_stage, policy_stage, attempt,
  resolve,
}
use indexjack.CombinedIndex.Precedence.{
  ahead-asym, ahead-behind, ahead-not_less, IsRead, compatible-IsRead,
}

-- The selected candidate is one of the offered ones, and none of them is newer.
pub record IsHighest (res : Resolution) : Type 0 where
  pub offered : Within res.selected res.candidates
  pub foremost :
      (c : Candidate)
      → Within c res.candidates
      → Semver.not_less (Semver.compare (parsed res.selected.version) (parsed c.version)) ≡ true

parsed-IsRead : (o : Offer) → IsRead o → parsed o.candidate.version ≡ o.version
unfolding parsed
parsed-IsRead o e = rw (e, parsed) refl

-- The head of a sorted list of offers, against all of them.
head-foremost :
    (o : Offer) (offers : List Offer)
    → ((p : Offer) → Within p (o ∷ offers) → IsRead p)
    → All (λ p. ahead p o ≡ false) offers
    → (c : Candidate) → Within c (map candidate_in (o ∷ offers))
    → Semver.not_less (Semver.compare (parsed o.candidate.version) (parsed c.version)) ≡ true
head-foremost o offers read sorted c w =
    let (p, v, e) = map-Within candidate_in (o ∷ offers) c w in
    rw (e, parsed-IsRead o (read o (inl refl)), parsed-IsRead p (read p v))
      (elim v [
        | inl same ↦ rw (same, compare_self o.version) refl
        | inr there ↦ ahead-not_less o p (All-Within (λ q. ahead q o ≡ false) offers p sorted there)
      ])

-- What the record keeps once the bytes are there.
abbrev pub Recorded : {N : Type 0} → Resolution → Attempt N → Type 0
Recorded res a =
    (a.resolution.integrity ≡ unverified)
    × (a.resolution.candidates ≡ res.candidates)
    × (a.resolution.selected ≡ res.selected)

Recorded-IsHighest :
    {N : Type 0} (res : Resolution) (a : Attempt N)
    → Recorded res a
    → IsHighest res
    → (a.resolution.integrity ≡ unverified) × IsHighest a.resolution
Recorded-IsHighest res a (known, candidates, selected) highest = (
  known,
  record {
    offered = rw (candidates, selected) highest.offered;
    foremost = λ c w. rw selected (highest.foremost c (rw candidates at w));
  },
)

module _ {N : Type 0} (platform : Platform) where
  parse_stage-record :
      (res : Resolution) (answer : Result FetchError Bytes × N)
      → (parse_stage platform res answer).failure ≡ none
      → Recorded res (parse_stage platform res answer)
  unfolding parse_stage
  parse_stage-record res (err e, n) h = absurd (ground (arith, h))
  parse_stage-record res (ok raw, n) h = ground (arith, h)

  module _ (cfg : Config N) (dep : Dependency) where
    pub fetch_stage-record :
        (pool : List Source) (c : Candidate) (res : Resolution) (n : N)
        → (fetch_stage platform cfg dep pool c res n).failure ≡ none
        → Recorded res (fetch_stage platform cfg dep pool c res n)
    unfolding fetch_stage
    fetch_stage-record pool c res n h =
        elim (Result-cases (cfg.dial (source_by_id pool c.source))) [
          | inl (client, e) ↦
              let answer = client.artifact dep.name c.version n in
              let same : fetch_stage platform cfg dep pool c res n
                  ≡ parse_stage platform res answer =
                rw (e, fetch_stage) refl in
              rw same (parse_stage-record res answer (rw same at h))
          | inr (x, e) ↦ absurd (ground (arith, e, h))
        ]

    select_stage-IsHighest :
        (pool : List Source) (offers : List Offer) (res : Resolution) (n : N)
        → ((p : Offer) → Within p offers → IsRead p)
        → IsSorted ahead offers
        → (select_stage platform cfg dep pool offers res n).failure ≡ none
        → ((select_stage platform cfg dep pool offers res n).resolution.integrity ≡ unverified)
          × IsHighest (select_stage platform cfg dep pool offers res n).resolution
    unfolding select_stage
    select_stage-IsHighest pool [] res n read sorted h = absurd (cc)
    select_stage-IsHighest pool (o ∷ offers) res n read sorted h =
        let chosen = record res {
          candidates = map candidate_in (o ∷ offers);
          selected = o.candidate;
        } in
        Recorded-IsHighest chosen (fetch_stage platform cfg dep pool o.candidate chosen n)
          (fetch_stage-record pool o.candidate chosen n h)
          (record { offered = inl refl; foremost = head-foremost o offers read sorted.0 })

    hear-IsRead :
        (range : Semver.Range) (rank : ℕ) (s : Source) (offers : List Offer) (res : Resolution)
        (answer : Result FetchError Metadata × N) (p : Pooled N)
        → ((o : Offer) → Within o offers → IsRead o)
        → hear platform cfg dep range rank s offers res answer ≡ ok p
        → (o : Offer) → Within o p.offers
        → IsRead o
    unfolding hear
    hear-IsRead range rank s offers res (ok meta, n) p read h o w =
        let more = compatible range s.id rank meta.name meta.versions in
        let same : p.offers ≡ offers ++ more = cc in
        elim (append-Within offers more o (rw same at w)) [
          | inl v ↦ read o v
          | inr v ↦ compatible-IsRead range s.id rank meta.name meta.versions o v
        ]
    hear-IsRead range rank s offers res (err e, n) p read h o w =
        let same : p.offers ≡ offers = ground (arith, h) in read o (rw same at w)

    ask-IsRead :
        (range : Semver.Range) (rank : ℕ) (s : Source) (offers : List Offer) (res : Resolution)
        (n : N) (p : Pooled N)
        → ((o : Offer) → Within o offers → IsRead o)
        → ask platform cfg dep range rank s offers res n ≡ ok p
        → (o : Offer) → Within o p.offers
        → IsRead o
    unfolding ask
    ask-IsRead range rank s offers res n p read h = elim (Result-cases (cfg.dial s)) [
      | inr (x, e) ↦ absurd (ground (arith, e, h))
      | inl (client, e) ↦ hear-IsRead range rank s offers _ _ p read (rw (e, ask) at h)
    ]

    -- Asking adds readable offers only.
    poll-IsRead :
        (range : Semver.Range) (rank : ℕ) (pool : List Source) (offers : List Offer)
        (res : Resolution) (n : N) (p : Pooled N)
        → ((o : Offer) → Within o offers → IsRead o)
        → poll platform cfg dep range rank pool offers res n ≡ ok p
        → (o : Offer) → Within o p.offers
        → IsRead o
    unfolding poll
    poll-IsRead range rank [] offers res n p read h o w =
        let same : p.offers ≡ offers = cc in read o (rw same at w)
    poll-IsRead range rank (s ∷ pool) offers res n p read h o w =
        let (q, asked, h2) = >>=-eq-ok (ask platform cfg dep range rank s offers res n) _ h in
        poll-IsRead range (1 + rank) pool q.offers q.resolution q.network p
          (ask-IsRead range rank s offers res n q read asked) h2 o w

    ask-stops :
        (range : Semver.Range) (rank : ℕ) (s : Source) (offers : List Offer) (res : Resolution)
        (n : N) (a : Attempt N)
        → ask platform cfg dep range rank s offers res n ≡ err a
        → ¬ (a.failure ≡ none)
    unfolding ask hear
    ask-stops range rank s offers res n a h f = ground (arith, h, f)

    pub poll-stops :
        (range : Semver.Range) (rank : ℕ) (pool : List Source) (offers : List Offer)
        (res : Resolution) (n : N) (a : Attempt N)
        → poll platform cfg dep range rank pool offers res n ≡ err a
        → ¬ (a.failure ≡ none)
    unfolding poll
    poll-stops range rank [] offers res n a h = absurd cc
    poll-stops range rank (s ∷ pool) offers res n a h =
        elim (Result-cases (ask platform cfg dep range rank s offers res n)) [
          | inl (p, e) ↦
              poll-stops range (1 + rank) pool p.offers p.resolution p.network a (rw (e, poll) at h)
          | inr (b, e) ↦ ask-stops range rank s offers res n a (ground (arith, e, h))
        ]

    merged-IsHighest :
        (range : Semver.Range) (pool : List Source) (res : Resolution) (n : N)
        (r : Result (Attempt N) (Pooled N))
        → poll platform cfg dep range 0 pool [] res n ≡ r
        → (merged platform cfg dep pool r).failure ≡ none
        → ((merged platform cfg dep pool r).resolution.integrity ≡ unverified)
          × IsHighest (merged platform cfg dep pool r).resolution
    unfolding merged
    merged-IsHighest range pool res n (err a) e h = absurd (poll-stops range 0 pool [] res n a e h)
    merged-IsHighest range pool res n (ok p) e h =
        let read = poll-IsRead range 0 pool [] res n p (λ o w. elim w [ ]) e in
        select_stage-IsHighest pool (sort ahead p.offers) p.resolution p.network
          (λ o w. read o ((sort-Within ahead p.offers o).0 w))
          (sort-IsSorted ahead ahead-asym ahead-behind p.offers) h

    range_stage-IsHighest :
        (d : Decision) (res : Resolution) (n : N)
        → (range_stage platform cfg dep d res n).failure ≡ none
        → ((range_stage platform cfg dep d res n).resolution.integrity ≡ unverified)
          × IsHighest (range_stage platform cfg dep d res n).resolution
    unfolding range_stage
    range_stage-IsHighest d res n h = elim (Result-cases (Semver.parse_range dep.range)) [
      | inl (range, e) ↦
          rw (e, range_stage)
            (merged-IsHighest range d.pool res n (poll platform cfg dep range 0 d.pool [] res n)
              refl (rw (e, range_stage) at h))
      | inr (x, e) ↦ absurd (ground (arith, e, h))
    ]

    policy_stage-IsHighest :
        (res : Resolution) (n : N)
        → (policy_stage platform cfg dep res n).failure ≡ none
        → ((policy_stage platform cfg dep res n).resolution.integrity ≡ unverified)
          × IsHighest (policy_stage platform cfg dep res n).resolution
    unfolding policy_stage
    policy_stage-IsHighest res n h =
        elim (Result-cases (SourcePolicy.resolve cfg.policy dep.name)) [
          | inl (d, e) ↦
              rw (e, policy_stage) (range_stage-IsHighest d _ n (rw (e, policy_stage) at h))
          | inr (x, e) ↦ absurd (ground (arith, e, h))
        ]

    attempt-IsHighest :
        (n : N)
        → (attempt platform cfg dep n).failure ≡ none
        → ((attempt platform cfg dep n).resolution.integrity ≡ unverified)
          × IsHighest (attempt platform cfg dep n).resolution
    unfolding attempt
    attempt-IsHighest n h = elim (Result-cases (SourcePolicy.validate cfg.policy)) [
      | inl (_, e) ↦ rw (e, attempt) (policy_stage-IsHighest _ n (rw (e, attempt) at h))
      | inr (x, e) ↦ absurd (ground (arith, e, h))
    ]

    -- Where the combined-index resolver succeeds, the gate was open, the integrity verdict is
    -- `unverified`, and the selected candidate is one of the merged candidates, none of which has a
    -- newer version, whatever source it came from.
    pub resolve-IsHighest :
        (env : Environment) (n : N) (a : Attempt N)
        → resolve platform cfg dep env n ≡ attempted a
        → a.failure ≡ none
        → (gate env ≡ ok tt) × (a.resolution.integrity ≡ unverified) × IsHighest a.resolution
    unfolding resolve
    resolve-IsHighest env n a h f = elim (Result-cases (gate env)) [
      | inl (_, e) ↦
          let same : attempt platform cfg dep n ≡ a = ground (arith, e, h) in
          let (u, highest) = attempt-IsHighest n (rw same f) in
          (e, rw same at u, rw same at highest)
      | inr (x, e) ↦ absurd (ground (arith, e, h))
    ]

    -- The combined-index resolver answers a refusal, with the network untouched, exactly where the
    -- gate refuses.
    pub resolve-Refused :
        (env : Environment) (n : N) (r : Refusal)
        → (gate env ≡ err r) ↔ (resolve platform cfg dep env n ≡ refused r n)
    unfolding resolve
    resolve-Refused env n r = ground arith
