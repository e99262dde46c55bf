-- ===== src/CombinedIndex/Precedence.antt =====
-- The order of offers, and the versions that they carry.
use indexjack.Prelude.{
  ℕ, true, false, List, [], ◌∷◌, Result-cases, ok, Text, text_lt_asym, text_lt_behind, Within, ◌≡◌,
  inl, inr, arith,
}
use indexjack.Semver
use indexjack.Semver.Order.{compare-flip, tie_lem}
use indexjack.Registry.{VersionInfo}
use indexjack.CombinedIndex.{Offer, compatible, tie, ahead}

tie-asym : (a b : Offer) → tie a b ≡ true → tie b a ≡ false
unfolding tie
tie-asym a b h = ground (arith, text_lt_asym a.candidate.source b.candidate.source)

tie-behind : (a b c : Offer) → tie c b ≡ false → tie b a ≡ false → tie c a ≡ false
unfolding tie
tie-behind a b c p q =
    ground (arith, text_lt_behind a.candidate.source b.candidate.source c.candidate.source)

pub ahead-asym : (a b : Offer) → ahead a b ≡ true → ahead b a ≡ false
unfolding ahead
ahead-asym a b h = ground (arith, compare-flip a.version b.version, tie-asym a b)

pub ahead-behind : (a b c : Offer) → ahead c b ≡ false → ahead b a ≡ false → ahead c a ≡ false
unfolding ahead
ahead-behind a b c p q =
    tie_lem a.version b.version c.version (tie b a) (tie c b) (tie c a) (tie-behind a b c) p q

pub ahead-not_less :
    (o p : Offer) → ahead p o ≡ false → Semver.not_less (Semver.compare o.version p.version) ≡ true
unfolding ahead
ahead-not_less o p h = ground (arith, compare-flip o.version p.version)

-- The version of an offer is the one that its candidate spells.
abbrev pub IsRead : Offer → Type 0
IsRead o = Semver.parse o.candidate.version ≡ ok o.version

pub compatible-IsRead :
    (range : Semver.Range) (source : Text) (rank : ℕ) (name : Text) (vs : List VersionInfo)
    (o : Offer)
    → Within o (compatible range source rank name vs)
    → IsRead o
unfolding compatible
compatible-IsRead range source rank name [] o w = elim w [ ]
compatible-IsRead range source rank name (v ∷ vs) o w =
    let later = compatible-IsRead range source rank name vs o in
    elim (Result-cases (Semver.parse v.version)) [
      | inl (p, e) ↦ ground (arith, e, later)
      | inr (x, e) ↦
          let u : Within o (compatible range source rank name vs) = rw (e, compatible) at w in
          later u
    ]
