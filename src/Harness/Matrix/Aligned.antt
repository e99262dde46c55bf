-- ===== src/Harness/Matrix/Aligned.antt =====
-- The table can always be printed: no index of it is out of range and no padding is negative.
use indexjack.Prelude.{ℕ, ◌≤◌, List, [], ◌∷◌, Text}
use indexjack.Printing.{Unicode}

-- A row with no more cells than there are widths.
abbrev Shape : List Text → List ℕ → Type 0
Shape [] widths = Unit
Shape (cell ∷ cells) [] = ⊥
Shape (cell ∷ cells) (width ∷ widths) = Shape cells widths

-- As many widths, none of them smaller.
abbrev Wider : List ℕ → List ℕ → Type 0
Wider [] [] = Unit
Wider (a ∷ as_) (b ∷ bs) = (a ≤ b) × Wider as_ bs
Wider [] (b ∷ bs) = ⊥
Wider (a ∷ as_) [] = ⊥

module _ (u : Unicode) where
  -- Each cell has a width that it does not exceed.
  abbrev pub Fits : List Text → List ℕ → Type 0
  Fits [] widths = Unit
  Fits (cell ∷ cells) [] = ⊥
  Fits (cell ∷ cells) (width ∷ widths) = (u.rune_count cell ≤ width) × Fits cells widths
