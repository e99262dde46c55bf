-- ===== src/Printing.antt =====
-- internal/trace/trace.go and internal/harness/render.go: the printer that both packages have, and what
-- they use of fmt, strings and unicode/utf8.
pub mod Prefix
use indexjack.Prelude.{
  ℕ, zero, suc, ◌+◌, ◌-◌, ◌==◌, if◌then◌else◌, Bool, true, false, ◌&&◌, List, [], ◌∷◌, ◌++◌, Option,
  none, some, Text, codes, is_empty, ℤ, pos, negsuc,
}
use indexjack.Semver.Decimal.{decimal}

-- What strings and unicode/utf8 compute of a text, and `%q` of fmt.
pub record Unicode : Type 0 where
  pub to_upper : Text → Text
  pub to_lower : Text → Text
  pub trim_space : Text → Text
  pub rune_count : Text → ℕ
  pub quote : Text → Text

-- An `io.Writer` with its state: whether a write fails, and what it leaves.
pub record Writer (W : Type 0) : Type 0 where
  pub write : Text → W → Bool × W

-- The printer: the writer's state, and whether a write has failed.
pub record Printer (W : Type 0) : Type 0 where
  pub state : W
  pub failed : Bool

abbrev pub line_feed : ℕ
line_feed = 10

-- `strings.Repeat`
unfoldable pub repeat : ℕ → Text → Text
repeat zero s = []
repeat (suc n) s = s ++ repeat n s

-- `strings.Join`
unfoldable pub join : Text → List Text → Text
join sep [] = []
join sep (s ∷ []) = s
join sep (s ∷ t ∷ ts) = s ++ (sep ++ join sep (t ∷ ts))

-- `strings.TrimRight(s, " ")`
unfoldable pub trim_right : Text → Text
trim_right [] = []
trim_right (c ∷ s) =
    let rest = trim_right s in if (c == b' ') && is_empty rest then [] else c ∷ rest

-- `%-*s`
unfoldable pub pad_right : Unicode → ℕ → Text → Text
unfolding repeat
pad_right u width s = s ++ repeat (width - u.rune_count s) (codes " ")

-- `%d`
unfoldable pub int_text : ℤ → Text
int_text (pos n) = decimal n
int_text (negsuc n) = b'-' ∷ decimal (suc n)

-- `valueOr`
unfoldable pub value_or : Unicode → Text → Text → Text
value_or u value fallback = if is_empty (u.trim_space value) then fallback else value

module _ {W : Type 0} (w : Writer W) where
  -- The method `line`, of a text that is formatted already.
  unfoldable pub line : Text → Printer W → Printer W
  line s p =
      if p.failed
      then p
      else (let (failed, state) = w.write (s ++ line_feed ∷ []) p.state in
          record { state = state; failed = failed })

  -- The calls of `line` one after the other.
  unfoldable pub print_lines : List Text → Printer W → Printer W
  unfolding line
  print_lines [] p = p
  print_lines (s ∷ ss) p = print_lines ss (line s p)

  -- A rendering from a new printer.
  unfoldable pub print : List Text → W → Printer W
  unfolding print_lines
  print ss state = print_lines ss (record { state = state; failed = false })
