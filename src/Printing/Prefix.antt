-- ===== src/Printing/Prefix.antt =====
-- What a printer has written.
use indexjack.Prelude.{Bool, true, false, List, [], ◌∷◌, ◌++◌, Text, ◌≡◌, refl, arith}
use indexjack.Printing.{Writer, Printer, line_feed, line, print_lines, print}

module _ {W : Type 0} (w : Writer W) where
  -- The lines reach the writer one by one, up to the first that fails.
  pub data Written : List Text → W → Bool → W → Type 0 where
    complete : (a : W) → Written [] a false a
    stopped :
        {s : Text} {ss : List Text} {a b : W}
        → w.write (s ++ line_feed ∷ []) a ≡ (true, b)
        → Written (s ∷ ss) a true b
    next :
        {s : Text} {ss : List Text} {a b c : W} {failed : Bool}
        → w.write (s ++ line_feed ∷ []) a ≡ (false, b)
        → Written ss b failed c
        → Written (s ∷ ss) a failed c

  stays : (ss : List Text) (p : Printer W) → p.failed ≡ true → print_lines w ss p ≡ p
  unfolding print_lines line
  stays [] p h = refl
  stays (s ∷ ss) p h = let same : line w s p ≡ p = rw (h, line) refl in rw same (stays ss p h)

  never :
      (ss : List Text) (a : W) (failed : Bool) (b : W)
      → ((t : Text) (b : W) → (w.write t b).0 ≡ false)
      → Written ss a failed b
      → failed ≡ false
  never [] a failed b works (complete _) = refl
  never (s ∷ ss) a failed b works (stopped e) =
      absurd (ground (arith, e, works (s ++ line_feed ∷ []) a))
  never (s ∷ ss) a failed b works (next e more) = never ss _ failed b works more

  abbrev WrittenBy : List Text → W → Printer W → Type 0
  WrittenBy ss a p = Written ss a p.failed p.state

  after_write :
      (s : Text) (ss : List Text) (a : W) (answer : Bool × W)
      → w.write (s ++ line_feed ∷ []) a ≡ answer
      → ((b : W) → WrittenBy ss b (print_lines w ss (record { state = b; failed = false })))
      → WrittenBy (s ∷ ss) a (print_lines w ss (record { state = answer.1; failed = answer.0 }))
  after_write s ss a (true, b) e rest =
      rw (stays ss (record { state = b; failed = true }) refl) (stopped e)
  after_write s ss a (false, b) e rest = next e (rest b)

  print_lines-Written :
      (ss : List Text) (a : W)
      → WrittenBy ss a (print_lines w ss (record { state = a; failed = false }))
  unfolding print_lines line
  print_lines-Written [] a = complete a
  print_lines-Written (s ∷ ss) a =
      after_write s ss a (w.write (s ++ line_feed ∷ []) a) refl (print_lines-Written ss)

  -- A printer hands its lines to the writer one by one, each with a line feed, up to the first
  -- write that fails and none after it; it has failed exactly where that write has.
  pub print-Written :
      (ss : List Text) (a : W) → Written ss a (print w ss a).failed (print w ss a).state
  unfolding print
  print-Written ss a = print_lines-Written ss a

  -- Over a writer that never fails, neither does the printer.
  print-succeeds :
      (ss : List Text) (a : W)
      → ((t : Text) (b : W) → (w.write t b).0 ≡ false)
      → (print w ss a).failed ≡ false
  print-succeeds ss a works = never ss a _ _ works (print-Written ss a)
