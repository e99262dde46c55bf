-- ===== src/Audit/Reading/Recovered.antt =====
-- What `Read` finds in the file of a sink.
use indexjack.Prelude.{
  ℕ, Bool, false, ◌==◌, List, [], ◌∷◌, ◌++◌, Option-cases, some, Result-cases, ok, inl, inr, Text,
  Bytes, is_empty, split_on, All, ◌≡◌, refl, ap, ◌∙◌, arith,
}
use indexjack.CanonicalJson.{unmarshal}
use indexjack.Audit.{Event, Platform, Sink, Faults, validate, stamped, mirrored, write, emit}
use indexjack.Audit.Reading.{Reader, line_feed, read_lines, read}

abbrev object : Text → Text
object s = b'{' ∷ s ++ b'}' ∷ []

-- What strings.TrimSpace does to nothing, to an object, and to lines of objects.
pub record IsTrimming (r : Reader) : Type 0 where
  pub blank : r.trim_space [] ≡ []
  pub kept : (s : Text) → r.trim_space (object s) ≡ object s
  pub ended : (s : Text) → r.trim_space (object s ++ line_feed ∷ []) ≡ object s

-- A line that is decoded as an event: an object without a line feed, and one behind it.
pub record IsLine (r : Reader) (e : Event) (body : Bytes) : Type 0 where
  pub inner : Text
  pub body_is : body ≡ object inner ++ line_feed ∷ []
  pub one_line : All (λ c. (c == line_feed) ≡ false) inner
  pub decoded : unmarshal r.decoder (object inner) ≡ ok e

-- The lines of some events, one after the other.
pub data Logged (r : Reader) : List Event → Bytes → Type 0 where
  nothing : Logged r [] []
  another :
      {e : Event} {es : List Event} {body log : Bytes}
      → IsLine r e body
      → Logged r es log
      → Logged r (e ∷ es) (body ++ log)

append_assoc : {A : Type 0} (xs ys zs : List A) → (xs ++ ys) ++ zs ≡ xs ++ (ys ++ zs)
append_assoc [] ys zs = refl
append_assoc (x ∷ xs) ys zs = ap (λ t. x ∷ t) (append_assoc xs ys zs)

append_nil : {A : Type 0} (xs : List A) → xs ++ [] ≡ xs
append_nil [] = refl
append_nil (x ∷ xs) = ap (λ t. x ∷ t) (append_nil xs)

Logged-append :
    (r : Reader) (es : List Event) (log : Bytes) (e : Event) (body : Bytes)
    → Logged r es log
    → IsLine r e body
    → Logged r (es ++ e ∷ []) (log ++ body)
Logged-append r [] _ e body nothing line =
    let h : body ++ [] ≡ body = append_nil body in rw (← h) (another line nothing)
Logged-append r (x ∷ es) _ e body (another {body = first} {log = log} is more) line =
    rw (append_assoc first log body) (another is (Logged-append r es log e body more line))

split_on-end : (d : ℕ) (s : Text) → All (λ c. (c == d) ≡ false) s → split_on d s ≡ s ∷ []
unfolding split_on
split_on-end d [] w = refl
split_on-end d (c ∷ s) (h, w) = rw (h, split_on-end d s w, split_on) refl

split_on-front :
    (d : ℕ) (s t : Text)
    → All (λ c. (c == d) ≡ false) s
    → (d == d) ≡ Bool.true
    → split_on d (s ++ d ∷ t) ≡ s ∷ split_on d t
unfolding split_on
split_on-front d [] t w same = rw (same, split_on) refl
split_on-front d (c ∷ s) t (h, w) same = rw (h, split_on-front d s t w same, split_on) refl

object-All :
    (s : Text)
    → All (λ c. (c == line_feed) ≡ false) s
    → All (λ c. (c == line_feed) ≡ false) (s ++ b'}' ∷ [])
object-All [] w = (refl, tt)
object-All (c ∷ s) (h, w) = (h, object-All s w)

-- A line on its own, before the lines of others.
read_lines-one :
    (r : Reader) (e : Event) (es : List Event) (s : Text) (lines : List Text)
    → IsTrimming r
    → unmarshal r.decoder (object s) ≡ ok e
    → read_lines r lines ≡ ok es
    → read_lines r (object s ∷ lines) ≡ ok (e ∷ es)
unfolding read_lines is_empty
read_lines-one r e es s lines trims decoded h = rw (trims.kept s, decoded, h, read_lines) refl

-- Objects on lines of their own are one object to `TrimSpace`.
lines_lem :
    (a b : Text)
    → ((a ++ b'}' ∷ []) ++ line_feed ∷ []) ++ (object b ++ line_feed ∷ [])
      ≡ ((a ++ b'}' ∷ line_feed ∷ b'{' ∷ b) ++ b'}' ∷ []) ++ line_feed ∷ []
lines_lem [] b = refl
lines_lem (c ∷ a) b = ap (λ t. c ∷ t) (lines_lem a b)

joined_lem :
    (a b : Text)
    → (a ++ b'}' ∷ line_feed ∷ b'{' ∷ b) ++ b'}' ∷ [] ≡ (a ++ b'}' ∷ []) ++ line_feed ∷ object b
joined_lem [] b = refl
joined_lem (c ∷ a) b = ap (λ t. c ∷ t) (joined_lem a b)

split_on-object :
    (a b : Text)
    → All (λ c. (c == line_feed) ≡ false) a
    → split_on line_feed (object (a ++ b'}' ∷ line_feed ∷ b'{' ∷ b))
      ≡ object a ∷ split_on line_feed (object b)
split_on-object a b w =
    ap (λ t. split_on line_feed (b'{' ∷ t)) (joined_lem a b)
    ∙ split_on-front line_feed (object a) (object b) (refl, object-All a w) refl

Logged-reads :
    (r : Reader) (e : Event) (es : List Event) (log : Bytes)
    → IsTrimming r
    → Logged r (e ∷ es) log
    → (s : Text) × (log ≡ object s ++ line_feed ∷ [])
      × (read_lines r (split_on line_feed (object s)) ≡ ok (e ∷ es))
unfolding read_lines
Logged-reads r e [] _ trims (another {body = body} is nothing) = (
  is.inner,
  append_nil body ∙ is.body_is,
  rw (split_on-end line_feed (object is.inner) (refl, object-All is.inner is.one_line))
      (read_lines-one r e [] is.inner [] trims is.decoded refl),
)
Logged-reads r e (f ∷ fs) _ trims (another {body = body} {log = log} is more) =
    let (s, same, reads) = Logged-reads r f fs log trims more in
    (
      is.inner ++ b'}' ∷ line_feed ∷ b'{' ∷ s,
      rw (is.body_is, same) (ap (λ t. b'{' ∷ t) (lines_lem is.inner s)),
      rw (split_on-object is.inner s is.one_line) (
          read_lines-one r e (f ∷ fs) is.inner (split_on line_feed (object s)) trims is.decoded
            reads),
    )

read_lines-blank : (r : Reader) → IsTrimming r → read_lines r (split_on line_feed []) ≡ ok []
unfolding read_lines split_on is_empty
read_lines-blank r trims = rw (trims.blank, read_lines) refl

-- The file of a sink is read as what it holds.
Logged-read :
    (r : Reader) (es : List Event) (log : Bytes)
    → IsTrimming r
    → Logged r es log
    → read r (some log) ≡ ok es
unfolding read
Logged-read r [] _ trims nothing = rw trims.blank (read_lines-blank r trims)
Logged-read r (e ∷ es) log trims w =
    let (s, same, reads) = Logged-reads r e es log trims w in rw same (rw (trims.ended s) reads)

-- A call of `Emit` that succeeds has appended the encoded event.
write-appends :
    (faults : Faults) (line : Bytes) (e : Event) (s : Sink)
    → (write faults line e s).0 ≡ ok tt
    → ((write faults line e s).1.emitted ≡ s.emitted ++ e ∷ [])
      × ((write faults line e s).1.files.log ≡ s.files.log ++ line)
unfolding write mirrored
write-appends faults line e s h = (ground (arith, h), ground (arith, h))

-- Where the audit file holds the lines of the events that its sink has emitted, the encoding of the
-- new event is an object on a line of its own that is decoded as that event, and TrimSpace removes
-- the last line feed behind an object and nothing else, a call of Emit that succeeds leaves a file
-- that Read parses as exactly the emitted events, the new one included.
pub emit-read :
    (platform : Platform) (faults : Faults) (r : Reader) (e : Event) (s : Sink)
    → IsTrimming r
    → Logged r s.emitted s.files.log
    → ((body : Bytes)
        → platform.encode (stamped platform.sha256 s.scenario e) ≡ some body
        → IsLine r (stamped platform.sha256 s.scenario e) body)
    → (emit platform faults e s).0 ≡ ok tt
    → read r (some (emit platform faults e s).1.files.log) ≡ ok (emit platform faults e s).1.emitted
unfolding emit
emit-read platform faults r e s trims logged lined h =
    let e2 = stamped platform.sha256 s.scenario e in
    elim (Result-cases (validate platform.lower e2)) [
      | inr (x, p) ↦ absurd (ground (arith, p, h))
      | inl (_, p) ↦ elim (Option-cases (platform.encode e2)) [
        | inl q ↦ absurd (ground (arith, p, q, h))
        | inr (line, q) ↦
            let (emitted, log) = write-appends faults line e2 s (rw (p, q, emit) at h) in
            rw (p, q, emit)
              (rw (emitted, log)
                (Logged-read r (s.emitted ++ e2 ∷ []) (s.files.log ++ line) trims
                  (Logged-append r s.emitted s.files.log e2 line logged (lined line q))))
      ]
    ]
