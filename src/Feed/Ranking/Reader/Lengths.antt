-- ===== src/Feed/Ranking/Reader/Lengths.antt =====
-- What is left of a source when a piece of it is read, in crates/api/src/feed/ranking.rs.
use neddit.Prelude.{
  ℕ, suc, ◌+◌, ◌-◌, ◌≤◌, Bool, ◌||◌, ◌==◌, [], ◌∷◌, ◌++◌, length, Option, none, some, arith, Str,
  len_utf8, is_ascii_digit,
}
use neddit.Search.Syntax.{Ensures, Ensures-bind, Ensures-if, Ensures-weaken, Span}
use neddit.Feed.Ranking.{Floats}
use neddit.Feed.Ranking.Reader.{
  Rest, skip, span_while, name, is_name_byte, fraction, sign, exponent_digits, exponent_sign,
  exponent, finite, scaled, number, quoted, string,
}

pub length-skip : (s : Str) (i : ℕ) → length (skip s i).0 ≤ length s
unfolding skip
length-skip [] i = omega arith
length-skip (c ∷ s) i = ground (arith, length-skip s (i + 1))

length-span_while : (p : ℕ → Bool) (s : Str) (i : ℕ) → length (span_while p s i).1 ≤ length s
unfolding span_while
length-span_while p [] i = omega arith
length-span_while p (c ∷ s) i = ground (arith, length-span_while p s (i + 1))

pub length-name : (s : Str) (i : ℕ) → length (name s i).1 ≤ length s
unfolding name
length-name s i = length-span_while is_name_byte s i

length-fraction : (s : Str) (i : ℕ) → length (fraction s i).1 ≤ length s
unfolding fraction
length-fraction [] i = omega arith
length-fraction (c ∷ s) i = ground (arith, length-span_while is_ascii_digit s (i + 1))

length-sign : (s : Str) (i : ℕ) → length (sign s i).1 ≤ length s
unfolding sign
length-sign [] i = omega arith
length-sign (c ∷ s) i = ground arith

abbrev pub Leaves : {A : Type 0} → ℕ → Rest A → Type 0
Leaves n r = length r.1 ≤ n

exponent_sign-Leaves :
    (start c n : ℕ) (r : Rest Str) → length r.1 ≤ n → Ensures (Leaves n) (exponent_sign start c r)
unfolding exponent_sign exponent_digits
exponent_sign-Leaves start c n (t, s, i) h =
    digits (span_while is_ascii_digit s i) (omega (arith, length-span_while is_ascii_digit s i))
  where
    digits : (r : Rest Str) → length r.1 ≤ n → Ensures (Leaves n) (exponent_digits start c t r)
    digits ([], s', i') h = λ x. cc
    digits (d ∷ ds, s', i') h = h

exponent-Leaves : (start : ℕ) (s : Str) (i : ℕ) → Ensures (Leaves (length s)) (exponent start s i)
unfolding exponent
exponent-Leaves start [] i = omega arith
exponent-Leaves start (c ∷ s) i =
    Ensures-if (Leaves (suc (length s))) (c == b'e' || c == b'E') _ _
      (λ e.
        exponent_sign-Leaves start c (suc (length s)) (sign s (i + 1))
          (omega (arith, length-sign s (i + 1))))
      (λ e. omega arith)

module _ {F : Type 0} (f : Floats F) where
  finite_own : (sp : Span) (o : Option F) → Ensures (λ x. Unit) (finite f sp o)
  finite_own sp none = λ x. cc
  finite_own sp (some v) = Ensures-if (λ x. Unit) (f.is_finite v) _ _ (λ e. tt) (λ e x. cc)

  scaled-Leaves :
      (start : ℕ) (text s : Str) (i n : ℕ)
      → length s ≤ n
      → Ensures (Leaves n) (scaled f start text s i)
  unfolding scaled
  scaled-Leaves start text s i n h =
      Ensures-bind (Leaves (length s)) (Leaves n) (exponent start s i) _ (exponent-Leaves start s i)
        (λ (tail, s', i') k.
          Ensures-bind (λ x. Unit) (Leaves n) (finite f (start, i') (f.parse (text ++ tail))) _
            (finite_own (start, i') (f.parse (text ++ tail))) (λ x u. omega arith))

  pub number-Leaves : (s : Str) (i : ℕ) → Ensures (Leaves (length s)) (number f s i)
  unfolding number
  number-Leaves s i =
      let (whole, s', i') = span_while is_ascii_digit s i in
      let (part, s'', i'') = fraction s' i' in
      Ensures-if (Leaves (length s)) (length whole + (length part - 1) == 0) _ _ (λ e x. cc)
        (λ e.
          scaled-Leaves i (whole ++ part) s'' i'' (length s)
            (omega (arith, length-span_while is_ascii_digit s i, length-fraction s' i')))

quoted-Leaves :
    (total start : ℕ) (s : Str) (i : ℕ) (value : Str)
    → Ensures (Leaves (length s)) (quoted total start s i value)
unfolding quoted
quoted-Leaves total start [] i value = λ x. cc
quoted-Leaves total start (c ∷ []) i value =
    Ensures-if (Leaves 1) (c == b'"') _ _ (λ e. omega arith)
      (λ e. Ensures-if (Leaves 1) (c == 92) _ _ (λ e' x. cc) (λ e' x. cc))
quoted-Leaves total start (c ∷ d ∷ s) i value =
    let n = suc (suc (length s)) in
    Ensures-if (Leaves n) (c == b'"') _ _ (λ e. omega arith)
      (λ e.
        Ensures-if (Leaves n) (c == 92) _ _
          (λ e'.
            Ensures-if (Leaves n) (d == b'"' || d == 92) _ _
              (λ e''.
                Ensures-weaken (Leaves (length s)) (Leaves n)
                  (quoted total start s (i + 2) (value ++ (d ∷ []))) (λ r h. omega arith)
                  (quoted-Leaves total start s (i + 2) (value ++ (d ∷ []))))
              (λ e'' x. cc))
          (λ e'.
            Ensures-weaken (Leaves (suc (length s))) (Leaves n)
              (quoted total start (d ∷ s) (i + len_utf8 c) (value ++ (c ∷ []))) (λ r h. omega arith)
              (quoted-Leaves total start (d ∷ s) (i + len_utf8 c) (value ++ (c ∷ [])))))

pub string-Leaves : (total : ℕ) (s : Str) (i : ℕ) → Ensures (Leaves (length s)) (string total s i)
unfolding string
string-Leaves total [] i = λ x. cc
string-Leaves total (c ∷ s) i =
    Ensures-if (Leaves (suc (length s))) (c == b'"') _ _
      (λ e.
        Ensures-weaken (Leaves (length s)) (Leaves (suc (length s))) (quoted total i s (i + 1) [])
          (λ r h. omega arith) (quoted-Leaves total i s (i + 1) []))
      (λ e x. cc)
