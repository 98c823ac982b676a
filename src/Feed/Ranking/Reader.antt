-- ===== src/Feed/Ranking/Reader.antt =====
-- The pieces of a ranking expression that are read character by character: `whitespace`, `number`,
-- `string` and the names of crates/api/src/feed/ranking.rs. A cursor is the rest of the source and
-- its position in bytes.
pub mod Lengths
use neddit.Prelude.{
  ℕ, zero, suc, ◌+◌, ◌-◌, ◌≤◌, ◌<◌, ◌≡◌, refl, Bool, true, false, not, ◌&&◌, ◌||◌, ◌==◌,
  if◌then◌else◌, List, [], ◌∷◌, ◌++◌, length, Option, none, some, arith, Str, len_utf8,
  is_ascii_digit, is_ascii_alphanumeric,
}
use neddit.Search.Syntax.{Diagnostic, diagnostic, Result, ok, err, ◌>>=◌, invalid_rank, Span}
use neddit.Feed.Ranking.{Floats}

abbrev pub Rest : Type 0 → Type 0
Rest A = A × Str × ℕ

-- `u8::is_ascii_whitespace`
abbrev pub is_ascii_whitespace : ℕ → Bool
is_ascii_whitespace c = c == 32 || c == 9 || c == 10 || c == 12 || c == 13

-- `Parser::whitespace`
unfoldable pub skip : Str → ℕ → Str × ℕ
skip [] i = ([], i)
skip (c ∷ s) i = let rest = skip s (i + 1) in if is_ascii_whitespace c then rest else (c ∷ s, i)

-- `next_end`
abbrev pub next_end : Str → ℕ → ℕ
next_end [] i = i
next_end (c ∷ s) i = i + len_utf8 c

abbrev more : ℕ → Rest Str → Rest Str
more c (taken, s, i) = (c ∷ taken, s, i)

-- The loops `while self.peek().is_some_and(p)` over ASCII characters.
unfoldable pub span_while : (ℕ → Bool) → Str → ℕ → Rest Str
span_while p [] i = ([], [], i)
span_while p (c ∷ s) i =
    let rest = more c (span_while p s (i + 1)) in if p c then rest else ([], c ∷ s, i)

abbrev is_name_byte : ℕ → Bool
is_name_byte c = is_ascii_alphanumeric c || c == b'_'

-- The first loop of `identifier`.
unfoldable pub name : Str → ℕ → Rest Str
unfolding span_while
name = span_while is_name_byte

-- `.` and the digits behind it.
fraction : Str → ℕ → Rest Str
unfolding span_while
fraction [] i = ([], [], i)
fraction (c ∷ s) i =
    let digits = more b'.' (span_while is_ascii_digit s (i + 1)) in
    if c == b'.' then digits else ([], c ∷ s, i)

-- A sign of an exponent.
sign : Str → ℕ → Rest Str
sign [] i = ([], [], i)
sign (c ∷ s) i = if c == b'+' || c == b'-' then (c ∷ [], s, i + 1) else ([], c ∷ s, i)

-- The digits of an exponent, of which there is at least one.
exponent_digits : ℕ → ℕ → Str → Rest Str → Result (Rest Str)
exponent_digits start c sign ([], s, i) = err (diagnostic invalid_rank (start, i))
exponent_digits start c sign (d ∷ digits, s, i) = ok (c ∷ (sign ++ (d ∷ digits)), s, i)

exponent_sign : ℕ → ℕ → Rest Str → Result (Rest Str)
unfolding span_while exponent_digits
exponent_sign start c (sign, s, i) = exponent_digits start c sign (span_while is_ascii_digit s i)

exponent : ℕ → Str → ℕ → Result (Rest Str)
unfolding sign exponent_sign
exponent start [] i = ok ([], [], i)
exponent start (c ∷ s) i =
    if c == b'e' || c == b'E' then exponent_sign start c (sign s (i + 1)) else ok ([], c ∷ s, i)

module _ {F : Type 0} (f : Floats F) where
  abbrev finite : Span → Option F → Result F
  finite span none = err (diagnostic invalid_rank span)
  finite span (some x) = if f.is_finite x then ok x else err (diagnostic invalid_rank span)

  -- `Parser::number` from the exponent on.
  scaled : ℕ → Str → Str → ℕ → Result (Rest F)
  unfolding exponent
  scaled start text s i = do
    (tail, s', i') ← exponent start s i
    x ← finite (start, i') (f.parse (text ++ tail))
    ok (x, s', i')

  -- `Parser::number`. A fraction of one character is the point alone.
  unfoldable pub number : Str → ℕ → Result (Rest F)
  unfolding span_while fraction scaled
  number s i =
      let (whole, s', i') = span_while is_ascii_digit s i in
      let (part, s'', i'') = fraction s' i' in
      if length whole + (length part - 1) == 0
      then err (diagnostic invalid_rank (i, i''))
      else scaled i (whole ++ part) s'' i''

-- The loop of `Parser::string`, behind the opening quote.
unfoldable pub quoted : ℕ → ℕ → Str → ℕ → Str → Result (Rest Str)
quoted total start [] i value = err (diagnostic invalid_rank (start, total))
quoted total start (c ∷ []) i value =
    if c == b'"'
    then ok (value, [], i + 1)
    else if c == 92
    then err (diagnostic invalid_rank (i, i + 1))
    else err (diagnostic invalid_rank (start, total))
quoted total start (c ∷ d ∷ s) i value =
    let escaped = quoted total start s (i + 2) (value ++ (d ∷ [])) in
    let plain = quoted total start (d ∷ s) (i + len_utf8 c) (value ++ (c ∷ [])) in
    if c == b'"'
    then ok (value, d ∷ s, i + 1)
    else if c == 92
    then (if d == b'"' || d == 92
        then escaped
        else err (diagnostic invalid_rank (i, i + 1 + len_utf8 d)))
    else plain

-- `Parser::string`
unfoldable pub string : ℕ → Str → ℕ → Result (Rest Str)
unfolding quoted
string total [] i = err (diagnostic invalid_rank (i, i))
string total (c ∷ s) i =
    if c == b'"'
    then quoted total i s (i + 1) []
    else err (diagnostic invalid_rank (i, i + len_utf8 c))
