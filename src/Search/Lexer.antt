-- ===== src/Search/Lexer.antt =====
-- `lex` of crates/api/src/search/mod.rs. The rest of the source is a list of characters, and `i`
-- is its byte position. A loop over the rest takes fuel, one unit for each character and one more.
pub mod Spans
use neddit.Prelude.{
  ℕ, zero, suc, ◌+◌, Bool, true, false, ◌&&◌, ◌||◌, ◌==◌, ltb, if◌then◌else◌, List, [], ◌∷◌, ◌++◌,
  Str, codes, str_eq, len, len_utf8, is_whitespace, starts_with, contains, length,
}
use neddit.Search.Syntax.{
  Span, diagnostic, Result, ok, err, ◌>>=◌, TokenKind, Token, invalid_escape, unterminated_quote,
  unexpected_token, query_too_complex, out_of_fuel,
}

-- What a piece of the loop hands on: a value, the rest of the source, and its position.
abbrev pub Rest {ℓ} : Type ℓ → Type ℓ
Rest A = A × Str × ℕ

-- The loop over a quoted value that opened at `start`, after its opening quote.
quoted : ℕ → Str → ℕ → Str → Result (Rest Str)
quoted start [] i value = err (diagnostic unterminated_quote (start, i))
quoted start (c ∷ []) i value =
    if c == b'"'
    then ok (value, [], i + len_utf8 c)
    else if c == 92
    then err (diagnostic invalid_escape (i, i + len_utf8 c))
    else err (diagnostic unterminated_quote (start, i + len_utf8 c))
quoted start (c ∷ d ∷ s) i value =
    let i' = i + len_utf8 c in
    let escaped = quoted start s (i' + len_utf8 d) (value ++ d ∷ []) in
    let plain = quoted start (d ∷ s) i' (value ++ c ∷ []) in
    if c == b'"'
    then ok (value, d ∷ s, i')
    else if c == 92
    then (if d == b'"' || d == 92
        then escaped
        else err (diagnostic invalid_escape (i, i' + len_utf8 d)))
    else plain

-- Where a word ends.
unfoldable ends_word : Str → Bool
unfolding is_whitespace starts_with
ends_word [] = true
ends_word (c ∷ s) =
    is_whitespace c
    || c == b'('
    || c == b')'
    || c == b'"'
    || starts_with (codes "&&") (c ∷ s)
    || starts_with (codes "||") (c ∷ s)

-- The loop over a word.
word : Str → ℕ → Str → Result (Rest Str)
word [] i taken = ok (taken, [], i)
word (c ∷ s) i taken =
    let rest = word s (i + len_utf8 c) (taken ++ c ∷ []) in
    if ends_word (c ∷ s)
    then ok (taken, c ∷ s, i)
    else if c == 92
    then err (diagnostic invalid_escape (i, i + 1))
    else rest

abbrev unsupported : List Str
unsupported =
    codes "&"
    ∷ codes "|"
    ∷ codes "^"
    ∷ codes "="
    ∷ codes "=="
    ∷ codes "!="
    ∷ codes ">"
    ∷ codes "<"
    ∷ codes ">="
    ∷ codes "<="
    ∷ []

-- The `match` on a word.
word_kind : Str → Span → Result TokenKind
unfolding str_eq
word_kind w span =
    if str_eq w (codes "AND")
    then ok TokenKind.and
    else if str_eq w (codes "OR")
    then ok TokenKind.or
    else if str_eq w (codes "NOT")
    then ok TokenKind.not
    else if contains unsupported w
    then err (diagnostic unexpected_token span)
    else ok (TokenKind.word w)

-- A token other than `&&` and `||`, from its first character.
lex_char : ℕ → Str → ℕ → Result (Rest TokenKind)
lex_char c s i =
    if c == b'('
    then ok (TokenKind.open_group, s, i + 1)
    else if c == b')'
    then ok (TokenKind.close_group, s, i + 1)
    else if c == b'!'
    then ok (TokenKind.not, s, i + 1)
    else if c == b'"'
    then (do (value, rest, i') ← quoted i s (i + 1) []; ok (TokenKind.phrase value, rest, i'))
    else (do (w, rest, i') ← word (c ∷ s) i []; kind ← word_kind w (i, i'); ok (kind, rest, i'))

-- The body of the loop, at a character that is no white space.
lex_token : Str → ℕ → Result (Rest TokenKind)
lex_token [] i = err (diagnostic out_of_fuel (i, i))
lex_token (c ∷ []) i = lex_char c [] i
lex_token (c ∷ d ∷ s) i =
    if c == b'&' && d == b'&'
    then ok (TokenKind.and, s, i + 2)
    else if c == b'|' && d == b'|'
    then ok (TokenKind.or, s, i + 2)
    else lex_char c (d ∷ s) i

abbrev pub max_nodes : ℕ
max_nodes = 256

-- The loop, with the number of tokens so far.
lex_loop : ℕ → Str → ℕ → ℕ → Result (List Token)
lex_loop zero s i n = err (diagnostic out_of_fuel (i, i))
lex_loop (suc fuel) [] i n = ok []
lex_loop (suc fuel) (c ∷ s) i n =
    let skipped = lex_loop fuel s (i + len_utf8 c) n in
    if is_whitespace c then skipped else (do
      (kind, rest, i') ← lex_token (c ∷ s) i
      (if ltb 768 (n + 1) then err (diagnostic query_too_complex (i, i')) else (do
        tokens ← lex_loop fuel rest i' (n + 1)
        ok (record { kind = kind; span = (i, i') } ∷ tokens))))

-- `lex`
unfoldable pub lex : Str → Result (List Token)
unfolding lex_loop lex_token lex_char quoted word ends_word word_kind len_utf8
lex source = lex_loop (suc (length source)) source 0 0
