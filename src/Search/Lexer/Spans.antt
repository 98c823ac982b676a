-- ===== src/Search/Lexer/Spans.antt =====
-- `lex` of crates/api/src/search/mod.rs ends on every source, and its tokens stand in the source
-- one behind the other.
use neddit.Prelude.{
  ℕ, zero, suc, ◌+◌, ◌≤◌, ◌<◌, ◌≡◌, subst, false, ◌&&◌, ◌||◌, ◌==◌, ltb, List, [], ◌∷◌, ◌++◌, arith,
  Str, codes, len, len_utf8, len_utf8_bounds, len_utf8-ascii, is_whitespace, starts_with, length,
}
use neddit.Search.Syntax.{Span, Ensures, Ensures-bind, Ensures-if, Ensures-weaken, TokenKind, Token}
use neddit.Search.Lexer.{
  Rest, quoted, ends_word, word, word_kind, lex_char, lex_token, lex_loop, lex,
}

-- From `s` at `i` a piece of the source was read, and the rest is as long as it should be.
abbrev pub Reads {ℓ} : {A : Type ℓ} → Str → ℕ → Rest A → Type 0
Reads s i (x, rest, i') = (i < i') × (i' + len rest ≡ i + len s) × (length rest < length s)

abbrev Follows {ℓ} : {A : Type ℓ} → Str → ℕ → Rest A → Type 0
Follows s i (x, rest, i') = (i ≤ i') × (i' + len rest ≡ i + len s) × (length rest ≤ length s)

-- What was read after `k` more bytes was read from the start.
Reads-after :
    {A : Type 0} (t s : Str) (i k : ℕ) (x : Rest A)
    → len t ≡ k + len s
    → length s ≤ length t
    → Reads s (i + k) x
    → Reads t i x
Reads-after t s i k (x, rest, i') e l h = omega arith

quoted-Reads : (start : ℕ) (s : Str) (i : ℕ) (v : Str) → Ensures (Reads s i) (quoted start s i v)
unfolding quoted len
quoted-Reads start [] i v = ground arith
quoted-Reads start (c ∷ []) i v = ground (arith, len_utf8_bounds c)
quoted-Reads start (c ∷ d ∷ s) i v =
    let i' = i + len_utf8 c in
    let P : Rest Str → Type 0 = Reads (c ∷ d ∷ s) i in
    Ensures-if P (c == b'"') _ _ (λ e. ground (arith, len_utf8_bounds c))
      (λ e.
        Ensures-if P (c == 92) _ _
          (λ e'.
            Ensures-if P (d == b'"' || d == 92) _ _
              (λ e2.
                Ensures-weaken (Reads s (i' + len_utf8 d)) P
                  (quoted start s (i' + len_utf8 d) (v ++ d ∷ []))
                  (λ (w, rest, j) h. omega (arith, len_utf8_bounds c))
                  (quoted-Reads start s (i' + len_utf8 d) (v ++ d ∷ [])))
              (λ e2. ground arith))
          (λ e'.
            Ensures-weaken (Reads (d ∷ s) i') P (quoted start (d ∷ s) i' (v ++ c ∷ []))
              (λ (w, rest, j) h. omega (arith, len_utf8_bounds c))
              (quoted-Reads start (d ∷ s) i' (v ++ c ∷ []))))

word-Follows : (s : Str) (i : ℕ) (taken : Str) → Ensures (Follows s i) (word s i taken)
unfolding word len
word-Follows [] i taken = ground arith
word-Follows (c ∷ s) i taken =
    let i' = i + len_utf8 c in
    let P : Rest Str → Type 0 = Follows (c ∷ s) i in
    Ensures-if P (ends_word (c ∷ s)) _ _ (λ e. ground arith)
      (λ e.
        Ensures-if P (c == 92) _ _ (λ e'. ground arith)
          (λ e'.
            Ensures-weaken (Follows s i') P (word s i' (taken ++ c ∷ []))
              (λ (w, rest, j) h. omega arith) (word-Follows s i' (taken ++ c ∷ []))))

-- A word that does not begin where a word ends has a character.
word-Reads :
    (c : ℕ) (s : Str) (i : ℕ)
    → ends_word (c ∷ s) ≡ false
    → Ensures (Reads (c ∷ s) i) (word (c ∷ s) i [])
unfolding word len
word-Reads c s i n =
    let i' = i + len_utf8 c in
    let P : Rest Str → Type 0 = Reads (c ∷ s) i in
    rw n (
      Ensures-if P (c == 92) _ _ (λ e'. ground arith)
        (λ e'.
          Ensures-weaken (Follows s i') P (word s i' (c ∷ []))
            (λ (w, rest, j) h. omega (arith, len_utf8_bounds c)) (word-Follows s i' (c ∷ []))))

word_kind_own : (w : Str) (sp : Span) → Ensures (λ k. Unit) (word_kind w sp)
unfolding word_kind
word_kind_own w sp = ground arith

ends_word_cases :
    (c : ℕ) (s : Str)
    → is_whitespace c ≡ false
    → (c == b'(') ≡ false
    → (c == b')') ≡ false
    → (c == b'"') ≡ false
    → starts_with (codes "&&") (c ∷ s) ≡ false
    → starts_with (codes "||") (c ∷ s) ≡ false
    → ends_word (c ∷ s) ≡ false
unfolding ends_word
ends_word_cases c s w o p q a r = rw (w, o, p, q, a, r)

lex_char-Reads :
    (c : ℕ) (s : Str) (i : ℕ)
    → is_whitespace c ≡ false
    → starts_with (codes "&&") (c ∷ s) ≡ false
    → starts_with (codes "||") (c ∷ s) ≡ false
    → Ensures (Reads (c ∷ s) i) (lex_char c s i)
unfolding lex_char len
lex_char-Reads c s i w a o =
    let P : Rest TokenKind → Type 0 = Reads (c ∷ s) i in
    Ensures-if P (c == b'(') _ _ (λ e. ground (arith, len_utf8-ascii c))
      (λ e1.
        Ensures-if P (c == b')') _ _ (λ e. ground (arith, len_utf8-ascii c))
          (λ e2.
            Ensures-if P (c == b'!') _ _ (λ e. ground (arith, len_utf8-ascii c))
              (λ e3.
                Ensures-if P (c == b'"') _ _
                  (λ e.
                    Ensures-bind (Reads s (i + 1)) P (quoted i s (i + 1) []) _
                      (quoted-Reads i s (i + 1) [])
                      (λ (v, rest, j) h. ground (arith, len_utf8-ascii c)))
                  (λ e4.
                    Ensures-bind (Reads (c ∷ s) i) P (word (c ∷ s) i []) _
                      (word-Reads c s i (ends_word_cases c s w e1 e2 e4 a o))
                      (λ (v, rest, j) h.
                        Ensures-bind (λ k. Unit {0}) P (word_kind v (i, j)) _
                          (word_kind_own v (i, j)) (λ k u. h))))))

lex_token-Reads :
    (c : ℕ) (s : Str) (i : ℕ)
    → is_whitespace c ≡ false
    → Ensures (Reads (c ∷ s) i) (lex_token (c ∷ s) i)
unfolding lex_token len starts_with
lex_token-Reads c [] i w = lex_char-Reads c [] i w (ground arith) (ground arith)
lex_token-Reads c (d ∷ s) i w =
    let P : Rest TokenKind → Type 0 = Reads (c ∷ d ∷ s) i in
    Ensures-if P (c == b'&' && d == b'&') _ _
      (λ e. ground (arith, len_utf8-ascii c, len_utf8-ascii d))
      (λ e1.
        Ensures-if P (c == b'|' && d == b'|') _ _
          (λ e. ground (arith, len_utf8-ascii c, len_utf8-ascii d))
          (λ e2. lex_char-Reads c (d ∷ s) i w (ground arith) (ground arith)))

-- The tokens stand one behind the other, from one position to another.
abbrev pub InOrder : ℕ → List Token → ℕ → Type 0
InOrder lo [] hi = lo ≤ hi
InOrder lo (t ∷ ts) hi = (lo ≤ t.span.0) × (t.span.0 < t.span.1) × InOrder t.span.1 ts hi

InOrder-before : (k lo hi : ℕ) (ts : List Token) → k ≤ lo → InOrder lo ts hi → InOrder k ts hi
InOrder-before k lo hi [] h o = omega arith
InOrder-before k lo hi (t ∷ ts) h o = (omega arith, o.1, o.2)

abbrev Lexed : ℕ → ℕ → ℕ → List Token → Type 0
Lexed i n hi ts = InOrder i ts hi × (n + length ts ≤ 768)

lex_loop-Lexed :
    (fuel : ℕ) (s : Str) (i n : ℕ)
    → length s < fuel
    → n ≤ 768
    → Ensures (Lexed i n (i + len s)) (lex_loop fuel s i n)
unfolding lex_loop len
lex_loop-Lexed zero s i n f m = absurd (omega arith)
lex_loop-Lexed (suc fuel) [] i n f m = omega arith
lex_loop-Lexed (suc fuel) (c ∷ s) i n f m =
    let i' = i + len_utf8 c in
    let P : List Token → Type 0 = Lexed i n (i + (len_utf8 c + len s)) in
    Ensures-if P (is_whitespace c) _ _
      (λ e.
        Ensures-weaken (Lexed i' n (i' + len s)) P (lex_loop fuel s i' n)
          (λ ts h.
            let e' : i' + len s ≡ i + (len_utf8 c + len s) = omega arith in
            (
              InOrder-before i i' (i + (len_utf8 c + len s)) ts (omega arith)
                  (subst (InOrder i' ts) e' h.0),
              h.1,
            ))
          (lex_loop-Lexed fuel s i' n (omega arith) m))
      (λ e.
        Ensures-bind (Reads (c ∷ s) i) P (lex_token (c ∷ s) i) _ (lex_token-Reads c s i e)
          (λ (k, rest, j) h.
            Ensures-if P (ltb 768 (n + 1)) _ _ (λ e'. λ x. cc)
              (λ e'.
                Ensures-bind (Lexed j (n + 1) (j + len rest)) P (lex_loop fuel rest j (n + 1)) _
                  (lex_loop-Lexed fuel rest j (n + 1) (omega arith) (ground arith))
                  (λ ts o. ((omega arith, h.0, subst (InOrder j ts) h.1 o.0), omega arith)))))

-- Every source is lexed or refused with an error of the program, and the tokens of one that is
-- lexed are at most 768, not empty, stand one behind the other, and lie inside the source.
pub lex-InOrder :
    (source : Str) → Ensures (λ ts. InOrder 0 ts (len source) × (length ts ≤ 768)) (lex source)
unfolding lex
lex-InOrder source =
    Ensures-weaken (Lexed 0 0 (0 + len source)) _ (lex_loop (suc (length source)) source 0 0)
      (λ ts h. (subst (InOrder 0 ts) (omega arith) h.0, omega arith))
      (lex_loop-Lexed (suc (length source)) source 0 0 (omega arith) (omega arith))
