-- ===== src/Search/Session/Cursor/Again.antt =====
-- A cursor is read as it was written: crates/api/src/search/engine/session.rs.
use neddit.Prelude.{
  ℕ, zero, suc, ◌+◌, ◌*◌, ◌/◌, ◌%◌, ◌≤◌, ◌<◌, ◌≡◌, ◌≢◌, refl, ap, ◌∙◌, ◌==◌, [], ◌∷◌, ◌++◌, some,
  Str, All, arith, Bool-cases, inl, inr,
}
use neddit.Search.Session.Cursor.{
  digits, show, usize_max, number_from, parse_usize, split_dot, cursor_text,
}

-- A digit in front is read as a digit.
number_from-digit :
    (n d : ℕ) (s : Str)
    → d < 10
    → n * 10 + d ≤ usize_max
    → number_from n ((b'0' + d) ∷ s) ≡ number_from (n * 10 + d) s
unfolding number_from
number_from-digit n d s lt le = ground arith

number_from-digits :
    (fuel n : ℕ) (s : Str)
    → n < fuel
    → n ≤ usize_max
    → number_from 0 (digits fuel n s) ≡ number_from n s
unfolding digits
number_from-digits zero n s lt le = absurd (omega (arith, lt))
number_from-digits (suc fuel) n s lt le = elim (Bool-cases (n / 10 == 0)) [
  | inl small ↦ rw small (
      number_from-digit 0 (n % 10) s (omega arith) (omega (arith, le))
      ∙ ap (λ m. number_from m s) (ground arith))
  | inr large ↦ rw large (
      number_from-digits fuel (n / 10) ((b'0' + n % 10) ∷ s) (ground arith) (omega (arith, le))
      ∙ (number_from-digit (n / 10) (n % 10) s (omega arith) (omega (arith, le))
          ∙ ap (λ m. number_from m s) (omega arith)))
]

abbrev StartsDigit : Str → Type 0
StartsDigit [] = ⊥
StartsDigit (c ∷ s) = (b'0' ≤ c) × (c ≤ b'9')

digits-StartsDigit : (fuel n : ℕ) (s : Str) → n < fuel → StartsDigit (digits fuel n s)
unfolding digits
digits-StartsDigit zero n s lt = absurd (omega (arith, lt))
digits-StartsDigit (suc fuel) n s lt = elim (Bool-cases (n / 10 == 0)) [
  | inl small ↦ rw small (omega arith)
  | inr large ↦ rw large (digits-StartsDigit fuel (n / 10) ((b'0' + n % 10) ∷ s) (ground arith))
]

parse_unsigned : (s : Str) → StartsDigit s → parse_usize s ≡ number_from 0 s
unfolding parse_usize
parse_unsigned [] h = absurd h
parse_unsigned (c ∷ s) h = ground arith

parse_usize-show : (n : ℕ) → n ≤ usize_max → parse_usize (show n) ≡ some n
unfolding show
parse_usize-show n le =
    parse_unsigned (digits (suc n) n []) (digits-StartsDigit (suc n) n [] (omega arith))
    ∙ number_from-digits (suc n) n [] (omega arith) le
    ∙ last n
  where
    last : (n : ℕ) → number_from n [] ≡ some n
    last n = unfold number_from in refl

split_dot-cursor_text :
    (id s : Str) → All (λ c. c ≢ b'.') id → split_dot (id ++ (b'.' ∷ s)) ≡ some (id, s)
unfolding split_dot
split_dot-cursor_text [] s h = refl
split_dot-cursor_text (c ∷ id) s h =
    let ih = split_dot-cursor_text id s h.1 in let ne = h.0 in ground (arith, ih)

-- The cursor that is written for a page of a session, whose id has no dot, is split and parsed as
-- that id and that index, if the index is a `usize`.
pub cursor_again :
    (id : Str) (index : ℕ)
    → All (λ c. c ≢ b'.') id
    → index ≤ usize_max
    → (s : Str) × (split_dot (cursor_text id index) ≡ some (id, s)) × (parse_usize s ≡ some index)
cursor_again id index h le =
    (show index, split_dot-cursor_text id (show index) h, parse_usize-show index le)
