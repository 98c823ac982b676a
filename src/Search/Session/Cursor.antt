-- ===== src/Search/Session/Cursor.antt =====
-- The text of a cursor, the id of a session and the index of a page: `format!("{id}.{index}")`,
-- `split_once('.')` and `parse::<usize>()` of crates/api/src/search/engine/session.rs.
pub mod Again
use neddit.Prelude.{
  ℕ, zero, suc, ◌+◌, ◌-◌, ◌*◌, ◌/◌, ◌%◌, ◌^◌, ◌<◌, ◌≡◌, refl, Bool, true, false, not, ◌==◌, ltb,
  if◌then◌else◌, List, [], ◌∷◌, ◌++◌, Option, none, some, Str, is_ascii_digit, arith,
}

-- The digits of a number in front of a text, with fuel for each.
digits : ℕ → ℕ → Str → Str
digits zero n s = s
digits (suc fuel) n s =
    let s' = (b'0' + n % 10) ∷ s in
    let rest = digits fuel (n / 10) s' in if n / 10 == 0 then s' else rest

-- `usize::to_string`
unfoldable pub show : ℕ → Str
unfolding digits
show n = digits (suc n) n []

abbrev pub usize_max : ℕ
usize_max = 2 ^ 64 - 1

abbrev append_digit : ℕ → ℕ → Option ℕ
append_digit n d = if ltb usize_max (n * 10 + d) then none else some (n * 10 + d)

-- The digits of a text after a number; a digit that overflows is refused.
unfoldable pub number_from : ℕ → Str → Option ℕ
number_from n [] = some n
number_from n (c ∷ s) =
    let rest = λ (m : ℕ). number_from m s in
    if not (is_ascii_digit c)
    then none
    else elim (append_digit n (c - b'0')) [ none ↦ none | some m ↦ rest m ]

unsigned : Str → Option ℕ
unfolding number_from
unsigned [] = none
unsigned (c ∷ s) = number_from 0 (c ∷ s)

-- `str::parse::<usize>`; a plus may stand in front.
unfoldable pub parse_usize : Str → Option ℕ
unfolding unsigned
parse_usize [] = none
parse_usize (c ∷ s) = if c == b'+' then unsigned s else unsigned (c ∷ s)

-- `split_once('.')`
unfoldable pub split_dot : Str → Option (Str × Str)
split_dot [] = none
split_dot (c ∷ s) =
    let rest : Option (Str × Str) = elim (split_dot s) [
      | none ↦ none
      | some (a, b) ↦ some (c ∷ a, b)
    ] in
    if c == b'.' then some ([], s) else rest

abbrev pub cursor_text : Str → ℕ → Str
cursor_text id index = id ++ (b'.' ∷ show index)
