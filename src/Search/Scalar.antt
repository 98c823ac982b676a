-- ===== src/Search/Scalar.antt =====
-- `Parser::scalar`, `field_name` and `instant` of crates/api/src/search/mod.rs: the value that a
-- field makes of a text, and the fields of a mode.
pub mod Values
use neddit.Prelude.{
  ℕ, ◌+◌, ◌-◌, ◌*◌, ◌^◌, ◌≡◌, ◌≢◌, refl, Bool, true, false, not, ◌&&◌, ◌||◌, ◌==◌, ltb,
  if◌then◌else◌, List, [], ◌∷◌, Option, none, some, arith, Str, codes, str_eq, len,
  to_ascii_lowercase, is_ascii_alphanumeric, is_ascii_digit, all, str_eq_refl, ap, sym, ◌∙◌, ◌++◌,
  length, inl, inr, Bool-cases, Option-cases,
}
use native.Mathlib.Numerals.{unary_clauses}
use neddit.Prelude.Int.{ℤ, pos, ◌+ℤ◌, scale}
use neddit.Crates.{Crates}
use neddit.Search.Syntax.{
  Mode, Field, Value, Span, diagnostic, Result, ok, err, unknown_field, field_not_available,
  Ensures, Ensures-if,
}
use neddit.Search.Eval.{domain, text_tokens}
use neddit.Search.Scalars.{IsUnit, spelled, IsPast, IsInstant, IsScalar}

-- `value.ends_with(suffix)`
unfoldable ends_with_text : Str → Str → Bool
ends_with_text suffix [] = str_eq suffix []
ends_with_text suffix (c ∷ s) = str_eq suffix (c ∷ s) || ends_with_text suffix s

-- Seconds and nanoseconds as nanoseconds.
unfoldable nanoseconds : Option (ℤ × ℕ) → Option ℤ
nanoseconds none = none
nanoseconds (some (seconds, nanos)) = some (scale 1_000_000_000 seconds +ℤ pos nanos)

-- The last character, and what stands before it.
unfoldable split_last : Str → Option (Str × ℕ)
split_last [] = none
split_last (c ∷ s) = elim (split_last s) [ none ↦ some ([], c) | some (t, d) ↦ some (c ∷ t, d) ]

abbrev unit_seconds : ℕ → Option ℕ
unit_seconds c =
    if c == b'm'
    then some 60
    else if c == b'h'
    then some 3600
    else if c == b'd'
    then some 86400
    else if c == b'w'
    then some 604800
    else none

-- The number that decimal digits spell.
unfoldable decimal : ℕ → Str → ℕ
decimal n [] = n
decimal n (c ∷ s) = decimal (n * 10 + (c - b'0')) s

-- `number.parse::<i64>()` and `checked_mul`
unfoldable duration_of : Str → ℕ → Option Value
unfolding decimal
duration_of number multiplier =
    let n = decimal 0 number in
    let seconds = n * multiplier in
    if str_eq number [] || not (all (λ c. is_ascii_digit c) number)
    then none
    else if not (ltb n (2 ^ 63))
    then none
    else if not (ltb seconds (2 ^ 63)) || seconds == 0
    then none
    else some (Value.duration (pos (seconds * 1_000_000_000)))

unfoldable with_unit : Str → Option ℕ → Option Value
unfolding duration_of
with_unit number none = none
with_unit number (some multiplier) = duration_of number multiplier

unfoldable past_parts : Option (Str × ℕ) → Option Value
unfolding with_unit
past_parts none = none
past_parts (some (number, c)) = with_unit number (unit_seconds c)

unfoldable past_value : Str → Option Value
unfolding split_last past_parts
past_value raw = past_parts (split_last raw)

-- The characters of a name, and its greatest length in bytes. An author may have dashes.
unfoldable name_value : Bool → ℕ → Str → Option Value
name_value dash longest raw =
    if str_eq raw []
      || ltb longest (len raw)
      || not (all (λ c. is_ascii_alphanumeric c || c == b'_' || (dash && c == b'-')) raw)
    then none
    else some (Value.exact (to_ascii_lowercase raw))

abbrev map_some {ℓ κ} : {A : Type ℓ} {B : Type κ} → (A → B) → Option A → Option B
map_some f none = none
map_some f (some x) = some (f x)

unfoldable words_value : List Str → Option Value
words_value [] = none
words_value (t ∷ ts) = some (Value.text (t ∷ ts))

module _ (lib : Crates) where
  -- `instant`
  unfoldable pub instant : Str → Option ℤ
  unfolding ends_with_text nanoseconds
  instant value =
      if not (lib.is_instant value) || ends_with_text (codes "-00:00") value
      then none
      else if len value == 10
      then nanoseconds (lib.parse_date value)
      else nanoseconds (lib.parse_rfc3339 value)

  -- The `match field` of `scalar`; `none` is its `invalid()`.
  unfoldable pub scalar_value : Field → Str → Option Value
  unfolding name_value past_value words_value instant
  scalar_value Field.subreddit raw = name_value false 21 raw
  scalar_value Field.name raw = name_value false 21 raw
  scalar_value Field.author raw = name_value true 20 raw
  scalar_value Field.domain raw = map_some Value.exact (domain lib raw)
  scalar_value Field.post_domain raw = map_some Value.exact (domain lib raw)
  scalar_value Field.past raw = past_value raw
  scalar_value Field.after raw = map_some Value.instant (instant raw)
  scalar_value Field.before raw = map_some Value.instant (instant raw)
  scalar_value _ raw = words_value (text_tokens lib raw)

name_of_field : Str → Option Field
unfolding str_eq
name_of_field name =
    if str_eq name (codes "subreddit")
    then some Field.subreddit
    else if str_eq name (codes "author")
    then some Field.author
    else if str_eq name (codes "title")
    then some Field.title
    else if str_eq name (codes "domain")
    then some Field.domain
    else if str_eq name (codes "flair")
    then some Field.flair
    else if str_eq name (codes "post.title")
    then some Field.post_title
    else if str_eq name (codes "post.domain")
    then some Field.post_domain
    else if str_eq name (codes "post.flair")
    then some Field.post_flair
    else if str_eq name (codes "name")
    then some Field.name
    else if str_eq name (codes "description")
    then some Field.description
    else if str_eq name (codes "past")
    then some Field.past
    else if str_eq name (codes "after")
    then some Field.after
    else if str_eq name (codes "before")
    then some Field.before
    else none

-- The fields that a mode has.
abbrev pub is_valid : Mode → Field → Bool
is_valid Mode.posts Field.subreddit = true
is_valid Mode.posts Field.author = true
is_valid Mode.posts Field.title = true
is_valid Mode.posts Field.domain = true
is_valid Mode.posts Field.flair = true
is_valid Mode.posts Field.past = true
is_valid Mode.posts Field.after = true
is_valid Mode.posts Field.before = true
is_valid Mode.comments Field.subreddit = true
is_valid Mode.comments Field.author = true
is_valid Mode.comments Field.post_title = true
is_valid Mode.comments Field.post_domain = true
is_valid Mode.comments Field.post_flair = true
is_valid Mode.comments Field.past = true
is_valid Mode.comments Field.after = true
is_valid Mode.comments Field.before = true
is_valid Mode.communities Field.name = true
is_valid Mode.communities Field.title = true
is_valid Mode.communities Field.description = true
is_valid _ _ = false

in_mode : Mode → Span → Option Field → Result Field
in_mode mode span none = err (diagnostic unknown_field span)
in_mode mode span (some f) =
    if is_valid mode f then ok f else err (diagnostic field_not_available span)

-- `field_name`
unfoldable pub field_name : Str → Mode → Span → Result Field
unfolding name_of_field in_mode
field_name name mode span = in_mode mode span (name_of_field (to_ascii_lowercase name))

in_mode_valid :
    (mode : Mode) (sp : Span) (o : Option Field)
    → Ensures (λ f. is_valid mode f ≡ true) (in_mode mode sp o)
unfolding in_mode
in_mode_valid mode sp none = λ e. cc
in_mode_valid mode sp (some f) =
    Ensures-if (λ g. is_valid mode g ≡ true) (is_valid mode f) _ _ (λ e. e) (λ e x. cc)

pub field_name_valid :
    (name : Str) (mode : Mode) (sp : Span)
    → Ensures (λ f. is_valid mode f ≡ true) (field_name name mode sp)
unfolding field_name
field_name_valid name mode sp = in_mode_valid mode sp (name_of_field (to_ascii_lowercase name))
