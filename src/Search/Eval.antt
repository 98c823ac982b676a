-- ===== src/Search/Eval.antt =====
-- `Expr::evaluate` of crates/api/src/search/mod.rs, with its cache of token lists, beside the
-- evaluation without a cache that it stands for.
pub mod Direct
pub mod Caching
pub mod Information
use neddit.Prelude.{
  ℕ, Bool, true, false, ◌&&◌, ◌||◌, not, List, [], ◌∷◌, Option, none, some, Str, str_eq,
  eq_ignore_ascii_case, to_ascii_lowercase, codes, strip_prefix, len, is_whitespace,
  is_ascii_alphanumeric, starts_with, length, take, all, any, ltb, leb, ◌==◌, if◌then◌else◌,
}
use neddit.Prelude.Int.{ℤ, ◌-ℤ◌, leb_ℤ}
use neddit.Crates.{Crates}
use neddit.Search.Truth
use neddit.Search.Truth.{Truth, boolean}
use neddit.Search.Syntax.{Field, Value, Predicate, Expr, field_eq}
use neddit.Search.Record.{Datum, Record, field_or_unknown}

-- `char::is_whitespace` or one of `:/@?#\%[]`
abbrev is_url_punctuation : ℕ → Bool
is_url_punctuation c =
    c == b':'
    || c == b'/'
    || c == b'@'
    || c == b'?'
    || c == b'#'
    || c == 92
    || c == b'%'
    || c == b'['
    || c == b']'

ends_with : ℕ → Str → Bool
ends_with c [] = false
ends_with c (d ∷ []) = d == c
ends_with c (d ∷ e ∷ s) = ends_with c (e ∷ s)

-- `value.strip_suffix(c).unwrap_or(value)`
strip_last : ℕ → Str → Str
strip_last c [] = []
strip_last c (d ∷ []) = if d == c then [] else d ∷ []
strip_last c (d ∷ e ∷ s) = d ∷ strip_last c (e ∷ s)

abbrev cons_head : ℕ → List Str → List Str
cons_head d [] = (d ∷ []) ∷ []
cons_head d (p ∷ ps) = (d ∷ p) ∷ ps

-- `value.split(c)`
split : ℕ → Str → List Str
split c [] = [] ∷ []
split c (d ∷ s) = let rest = split c s in if d == c then [] ∷ rest else cons_head d rest

-- A label that `domain` refuses.
is_bad_label : Str → Bool
unfolding ends_with starts_with
is_bad_label p =
    str_eq p []
    || ltb 63 (len p)
    || starts_with (codes "-") p
    || ends_with b'-' p
    || not (all (λ c. is_ascii_alphanumeric c || c == b'-') p)

without_www : Str → Str
without_www host = elim (strip_prefix (codes "www.") host) [ some s ↦ s | none ↦ host ]

checked_host : Str → Option Str
unfolding is_bad_label without_www split
checked_host host =
    if ltb 253 (len host) || any is_bad_label (split b'.' host)
    then none
    else some (without_www host)

domain_of : Option Str → Option Str
unfolding checked_host
domain_of none = none
domain_of (some host) = checked_host (to_ascii_lowercase host)

module _ (lib : Crates) where
  -- `domain`
  unfoldable pub domain : Str → Option Str
  unfolding strip_last domain_of
  domain value =
      if str_eq value [] || any (λ c. is_whitespace c || is_url_punctuation c) value
      then none
      else domain_of (lib.parse_host (strip_last b'.' value))

  -- `text_tokens`
  unfoldable pub text_tokens : Str → List Str
  text_tokens value = lib.find_tokens (lib.normalize value)

tokens_eq : List Str → List Str → Bool
tokens_eq [] [] = true
tokens_eq [] (t ∷ ts) = false
tokens_eq (s ∷ ss) [] = false
tokens_eq (s ∷ ss) (t ∷ ts) = str_eq s t && tokens_eq ss ts

-- `slice::windows(n)`. It panics at 0, which no parsed predicate asks for.
windows : ℕ → List Str → List (List Str)
windows n [] = []
windows n (t ∷ ts) =
    let rest = windows n ts in if leb n (length (t ∷ ts)) then take n (t ∷ ts) ∷ rest else []

-- `tokens` stands somewhere in the list, in one piece.
unfoldable pub has_window : List Str → List Str → Bool
unfolding tokens_eq windows
has_window tokens found = any (λ w. tokens_eq w tokens) (windows (length tokens) found)

-- `as_ref() == Some(v)`
abbrev is_some_of : Option Str → Str → Bool
is_some_of none v = false
is_some_of (some s) v = str_eq s v

abbrev is_domain_field : Field → Bool
is_domain_field Field.domain = true
is_domain_field Field.post_domain = true
is_domain_field _ = false

-- The arms for a duration and an instant.
unfoldable pub during : ℤ → ℤ → Option ℤ → Truth
during frozen d none = Truth.unknown
during frozen d (some c) = boolean (leb_ℤ (frozen -ℤ d) c && leb_ℤ c frozen)

unfoldable pub since : Field → ℤ → Option ℤ → Truth
since f t none = Truth.unknown
since f t (some c) = boolean (if field_eq f Field.after then leb_ℤ t c else not (leb_ℤ t c))

-- The list of token lists by text that one evaluation builds up.
abbrev pub Cache : Type 0
Cache = List (Str × List Str)

lookup : Str → Cache → Option (List Str)
lookup k [] = none
lookup k ((j, v) ∷ m) = let rest = lookup k m in if str_eq j k then some v else rest

module _ (lib : Crates) where
  -- `cache.entry(s).or_insert_with(|| text_tokens(s))`
  cached_tokens : Str → Cache → List Str × Cache
  unfolding lookup
  cached_tokens s k = elim (lookup s k) [
    | some v ↦ (v, k)
    | none ↦ let v = text_tokens lib s in (v, (s, v) ∷ k)
  ]

  -- The two arms of `p.value` for a text. The last arm is `unreachable!()`.
  unfoldable pub exact_matches : Field → Str → Str → Bool
  unfolding domain eq_ignore_ascii_case
  exact_matches f v s =
      if is_domain_field f then is_some_of (domain lib s) v else eq_ignore_ascii_case s v

  text_matches : Predicate → Str → Cache → Truth × Cache
  unfolding cached_tokens has_window exact_matches
  text_matches p s k = elim p.value [
    | Value.text tokens ↦
        let (found, k') = cached_tokens s k in (boolean (has_window tokens found), k')
    | Value.exact v ↦ (boolean (exact_matches p.field v s), k)
    | Value.duration d ↦ (Truth.unknown, k)
    | Value.instant t ↦ (Truth.unknown, k)
  ]

  -- the closure `matches`
  matches : Predicate → Datum → Cache → Truth × Cache
  unfolding text_matches
  matches p Datum.absent k = (Truth.false, k)
  matches p Datum.unknown k = (Truth.unknown, k)
  matches p (Datum.text s) k = text_matches p s k

  -- `record.text.iter().map(matches).fold(acc, Truth::or)`
  fold_matches : Predicate → List Datum → Truth → Cache → Truth × Cache
  unfolding matches
  fold_matches p [] acc k = (acc, k)
  fold_matches p (d ∷ ds) acc k =
      let (t, k') = matches p d k in fold_matches p ds (Truth.or acc t) k'

  value_matches : Predicate → Record → Cache → Truth × Cache
  unfolding matches fold_matches
  value_matches p r k =
      if field_eq p.field Field.text
      then fold_matches p r.text Truth.false k
      else matches p (field_or_unknown r p.field) k

  predicate_matches : Predicate → Record → ℤ → Cache → Truth × Cache
  unfolding during since value_matches
  predicate_matches p r frozen k = elim p.value [
    | Value.duration d ↦ (during frozen d r.created, k)
    | Value.instant t ↦ (since p.field t r.created, k)
    | Value.text tokens ↦ value_matches p r k
    | Value.exact v ↦ value_matches p r k
  ]

  -- `Expr::evaluate_cached`
  pub evaluate_cached : Expr → Record → ℤ → Cache → Truth × Cache
  unfolding predicate_matches
  evaluate_cached (Expr.not e _) r frozen k =
      let (t, k') = evaluate_cached e r frozen k in (Truth.not t, k')
  evaluate_cached (Expr.and a b _) r frozen k =
      let (t, k') = evaluate_cached a r frozen k in
      let (u, k'') = evaluate_cached b r frozen k' in (Truth.and t u, k'')
  evaluate_cached (Expr.or a b _) r frozen k =
      let (t, k') = evaluate_cached a r frozen k in
      let (u, k'') = evaluate_cached b r frozen k' in (Truth.or t u, k'')
  evaluate_cached (Expr.predicate p _) r frozen k = predicate_matches p r frozen k

  -- `Expr::evaluate`
  unfoldable pub evaluate : Expr → Record → ℤ → Truth
  unfolding evaluate_cached
  evaluate e r frozen = (evaluate_cached e r frozen []).0
