-- ===== src/Search/Scalar/Values.antt =====
-- Which values `Parser::scalar` of crates/api/src/search/mod.rs makes of a text.
use neddit.Prelude.{
  ℕ, ◌+◌, ◌-◌, ◌*◌, ◌^◌, ◌≡◌, ◌≢◌, refl, Bool, true, false, ◌==◌, List, [], ◌∷◌, Option, none, some,
  arith, Str, codes, str_eq, len, to_ascii_lowercase, str_eq_refl, ap, sym, ◌∙◌, ◌++◌, length, inl,
  inr, Bool-cases, Option-cases,
}
use native.Mathlib.Numerals.{unary_clauses}
use neddit.Prelude.Int.{ℤ, pos, ◌+ℤ◌, scale}
use neddit.Crates.{Crates}
use neddit.Search.Syntax.{Field, Value}
use neddit.Search.Eval.{domain, text_tokens}
use neddit.Search.Scalars.{IsUnit, spelled, IsPast, IsInstant, IsScalar}
use neddit.Search.Scalar.{
  ends_with_text, nanoseconds, split_last, unit_seconds, decimal, duration_of, with_unit,
  past_parts, past_value, name_value, map_some, words_value, instant, scalar_value,
}

name_value-exact :
    (dash : Bool) (n : ℕ) (raw : Str) (v : Value)
    → name_value dash n raw ≡ some v
    → v ≡ Value.exact (to_ascii_lowercase raw)
unfolding name_value
name_value-exact dash n raw v h = ground arith

exact_some :
    (o : Option Str) (v : Value)
    → map_some Value.exact o ≡ some v
    → (d : Str) × (v ≡ Value.exact d) × (o ≡ some d)
exact_some none v h = cc
exact_some (some d) v h = (d, ground arith, refl)

words_some : (l : List Str) (v : Value) → words_value l ≡ some v → (v ≡ Value.text l) × (l ≢ [])
unfolding words_value
words_some [] v h = cc
words_some (t ∷ ts) v h = (ground arith, λ e. cc)

-- A text that ends so is found to end so.
ends_with_append : (suffix p : Str) → ends_with_text suffix (p ++ suffix) ≡ true
unfolding ends_with_text
ends_with_append [] [] = unfold str_eq in refl
ends_with_append (d ∷ suffix) [] = rw (str_eq_refl (d ∷ suffix)) refl
ends_with_append suffix (c ∷ p) = ground (arith, ends_with_append suffix p)

module _ (lib : Crates) (raw : Str) where
  nanoseconds-some :
      (o : Option (ℤ × ℕ)) (t : ℤ)
      → nanoseconds o ≡ some t
      → (s : ℤ) × (n : ℕ) × (o ≡ some (s, n)) × (t ≡ scale 1_000_000_000 s +ℤ pos n)
  unfolding nanoseconds
  nanoseconds-some none t h = cc
  nanoseconds-some (some (s, n)) t h = (s, n, refl, ground arith)

  not_zone : ends_with_text (codes "-00:00") raw ≡ false → (p : Str) → raw ≢ p ++ codes "-00:00"
  not_zone h p e =
      let found : ends_with_text (codes "-00:00") raw ≡ true =
        rw e (ends_with_append (codes "-00:00") p) in
      absurd (cc)

  module _ (v : Value) (t : ℤ) (is : v ≡ Value.instant t) (form : lib.is_instant raw ≡ true)
      (zone : ends_with_text (codes "-00:00") raw ≡ false) where
    date-IsInstant :
        (len raw == 10) ≡ true → nanoseconds (lib.parse_date raw) ≡ some t → IsInstant lib raw v
    date-IsInstant short h =
        let (s, n, got, made) = nanoseconds-some (lib.parse_date raw) t h in
        record {
          seconds = s;
          nanos = n;
          form = form;
          zone = not_zone zone;
          parsed = inl (ground arith, got);
          value = is ∙ ap Value.instant made;
        }

    time-IsInstant :
        (len raw == 10) ≡ false → nanoseconds (lib.parse_rfc3339 raw) ≡ some t → IsInstant lib raw v
    time-IsInstant long h =
        let (s, n, got, made) = nanoseconds-some (lib.parse_rfc3339 raw) t h in
        record {
          seconds = s;
          nanos = n;
          form = form;
          zone = not_zone zone;
          parsed = inr (λ e. ground arith, got);
          value = is ∙ ap Value.instant made;
        }

  instant-IsInstant :
      (v : Value) (t : ℤ) → v ≡ Value.instant t → instant lib raw ≡ some t → IsInstant lib raw v
  unfolding instant
  instant-IsInstant v t is h =
      let form : lib.is_instant raw ≡ true = ground arith in
      let zone : ends_with_text (codes "-00:00") raw ≡ false = ground arith in
      elim (Bool-cases (len raw == 10)) [
        | inl short ↦ date-IsInstant v t is form zone short (ground arith)
        | inr long ↦ time-IsInstant v t is form zone long (ground arith)
      ]

  instant-some :
      (o : Option ℤ) (v : Value)
      → instant lib raw ≡ o
      → map_some Value.instant o ≡ some v
      → IsInstant lib raw v
  instant-some none v e h = absurd (cc)
  instant-some (some t) v e h = instant-IsInstant v t (ground arith) e

digit_in_front : (n d p r : ℕ) → (n * 10 + d) * p + r ≡ n * (p * 10) + (d * p + r)
digit_in_front n d p r = grind arith

-- The digits are read from the front.
decimal-spelled : (n : ℕ) (s : Str) → decimal n s ≡ n * 10 ^ length s + spelled s
unfolding decimal
decimal-spelled n [] = omega arith
decimal-spelled n (c ∷ s) =
    let d = c - b'0' in
    let power : 10 ^ length (c ∷ s) ≡ 10 ^ length s * 10 = simp unary_clauses (grind arith) in
    decimal-spelled (n * 10 + d) s
    ∙ (digit_in_front n d (10 ^ length s) (spelled s)
        ∙ ap (λ p. n * p + (d * 10 ^ length s + spelled s)) (sym power))

split_last-none : (s : Str) → split_last s ≡ none → s ≡ []
unfolding split_last
split_last-none [] h = refl
split_last-none (d ∷ s) h = absurd (ground arith)

split_last-some : (s t : Str) (c : ℕ) → split_last s ≡ some (t, c) → s ≡ t ++ (c ∷ [])
unfolding split_last
split_last-some [] t c h = absurd (cc)
split_last-some (d ∷ s) t c h = elim (Option-cases (split_last s)) [
  | inl end ↦ let empty = split_last-none s end in ground arith
  | inr ((u, e), found) ↦ ground (arith, split_last-some s u e found)
]

unit_seconds-IsUnit : (c k : ℕ) → unit_seconds c ≡ some k → IsUnit c k
unit_seconds-IsUnit c k h = ground arith

duration-IsPast :
    (raw number : Str) (c k : ℕ) (v : Value)
    → raw ≡ number ++ (c ∷ [])
    → IsUnit c k
    → duration_of number k ≡ some v
    → IsPast raw v
unfolding duration_of
duration-IsPast raw number c k v text unit h =
    let same : decimal 0 number ≡ spelled number = omega (arith, decimal-spelled 0 number) in
    record {
      number = number;
      unit = c;
      seconds = k;
      text = text;
      is_unit = unit;
      not_empty = λ e. ground arith;
      digits = ground arith;
      positive = rw (← same) (ground arith);
      is_i64 = rw (← same) (ground arith);
      value = rw (← same) (ground arith);
    }

seconds-IsPast : (raw : Str) (v : Value) → past_value raw ≡ some v → IsPast raw v
unfolding past_value past_parts with_unit
seconds-IsPast raw v h = elim (Option-cases (split_last raw)) [
  | inl end ↦ absurd (ground arith)
  | inr ((number, c), found) ↦ elim (Option-cases (unit_seconds c)) [
    | inl other ↦ absurd (ground arith)
    | inr (k, unit) ↦
        duration-IsPast raw number c k v (split_last-some raw number c found)
          (unit_seconds-IsUnit c k unit) (rw (found, unit) at h)
  ]
]

module _ (lib : Crates) where
  -- A value that `scalar` makes is the value of its field.
  pub scalar_value-IsScalar :
      (f : Field) (raw : Str) (v : Value) → scalar_value lib f raw ≡ some v → IsScalar lib f raw v
  unfolding scalar_value
  scalar_value-IsScalar Field.subreddit raw v h = name_value-exact false 21 raw v h
  scalar_value-IsScalar Field.name raw v h = name_value-exact false 21 raw v h
  scalar_value-IsScalar Field.author raw v h = name_value-exact true 20 raw v h
  scalar_value-IsScalar Field.domain raw v h = exact_some (domain lib raw) v h
  scalar_value-IsScalar Field.post_domain raw v h = exact_some (domain lib raw) v h
  scalar_value-IsScalar Field.past raw v h = seconds-IsPast raw v h
  scalar_value-IsScalar Field.after raw v h = instant-some lib raw (instant lib raw) v refl h
  scalar_value-IsScalar Field.before raw v h = instant-some lib raw (instant lib raw) v refl h
  scalar_value-IsScalar _ raw v h = words_some (text_tokens lib raw) v h
