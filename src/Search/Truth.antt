-- ===== src/Search/Truth.antt =====
-- The three truth values of crates/api/src/search/mod.rs, and their order by information.
use mathlib.Core.Path.{◌≡◌, refl}
use mathlib.Core.Bool.{Bool}

pub data Truth : Type 0 where
  true false unknown : Truth

abbrev pub not : Truth → Truth
not true = false
not false = true
not unknown = unknown

abbrev pub and : Truth → Truth → Truth
and false u = false
and true true = true
and true false = false
and true unknown = unknown
and unknown false = false
and unknown true = unknown
and unknown unknown = unknown

abbrev pub or : Truth → Truth → Truth
or true u = true
or false true = true
or false false = false
or false unknown = unknown
or unknown true = true
or unknown false = unknown
or unknown unknown = unknown

-- `|value| if value { Truth::True } else { Truth::False }`
abbrev pub boolean : Bool → Truth
boolean Bool.true = true
boolean Bool.false = false

-- A decided value says all that there is to say; `unknown` may still become either.
infix 40 ◌⊑◌
pub data ◌⊑◌ : Truth → Truth → Type 0 where
  open_value : (u : Truth) → unknown ⊑ u
  same : (t : Truth) → t ⊑ t

pub not_mono : {t u : Truth} → t ⊑ u → not t ⊑ not u
not_mono (open_value u) = open_value (not u)
not_mono (same t) = same (not t)

-- Conjunction and disjunction are monotone in both arguments.
pub and_mono : {t t' u u' : Truth} → t ⊑ t' → u ⊑ u' → and t u ⊑ and t' u'
and_mono (open_value true) (open_value u) = open_value (and true u)
and_mono (open_value true) (same true) = open_value true
and_mono (open_value true) (same false) = same false
and_mono (open_value true) (same unknown) = open_value unknown
and_mono (open_value false) (open_value u) = open_value false
and_mono (open_value false) (same true) = open_value false
and_mono (open_value false) (same false) = same false
and_mono (open_value false) (same unknown) = open_value false
and_mono (open_value unknown) (open_value true) = open_value unknown
and_mono (open_value unknown) (open_value false) = open_value false
and_mono (open_value unknown) (open_value unknown) = open_value unknown
and_mono (open_value unknown) (same u) = same (and unknown u)
and_mono (same true) (open_value u) = open_value (and true u)
and_mono (same false) (open_value u) = same false
and_mono (same unknown) (open_value true) = open_value unknown
and_mono (same unknown) (open_value false) = open_value false
and_mono (same unknown) (open_value unknown) = open_value unknown
and_mono (same t) (same u) = same (and t u)

pub de_morgan : (t u : Truth) → not (and (not t) (not u)) ≡ or t u
de_morgan true u = refl
de_morgan false true = refl
de_morgan false false = refl
de_morgan false unknown = refl
de_morgan unknown true = refl
de_morgan unknown false = refl
de_morgan unknown unknown = refl

pub or_mono : {t t' u u' : Truth} → t ⊑ t' → u ⊑ u' → or t u ⊑ or t' u'
or_mono {t} {t'} {u} {u'} h k =
    rw (← de_morgan t u, ← de_morgan t' u') (not_mono (and_mono (not_mono h) (not_mono k)))

pub ⊑-true : {t u : Truth} → t ⊑ u → t ≡ true → u ≡ true
⊑-true (open_value u) e = cc
⊑-true (same t) e = e

pub ⊑-false : {t u : Truth} → t ⊑ u → t ≡ false → u ≡ false
⊑-false (open_value u) e = cc
⊑-false (same t) e = e
