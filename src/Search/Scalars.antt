-- ===== src/Search/Scalars.antt =====
-- The predicates that `Parser::scalar` of crates/api/src/search/mod.rs makes: which value each
-- field has.
use neddit.Prelude.{
  ℕ, ◌+◌, ◌-◌, ◌*◌, ◌^◌, ◌<◌, ◌≡◌, ◌≢◌, ◌⊎◌, true, [], ◌∷◌, ◌++◌, length, some, Str, codes, len,
  all, is_ascii_digit, to_ascii_lowercase,
}
use neddit.Prelude.Int.{ℤ, pos, ◌+ℤ◌, scale}
use neddit.Crates.{Crates}
use neddit.Search.Syntax.{Field, Value, Expr}
use neddit.Search.Eval.{domain, text_tokens}

-- The seconds of a unit.
abbrev pub IsUnit : ℕ → ℕ → Type 0
IsUnit c k =
    ((c ≡ b'm') × (k ≡ 60))
    ⊎ ((c ≡ b'h') × (k ≡ 60 * 60))
    ⊎ ((c ≡ b'd') × (k ≡ 24 * 60 * 60))
    ⊎ ((c ≡ b'w') × (k ≡ 7 * 24 * 60 * 60))

-- The number of decimal digits, each with its power of ten.
abbrev pub spelled : Str → ℕ
spelled [] = 0
spelled (c ∷ s) = (c - b'0') * 10 ^ length s + spelled s

-- A number of digits and a unit, and the time that they make, in nanoseconds.
pub record IsPast (raw : Str) (v : Value) : Type 0 where
  pub number : Str
  pub unit : ℕ
  pub seconds : ℕ
  pub text : raw ≡ number ++ (unit ∷ [])
  pub is_unit : IsUnit unit seconds
  pub not_empty : number ≢ []
  pub digits : all (λ c. is_ascii_digit c) number ≡ true
  pub positive : 0 < spelled number * seconds
  pub is_i64 : spelled number * seconds < 2 ^ 63
  pub value : v ≡ Value.duration (pos (spelled number * seconds * 1_000_000_000))

-- A date of ten bytes, or a longer time, which is not in the unknown zone, in nanoseconds.
pub record IsInstant (lib : Crates) (raw : Str) (v : Value) : Type 0 where
  pub seconds : ℤ
  pub nanos : ℕ
  pub form : lib.is_instant raw ≡ true
  pub zone : (p : Str) → raw ≢ p ++ codes "-00:00"
  pub parsed :
      ((len raw ≡ 10) × (lib.parse_date raw ≡ some (seconds, nanos)))
      ⊎ ((len raw ≢ 10) × (lib.parse_rfc3339 raw ≡ some (seconds, nanos)))
  pub value : v ≡ Value.instant (scale 1_000_000_000 seconds +ℤ pos nanos)

-- The value that `scalar` gives a predicate of each field.
abbrev pub IsScalar : Crates → Field → Str → Value → Type 0
IsScalar lib Field.subreddit raw v = v ≡ Value.exact (to_ascii_lowercase raw)
IsScalar lib Field.author raw v = v ≡ Value.exact (to_ascii_lowercase raw)
IsScalar lib Field.name raw v = v ≡ Value.exact (to_ascii_lowercase raw)
IsScalar lib Field.domain raw v = (d : Str) × (v ≡ Value.exact d) × (domain lib raw ≡ some d)
IsScalar lib Field.post_domain raw v = (d : Str) × (v ≡ Value.exact d) × (domain lib raw ≡ some d)
IsScalar lib Field.past raw v = IsPast raw v
IsScalar lib Field.after raw v = IsInstant lib raw v
IsScalar lib Field.before raw v = IsInstant lib raw v
IsScalar lib _ raw v = (v ≡ Value.text (text_tokens lib raw)) × (text_tokens lib raw ≢ [])

-- Every predicate of the expression is one that `scalar` makes.
abbrev pub IsScalarExpr : Crates → Expr → Type 0
IsScalarExpr lib (Expr.predicate p _) = IsScalar lib p.field p.raw p.value
IsScalarExpr lib (Expr.not e _) = IsScalarExpr lib e
IsScalarExpr lib (Expr.and a b _) = IsScalarExpr lib a × IsScalarExpr lib b
IsScalarExpr lib (Expr.or a b _) = IsScalarExpr lib a × IsScalarExpr lib b
