-- ===== src/Search/Eval/Direct.antt =====
-- What `Expr::evaluate` stands for: the evaluation of crates/api/src/search/mod.rs without its
-- cache. A text that is known is compared, and an unknown one leaves the predicate open.
use neddit.Prelude.{List, [], ◌∷◌, Str, if◌then◌else◌}
use neddit.Prelude.Int.{ℤ}
use neddit.Crates.{Crates}
use neddit.Search.Truth
use neddit.Search.Truth.{Truth, boolean}
use neddit.Search.Syntax.{Field, Value, Predicate, Expr, field_eq}
use neddit.Search.Record.{Datum, Record, field_or_unknown}
use neddit.Search.Eval.{text_tokens, has_window, exact_matches, during, since}

module _ (lib : Crates) where
  unfoldable pub text_truth : Predicate → Str → Truth
  text_truth p s = elim p.value [
    | Value.text tokens ↦ boolean (has_window tokens (text_tokens lib s))
    | Value.exact v ↦ boolean (exact_matches lib p.field v s)
    | Value.duration d ↦ Truth.unknown
    | Value.instant t ↦ Truth.unknown
  ]

  unfoldable pub datum_truth : Predicate → Datum → Truth
  unfolding text_truth
  datum_truth p Datum.absent = Truth.false
  datum_truth p Datum.unknown = Truth.unknown
  datum_truth p (Datum.text s) = text_truth p s

  -- Some datum of the list matches.
  unfoldable pub some_truth : Predicate → List Datum → Truth → Truth
  unfolding datum_truth
  some_truth p [] acc = acc
  some_truth p (d ∷ ds) acc = some_truth p ds (Truth.or acc (datum_truth p d))

  unfoldable pub field_truth : Predicate → Record → Truth
  unfolding datum_truth some_truth
  field_truth p r =
      if field_eq p.field Field.text
      then some_truth p r.text Truth.false
      else datum_truth p (field_or_unknown r p.field)

  unfoldable pub predicate_truth : Predicate → Record → ℤ → Truth
  unfolding during since field_truth
  predicate_truth p r frozen = elim p.value [
    | Value.duration d ↦ during frozen d r.created
    | Value.instant t ↦ since p.field t r.created
    | Value.text tokens ↦ field_truth p r
    | Value.exact v ↦ field_truth p r
  ]

  unfoldable pub truth : Expr → Record → ℤ → Truth
  unfolding predicate_truth
  truth (Expr.predicate p _) r frozen = predicate_truth p r frozen
  truth (Expr.not e _) r frozen = Truth.not (truth e r frozen)
  truth (Expr.and a b _) r frozen = Truth.and (truth a r frozen) (truth b r frozen)
  truth (Expr.or a b _) r frozen = Truth.or (truth a r frozen) (truth b r frozen)
