-- ===== src/Search/Eval/Caching.antt =====
-- The cache of `Expr::evaluate_cached` (crates/api/src/search/mod.rs) never changes a result.
use neddit.Prelude.{
  ◌≡◌, refl, List, [], ◌∷◌, some, arith, Str, str_eq→eq, All, Bool-cases, Option-cases, inl, inr,
}
use neddit.Prelude.Int.{ℤ}
use neddit.Crates.{Crates}
use neddit.Search.Truth
use neddit.Search.Truth.{Truth}
use neddit.Search.Syntax.{Field, Predicate, Expr, field_eq}
use neddit.Search.Record.{Datum, Record, field_or_unknown}
use neddit.Search.Eval.{
  text_tokens, Cache, lookup, cached_tokens, matches, text_matches, fold_matches, value_matches,
  predicate_matches, evaluate_cached, evaluate,
}
use neddit.Search.Eval.Direct.{
  datum_truth, text_truth, some_truth, field_truth, predicate_truth, truth,
}

module _ (lib : Crates) where
  -- Every entry holds the tokens of its key.
  abbrev IsCache : Cache → Type 0
  IsCache = All (λ (s, v). v ≡ text_tokens lib s)

  -- A result with its cache is the value it should be, and the cache stays right.
  record Returns (x : Truth × Cache) (t : Truth) : Type 0 where
    value : x.0 ≡ t
    cache : IsCache x.1

  lookup-IsCache :
      (s : Str) (k : Cache) (v : List Str) → IsCache k → lookup s k ≡ some v → v ≡ text_tokens lib s
  unfolding lookup
  lookup-IsCache s [] v h e = cc
  lookup-IsCache s ((j, w) ∷ k) v h e = ground (arith, str_eq→eq j s, lookup-IsCache s k v h.1)

  cached_tokens_lem :
      (s : Str) (k : Cache)
      → IsCache k
      → ((cached_tokens lib s k).0 ≡ text_tokens lib s) × IsCache (cached_tokens lib s k).1
  unfolding cached_tokens
  cached_tokens_lem s k h = elim (Option-cases (lookup s k)) [
    | inl e ↦ rw (e, cached_tokens) (refl, (refl, h))
    | inr (v, e) ↦ rw (e, cached_tokens) (lookup-IsCache s k v h e, h)
  ]

  text_matches_lem :
      (p : Predicate) (s : Str) (k : Cache)
      → IsCache k
      → Returns (text_matches lib p s k) (text_truth lib p s)
  unfolding text_matches text_truth
  text_matches_lem p s k h = let (e, h') = cached_tokens_lem s k h in ground (arith)

  matches_lem :
      (p : Predicate) (d : Datum) (k : Cache)
      → IsCache k
      → Returns (matches lib p d k) (datum_truth lib p d)
  unfolding matches datum_truth
  matches_lem p (Datum.text s) k h = text_matches_lem p s k h
  matches_lem p Datum.absent k h = record { value = refl; cache = h }
  matches_lem p Datum.unknown k h = record { value = refl; cache = h }

  fold_matches_lem :
      (p : Predicate) (ds : List Datum) (acc : Truth) (k : Cache)
      → IsCache k
      → Returns (fold_matches lib p ds acc k) (some_truth lib p ds acc)
  unfolding fold_matches some_truth
  fold_matches_lem p [] acc k h = record { value = refl; cache = h }
  fold_matches_lem p (d ∷ ds) acc k h =
      let r = matches_lem p d k h in
      rw (← r.value)
        (fold_matches_lem p ds (Truth.or acc (matches lib p d k).0) (matches lib p d k).1 r.cache)

  value_matches_lem :
      (p : Predicate) (r : Record) (k : Cache)
      → IsCache k
      → Returns (value_matches lib p r k) (field_truth lib p r)
  unfolding value_matches field_truth
  value_matches_lem p r k h = elim (Bool-cases (field_eq p.field Field.text)) [
    | inl e ↦ rw e (fold_matches_lem p r.text Truth.false k h)
    | inr e ↦ rw e (matches_lem p (field_or_unknown r p.field) k h)
  ]

  predicate_matches_lem :
      (p : Predicate) (r : Record) (frozen : ℤ) (k : Cache)
      → IsCache k
      → Returns (predicate_matches lib p r frozen k) (predicate_truth lib p r frozen)
  unfolding predicate_matches predicate_truth
  predicate_matches_lem p r frozen k h = ground (arith, value_matches_lem p r k h)

  evaluate_cached_lem :
      (e : Expr) (r : Record) (frozen : ℤ) (k : Cache)
      → IsCache k
      → Returns (evaluate_cached lib e r frozen k) (truth lib e r frozen)
  unfolding evaluate_cached truth
  evaluate_cached_lem (Expr.predicate p _) r frozen k h = predicate_matches_lem p r frozen k h
  evaluate_cached_lem (Expr.not e _) r frozen k h =
      let t = evaluate_cached_lem e r frozen k h in
      record { value = rw t.value refl; cache = t.cache }
  evaluate_cached_lem (Expr.and a b _) r frozen k h =
      let t = evaluate_cached_lem a r frozen k h in
      let u = evaluate_cached_lem b r frozen (evaluate_cached lib a r frozen k).1 t.cache in
      record { value = rw (t.value, u.value) refl; cache = u.cache }
  evaluate_cached_lem (Expr.or a b _) r frozen k h =
      let t = evaluate_cached_lem a r frozen k h in
      let u = evaluate_cached_lem b r frozen (evaluate_cached lib a r frozen k).1 t.cache in
      record { value = rw (t.value, u.value) refl; cache = u.cache }

  -- Evaluation with the cache gives, for every expression and record, the truth value of the
  -- evaluation that computes the tokens of each text anew.
  pub evaluate-eq-truth :
      (e : Expr) (r : Record) (frozen : ℤ) → evaluate lib e r frozen ≡ truth lib e r frozen
  unfolding evaluate
  evaluate-eq-truth e r frozen = (evaluate_cached_lem e r frozen [] tt).value
