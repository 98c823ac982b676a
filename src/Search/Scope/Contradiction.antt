-- ===== src/Search/Scope/Contradiction.antt =====
-- `contradictory` of crates/api/src/search/engine.rs, which the first notice of a search reports.
use neddit.Prelude.{
  ◌≡◌, ◌≢◌, refl, Bool, true, false, ◌||◌, &&-true, Option, none, some, arith, Str,
  eq_ignore_ascii_case, eq_ignore_ascii_case_join, inl, inr, ◌⊎◌,
}
use neddit.Prelude.Int.{ℤ}
use neddit.Crates.{Crates}
use neddit.Search.Truth.{Truth}
use neddit.Search.Syntax.{Field, Expr}
use neddit.Search.Record.{Record}
use neddit.Search.Eval.{evaluate}
use neddit.Search.Eval.Direct.{truth}
use neddit.Search.Eval.Caching.{evaluate-eq-truth}
use neddit.Search.Scalars.{IsScalarExpr}
use neddit.Search.Scope.{disagree, required, contradictory}
use neddit.Search.Scope.Required.{is_name, and-true, or-true, required_sound}

disagree-some :
    (o p : Option Str)
    → disagree o p ≡ true
    → (v w : Str) × (o ≡ some v) × (p ≡ some w) × (eq_ignore_ascii_case v w ≡ false)
disagree-some none p h = cc
disagree-some (some v) none h = cc
disagree-some (some v) (some w) h = (v, w, refl, refl, ground arith)

five :
    (a b c d e : Bool)
    → (a || b || c || d || e) ≡ true
    → (a ≡ true) ⊎ ((b ≡ true) ⊎ ((c ≡ true) ⊎ ((d ≡ true) ⊎ (e ≡ true))))
five a b c d e h = ground arith

module _ (lib : Crates) (r : Record) (frozen : ℤ) where
  disagree_false :
      (a b : Expr) (f : Field)
      → is_name f ≡ true
      → IsScalarExpr lib a
      → IsScalarExpr lib b
      → evaluate lib a r frozen ≡ Truth.true
      → evaluate lib b r frozen ≡ Truth.true
      → disagree (required a f) (required b f) ≢ true
  disagree_false a b f n sa sb ta tb h =
      let (v, w, ev, ew, ne) = disagree-some (required a f) (required b f) h in
      let (s, es, sv) = required_sound lib r frozen a f v n sa ev ta in
      let (s', es', sw) = required_sound lib r frozen b f w n sb ew tb in
      let same : s' ≡ s = cc in let vw = eq_ignore_ascii_case_join s v w sv (rw same at sw) in cc

  truth_of_contradictory :
      (e : Expr) → IsScalarExpr lib e → contradictory e ≡ true → truth lib e r frozen ≢ Truth.true
  unfolding contradictory truth
  truth_of_contradictory (Expr.predicate p _) s h t = cc
  truth_of_contradictory (Expr.not e _) s h t = cc
  truth_of_contradictory (Expr.or a b _) s h t =
      let (ca, cb) = &&-true (contradictory a) (contradictory b) h in
      elim (or-true (truth lib a r frozen) (truth lib b r frozen) t) [
        | inl ta ↦ truth_of_contradictory a s.0 ca ta
        | inr tb ↦ truth_of_contradictory b s.1 cb tb
      ]
  truth_of_contradictory (Expr.and a b _) s h t =
      let (ta, tb) = and-true (truth lib a r frozen) (truth lib b r frozen) t in
      let clash = λ (f : Field) (n : is_name f ≡ true).
        disagree_false a b f n s.0 s.1 (rw evaluate-eq-truth ta) (rw evaluate-eq-truth tb) in
      let named = λ (f : Field). disagree (required a f) (required b f) in
      elim (five (named Field.subreddit) (named Field.author) (named Field.name) (contradictory a)
        (contradictory b) h) [
          | inl d ↦ clash Field.subreddit refl d
          | inr (inl d) ↦ clash Field.author refl d
          | inr (inr (inl d)) ↦ clash Field.name refl d
          | inr (inr (inr (inl c))) ↦ truth_of_contradictory a s.0 c ta
          | inr (inr (inr (inr c))) ↦ truth_of_contradictory b s.1 c tb
        ]

  -- An expression of parsed predicates that `contradictory` reports is true of no record.
  pub contradictory_sound :
      (e : Expr)
      → IsScalarExpr lib e
      → contradictory e ≡ true
      → evaluate lib e r frozen ≢ Truth.true
  contradictory_sound e s h t = truth_of_contradictory e s h (rw evaluate-eq-truth at t)
