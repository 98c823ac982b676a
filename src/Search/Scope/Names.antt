-- ===== src/Search/Scope/Names.antt =====
-- `names` of crates/api/src/search/engine.rs: the exact communities that a search looks up.
use neddit.Prelude.{
  ◌≡◌, refl, sym, true, List, [], ◌∷◌, ◌++◌, Option, none, some, arith, Str, eq→str_eq,
  to_ascii_lowercase, eq_ignore_ascii_case-lower, contains, inl, inr, Bool-cases, Option-cases,
}
use neddit.Prelude.Int.{ℤ}
use neddit.Crates.{Crates}
use neddit.Search.Truth.{Truth}
use neddit.Search.Syntax.{Field, field_eq, field_eq→eq, Predicate, Expr}
use neddit.Search.Record.{Datum, Record, field_or_unknown}
use neddit.Search.Eval.{evaluate}
use neddit.Search.Eval.Direct.{truth, predicate_truth}
use neddit.Search.Eval.Caching.{evaluate-eq-truth}
use neddit.Search.Scalars.{IsScalar, IsScalarExpr}
use neddit.Search.Scope.{key, both, names}
use neddit.Search.Scope.Required.{and-true, or-true, Names-of_scalar}

contains-append_left :
    (xs ys : List Str) (s : Str) → contains xs s ≡ true → contains (xs ++ ys) s ≡ true
contains-append_left [] ys s h = cc
contains-append_left (x ∷ xs) ys s h = ground (arith, contains-append_left xs ys s)

contains-append_right :
    (xs ys : List Str) (s : Str) → contains ys s ≡ true → contains (xs ++ ys) s ≡ true
contains-append_right [] ys s h = h
contains-append_right (x ∷ xs) ys s h = ground (arith, contains-append_right xs ys s)

both-some :
    (o p : Option (List Str)) (vs : List Str)
    → both o p ≡ some vs
    → (us ws : List Str) × (o ≡ some us) × (p ≡ some ws) × (vs ≡ us ++ ws)
both-some none p vs h = cc
both-some (some v) none vs h = cc
both-some (some v) (some w) vs h = (v, w, refl, refl, ground arith)

module _ (lib : Crates) (r : Record) (frozen : ℤ) where
  -- The record has a name, and in small letters it is one of the list.
  abbrev pub Named : List Str → Type 0
  Named vs =
      (s : Str) × (field_or_unknown r Field.name ≡ Datum.text s)
      × (contains vs (to_ascii_lowercase s) ≡ true)

  predicate_Named :
      (p : Predicate)
      → field_eq p.field Field.name ≡ true
      → IsScalar lib p.field p.raw p.value
      → predicate_truth lib p r frozen ≡ Truth.true
      → Named (to_ascii_lowercase p.raw ∷ [])
  predicate_Named p n s t =
      let ((name, e, ci), k) =
        Names-of_scalar lib r frozen Field.name p.field p.raw (key p) p.value refl
          (field_eq→eq p.field Field.name n) s refl t in
      let low = eq_ignore_ascii_case-lower name p.raw (rw k at ci) in
      let found = eq→str_eq (to_ascii_lowercase p.raw) (to_ascii_lowercase name) (sym low) in
      (name, e, ground arith)

  names-truth :
      (e : Expr) (vs : List Str)
      → IsScalarExpr lib e
      → names e ≡ some vs
      → truth lib e r frozen ≡ Truth.true
      → Named vs
  unfolding names truth
  names-truth (Expr.predicate p _) vs s h t = elim (Bool-cases (field_eq p.field Field.name)) [
    | inl n ↦
        let vs_is : vs ≡ to_ascii_lowercase p.raw ∷ [] = ground arith in
        rw vs_is (predicate_Named p n s t)
    | inr n ↦ ground arith
  ]
  names-truth (Expr.not e _) vs s h t = cc
  names-truth (Expr.and a b _) vs s h t =
      let (ta, tb) = and-true (truth lib a r frozen) (truth lib b r frozen) t in
      elim (Option-cases (names a)) [
        | inl e ↦ names-truth b vs s.1 (ground arith) tb
        | inr (w, e) ↦ names-truth a vs s.0 (ground arith) ta
      ]
  names-truth (Expr.or a b _) vs s h t =
      let (us, ws, ea, eb, e) = both-some (names a) (names b) vs h in
      elim (or-true (truth lib a r frozen) (truth lib b r frozen) t) [
        | inl ta ↦
            let (n, en, c) = names-truth a us s.0 ea ta in
            (n, en, rw e (contains-append_left us ws (to_ascii_lowercase n) c))
        | inr tb ↦
            let (n, en, c) = names-truth b ws s.1 eb tb in
            (n, en, rw e (contains-append_right us ws (to_ascii_lowercase n) c))
      ]

  -- Where `names` gives a list, every record that the expression is true of is one of the
  -- communities listed.
  pub names_sound :
      (e : Expr) (vs : List Str)
      → IsScalarExpr lib e
      → names e ≡ some vs
      → evaluate lib e r frozen ≡ Truth.true
      → Named vs
  names_sound e vs s h t = names-truth e vs s h (rw evaluate-eq-truth at t)
