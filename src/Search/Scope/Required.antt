-- ===== src/Search/Scope/Required.antt =====
-- What `required`, `names` and `contradictory` of crates/api/src/search/engine.rs say of the
-- records that an expression is true of.
use neddit.Prelude.{
  ◌≡◌, refl, sym, ◌∙◌, Bool, true, false, Option, none, some, arith, Str, str_eq→eq,
  eq_ignore_ascii_case, to_ascii_lowercase, Bool-cases, Option-cases, inl, inr, ◌⊎◌,
}
use neddit.Prelude.Int.{ℤ}
use neddit.Crates.{Crates}
use neddit.Search.Truth
use neddit.Search.Truth.{Truth}
use neddit.Search.Syntax.{Field, field_eq→eq, Value, Predicate, Expr, field_eq}
use neddit.Search.Record.{Datum, Record, field_or_unknown}
use neddit.Search.Eval.{evaluate, exact_matches}
use neddit.Search.Eval.Direct.{datum_truth, text_truth, field_truth, predicate_truth, truth}
use neddit.Search.Eval.Caching.{evaluate-eq-truth}
use neddit.Search.Scalars.{IsScalar, IsScalarExpr}
use neddit.Search.Scope.{key, agree, required}

pub and-true : (t u : Truth) → Truth.and t u ≡ Truth.true → (t ≡ Truth.true) × (u ≡ Truth.true)
and-true Truth.true u h = ground arith
and-true Truth.false u h = cc
and-true Truth.unknown u h = ground arith

pub or-true : (t u : Truth) → Truth.or t u ≡ Truth.true → (t ≡ Truth.true) ⊎ (u ≡ Truth.true)
or-true Truth.true u h = inl refl
or-true Truth.false u h = ground arith
or-true Truth.unknown u h = ground arith

agree_left : (o p : Option Str) (v : Str) → agree o p ≡ some v → o ≡ some v
agree_left none p v h = h
agree_left (some u) none v h = cc
agree_left (some u) (some w) v h = ground arith

agree_right : (o p : Option Str) (v : Str) → agree o p ≡ some v → p ≡ some v
agree_right none p v h = cc
agree_right (some u) none v h = cc
agree_right (some u) (some w) v h = ground (arith, str_eq→eq u w)

-- The fields that hold the name of one thing.
abbrev pub is_name : Field → Bool
is_name Field.subreddit = true
is_name Field.author = true
is_name Field.name = true
is_name _ = false

module _ (lib : Crates) (r : Record) (frozen : ℤ) where
  -- A predicate of the field that holds of the record, with its text.
  pub record Holds (f : Field) (v : Str) : Type 0 where
    pub predicate : Predicate
    pub at_field : predicate.field ≡ f
    pub at_key : key predicate ≡ v
    pub is_scalar : IsScalar lib predicate.field predicate.raw predicate.value
    pub is_true : predicate_truth lib predicate r frozen ≡ Truth.true

  pub required-Holds :
      (e : Expr) (f : Field) (v : Str)
      → IsScalarExpr lib e
      → required e f ≡ some v
      → truth lib e r frozen ≡ Truth.true
      → Holds f v
  unfolding required truth
  required-Holds (Expr.predicate p _) f v s h t = elim (Bool-cases (field_eq p.field f)) [
    | inl e ↦ record {
      predicate = p;
      at_field = field_eq→eq p.field f e;
      at_key = ground arith;
      is_scalar = s;
      is_true = t;
    }
    | inr e ↦ ground arith
  ]
  required-Holds (Expr.not e _) f v s h t = cc
  required-Holds (Expr.and a b _) f v s h t =
      let (ta, tb) = and-true (truth lib a r frozen) (truth lib b r frozen) t in
      elim (Option-cases (required a f)) [
        | inl e ↦ required-Holds b f v s.1 (ground arith) tb
        | inr (w, e) ↦ required-Holds a f v s.0 (ground arith) ta
      ]
  required-Holds (Expr.or a b _) f v s h t =
      elim (or-true (truth lib a r frozen) (truth lib b r frozen) t) [
        | inl ta ↦ required-Holds a f v s.0 (agree_left (required a f) (required b f) v h) ta
        | inr tb ↦ required-Holds b f v s.1 (agree_right (required a f) (required b f) v h) tb
      ]

  -- The record has a text in the field that equals `v` but for the case of letters.
  abbrev pub Names : Field → Str → Type 0
  Names f v = (s : Str) × (field_or_unknown r f ≡ Datum.text s) × (eq_ignore_ascii_case s v ≡ true)

  name_true :
      (f : Field) (raw w : Str)
      → is_name f ≡ true
      → predicate_truth lib (record { field = f; raw = raw; value = Value.exact w }) r frozen
        ≡ Truth.true
      → Names f w
  unfolding predicate_truth field_truth datum_truth text_truth exact_matches
  name_true Field.subreddit raw w h t = ground arith
  name_true Field.author raw w h t = ground arith
  name_true Field.name raw w h t = ground arith
  name_true _ raw w h t = ground arith

  exact_of_scalar :
      (f : Field) (raw : Str) (w : Value)
      → is_name f ≡ true
      → IsScalar lib f raw w
      → w ≡ Value.exact (to_ascii_lowercase raw)
  exact_of_scalar Field.subreddit raw w h s = s
  exact_of_scalar Field.author raw w h s = s
  exact_of_scalar Field.name raw w h s = s
  exact_of_scalar _ raw w h s = cc

  pub Names-of_scalar :
      (f g : Field) (raw v : Str) (w : Value)
      → is_name f ≡ true
      → g ≡ f
      → IsScalar lib g raw w
      → key (record { field = g; raw = raw; value = w }) ≡ v
      → predicate_truth lib (record { field = g; raw = raw; value = w }) r frozen ≡ Truth.true
      → Names f v × (v ≡ to_ascii_lowercase raw)
  Names-of_scalar f g raw v w n e s k t =
      let x = exact_of_scalar f raw w n (rw e at s) in
      let named = name_true f raw (to_ascii_lowercase raw) n (rw (e, x) at t) in
      let v_is : v ≡ to_ascii_lowercase raw = sym k ∙ (rw x refl) in (rw v_is named, v_is)

  -- Where an expression requires a name, every record that it is true of has that name, but for
  -- the case of letters.
  pub required_sound :
      (e : Expr) (f : Field) (v : Str)
      → is_name f ≡ true
      → IsScalarExpr lib e
      → required e f ≡ some v
      → evaluate lib e r frozen ≡ Truth.true
      → Names f v
  required_sound e f v n s h t =
      let found = required-Holds e f v s h (rw evaluate-eq-truth at t) in
      let p = found.predicate in
      (Names-of_scalar f p.field p.raw v p.value n found.at_field found.is_scalar found.at_key
        found.is_true).0
