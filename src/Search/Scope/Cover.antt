-- ===== src/Search/Scope/Cover.antt =====
-- The upstream query that `cover` of crates/api/src/search/engine.rs compiles, read as a Boolean
-- combination of predicates: it never leaves out a match.
use neddit.Prelude.{
  ◌≡◌, refl, sym, ap, ◌∙◌, Bool, true, false, not, ◌++◌, Option, none, some, arith, Str, inl, inr,
  ◌⊎◌,
}
use neddit.Prelude.Int.{ℤ}
use neddit.Crates.{Crates}
use neddit.Search.Truth
use neddit.Search.Truth.{Truth}
use neddit.Search.Syntax.{Span, Predicate, Expr}
use neddit.Search.Record.{Record}
use neddit.Search.Eval.{evaluate}
use neddit.Search.Eval.Direct.{truth}
use neddit.Search.Eval.Caching.{evaluate-eq-truth}
use neddit.Search.Scalars.{IsScalar, IsScalarExpr}
use neddit.Search.Scope.{key, join_cover, cover_predicate, cover}
use neddit.Search.Scope.Upstream.{
  Query, atom, both, either, prefix, print, Meets, HasText-key, quote-escaped, sent_index,
}

-- The truth value that an expression has on a match, under a number of negations.
abbrev pub wanted : Bool → Truth
wanted true = Truth.false
wanted false = Truth.true

abbrev pub Parts : Bool → Type 0 → Type 0 → Type 0
Parts true P Q = P × Q
Parts false P Q = P ⊎ Q

pub and_cases :
    (negative : Bool) (t u : Truth)
    → Truth.and t u ≡ wanted negative
    → Parts (not negative) (t ≡ wanted negative) (u ≡ wanted negative)
and_cases true t u h = ground arith
and_cases false t u h = ground arith

pub or_cases :
    (negative : Bool) (t u : Truth)
    → Truth.or t u ≡ wanted negative
    → Parts negative (t ≡ wanted negative) (u ≡ wanted negative)
or_cases true t u h = ground arith
or_cases false t u h = ground arith

pub not_case :
    (negative : Bool) (t : Truth) → Truth.not t ≡ wanted negative → t ≡ wanted (not negative)
not_case negative t h = ground arith

module _ (lib : Crates) where
  -- The text is that of a query that all records with `P` meet.
  record Covers (s : Str) (P : Record → ℤ → Type 0) : Type 0 where
    query : Query
    text : print query ≡ s
    meets : (r : Record) (frozen : ℤ) → P r frozen → Meets lib query r frozen

  abbrev Has : Expr → Bool → Record → ℤ → Type 0
  Has e negative r frozen = truth lib e r frozen ≡ wanted negative

  -- What a binary node needs of its sides, by the way in which they are joined.
  abbrev Splits : Bool → (P Q R : Record → ℤ → Type 0) → Type 0
  Splits true P Q R = (r : Record) (frozen : ℤ) → P r frozen → Q r frozen × R r frozen
  Splits false P Q R = (r : Record) (frozen : ℤ) → P r frozen → Q r frozen ⊎ R r frozen

  module _ (P Q R : Record → ℤ → Type 0) where
    join_Covers :
        (and : Bool) (o o' : Option Str) (s : Str)
        → Splits and P Q R
        → ((u : Str) → o ≡ some u → Covers u Q)
        → ((u : Str) → o' ≡ some u → Covers u R)
        → join_cover and o o' ≡ some s
        → Covers s P
    unfolding join_cover print
    join_Covers true (some a) (some b) s split l m h =
        let ca = l a refl in
        let cb = m b refl in
        record {
          query = both ca.query cb.query;
          text = ground (arith, ca.text, cb.text);
          meets = λ r frozen p.
              let (q, q') = split r frozen p in (ca.meets r frozen q, cb.meets r frozen q');
        }
    join_Covers false (some a) (some b) s split l m h =
        let ca = l a refl in
        let cb = m b refl in
        record {
          query = either ca.query cb.query;
          text = ground (arith, ca.text, cb.text);
          meets = λ r frozen p. elim (split r frozen p) [
            | inl q ↦ inl (ca.meets r frozen q)
            | inr q ↦ inr (cb.meets r frozen q)
          ];
        }
    join_Covers true (some a) none s split l m h =
        let ca = l s h in
        record { query = ca.query; text = ca.text; meets = λ r f p. ca.meets r f (split r f p).0 }
    join_Covers true none (some b) s split l m h =
        let cb = m s h in
        record { query = cb.query; text = cb.text; meets = λ r f p. cb.meets r f (split r f p).1 }
    join_Covers false (some a) none s split l m h = cc
    join_Covers false none (some b) s split l m h = cc
    join_Covers true none none s split l m h = cc
    join_Covers false none none s split l m h = cc

  and_splits :
      (a b : Expr) (sp : Span) (negative : Bool)
      → Splits (not negative) (Has (Expr.and a b sp) negative) (Has a negative) (Has b negative)
  unfolding truth
  and_splits a b sp true = λ r f h. and_cases true (truth lib a r f) (truth lib b r f) h
  and_splits a b sp false = λ r f h. and_cases false (truth lib a r f) (truth lib b r f) h

  or_splits :
      (a b : Expr) (sp : Span) (negative : Bool)
      → Splits negative (Has (Expr.or a b sp) negative) (Has a negative) (Has b negative)
  unfolding truth
  or_splits a b sp true = λ r f h. or_cases true (truth lib a r f) (truth lib b r f) h
  or_splits a b sp false = λ r f h. or_cases false (truth lib a r f) (truth lib b r f) h

  predicate_Covers :
      (p : Predicate) (sp : Span) (s : Str)
      → IsScalar lib p.field p.raw p.value
      → cover_predicate p false ≡ some s
      → Covers s (Has (Expr.predicate p sp) false)
  unfolding truth print
  predicate_Covers p sp s scalar h =
      let (x, field, sent) = sent_index p s h in
      record {
        query = atom x (key p);
        text = sym (sent ∙ ap (λ t. prefix x ++ t) (quote-escaped (key p)));
        meets = λ r f t. HasText-key lib x p r f field scalar t;
      }

  cover_Covers :
      (e : Expr) (negative : Bool) (s : Str)
      → IsScalarExpr lib e
      → cover e negative ≡ some s
      → Covers s (Has e negative)
  unfolding cover truth
  cover_Covers (Expr.and a b sp) negative s sc h =
      join_Covers (Has (Expr.and a b sp) negative) (Has a negative) (Has b negative) (not negative)
        (cover a negative) (cover b negative) s (and_splits a b sp negative)
        (λ u. cover_Covers a negative u sc.0) (λ u. cover_Covers b negative u sc.1) h
  cover_Covers (Expr.or a b sp) negative s sc h =
      join_Covers (Has (Expr.or a b sp) negative) (Has a negative) (Has b negative) negative
        (cover a negative) (cover b negative) s (or_splits a b sp negative)
        (λ u. cover_Covers a negative u sc.0) (λ u. cover_Covers b negative u sc.1) h
  cover_Covers (Expr.not e sp) negative s sc h =
      let c = cover_Covers e (not negative) s sc h in
      record {
        query = c.query;
        text = c.text;
        meets = λ r f t. c.meets r f (not_case negative (truth lib e r f) t);
      }
  cover_Covers (Expr.predicate p sp) true s sc h = cc
  cover_Covers (Expr.predicate p sp) false s sc h = predicate_Covers p sp s sc h

  -- Where an expression whose values are those that the parser makes compiles to an upstream query,
  -- the text is the print of a query that every record meets of which the expression is true. What a
  -- query asks is read from its texts alone: a name itself is looked for, and of another text its
  -- words.
  pub cover_sound :
      (e : Expr) (s : Str)
      → IsScalarExpr lib e
      → cover e false ≡ some s
      → (q : Query) × (print q ≡ s)
        × ((r : Record) (frozen : ℤ) → evaluate lib e r frozen ≡ Truth.true → Meets lib q r frozen)
  cover_sound e s sc h =
      let c = cover_Covers e false s sc h in
      (c.query, c.text, λ r f t. c.meets r f (rw evaluate-eq-truth at t))
