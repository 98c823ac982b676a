-- ===== src/Feed/Sources/Coverage.antt =====
-- What `source_cover` and `plan` of crates/api/src/feed/mod.rs promise: every match of the
-- expression lies in a source, and the number of sources is bounded.
use neddit.Prelude.{
  ◌≡◌, refl, sym, ◌∙◌, Bool, true, false, not, ltb, List, [], ◌∷◌, map, Option, none, some, arith,
  Str, str_eq, str_eq→eq, eq→str_eq, length, set_insert, set_contains, set_contains-set_insert,
  set_contains-set_union, to_ascii_lowercase, eq_ignore_ascii_case-lower, inl, inr, ◌⊎◌, Bool-cases,
}
use neddit.Prelude.Int.{ℤ}
use neddit.Crates.{Crates}
use neddit.Search.Truth.{Truth}
use neddit.Search.Syntax.{Field, Value, Expr, ok, if_err}
use neddit.Search.Record.{Datum, Record, field_or_unknown}
use neddit.Search.Eval.{evaluate}
use neddit.Search.Eval.Direct.{truth, predicate_truth}
use neddit.Search.Eval.Caching.{evaluate-eq-truth}
use neddit.Search.Scalars.{IsScalar, IsScalarExpr}
use neddit.Search.Scope.Required.{Names, Names-of_scalar}
use neddit.Search.Scope.Cover.{wanted, and_cases, or_cases, not_case}
use neddit.Feed.Sources.{
  Source, SourcePlan, predicate_plan, union, cost, sources, choose_cover, key_le, union_cover,
  exact_plan, source_cover, max_subreddits, max_sources, checked_sources, plan,
}

module _ (lib : Crates) (r : Record) (frozen : ℤ) where
  -- The record has a text in the field that is in the set, in small letters.
  abbrev pub In : Field → List Str → Type 0
  In f l =
      (s : Str) × (field_or_unknown r f ≡ Datum.text s)
      × (set_contains l (to_ascii_lowercase s) ≡ true)

  -- The record is in one of the plan's communities, or of one of its authors.
  abbrev pub Covered : SourcePlan → Type 0
  Covered p = In Field.subreddit p.subreddits ⊎ In Field.author p.authors

  union_left : (p q : SourcePlan) → Covered p → Covered (union p q)
  unfolding union
  union_left p q (inl (s, e, c)) = inl (
    s,
    e,
    ground (arith, set_contains-set_union (to_ascii_lowercase s) p.subreddits q.subreddits),
  )
  union_left p q (inr (s, e, c)) =
      inr (s, e, ground (arith, set_contains-set_union (to_ascii_lowercase s) p.authors q.authors))

  union_right : (p q : SourcePlan) → Covered q → Covered (union p q)
  unfolding union
  union_right p q (inl (s, e, c)) = inl (
    s,
    e,
    ground (arith, set_contains-set_union (to_ascii_lowercase s) p.subreddits q.subreddits),
  )
  union_right p q (inr (s, e, c)) =
      inr (s, e, ground (arith, set_contains-set_union (to_ascii_lowercase s) p.authors q.authors))

  choose_Covered :
      (o o' : Option SourcePlan) (p : SourcePlan)
      → choose_cover o o' ≡ some p
      → ((q : SourcePlan) → o ≡ some q → Covered q)
      → ((q : SourcePlan) → o' ≡ some q → Covered q)
      → Covered p
  unfolding choose_cover
  choose_Covered (some a) (some b) p h l m = elim (Bool-cases (key_le a b)) [
    | inl e ↦ l p (ground arith)
    | inr e ↦ m p (ground arith)
  ]
  choose_Covered (some a) none p h l m = l p h
  choose_Covered none (some b) p h l m = m p h
  choose_Covered none none p h l m = cc

  union_Covered :
      (o o' : Option SourcePlan) (p : SourcePlan)
      → union_cover o o' ≡ some p
      → (((q : SourcePlan) → o ≡ some q → Covered q) ⊎ ((q : SourcePlan) → o' ≡ some q → Covered q))
      → Covered p
  union_Covered none o' p h c = cc
  union_Covered (some a) none p h c = cc
  union_Covered (some a) (some b) p h (inl l) =
      let is : p ≡ union a b = ground arith in rw is (union_left a b (l a refl))
  union_Covered (some a) (some b) p h (inr m) =
      let is : p ≡ union a b = ground arith in rw is (union_right a b (m b refl))

  name_In :
      (f : Field) (v raw : Str)
      → v ≡ to_ascii_lowercase raw
      → Names lib r frozen f v
      → In f (set_insert v [])
  name_In f v raw k (s, e, ci) =
      let low = eq_ignore_ascii_case-lower s raw (rw k at ci) in
      let same = eq→str_eq v (to_ascii_lowercase s) (k ∙ sym low) in
      (s, e, ground (arith, set_contains-set_insert (to_ascii_lowercase s) v []))

  -- A predicate that names a source, by its field and its value.
  value_Covered :
      (f : Field) (raw : Str) (w : Value) (p : SourcePlan)
      → IsScalar lib f raw w
      → exact_plan (record { field = f; raw = raw; value = w }) ≡ some p
      → predicate_truth lib (record { field = f; raw = raw; value = w }) r frozen ≡ Truth.true
      → Covered p
  unfolding predicate_plan
  value_Covered Field.subreddit raw (Value.exact w) p s h t =
      let (n, k) =
        Names-of_scalar lib r frozen Field.subreddit Field.subreddit raw w (Value.exact w) refl refl
          s refl t in
      let is : p ≡ record { subreddits = set_insert w []; authors = [] } = ground arith in
      rw is (inl (name_In Field.subreddit w raw k n))
  value_Covered Field.author raw (Value.exact w) p s h t =
      let (n, k) =
        Names-of_scalar lib r frozen Field.author Field.author raw w (Value.exact w) refl refl s
          refl t in
      let is : p ≡ record { subreddits = []; authors = set_insert w [] } = ground arith in
      rw is (inr (name_In Field.author w raw k n))
  value_Covered f raw (Value.exact w) p s h t = cc
  value_Covered f raw v p s h t = cc

  cover_Covered :
      (e : Expr) (negative : Bool) (p : SourcePlan)
      → IsScalarExpr lib e
      → source_cover e negative ≡ some p
      → truth lib e r frozen ≡ wanted negative
      → Covered p
  unfolding source_cover truth
  cover_Covered (Expr.not e _) negative p s h t =
      cover_Covered e (not negative) p s h (not_case negative (truth lib e r frozen) t)
  cover_Covered (Expr.and a b _) true p s h t =
      union_Covered (source_cover a true) (source_cover b true) p h
        (elim (and_cases true (truth lib a r frozen) (truth lib b r frozen) t) [
          | inl ta ↦ inl (λ q c. cover_Covered a true q s.0 c ta)
          | inr tb ↦ inr (λ q c. cover_Covered b true q s.1 c tb)
        ])
  cover_Covered (Expr.and a b _) false p s h t =
      let (ta, tb) = and_cases false (truth lib a r frozen) (truth lib b r frozen) t in
      choose_Covered (source_cover a false) (source_cover b false) p h
        (λ q c. cover_Covered a false q s.0 c ta) (λ q c. cover_Covered b false q s.1 c tb)
  cover_Covered (Expr.or a b _) true p s h t =
      let (ta, tb) = or_cases true (truth lib a r frozen) (truth lib b r frozen) t in
      choose_Covered (source_cover a true) (source_cover b true) p h
        (λ q c. cover_Covered a true q s.0 c ta) (λ q c. cover_Covered b true q s.1 c tb)
  cover_Covered (Expr.or a b _) false p s h t =
      union_Covered (source_cover a false) (source_cover b false) p h
        (elim (or_cases false (truth lib a r frozen) (truth lib b r frozen) t) [
          | inl ta ↦ inl (λ q c. cover_Covered a false q s.0 c ta)
          | inr tb ↦ inr (λ q c. cover_Covered b false q s.1 c tb)
        ])
  cover_Covered (Expr.predicate p _) true q s h t = cc
  cover_Covered (Expr.predicate p _) false q s h t = value_Covered p.field p.raw p.value q s h t

  -- The post is in the listing that the source asks for.
  abbrev pub IsFrom : Source → Type 0
  IsFrom (Source.subreddits l) = In Field.subreddit l
  IsFrom (Source.author a) =
      (s : Str) × (field_or_unknown r Field.author ≡ Datum.text s) × (a ≡ to_ascii_lowercase s)

  -- One of the sources holds the post.
  abbrev pub Some : List Source → Type 0
  Some [] = ⊥
  Some (s ∷ l) = IsFrom s ⊎ Some l

  authors_Some : (l : List Str) → In Field.author l → Some (map Source.author l)
  unfolding set_contains
  authors_Some [] (s, e, c) = cc
  authors_Some (a ∷ l) (s, e, c) = elim (Bool-cases (str_eq a (to_ascii_lowercase s))) [
    | inl k ↦ inl (s, e, str_eq→eq a (to_ascii_lowercase s) k)
    | inr k ↦ inr (authors_Some l (s, e, ground arith))
  ]

  sources_go :
      (l m : List Str)
      → Covered (record { subreddits = l; authors = m })
      → Some (sources (record { subreddits = l; authors = m }))
  unfolding sources set_contains
  sources_go [] m (inl (s, e, h)) = cc
  sources_go [] m (inr h) = authors_Some m h
  sources_go (x ∷ l) m (inl h) = inl h
  sources_go (x ∷ l) m (inr h) = inr (authors_Some m h)

  checked_Some :
      (e : Expr) (o : Option SourcePlan) (l : List Source)
      → ((p : SourcePlan) → o ≡ some p → Covered p)
      → checked_sources e o ≡ ok l
      → Some l
  unfolding checked_sources
  checked_Some e none l c h = cc
  checked_Some e (some p) l c h =
      let (a, ha) = if_err (ltb max_subreddits (length p.subreddits)) _ _ h in
      let (b, hb) = if_err (ltb max_sources (cost p)) _ _ ha in
      let is : l ≡ sources p = ground arith in rw is (sources_go p.subreddits p.authors (c p refl))

  -- Where a feed is accepted, every post that its expression is true of is in one of the
  -- sources: in a listed community, or by a listed author.
  pub plan-Some :
      (e : Expr) (l : List Source)
      → IsScalarExpr lib e
      → plan e ≡ ok l
      → evaluate lib e r frozen ≡ Truth.true
      → Some l
  unfolding plan
  plan-Some e l s h t =
      checked_Some e (source_cover e false) l
        (λ p c. cover_Covered e false p s c (rw evaluate-eq-truth at t)) h
