-- ===== src/Search/Scope/Planning.antt =====
-- `plan` of crates/api/src/search/engine.rs: what an accepted search asks of Reddit, and that no
-- match lies outside it.
use neddit.Prelude.{
  ◌≡◌, refl, ap, false, ◌||◌, List, [], ◌∷◌, Option, none, some, arith, Str, str_eq, str_eq→eq,
  contains, inl, inr, ◌⊎◌, Option-cases, sort_by, insert_by, str_leb,
}
use neddit.Prelude.Int.{ℤ}
use neddit.Crates.{Crates}
use neddit.Search.Truth.{Truth}
use neddit.Search.Syntax.{Mode, Field, Value, Expr, ok, span, >>=-eq-ok}
use neddit.Search.Record.{Record}
use neddit.Search.Eval.{text_tokens, evaluate}
use neddit.Search.Eval.Direct.{predicate_truth}
use neddit.Search.Eval.Caching.{evaluate-eq-truth}
use neddit.Search.Scalars.{IsScalarExpr}
use neddit.Search.Request.{Request, Plan}
use neddit.Search.Scope.{
  required, cover, names, comment_scope, community_text, put_distinct, dedup, or_else, with_field,
  ok_or, plan_communities, plan_kind, check_query, plan,
}
use neddit.Search.Scope.Cover.{cover_sound}
use neddit.Search.Scope.Required.{Names, required_sound, required-Holds}
use neddit.Search.Scope.Names.{names_sound}
use neddit.Search.Scope.Guards.{plan_inversion}
use neddit.Search.Scope.Asked.{Upstream, Mentions, IsReaching, IsText, scalar_text}

contains-insert_by :
    (s t : Str) (l : List Str) → contains (insert_by str_leb s l) t ≡ (str_eq s t || contains l t)
unfolding insert_by
contains-insert_by s t [] = refl
contains-insert_by s t (u ∷ l) = ground (arith, contains-insert_by s t l)

contains-sort_by : (l : List Str) (t : Str) → contains (sort_by str_leb l) t ≡ contains l t
unfolding sort_by
contains-sort_by [] t = refl
contains-sort_by (s ∷ l) t =
    ground (arith, contains-insert_by s t (sort_by str_leb l), contains-sort_by l t)

contains-put_distinct :
    (s t : Str) (l : List Str) → contains (put_distinct s l) t ≡ (str_eq s t || contains l t)
contains-put_distinct s t [] = refl
contains-put_distinct s t (u ∷ l) = ground (arith, str_eq→eq s u)

contains-dedup : (l : List Str) (t : Str) → contains (dedup l) t ≡ contains l t
unfolding dedup
contains-dedup [] t = refl
contains-dedup (s ∷ l) t = ground (arith, contains-put_distinct s t (dedup l), contains-dedup l t)

scope_cases :
    (o p : Option Str) (f : Field) (v : Str)
    → or_else (with_field Field.author o) (with_field Field.subreddit p) ≡ some (f, v)
    → ((f ≡ Field.author) × (o ≡ some v)) ⊎ ((f ≡ Field.subreddit) × (p ≡ some v))
scope_cases none none f v h = cc
scope_cases none (some w) f v h = inr (ground arith, ground arith)
scope_cases (some w) p f v h = inl (ground arith, ground arith)

module _ (lib : Crates) where
  abbrev Reaching : Expr → Plan → Type 0
  Reaching = IsReaching lib

  module _ (e : Expr) (s : IsScalarExpr lib e) where
    comment_scope-Names :
        (f : Field) (v : Str) (r : Record) (frozen : ℤ)
        → evaluate lib e r frozen ≡ Truth.true
        → comment_scope e ≡ some (f, v)
        → Names lib r frozen f v
    unfolding comment_scope
    comment_scope-Names f v r frozen t h =
        elim (scope_cases (required e Field.author) (required e Field.subreddit) f v h) [
          | inl (a, q) ↦ rw a (required_sound lib r frozen e Field.author v refl s q t)
          | inr (a, q) ↦ rw a (required_sound lib r frozen e Field.subreddit v refl s q t)
        ]

    posts-IsReaching : (q : Str) → cover e false ≡ some q → Reaching e (Plan.posts q)
    posts-IsReaching q h =
        let (u, p, m) = cover_sound lib e q s h in
        record { upstream = Upstream.query u; plan = ap Plan.posts p; reaches = m }

    text_true :
        (f : Field) (q : Str) (r : Record) (frozen : ℤ)
        → IsText lib f
        → required e f ≡ some q
        → evaluate lib e r frozen ≡ Truth.true
        → predicate_truth lib
            (record { field = f; raw = q; value = Value.text (text_tokens lib q) })
            r
            frozen
          ≡ Truth.true
    text_true f q r frozen is h t =
        let found = required-Holds lib r frozen e f q s h (rw evaluate-eq-truth at t) in
        scalar_text lib f q r frozen is found

    community_text-IsReaching :
        (q : Str) → community_text e ≡ some q → Reaching e (Plan.communities q)
    unfolding community_text
    community_text-IsReaching q h = record {
      upstream = Upstream.mentioning q;
      plan = refl;
      reaches = λ r frozen t. mentioned r frozen t;
    }
      where
        mentioned :
            (r : Record) (frozen : ℤ)
            → evaluate lib e r frozen ≡ Truth.true
            → Mentions lib q r frozen
        mentioned r frozen t = elim (Option-cases (required e Field.text)) [
          | inr (w, a) ↦ inl (text_true Field.text q r frozen tt (ground arith) t)
          | inl a ↦ elim (Option-cases (required e Field.title)) [
            | inr (w, b) ↦ inr (inl (text_true Field.title q r frozen tt (ground arith) t))
            | inl b ↦ inr (inr (text_true Field.description q r frozen tt (ground arith) t))
          ]
        ]

    names-IsReaching :
        (vs : List Str) → names e ≡ some vs → Reaching e (Plan.names (dedup (sort_by str_leb vs)))
    names-IsReaching vs h = record {
      upstream = Upstream.communities (dedup (sort_by str_leb vs));
      plan = refl;
      reaches = λ r frozen t.
          let (n, en, c) = names_sound lib r frozen e vs s h t in
          (n, en, rw (contains-dedup, contains-sort_by) c);
    }

    ok_or-some :
        {A : Type 0} (o : Option A) (c : _) (x : A) → ok_or o c (span e) ≡ ok x → o ≡ some x
    ok_or-some none c x h = cc
    ok_or-some (some y) c x h = ground arith

    communities-IsReaching :
        (q : Request) (p : Plan) (o : Option (List Str))
        → names e ≡ o
        → plan_communities q e o ≡ ok p
        → Reaching e p
    unfolding plan_communities
    communities-IsReaching q p (some vs) n h =
        let is : p ≡ Plan.names (dedup (sort_by str_leb vs)) = ground arith in
        rw is (names-IsReaching vs n)
    communities-IsReaching q p none n h =
        let (u, found, done) = >>=-eq-ok (ok_or (community_text e) _ (span e)) _ h in
        let is : p ≡ Plan.communities u = ground arith in
        rw is (community_text-IsReaching u (ok_or-some (community_text e) _ u found))

    kind-IsReaching : (k : Mode) (q : Request) (p : Plan) → plan_kind k q e ≡ ok p → Reaching e p
    unfolding plan_kind
    kind-IsReaching Mode.posts q p h =
        let (u, found, done) = >>=-eq-ok (ok_or (cover e false) _ (span e)) _ h in
        let is : p ≡ Plan.posts u = ground arith in
        rw is (posts-IsReaching u (ok_or-some (cover e false) _ u found))
    kind-IsReaching Mode.comments q p h =
        let (scope, found, done) = >>=-eq-ok (ok_or (comment_scope e) _ (span e)) _ h in
        let is : p ≡ Plan.comments scope.0 scope.1 = ground arith in
        rw is (record {
          upstream = Upstream.history scope.0 scope.1;
          plan = refl;
          reaches = λ r frozen t.
              comment_scope-Names scope.0 scope.1 r frozen t
                (ok_or-some (comment_scope e) _ scope found);
        })
    kind-IsReaching Mode.communities q p h = communities-IsReaching q p (names e) refl h

    check_query_same : (p p' : Plan) → check_query e p ≡ ok p' → p' ≡ p
    unfolding check_query
    check_query_same (Plan.posts q) p' h = ground arith
    check_query_same (Plan.communities q) p' h = ground arith
    check_query_same (Plan.comments f v) p' h = ground arith
    check_query_same (Plan.names vs) p' h = ground arith

module _ (lib : Crates) where
  -- An accepted search asks Reddit for something, the same for all records, in which every record
  -- is of which the expression is true: it meets the query that the upstream text prints, it has the
  -- author or the community that is listed, it is one of the communities that are looked up, or
  -- it mentions the words of the text that is searched for.
  pub plan-Reaches :
      (q : Request) (e : Expr) (p : Plan)
      → IsScalarExpr lib e
      → plan q e ≡ ok p
      → IsReaching lib e p
  plan-Reaches q e p s h =
      let (accepted, (p', hk, hq)) = plan_inversion q e p h in
      let same = check_query_same lib e s p' p hq in
      rw same (kind-IsReaching lib e s q.kind q p' hk)
