-- ===== src/Feed/Sources/Limits.antt =====
-- The limits on the sources of a feed: `plan` of crates/api/src/feed/mod.rs. That there is a
-- source at all is what the division of `collect` needs.
use neddit.Prelude.{
  ◌≤◌, ◌<◌, ◌+◌, ◌≡◌, refl, Bool, true, false, not, ltb, List, [], ◌∷◌, map, Option, none, some,
  arith, Str, length, set_insert, set_union, Bool-cases, inl, inr,
}
use neddit.Search.Syntax.{Field, Value, Expr, ok, if_err}
use neddit.Feed.Sources.{
  Source, SourcePlan, predicate_plan, union, cost, sources, choose_cover, key_le, union_cover,
  exact_plan, source_cover, max_subreddits, max_sources, checked_sources, plan,
}

length-le-set_insert :
    (t : Str) (l : List Str) → (length l ≤ length (set_insert t l)) × (0 < length (set_insert t l))
unfolding set_insert
length-le-set_insert t [] = omega arith
length-le-set_insert t (s ∷ l) = ground (arith, length-le-set_insert t l)

length-le-set_union : (l ts : List Str) → length l ≤ length (set_union l ts)
unfolding set_union
length-le-set_union l [] = omega arith
length-le-set_union l (t ∷ ts) =
    omega (arith, length-le-set_union (set_insert t l) ts, length-le-set_insert t l)

-- The plan has a source.
abbrev HasSource : SourcePlan → Type 0
HasSource p = 0 < length p.subreddits + length p.authors

choose-HasSource :
    (o o' : Option SourcePlan) (p : SourcePlan)
    → choose_cover o o' ≡ some p
    → ((q : SourcePlan) → o ≡ some q → HasSource q)
    → ((q : SourcePlan) → o' ≡ some q → HasSource q)
    → HasSource p
unfolding choose_cover
choose-HasSource (some a) (some b) p h l m = elim (Bool-cases (key_le a b)) [
  | inl e ↦ l p (ground arith)
  | inr e ↦ m p (ground arith)
]
choose-HasSource (some a) none p h l m = l p h
choose-HasSource none (some b) p h l m = m p h
choose-HasSource none none p h l m = cc

union-HasSource :
    (o o' : Option SourcePlan) (p : SourcePlan)
    → union_cover o o' ≡ some p
    → ((q : SourcePlan) → o ≡ some q → HasSource q)
    → HasSource p
unfolding union
union-HasSource none o' p h l = cc
union-HasSource (some a) none p h l = cc
union-HasSource (some a) (some b) p h l =
    let is : p ≡ union a b = ground arith in
    let some_a = l a refl in
    rw is (
      omega (
        arith,
        length-le-set_union a.subreddits b.subreddits,
        length-le-set_union a.authors b.authors,
      ))

value-HasSource :
    (f : Field) (raw : Str) (w : Value) (p : SourcePlan)
    → exact_plan (record { field = f; raw = raw; value = w }) ≡ some p
    → HasSource p
unfolding predicate_plan
value-HasSource Field.subreddit raw (Value.exact w) p h =
    let is : p ≡ record { subreddits = set_insert w []; authors = [] } = ground arith in
    rw is (omega (arith, length-le-set_insert w []))
value-HasSource Field.author raw (Value.exact w) p h =
    let is : p ≡ record { subreddits = []; authors = set_insert w [] } = ground arith in
    rw is (omega (arith, length-le-set_insert w []))
value-HasSource f raw (Value.exact w) p h = cc
value-HasSource f raw v p h = cc

cover-HasSource :
    (e : Expr) (negative : Bool) (p : SourcePlan) → source_cover e negative ≡ some p → HasSource p
unfolding source_cover
cover-HasSource (Expr.not e _) negative p h = cover-HasSource e (not negative) p h
cover-HasSource (Expr.and a b _) true p h =
    union-HasSource (source_cover a true) (source_cover b true) p h (cover-HasSource a true)
cover-HasSource (Expr.and a b _) false p h =
    choose-HasSource (source_cover a false) (source_cover b false) p h (cover-HasSource a false)
      (cover-HasSource b false)
cover-HasSource (Expr.or a b _) true p h =
    choose-HasSource (source_cover a true) (source_cover b true) p h (cover-HasSource a true)
      (cover-HasSource b true)
cover-HasSource (Expr.or a b _) false p h =
    union-HasSource (source_cover a false) (source_cover b false) p h (cover-HasSource a false)
cover-HasSource (Expr.predicate p _) true q h = cc
cover-HasSource (Expr.predicate p _) false q h = value-HasSource p.field p.raw p.value q h

-- At most 100 communities are asked for in one listing.
abbrev pub IsSmall : Source → Type 0
IsSmall (Source.subreddits l) = (0 < length l) × (length l ≤ 100)
IsSmall (Source.author a) = Unit

abbrev pub AllSmall : List Source → Type 0
AllSmall [] = Unit
AllSmall (s ∷ l) = IsSmall s × AllSmall l

authors_small :
    (l : List Str) → AllSmall (map Source.author l) × (length (map Source.author l) ≡ length l)
authors_small [] = (tt, refl)
authors_small (a ∷ l) = let (s, e) = authors_small l in ((tt, s), ground arith)

sources_small :
    (l m : List Str)
    → 0 < length l + length m
    → length l ≤ 100
    → cost (record { subreddits = l; authors = m }) ≤ 8
    → let found = sources (record { subreddits = l; authors = m }) in
      (0 < length found) × (length found ≤ 8) × AllSmall found
unfolding sources
sources_small [] m h k c = let (s, e) = authors_small m in (omega arith, omega arith, s)
sources_small (x ∷ l) m h k c =
    let (s, e) = authors_small m in (omega arith, omega arith, ((omega arith, k), s))

checked_small :
    (e : Expr) (o : Option SourcePlan) (l : List Source)
    → ((p : SourcePlan) → o ≡ some p → HasSource p)
    → checked_sources e o ≡ ok l
    → (0 < length l) × (length l ≤ 8) × AllSmall l
unfolding checked_sources
checked_small e none l c h = cc
checked_small e (some p) l c h =
    let (a, ha) = if_err (ltb max_subreddits (length p.subreddits)) _ _ h in
    let (b, hb) = if_err (ltb max_sources (cost p)) _ _ ha in
    let is : l ≡ sources p = ground arith in
    rw is (sources_small p.subreddits p.authors (c p refl) (ground arith) (ground arith))

-- An accepted feed has between one and eight sources, and a source that joins communities has
-- between one and a hundred of them.
pub plan_limits :
    (e : Expr) (l : List Source) → plan e ≡ ok l → (0 < length l) × (length l ≤ 8) × AllSmall l
unfolding plan
plan_limits e l h = checked_small e (source_cover e false) l (cover-HasSource e false) h
