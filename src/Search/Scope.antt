-- ===== src/Search/Scope.antt =====
-- The discovery plan that an expression is compiled to: `plan` of crates/api/src/search/engine.rs
-- and the functions that it rests on, and `contradictory`.
pub mod Required
pub mod Guards
pub mod Asked
pub mod Planning
pub mod Discovered
pub mod Upstream
pub mod Cover
pub mod Contradiction
pub mod Names
use neddit.Prelude.{
  ℕ, Bool, true, false, not, ◌&&◌, ◌||◌, ◌==◌, ltb, if◌then◌else◌, List, [], ◌∷◌, ◌++◌, Option,
  none, some, Str, codes, str_eq, eq_ignore_ascii_case, to_ascii_lowercase, len, length, contains,
  sort_by, str_leb,
}
use neddit.Search.Syntax.{
  Mode, Field, field_eq, Value, Predicate, Expr, span, Span, Code, Diagnostic, diagnostic, Result,
  ok, err, ◌>>=◌, invalid_value, unsupported_sort, scope_required, unsupported_capability,
  query_too_complex,
}
use neddit.Search.Request.{Request, ListingTime, Plan, sort_of, limit_of, sorts}

-- `value.replace(c, [92, c])` for one character
escape : ℕ → Str → Str
escape c [] = []
escape c (d ∷ s) = let rest = escape c s in if d == c then 92 ∷ d ∷ rest else d ∷ rest

pub quote : Str → Str
unfolding escape
quote value = b'"' ∷ (escape b'"' (escape 92 value) ++ b'"' ∷ [])

-- `format!("({a} AND {b})")`, and with OR
abbrev pub joined : Bool → Str → Str → Str
joined and a b =
    codes "(" ++ (a ++ ((if and then codes " AND " else codes " OR ") ++ (b ++ codes ")")))

-- The arms of `cover` for a binary node, after both sides.
join_cover : Bool → Option Str → Option Str → Option Str
join_cover and (some a) (some b) = some (joined and a b)
join_cover and (some a) none = if and then some a else none
join_cover and none (some b) = if and then some b else none
join_cover and none none = none

-- The name of a field in the upstream query.
abbrev upstream_name : Field → Option Str
upstream_name Field.text = some []
upstream_name Field.subreddit = some (codes "subreddit:")
upstream_name Field.author = some (codes "author:")
upstream_name Field.title = some (codes "title:")
upstream_name Field.domain = some (codes "site:")
upstream_name Field.flair = some (codes "flair:")
upstream_name _ = none

-- The value of an exact predicate, and the source text of another.
abbrev pub key : Predicate → Str
key p = elim p.value [ Value.exact v ↦ v | _ ↦ p.raw ]

pub cover_predicate : Predicate → Bool → Option Str
unfolding quote
cover_predicate p true = none
cover_predicate p false = elim (upstream_name p.field) [
  | none ↦ none
  | some name ↦ some (name ++ quote (key p))
]

-- `cover`: the upstream query. `none` is the set of everything.
unfoldable pub cover : Expr → Bool → Option Str
unfolding join_cover cover_predicate
cover (Expr.not e _) negative = cover e (not negative)
cover (Expr.and a b _) negative = join_cover (not negative) (cover a negative) (cover b negative)
cover (Expr.or a b _) negative = join_cover negative (cover a negative) (cover b negative)
cover (Expr.predicate p _) negative = cover_predicate p negative

-- `a.or_else(|| b)`
abbrev pub or_else {ℓ} : {A : Type ℓ} → Option A → Option A → Option A
or_else (some x) o = some x
or_else none o = o

-- `a.filter(|v| b.as_ref() == Some(v))`
abbrev agree : Option Str → Option Str → Option Str
agree none o = none
agree (some v) none = none
agree (some v) (some w) = if str_eq v w then some v else none

-- `required`
unfoldable pub required : Expr → Field → Option Str
required (Expr.predicate p _) f = if field_eq p.field f then some (key p) else none
required (Expr.and a b _) f = or_else (required a f) (required b f)
required (Expr.or a b _) f = agree (required a f) (required b f)
required (Expr.not e _) f = none

-- `values.extend(..)`, where both sides name communities
abbrev both : Option (List Str) → Option (List Str) → Option (List Str)
both none o = none
both (some v) none = none
both (some v) (some w) = some (v ++ w)

-- `names`
unfoldable pub names : Expr → Option (List Str)
names (Expr.predicate p _) =
    if field_eq p.field Field.name then some (to_ascii_lowercase p.raw ∷ []) else none
names (Expr.and a b _) = or_else (names a) (names b)
names (Expr.or a b _) = both (names a) (names b)
names (Expr.not e _) = none

-- Both sides require the field, with values that no text equals at once.
abbrev disagree : Option Str → Option Str → Bool
disagree (some v) (some w) = not (eq_ignore_ascii_case v w)
disagree (some v) none = false
disagree none o = false

-- `contradictory`
unfoldable pub contradictory : Expr → Bool
contradictory (Expr.and a b _) =
    disagree (required a Field.subreddit) (required b Field.subreddit)
    || disagree (required a Field.author) (required b Field.author)
    || disagree (required a Field.name) (required b Field.name)
    || contradictory a
    || contradictory b
contradictory (Expr.or a b _) = contradictory a && contradictory b
contradictory (Expr.not e _) = false
contradictory (Expr.predicate p _) = false

-- `needs_parent`
unfoldable pub needs_parent : Expr → Bool
needs_parent (Expr.predicate p _) =
    field_eq p.field Field.post_title
    || field_eq p.field Field.post_domain
    || field_eq p.field Field.post_flair
needs_parent (Expr.not e _) = needs_parent e
needs_parent (Expr.and a b _) = needs_parent a || needs_parent b
needs_parent (Expr.or a b _) = needs_parent a || needs_parent b

abbrev pub put_distinct : Str → List Str → List Str
put_distinct s [] = s ∷ []
put_distinct s (t ∷ rest) = if str_eq s t then t ∷ rest else s ∷ t ∷ rest

-- `values.dedup()`
unfoldable pub dedup : List Str → List Str
dedup [] = []
dedup (s ∷ l) = put_distinct s (dedup l)

-- A predicate of the first field, or else of the next: the source's `find_map`.
abbrev with_field : Field → Option Str → Option (Field × Str)
with_field f none = none
with_field f (some v) = some (f, v)

unfoldable pub comment_scope : Expr → Option (Field × Str)
unfolding required
comment_scope e =
    or_else (with_field Field.author (required e Field.author))
      (with_field Field.subreddit (required e Field.subreddit))

unfoldable pub community_text : Expr → Option Str
unfolding required
community_text e =
    or_else (required e Field.text)
      (or_else (required e Field.title) (required e Field.description))

abbrev ok_or {ℓ} : {A : Type ℓ} → Option A → Code → Span → Result A
ok_or none c s = err (diagnostic c s)
ok_or (some x) c s = ok x

-- The arm for communities: exact names, or one text for the upstream search.
plan_communities : Request → Expr → Option (List Str) → Result Plan
unfolding community_text dedup
plan_communities r e (some values) =
    let distinct = dedup (sort_by str_leb values) in
    if ltb 100 (length distinct)
    then err (diagnostic query_too_complex (span e))
    else if not (str_eq (sort_of r) (codes "relevance"))
    then err (diagnostic unsupported_sort (span e))
    else ok (Plan.names distinct)
plan_communities r e none = do
  value ← ok_or (community_text e) scope_required (span e)
  ok (Plan.communities value)

pub plan_kind : Mode → Request → Expr → Result Plan
unfolding cover comment_scope plan_communities names
plan_kind Mode.posts r e = do q ← ok_or (cover e false) scope_required (span e); ok (Plan.posts q)
plan_kind Mode.comments r e = do
  scope ← ok_or (comment_scope e) unsupported_capability (span e)
  ok (Plan.comments scope.0 scope.1)
plan_kind Mode.communities r e = plan_communities r e (names e)

pub check_query : Expr → Plan → Result Plan
check_query e (Plan.posts q) =
    if ltb 512 (len q) then err (diagnostic query_too_complex (span e)) else ok (Plan.posts q)
check_query e (Plan.communities q) =
    if ltb 512 (len q) then err (diagnostic query_too_complex (span e)) else ok (Plan.communities q)
check_query e p = ok p

-- `![25, 50, 100].contains(&limit)` and the tests on the time window and the sort
abbrev is_page_size : ℕ → Bool
is_page_size n = n == 25 || n == 50 || n == 100

abbrev has_window_time : Option ListingTime → Bool
has_window_time none = false
has_window_time (some t) = true

-- `plan`
unfoldable pub plan : Request → Expr → Result Plan
unfolding plan_kind check_query
plan r e =
    if not (is_page_size (limit_of r))
    then err (diagnostic invalid_value (span e))
    else if has_window_time r.t && not (str_eq (sort_of r) (codes "top"))
    then err (diagnostic invalid_value (span e))
    else if not (contains (sorts r.kind) (sort_of r))
    then err (diagnostic unsupported_sort (span e))
    else (do p ← plan_kind r.kind r e; check_query e p)
