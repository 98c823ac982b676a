-- ===== src/Feed/Sources.antt =====
-- The sources of a custom feed: `SourcePlan`, `source_cover` and `plan` of
-- crates/api/src/feed/mod.rs. A `BTreeSet` of texts is an ordered list without repetition.
pub mod Coverage
pub mod Limits
use neddit.Prelude.{
  ℕ, ◌+◌, Bool, true, false, not, ◌&&◌, ◌||◌, ◌==◌, ltb, leb, if◌then◌else◌, List, [], ◌∷◌, map,
  Option, none, some, Str, codes, length, set_insert, set_union,
}
use neddit.Search.Syntax.{
  Field, Value, Predicate, Expr, span, Code, diagnostic, Result, ok, err, scope_required,
  query_too_complex,
}

pub data Source : Type 0 where
  subreddits : List Str → Source
  author : Str → Source

pub record SourcePlan : Type 0 where
  pub subreddits : List Str
  pub authors : List Str

-- `SourcePlan::predicate`
unfoldable pub predicate_plan : Field → Str → Option SourcePlan
predicate_plan Field.subreddit v = some (record { subreddits = set_insert v []; authors = [] })
predicate_plan Field.author v = some (record { subreddits = []; authors = set_insert v [] })
predicate_plan _ v = none

-- `SourcePlan::union`
unfoldable pub union : SourcePlan → SourcePlan → SourcePlan
union p q = record {
  subreddits = set_union p.subreddits q.subreddits;
  authors = set_union p.authors q.authors;
}

abbrev pub is_empty {ℓ} : {A : Type ℓ} → List A → Bool
is_empty [] = true
is_empty (x ∷ xs) = false

-- `usize::from(b)`
abbrev from_bool : Bool → ℕ
from_bool true = 1
from_bool false = 0

-- `SourcePlan::cost`: all communities are one listing
abbrev pub cost : SourcePlan → ℕ
cost p = length p.authors + from_bool (not (is_empty p.subreddits))

-- `SourcePlan::sources`
unfoldable pub sources : SourcePlan → List Source
sources p =
    let authors = map Source.author p.authors in
    if is_empty p.subreddits then authors else Source.subreddits p.subreddits ∷ authors

-- The order of the keys that `choose_cover` compares.
abbrev key_le : SourcePlan → SourcePlan → Bool
key_le p q =
    let p_communities = from_bool (not (is_empty p.subreddits)) in
    let q_communities = from_bool (not (is_empty q.subreddits)) in
    let p_size = length p.subreddits + length p.authors in
    let q_size = length q.subreddits + length q.authors in
    ltb (cost p) (cost q)
    || (cost p == cost q
        && (ltb p_communities q_communities
            || (p_communities == q_communities && leb p_size q_size)))

-- `choose_cover`
unfoldable pub choose_cover : Option SourcePlan → Option SourcePlan → Option SourcePlan
choose_cover (some p) (some q) = if key_le p q then some p else some q
choose_cover (some p) none = some p
choose_cover none (some q) = some q
choose_cover none none = none

-- `Some(left?.union(right?))`
abbrev union_cover : Option SourcePlan → Option SourcePlan → Option SourcePlan
union_cover none q = none
union_cover (some p) none = none
union_cover (some p) (some q) = some (union p q)

abbrev exact_plan : Predicate → Option SourcePlan
exact_plan p = elim p.value [ Value.exact v ↦ predicate_plan p.field v | _ ↦ none ]

-- `source_cover`: sources that hold every match, or every match of the negation
unfoldable pub source_cover : Expr → Bool → Option SourcePlan
unfolding choose_cover union predicate_plan
source_cover (Expr.not e _) negative = source_cover e (not negative)
source_cover (Expr.and a b _) negative =
    let p = source_cover a negative in
    let q = source_cover b negative in if negative then union_cover p q else choose_cover p q
source_cover (Expr.or a b _) negative =
    let p = source_cover a negative in
    let q = source_cover b negative in if negative then choose_cover p q else union_cover p q
source_cover (Expr.predicate p _) negative = if negative then none else exact_plan p

abbrev pub max_subreddits : ℕ
max_subreddits = 100

abbrev pub max_sources : ℕ
max_sources = 8

checked_sources : Expr → Option SourcePlan → Result (List Source)
unfolding sources
checked_sources e none = err (diagnostic scope_required (span e))
checked_sources e (some p) =
    if ltb max_subreddits (length p.subreddits)
    then err (diagnostic query_too_complex (span e))
    else if ltb max_sources (cost p)
    then err (diagnostic query_too_complex (span e))
    else ok (sources p)

-- `plan`
unfoldable pub plan : Expr → Result (List Source)
unfolding source_cover checked_sources
plan e = checked_sources e (source_cover e false)
