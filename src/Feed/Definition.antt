-- ===== src/Feed/Definition.antt =====
-- The definitions behind saved feeds and snapshots: `Request::definition` and
-- `Definition::request` of crates/api/src/feed/shortlinks.rs, with `Request`,
-- `CandidatePool::parse`, `Ranking::resolve` and `expand_rank_preset` of
-- crates/api/src/feed/mod.rs.
pub mod Stable
use neddit.Prelude.{
  ℕ, Bool, true, false, not, ◌&&◌, ◌||◌, ltb, leb, if◌then◌else◌, Option, none, some, Str, codes,
  str_eq, len,
}
use neddit.Crates.{Crates}
use neddit.Search.Syntax.{
  Mode, Expr, span, Span, Code, diagnostic, Result, ok, err, ◌>>=◌, invalid_value, unsupported_pool,
}
use neddit.Search.Record.{trim}
use neddit.Search.Parser.{parse}
use neddit.Search.Request.{ListingTime, get_or}
use neddit.Feed.Sources.{is_empty, plan}
use neddit.Feed.Ranking.{Floats}
use neddit.Feed.Ranking.Grammar.{parse_program}

pub record Request : Type 0 where
  pub q : Str
  pub pool : Option Str
  pub t : Option ListingTime
  pub rank : Option Str
  pub limit : Option ℕ
  pub page : Option ℕ
  pub cursor : Option Str
  pub include_nsfw : Bool

pub record Definition : Type 0 where
  pub version : ℕ
  pub q : Str
  pub pool : Str
  pub t : Option ListingTime
  pub rank : Str
  pub limit : ℕ
  pub include_nsfw : Bool

abbrev hot : Str
hot = codes "sign(score) * log10(max(abs(score), 1)) - age_hours / 12.5"

abbrev new : Str
new = codes "-age_seconds"

abbrev top : Str
top = codes "score"

abbrev discussion : Str
discussion = codes "log1p(comments) - age_hours / 24"

abbrev divisive : Str
divisive = codes "max(0, 1 - 2 * abs(upvote_ratio - 0.5)) * log1p(comments) - age_hours / 168"

-- `expand_rank_preset`
unfoldable pub expand_rank_preset : Str → Str
expand_rank_preset value =
    if str_eq value (codes "new")
    then new
    else if str_eq value (codes "top")
    then top
    else if str_eq value (codes "hot")
    then hot
    else if str_eq value (codes "discussion")
    then discussion
    else if str_eq value (codes "divisive")
    then divisive
    else value

-- `.filter(|value| !value.is_empty()).unwrap_or("hot")`
abbrev or_hot : Str → Str
or_hot value = if is_empty value then codes "hot" else value

-- `Request::rank`
unfoldable pub rank_of : Option Str → Str
rank_of none = codes "hot"
rank_of (some r) = or_hot (trim r)

pub data CandidatePool : Type 0 where
  new_pool top_pool : CandidatePool

-- `CandidatePool::as_str`
abbrev pub pool_text : CandidatePool → Str
pool_text new_pool = codes "new"
pool_text top_pool = codes "top"

abbrev is_some : Option ListingTime → Bool
is_some none = false
is_some (some t) = true

abbrev pool_named : Str → Span → Result CandidatePool
pool_named name span =
    if str_eq name (codes "new")
    then ok new_pool
    else if str_eq name (codes "top")
    then ok top_pool
    else err (diagnostic unsupported_pool span)

abbrev pool_timed : Option ListingTime → Span → CandidatePool → Result CandidatePool
pool_timed t span top_pool = ok top_pool
pool_timed t span new_pool = if is_some t then err (diagnostic invalid_value span) else ok new_pool

-- `CandidatePool::parse`
unfoldable pub pool_of : Request → Span → Result CandidatePool
pool_of r span = pool_named (get_or r.pool (codes "new")) span >>= pool_timed r.t span

-- `(pool == CandidatePool::Top).then(|| self.time())`
abbrev time_of : CandidatePool → Option ListingTime → Option ListingTime
time_of new_pool t = none
time_of top_pool t = some (get_or t ListingTime.all_time)

module _ {F : Type 0} (f : Floats F) (lib : Crates) where
  -- `Request::definition`. `Ranking::resolve` gives an error where the expanded rank does not
  -- parse.
  unfoldable pub definition : Request → Result Definition
  unfolding rank_of
  definition r =
      let rank = rank_of r.rank in
      let limit = get_or r.limit 25 in
      if ltb 4096 (len r.q) || ltb 512 (len rank)
      then err (diagnostic invalid_value (0, 0))
      else if not (leb 1 limit && leb limit 100)
      then err (diagnostic invalid_value (0, 0))
      else (do
        e ← parse lib r.q Mode.posts
        pool ← pool_of r (span e)
        sources ← plan e
        ranking ← parse_program f lib (expand_rank_preset rank)
        ok (record {
          version = 1;
          q = trim r.q;
          pool = pool_text pool;
          t = time_of pool r.t;
          rank = expand_rank_preset rank;
          limit = limit;
          include_nsfw = r.include_nsfw;
        }))

-- `Definition::request`
abbrev pub request : Definition → Request
request d = record {
  q = d.q;
  pool = some d.pool;
  t = d.t;
  rank = some d.rank;
  limit = some d.limit;
  page = none;
  cursor = none;
  include_nsfw = d.include_nsfw;
}
