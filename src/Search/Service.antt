-- ===== src/Search/Service.antt =====
-- A search by the service: `RedditService::search_ql`, and what it asks of Reddit by
-- `Source for RedditService`, in crates/api/src/search/engine.rs.
pub mod Served
pub mod Shown
pub mod Replied
use neddit.Prelude.{
  ℕ, Bool, true, false, not, ◌&&◌, if◌then◌else◌, List, [], ◌∷◌, Option, none, some, Str, codes,
  str_eq,
}
use neddit.Crates.{Crates}
use neddit.Search.Syntax.{Field, Expr, Diagnostic, diagnostic, Result, ok, err, content_blocked}
use neddit.Search.Request.{Request, ListingTime, Plan, sort_of, top_time}
use neddit.Search.Parser.{parse}
use neddit.Search.Scope.{plan}
use neddit.Search.Page.{Page}
use neddit.Search.Session.{Job, Answer}
use neddit.Search.Session.Store.{Call, Entry, execute}

-- `ListingQuery`, as far as it is set
pub record ListingQuery : Type 0 where
  pub after : Option Str
  pub limit : ℕ
  pub time : Option ListingTime
  pub sr_detail : Option Bool

pub data SearchSort : Type 0 where
  relevance hot top new comments : SearchSort

pub data SubredditSearchSort : Type 0 where
  relevance activity : SubredditSearchSort

-- The calls of the service; comments of a user are asked by New, and a search gives posts.
pub data Query : Type 0 where
  search : ListingQuery → (query : Str) → (include_over_18 : Bool) → SearchSort → Query
  user_comments : (author : Str) → ListingQuery → Query
  recent_comments : (community : Str) → ListingQuery → Query
  search_subreddits :
      ListingQuery → (query : Str) → (include_over_18 : Bool) → SubredditSearchSort → Query
  subreddit_names : List Str → Query
  ids : List Str → Query

unfoldable pub search_sort : Str → SearchSort
search_sort sort =
    if str_eq sort (codes "new")
    then SearchSort.new
    else if str_eq sort (codes "top")
    then SearchSort.top
    else if str_eq sort (codes "hot")
    then SearchSort.hot
    else SearchSort.relevance

abbrev time_of : Request → Plan → Option ListingTime
time_of r (Plan.posts q) = if str_eq (sort_of r) (codes "top") then some (top_time r) else none
time_of r p = none

abbrev detail_of : Plan → Option Bool
detail_of (Plan.comments f v) = some true
detail_of p = none

comments_query : Field → Str → ListingQuery → Query
comments_query Field.author v listing = Query.user_comments v listing
comments_query f v listing = Query.recent_comments v listing

query_of : Plan → Request → ListingQuery → Query
unfolding comments_query search_sort
query_of (Plan.posts q) r listing = Query.search listing q r.include_nsfw (search_sort (sort_of r))
query_of (Plan.comments f v) r listing = comments_query f v listing
query_of (Plan.communities q) r listing = Query.search_subreddits listing q r.include_nsfw (
    if str_eq (sort_of r) (codes "activity")
    then SubredditSearchSort.activity
    else SubredditSearchSort.relevance)
query_of (Plan.names names) r listing = Query.subreddit_names names

-- `Source::page`
unfoldable pub page : Plan → Request → Option Str → ℕ → Query
unfolding query_of
page p r after limit =
    query_of p r
      (record { after = after; limit = limit; time = time_of r p; sr_detail = detail_of p })

-- The sessions call Reddit through `Source`, which answers by the number of the call.
abbrev pub through : (ℕ → Query → Answer) → Job → Job
through reddit j = record j {
  page = λ n p r after limit. reddit n (page p r after limit);
  parents = λ n names. reddit n (Query.ids names);
}

abbrev pub restricted : Bool → Request → Request
restricted allows_nsfw r = if allows_nsfw then r else record r { include_nsfw = false }

module _ (lib : Crates) (parse_uuid : Str → Option Str) (j : Job) where
  planned : Call → List Entry → Expr → Result Plan → Option (Result Page) × List Entry
  unfolding execute
  planned call entries e (err d) = (some (err d), entries)
  planned call entries e (ok p) = execute parse_uuid j (record call { expr = e; plan = p }) entries

  parsed : Call → List Entry → Result Expr → Option (Result Page) × List Entry
  unfolding planned plan
  parsed call entries (err d) = (some (err d), entries)
  parsed call entries (ok e) = planned call entries e (plan call.request e)

  -- `search_ql`; the expression and the plan of the call are made here.
  unfoldable pub search_ql : Bool → Call → List Entry → Option (Result Page) × List Entry
  unfolding parsed parse
  search_ql allows_nsfw call entries =
      let r = restricted allows_nsfw call.request in
      if not allows_nsfw && call.request.include_nsfw
      then (some (err (diagnostic content_blocked (0, 0))), entries)
      else parsed (record call { request = r }) entries (parse lib r.q r.kind)
