-- ===== src/Search/Session/Examples.antt =====
-- The theorems on crates/api/src/search/engine/session.rs, at a search for the posts of one author
-- and the next page of it.
use neddit.Prelude.{
  ℕ, ◌+◌, ◌≡◌, ◌⊎◌, ◌-◌, refl, arith, leb, get_elem?, All, length, ◌≤◌, true, false, List, [], ◌∷◌,
  Option, none, some, Str, codes, str_eq,
}
use neddit.Prelude.Int.{ℤ, pos}
use neddit.Crates.{Crates}
use neddit.Search.Syntax.{Mode, Field, Value, Expr, Result, ok, err}
use neddit.Search.Record.{Post}
use neddit.Search.Request.{Request, Plan}
use neddit.Search.Thing.{PublicThing, F64}
use neddit.Search.Page.{Page}
use neddit.Search.Session.{Answer, Job, Collection}
use neddit.Search.Session.Cursor.{cursor_text, split_dot, parse_usize}
use neddit.Search.Session.Cursor.Again.{cursor_again}
use neddit.Search.Session.Store.{Call, new, page_at, expired, ttl, max_entries}
use neddit.Search.Session.Sound.{IsSound}
use neddit.Search.Session.Table.{timed_by, run}
use neddit.Search.Session.Budgets.{SoundTable, run-Sound, new-Sound}
use neddit.Search.Service.{search_ql}
use neddit.Search.Service.Served.{Serves, searches}
use neddit.Search.Service.Replied.{Replies, searches-Serves}
use neddit.Search.Session.Replay.{Refused, page_at_again}

abbrev crates : Crates
crates = record {
  normalize = λ s. s;
  find_tokens = λ s. s ∷ [];
  parse_host = λ s. some s;
  url_host = λ s. some s;
  is_instant = λ s. false;
  parse_date = λ s. none;
  parse_rfc3339 = λ s. none;
}

abbrev by_ann : Expr
by_ann =
    Expr.predicate
      (record { field = Field.author; raw = codes "ann"; value = Value.exact (codes "ann") })
      (0, 10)

abbrev post_by : Str → Str → PublicThing
post_by name author =
    PublicThing.post
      (record {
        name = name;
        title = codes "title";
        selftext = [];
        subreddit = codes "rust";
        author = author;
        link_flair_text = none;
        url = codes "https://www.reddit.com/";
        created = some (pos 0);
        over_18 = false;
      })
      (pos 0) (pos 1)

abbrev to_nanoseconds : F64 → ℤ
to_nanoseconds t = t

-- The service gives a page of a post by the author and a post by another.
abbrev job : Job
job = record {
  lib = crates;
  to_nanoseconds = to_nanoseconds;
  size = λ x. some 100;
  page = λ n plan r after limit. Answer.listing (record {
    children = post_by (codes "t3_a") (codes "ann") ∷ post_by (codes "t3_b") (codes "bob") ∷ [];
    after = none;
  });
  parents = λ n names. Answer.failure;
  late = λ x. false;
}

abbrev request : Option Str → Request
request cursor = record {
  q = codes "author:ann";
  kind = Mode.posts;
  sort = some (codes "relevance");
  t = none;
  limit = some 25;
  include_nsfw = false;
  cursor = cursor;
}

abbrev call_of : Option Str → Call
call_of cursor = record {
  request = request cursor;
  expr = by_ann;
  plan = Plan.posts (codes "author:\"ann\"");
  fresh_id = codes "id";
  frozen = pos 1000;
  looked_up = 5;
  locked = 6;
  stored = 9;
  in_time = true;
  permit = true;
  dropped = false;
}

abbrev parse_uuid : Str → Option Str
parse_uuid s = some s

abbrev calls : List (Job × Call)
calls = (job, call_of none) ∷ (job, call_of (some (codes "id.1"))) ∷ []

run_example : SoundTable to_nanoseconds (run to_nanoseconds parse_uuid calls [])
run_example = run-Sound to_nanoseconds parse_uuid calls

abbrev fresh : Collection
fresh = new by_ann (Plan.posts (codes "author:\"ann\"")) (pos 1000)

abbrev result_of : Option (Result Page) → Result Page
result_of none = err expired
result_of (some p) = p

abbrev after : Option (Result Page) × Collection
after = page_at job (call_of none) (codes "id") 0 5 fresh

-- The post by the author is served, and the other is not.
abbrev items_of : Option (Result Page) → List Str
items_of (some (ok p)) = names p.items
  where
    names : List PublicThing → List Str
    names [] = []
    names (PublicThing.post p t s ∷ l) = p.name ∷ names l
    names (x ∷ l) = names l
items_of p = []

served :
    (items_of after.0 ≡ codes "t3_a" ∷ [])
    × (page_at job (call_of none) (codes "id") 0 5 fresh ≡ (some (result_of after.0), after.1))
unfolding page_at new neddit.Search.Session.Advance.advance neddit.Search.Session.fetch
    neddit.Search.Session.admit neddit.Search.Thing.correct_kind
    neddit.Search.Session.Hydrate.evaluate neddit.Search.Scope.needs_parent
    neddit.Search.Thing.identity neddit.Search.Session.Judge.verdict
    neddit.Search.Session.Judge.judge neddit.Search.Eval.evaluate
    neddit.Search.Session.Judge.evaluated_record neddit.Search.Thing.record_of
    neddit.Search.Record.post_record neddit.Search.Session.Judge.visibility
    neddit.Search.Session.Judge.comment_window neddit.Prelude.sort_by
served = (refl, refl)

fresh_Sound : IsSound to_nanoseconds (request none) fresh
fresh_Sound =
    new-Sound to_nanoseconds (request none) by_ann (Plan.posts (codes "author:\"ann\"")) (pos 1000)

again_example :
    (((after.1 ≡ fresh) × Refused (result_of after.0))
      ⊎ ((later : Call) (service : Job) (key' : Str) (created' : ℕ)
          → later.in_time ≡ true
          → leb ttl (later.locked - created') ≡ false
          → page_at service later key' 0 created' after.1 ≡ (some (result_of after.0), after.1)))
    × ((n : ℕ) (q : Result Page)
        → get_elem? fresh.pages n ≡ some q
        → get_elem? after.1.pages n ≡ some q)
again_example =
    page_at_again job (call_of none) (codes "id") 0 5 fresh after.1 (result_of after.0) fresh_Sound
      served.1

abbrev retimed : F64 → PublicThing → PublicThing
retimed t (PublicThing.post p t' s) = PublicThing.post p t s
retimed t x = x

abbrev post_at : ℕ → PublicThing
post_at n = retimed (pos (1000 - n)) (post_by ((n + 97) ∷ []) (codes "ann"))

-- The service gives a post by the author in every page, each older than the one before.
abbrev feed : Job
feed = record job {
  page = λ n plan r after limit.
      Answer.listing (record { children = post_at n ∷ []; after = some ((n + 97) ∷ []) });
}

abbrev newest : List (Job × Call)
newest =
    (feed, record (call_of none) { request = record (request none) { sort = some (codes "new") } })
    ∷ []

-- A server that refuses NSFW.
searches_example :
    All
      (Serves crates to_nanoseconds parse_uuid false)
      (searches crates to_nanoseconds parse_uuid false newest [])
    × (length (searches crates to_nanoseconds parse_uuid false newest []) ≤ max_entries)
    × Replies crates to_nanoseconds parse_uuid false
        (call_of none)
        (search_ql crates parse_uuid
          (timed_by to_nanoseconds job)
          false
          (call_of none)
          (searches crates to_nanoseconds parse_uuid false newest [])).0
searches_example = searches-Serves crates to_nanoseconds parse_uuid false newest job (call_of none)

cursor_example :
    (s : Str) × (split_dot (cursor_text (codes "id") 12) ≡ some (codes "id", s))
    × (parse_usize s ≡ some 12)
cursor_example = cursor_again (codes "id") 12 (omega arith) (omega arith)
