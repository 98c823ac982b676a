-- ===== src/Feed/Examples.antt =====
-- The theorems on crates/api/src/feed, at one feed: a community, of which one post matches.
use neddit.Prelude.{
  is_whitespace, true, len_utf8, str_eq, ◌≤◌, ◌<◌, ◌≡◌, refl, false, List, [], ◌∷◌, none, some,
  arith, codes, length, to_ascii_lowercase, set_insert, ℕ, Str, ◌+◌, ◌-◌, ◌*◌, len,
}
use neddit.Prelude.Int.{pos}
use neddit.Crates.{Crates}
use neddit.Search.Syntax.{Field, Value, Expr, ok, Result, Ensures}
use neddit.Search.Record.{Datum, Record, insert, empty, Post, post_record}
use neddit.Search.Eval.{evaluate}
use neddit.Feed.Sources.{Source, plan}
use neddit.Feed.Sources.Coverage.{Some, plan-Some}
use neddit.Feed.Sources.Limits.{AllSmall, plan_limits}
use neddit.Feed.Collect.{Candidate, Job, Collection, keep, visit, scan, pages, collect}
use neddit.Feed.Collect.Single.{collect_single}
use neddit.Feed.Collect.Collected.{Good, collect-Good}
use neddit.Feed.Ranking
use neddit.Feed.Ranking.{Floats, Function, Exprs, Signals, evaluate_program}
use neddit.Feed.Ranking.Reader.{skip, name, number}
use neddit.Feed.Ranking.Grammar.{parse_program}
use neddit.Feed.Ranking.Grammar.Total.{IsProgram, parse_program-IsProgram}
use neddit.Feed.Ranking.Values.{evaluate_program_lem}
use neddit.Search.Record.{trim}
use neddit.Search.Parser.{parse, qualification, node}
use neddit.Search.Lexer.{lex}
use neddit.Search.Scalar.{field_name, scalar_value}
use neddit.Feed.Definition.{
  Request, Definition, definition, request, pool_of, expand_rank_preset, rank_of,
}
use neddit.Feed.Definition.Stable.{definition_again}
use neddit.Feed.Page.{World, fresh, follow}
use neddit.Feed.Page.Following.{follow_all}

abbrev crates : Crates
crates = record {
  normalize = λ s. s;
  find_tokens = λ s. s ∷ [];
  parse_host = λ s. some s;
  url_host = λ s. some s;
  is_instant = λ s. false;
  parse_date = λ s. none;
  parse_rfc3339 = λ s. none;
}

abbrev rust : Expr
rust =
    Expr.predicate
      (record { field = Field.subreddit; raw = codes "Rust"; value = Value.exact (codes "rust") })
      (0, 14)

abbrev rust_record : Record
rust_record = insert Field.subreddit (Datum.text (codes "rust")) empty

abbrev rust_sources : List Source
rust_sources = Source.subreddits (codes "rust" ∷ []) ∷ []

planned : plan rust ≡ ok rust_sources
unfolding plan set_insert
planned = refl

covered_example : Some crates rust_record (pos 0) rust_sources
unfolding evaluate to_ascii_lowercase
covered_example = plan-Some crates rust_record (pos 0) rust rust_sources refl planned refl

limits_example : (0 < length rust_sources) × (length rust_sources ≤ 8) × AllSmall rust_sources
limits_example = plan_limits rust rust_sources planned

abbrev first_post : Post
first_post = record {
  name = codes "t3_a";
  title = codes "First";
  selftext = [];
  subreddit = codes "rust";
  author = codes "ann";
  link_flair_text = none;
  url = codes "example.org";
  created = none;
  over_18 = false;
}

abbrev job : Job
job = record {
  lib = crates;
  include_nsfw = false;
  expression = rust;
  frozen = pos 0;
  size = λ p. some 500;
  page = λ call source after limit.
      some (record { children = first_post ∷ first_post ∷ []; after = none });
}

collect_example : Good job (collect job rust_sources)
collect_example = collect-Good job rust_sources

abbrev collected : Collection
collected = record {
  candidates = record { post = first_post; source = codes "subreddit:rust"; source_rank = 1 } ∷ [];
  inspected = 2;
  unknown = 0;
  matched_bytes = 500;
  bounded = false;
  all_sources_exhausted = true;
}

collects : collect job rust_sources ≡ ok collected
unfolding collect pages scan visit keep evaluate post_record to_ascii_lowercase str_eq
collects = refl

single_example : collected.inspected ≤ 250
single_example = collect_single job (Source.subreddits (codes "rust" ∷ [])) collected collects

abbrev candidate : Candidate
candidate = record { post = first_post; source = codes "subreddit:rust"; source_rank = 1 }

-- Natural numbers in place of floating point, with each numeral read as one.
abbrev floats : Floats ℕ
floats = record {
  add = λ x y. x + y;
  sub = λ x y. x - y;
  mul = λ x y. x * y;
  div = λ x y. x;
  min = λ x y. x;
  max = λ x y. y;
  neg = λ x. x;
  abs = λ x. x;
  signum = λ x. x;
  sqrt = λ x. x;
  ln = λ x. x;
  ln_1p = λ x. x;
  log10 = λ x. x;
  one = 1;
  zero = 0;
  from_int = λ z. 2;
  is_finite = λ x. true;
  parse = λ s. some 1;
}

abbrev formula : Str
formula = codes "max(score,1)"

abbrev program : Ranking.Expr ℕ
program = Ranking.Expr.call Function.max (
    Exprs.cons (Ranking.Expr.field Ranking.Field.score)
      (Exprs.cons (Ranking.Expr.number 1) Exprs.nil))

parsed : parse_program floats crates formula ≡ ok (program, 12)
unfolding parse_program len len_utf8 skip name str_eq Ranking.function_of Ranking.field_of number
parsed = refl

abbrev signals : Signals ℕ
signals = record {
  score = pos 7;
  upvote_ratio = 1;
  created_utc = 0;
  frozen_at = 9;
  age_seconds = 9;
  age_hours = 0;
  comments = 3;
  source_rank = 1;
  awards = 0;
  crossposts = 0;
  score_hidden = false;
  is_self = true;
  over_18 = false;
  spoiler = false;
  stickied = false;
  pinned = false;
  locked = false;
  archived = false;
}

program_example : Ensures (IsProgram (len formula)) (parse_program floats crates formula)
program_example = parse_program-IsProgram floats crates formula

value_example :
    (v : Result ℕ) × (evaluate_program ℕ floats crates signals rust_record (pos 0) program 12
      ≡ some v)
value_example =
    evaluate_program_lem floats crates signals rust_record (pos 0) formula program 12 parsed

abbrev feed : Request
feed = record {
  q = codes "subreddit:rust";
  pool = none;
  t = none;
  rank = some (codes " score ");
  limit = some 50;
  page = some 2;
  cursor = none;
  include_nsfw = false;
}

abbrev saved : Definition
saved = record {
  version = 1;
  q = codes "subreddit:rust";
  pool = codes "new";
  t = none;
  rank = codes "score";
  limit = 50;
  include_nsfw = false;
}

trimmed : trim feed.q ≡ feed.q
unfolding trim is_whitespace
trimmed = refl

defined : definition floats crates feed ≡ ok saved
unfolding definition len len_utf8 trim is_whitespace parse lex qualification field_name
    to_ascii_lowercase scalar_value node pool_of plan set_insert parse_program expand_rank_preset
    rank_of skip name str_eq Ranking.function_of Ranking.field_of number
defined = refl

definition_example : definition floats crates (request saved) ≡ ok saved
definition_example = definition_again floats crates feed saved trimmed defined

-- A post a page, in a snapshot of two posts that the cache has.
abbrev one_each : Request
one_each = record feed { limit = some 1 }

abbrev one_each_saved : Definition
one_each_saved = record saved { limit = 1 }

abbrev cursor : Str
cursor = codes "abcdefghijklmnopqrstuv42"

abbrev two : List Candidate
two = candidate ∷ candidate ∷ []

abbrev world : World
world = record {
  allows_nsfw = false;
  snapshot = λ d c. some (record { items = two; cursor = some c });
  head = λ d. none;
  permit = true;
  build = λ r. ok two;
  store = λ d items. ok (some cursor);
}

one_each_defined : definition floats crates one_each ≡ ok one_each_saved
unfolding definition len len_utf8 trim is_whitespace parse lex qualification field_name
    to_ascii_lowercase scalar_value node pool_of plan set_insert parse_program expand_rank_preset
    rank_of skip name str_eq Ranking.function_of Ranking.field_of number
one_each_defined = refl

follow_example : follow floats crates world one_each 3 none 1 ≡ some (ok two)
unfolding len len_utf8 fresh
follow_example =
    follow_all floats crates world one_each one_each_saved cursor two refl one_each_defined refl
      (omega arith) refl
