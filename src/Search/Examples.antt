-- ===== src/Search/Examples.antt =====
-- The theorems on crates/api/src/search, at one search: the posts of a community by one author.
use neddit.Prelude.{
  ◌≤◌, ◌≡◌, ◌≢◌, refl, false, [], ◌∷◌, none, some, Str, codes, length, len, len_utf8, str_eq,
  eq_ignore_ascii_case, to_ascii_lowercase, inl,
}
use neddit.Prelude.Int.{ℤ, pos}
use neddit.Crates.{Crates}
use neddit.Search.Truth.{Truth}
use neddit.Search.Syntax.{Mode, Field, Value, Expr, ok, Ensures}
use neddit.Search.Record.{Datum, Record, insert, empty}
use neddit.Search.Eval.{evaluate}
use neddit.Search.Eval.Direct.{truth}
use neddit.Search.Eval.Caching.{evaluate-eq-truth}
use neddit.Search.Eval.Information.{Informs, evaluate_decided}
use neddit.Search.Scalars.{IsScalarExpr}
use neddit.Search.Lexer.{lex}
use neddit.Search.Lexer.Spans.{InOrder, lex-InOrder}
use neddit.Search.Parser.{parse}
use neddit.Search.Parser.Total.{IsParsed, parse-IsParsed}
use neddit.Search.Request.{Request, Plan}
use neddit.Search.Scope.{required, contradictory, names, cover, plan}
use neddit.Search.Scope.Upstream.{Query, print, Meets}
use neddit.Search.Scope.Cover.{cover_sound}
use neddit.Search.Scope.Names.{Named, names_sound}
use neddit.Search.Scope.Contradiction.{contradictory_sound}
use neddit.Search.Scope.Asked.{IsReaching}
use neddit.Search.Scope.Planning.{plan-Reaches}

abbrev crates : Crates
crates = record {
  normalize = λ s. s;
  find_tokens = λ s. s ∷ [];
  parse_host = λ s. some s;
  url_host = λ s. some s;
  is_instant = λ s. false;
  parse_date = λ s. none;
  parse_rfc3339 = λ s. none;
}

abbrev rust : Expr
rust =
    Expr.predicate
      (record { field = Field.subreddit; raw = codes "Rust"; value = Value.exact (codes "rust") })
      (0, 14)

abbrev by_ann : Expr
by_ann =
    Expr.predicate
      (record { field = Field.author; raw = codes "ann"; value = Value.exact (codes "ann") })
      (15, 25)

abbrev rust_by_ann : Expr
rust_by_ann = Expr.and rust by_ann (0, 25)

abbrev post : Record
post =
    insert Field.subreddit (Datum.text (codes "rust"))
      (insert Field.author (Datum.text (codes "Ann")) empty)

are_scalars : IsScalarExpr crates rust_by_ann
unfolding to_ascii_lowercase
are_scalars = (refl, refl)

evaluate_example : evaluate crates rust_by_ann post (pos 0) ≡ truth crates rust_by_ann post (pos 0)
evaluate_example = evaluate-eq-truth crates rust_by_ann post (pos 0)

-- A record of which nothing is known is filled in.
informs : Informs empty post
informs = record { fields = λ f. tt; text = tt; created = inl refl }

decided_example :
    (evaluate crates rust empty (pos 0) ≡ Truth.true
      → evaluate crates rust post (pos 0) ≡ Truth.true)
    × (evaluate crates rust empty (pos 0) ≡ Truth.false
        → evaluate crates rust post (pos 0) ≡ Truth.false)
decided_example = evaluate_decided crates {r = empty} {r' = post} informs (pos 0) rust

lex_example :
    Ensures (λ ts. InOrder 0 ts (len (codes "a OR b")) × (length ts ≤ 768)) (lex (codes "a OR b"))
lex_example = lex-InOrder (codes "a OR b")

parse_example :
    Ensures (IsParsed crates Mode.posts) (parse crates (codes "subreddit:rust") Mode.posts)
parse_example = parse-IsParsed crates (codes "subreddit:rust") Mode.posts

abbrev request : Request
request = record {
  q = codes "subreddit:Rust author:ann";
  kind = Mode.posts;
  sort = some (codes "new");
  t = none;
  limit = some 25;
  include_nsfw = false;
  cursor = none;
}

abbrev query : Str
query = codes "(subreddit:\"rust\" AND author:\"ann\")"

covered : cover rust_by_ann false ≡ some query
unfolding cover
covered = refl

cover_example :
    (q : Query) × (print q ≡ query)
    × ((r : Record) (frozen : ℤ)
        → evaluate crates rust_by_ann r frozen ≡ Truth.true
        → Meets crates q r frozen)
cover_example = cover_sound crates rust_by_ann query are_scalars covered

planned : plan request rust_by_ann ≡ ok (Plan.posts query)
unfolding plan cover str_eq len len_utf8
planned = refl

plan_example : IsReaching crates rust_by_ann (Plan.posts query)
plan_example = plan-Reaches crates request rust_by_ann (Plan.posts query) are_scalars planned

-- Two communities at once.
abbrev clash : Expr
clash =
    Expr.and rust
      (Expr.predicate
        (record { field = Field.subreddit; raw = codes "go"; value = Value.exact (codes "go") })
        (15, 27))
      (0, 27)

contradictory_example : evaluate crates clash post (pos 0) ≢ Truth.true
unfolding contradictory required to_ascii_lowercase eq_ignore_ascii_case
contradictory_example = contradictory_sound crates post (pos 0) clash (refl, refl) refl

abbrev named : Expr
named =
    Expr.predicate
      (record { field = Field.name; raw = codes "Rust"; value = Value.exact (codes "rust") }) (0, 9)

abbrev community : Record
community = insert Field.name (Datum.text (codes "Rust")) empty

names_example : Named crates community (pos 0) (codes "rust" ∷ [])
unfolding names evaluate to_ascii_lowercase
names_example = names_sound crates community (pos 0) named (codes "rust" ∷ []) refl refl refl
