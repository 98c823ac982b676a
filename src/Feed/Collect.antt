-- ===== src/Feed/Collect.antt =====
-- The candidates of a custom feed: `collect` of crates/api/src/feed/mod.rs. The service is an
-- argument, by the number of the call. The map `positions` gives the index of a name among the
-- candidates, so it is read off them. `source_inspected` and `source_rank` count together, and are
-- one number here. Of a candidate's signals the source and its rank are kept; the others are
-- copies of the post.
pub mod Visited
pub mod Collected
pub mod Single
use neddit.Prelude.{
  ℕ, zero, suc, ◌+◌, ◌-◌, ◌*◌, ◌/◌, min, Bool, true, false, not, ◌&&◌, ◌||◌, ◌==◌, ltb,
  if◌then◌else◌, List, [], ◌∷◌, ◌++◌, map, take, length, Option, none, some, Str, str_eq, codes,
  contains, len,
}
use neddit.Prelude.Int.{ℤ}
use neddit.Crates.{Crates}
use neddit.Search.Syntax.{
  Expr, span, Diagnostic, diagnostic, Result, ok, err, source_failed, out_of_fuel,
}
use neddit.Search.Truth.{Truth}
use neddit.Search.Record.{Post, post_record}
use neddit.Search.Eval.{evaluate}
use neddit.Feed.Sources.{Source}

abbrev pub max_candidates : ℕ
max_candidates = 400

abbrev pub max_match_bytes : ℕ
max_match_bytes = 2 * 1024 * 1024

-- A `Listing`, as far as it is read.
pub record Listing : Type 0 where
  pub children : List Post
  pub after : Option Str

pub record Candidate : Type 0 where
  pub post : Post
  pub source : Str
  pub source_rank : ℕ

pub record Collection : Type 0 where
  pub candidates : List Candidate
  pub inspected : ℕ
  pub unknown : ℕ
  pub matched_bytes : ℕ
  pub bounded : Bool
  pub all_sources_exhausted : Bool

-- A loop goes on, or it is left by `break 'next_source`.
pub data Flow : Type 0 where
  go full : Collection → Flow

abbrev pub posts : List Candidate → List Post
posts = map (λ c. c.post)

abbrev pub names_of : List Post → List Str
names_of = map (λ p. p.name)

abbrev pub names : List Candidate → List Str
names cs = names_of (posts cs)

-- A better rank in a later source replaces the rank and the source.
abbrev pub improve : Str → Str → ℕ → List Candidate → List Candidate
improve name source rank [] = []
improve name source rank (c ∷ cs) =
    let rest = improve name source rank cs in
    if not (str_eq c.post.name name)
    then c ∷ rest
    else if ltb rank c.source_rank
    then record c { source = source; source_rank = rank } ∷ cs
    else c ∷ cs

-- The length of the JSON text, or what is beyond the limit if there is none.
abbrev pub bytes_of : Option ℕ → ℕ
bytes_of none = max_match_bytes + 1
bytes_of (some n) = n

-- The window of the candidates is cut.
abbrev pub cut : Collection → Collection
cut c = record c { bounded = true; all_sources_exhausted = false }

-- A post that matches.
unfoldable pub keep : (Post → Option ℕ) → Str → ℕ → Post → Collection → Flow
keep size source rank post c =
    let bytes = bytes_of (size post) in
    let new : Candidate = record { post = post; source = source; source_rank = rank } in
    if contains (names c.candidates) post.name
    then go (record c { candidates = improve post.name source rank c.candidates })
    else if ltb max_match_bytes (c.matched_bytes + bytes)
    then full (cut c)
    else go (record c {
      matched_bytes = c.matched_bytes + bytes;
      candidates = c.candidates ++ (new ∷ []);
    })

abbrev pub judged : Truth → Flow → Collection → Flow
judged Truth.true kept c = kept
judged Truth.false kept c = go c
judged Truth.unknown kept c = go (record c { unknown = c.unknown + 1 })

-- What `collect` reads and does not change.
pub record Job : Type 0 where
  pub lib : Crates
  pub include_nsfw : Bool
  pub expression : Expr
  pub frozen : ℤ
  pub size : Post → Option ℕ
  -- `CandidateSource::page`, by the number of the call; `none` is an error.
  pub page : ℕ → Source → Option Str → ℕ → Option Listing

abbrev pub verdict : Job → Post → Truth
verdict j post = evaluate j.lib j.expression (post_record j.lib post) j.frozen

-- One post of a listing. `rank` counts it.
unfoldable pub visit : Job → Str → ℕ → Post → Collection → Flow
visit j source rank post c =
    let c' = record c { inspected = c.inspected + 1 } in
    if not j.include_nsfw && post.over_18
    then go c'
    else judged (verdict j post) (keep j.size source rank post c') c'

abbrev pub continue : Flow → (Collection → Flow) → Flow
continue (go c) k = k c
continue (full c) k = full c

-- The loop over the posts of a listing.
unfoldable pub scan : Job → Str → ℕ → List Post → Collection → Flow
scan j source rank [] c = go c
scan j source rank (p ∷ ps) c =
    continue (visit j source (suc rank) p c) (λ c'. scan j source (suc rank) ps c')

-- The loop of a source goes on to the next source, all loops end, or an error is returned.
pub data Turn : Type 0 where
  next_source : (calls : ℕ) → Collection → Turn
  finished : Collection → Turn
  failed : Diagnostic → Turn

-- `names.join("+")`
abbrev pub join_plus : List Str → Str
join_plus [] = []
join_plus (s ∷ []) = s
join_plus (s ∷ l) = s ++ (b'+' ∷ join_plus l)

-- `Source::name`
abbrev pub name : Source → Str
name (Source.subreddits l) = codes "subreddit:" ++ join_plus l
name (Source.author s) = codes "author:" ++ s

-- The end of a round, from the cursor of the listing.
abbrev pub advance : Diagnostic → ℕ → ℕ → List Str → Option Str → Collection → (Str → Turn) → Turn
advance d calls count seen none c more = next_source calls c
advance d calls count seen (some cursor) c more =
    if count == 0
    then next_source calls c
    else if ltb 128 (len cursor) || contains seen cursor
    then failed d
    else more cursor

abbrev pub scanned : Flow → (Collection → Turn) → Turn
scanned (full c) k = finished c
scanned (go c) k = k c

module _ (j : Job) (source : Source) where
  abbrev pub failure : Diagnostic
  failure = diagnostic source_failed (span j.expression)

  abbrev pub received :
      ℕ → ℕ → List Str → ℕ → Collection → (Str → ℕ → Collection → Turn) → Option Listing → Turn
  received remaining calls seen rank c more none = failed failure
  received remaining calls seen rank c more (some listing) =
      let count = length listing.children in
      let window = take remaining listing.children in
      if ltb 100 count
      then failed failure
      else scanned (scan j (name source) rank window c) (λ c'.
        advance failure calls count seen listing.after c'
          (λ cursor. more cursor (rank + length window) c'))

  -- The loop over the pages of a source. `rank` is the number of its posts so far.
  unfoldable pub pages : ℕ → ℕ → ℕ → Option Str → List Str → ℕ → Collection → Turn
  pages zero quota calls after seen rank c = failed (diagnostic out_of_fuel (0, 0))
  pages (suc fuel) quota calls after seen rank c =
      let remaining = min quota (max_candidates - c.inspected) - rank in
      if remaining == 0
      then next_source calls (cut c)
      else received remaining (suc calls) seen rank c
          (λ cursor rank' c'. pages fuel quota (suc calls) (some cursor) (cursor ∷ seen) rank' c')
          (j.page calls source after (min remaining 100))

abbrev pub then_sources : Turn → (ℕ → Collection → Result Collection) → Result Collection
then_sources (next_source calls c) k = k calls c
then_sources (finished c) k = ok c
then_sources (failed d) k = err d

-- The loop over the sources.
unfoldable pub over_sources : Job → ℕ → List Source → ℕ → Collection → Result Collection
over_sources j quota [] calls c = ok c
over_sources j quota (s ∷ ss) calls c =
    then_sources (pages j s (suc quota) quota calls none [] 0 c)
      (λ calls' c'. over_sources j quota ss calls' c')

abbrev pub empty : Collection
empty = record {
  candidates = [];
  inspected = 0;
  unknown = 0;
  matched_bytes = 0;
  bounded = false;
  all_sources_exhausted = true;
}

-- `usize::div_ceil`
abbrev pub div_ceil : ℕ → ℕ → ℕ
div_ceil a b = (a + (b - 1)) / b

-- `collect`
unfoldable pub collect : Job → List Source → Result Collection
unfolding over_sources
collect j sources = over_sources j (div_ceil max_candidates (length sources)) sources 0 empty
