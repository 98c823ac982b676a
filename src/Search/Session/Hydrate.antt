-- ===== src/Search/Session/Hydrate.antt =====
-- The posts of comments and the judging of a batch: `hydrate` and `evaluate` of
-- crates/api/src/search/engine/session.rs.
use neddit.Prelude.{
  ℕ, zero, suc, ◌+◌, Bool, true, false, not, ◌&&◌, ◌||◌, ltb, leb, if◌then◌else◌, List, [], ◌∷◌,
  ◌++◌, take, drop, length, any, Option, none, some, Str, str_eq, str_leb, sort_by, contains, len,
}
use neddit.Search.Syntax.{Field}
use neddit.Search.Truth.{Truth}
use neddit.Search.Record.{Datum, Record}
use neddit.Search.Request.{Request}
use neddit.Search.Scope.{needs_parent, dedup}
use neddit.Search.Thing.{F64, PublicThing, total_le, lt, seconds, created_of, record_of}
use neddit.Search.Page.{Notice}
use neddit.Search.Session.{
  Collection, Job, Answer, Ran, done, failed, given_up, and_then, is_none, failure_at, stop,
  flush_tie, max_source_calls, max_parent_bytes, is_new,
}
use neddit.Search.Session.Judge.{comment_window, visibility, judge, verdict}

abbrev is_true : Truth → Bool
is_true Truth.true = true
is_true Truth.false = false
is_true Truth.unknown = false

abbrev is_unknown : Truth → Bool
is_unknown Truth.true = false
is_unknown Truth.false = false
is_unknown Truth.unknown = true

-- The post that a comment of the batch waits for.
unfoldable pub wanted : Job → Request → Collection → PublicThing → Option Str
wanted j r c (PublicThing.comment m) =
    let item = PublicThing.comment m in
    if is_true (visibility item r.include_nsfw)
      && is_true (comment_window j.to_nanoseconds r item c.frozen)
      && is_none (c.parents m.link_id)
      && is_unknown (judge j c item)
    then some m.link_id
    else none
wanted j r c item = none

abbrev cons_some : Option Str → List Str → List Str
cons_some none l = l
cons_some (some s) l = s ∷ l

unfoldable pub all_wanted : Job → Request → Collection → List PublicThing → List Str
unfolding wanted
all_wanted j r c [] = []
all_wanted j r c (x ∷ xs) = cons_some (wanted j r c x) (all_wanted j r c xs)

-- `ids.chunks(100)`, with fuel for each id
unfoldable pub chunks : ℕ → List Str → List (List Str)
chunks zero ids = []
chunks (suc fuel) [] = []
chunks (suc fuel) (s ∷ ids) = take 100 (s ∷ ids) ∷ chunks fuel (drop 100 (s ∷ ids))

-- The loops of `hydrate` go on, or they end by `break` or `return`.
pub data Flow : Type 0 where
  going over cut_off : Collection → Flow

abbrev pub continue : Flow → (Collection → Flow) → Flow
continue (going c) k = k c
continue (over c) k = over c
continue (cut_off c) k = cut_off c

-- `self.parents.insert(id, parent)`
abbrev pub with_parent : Str → Option Record → Collection → Collection
with_parent id parent c = record c {
  parents = λ k. if str_eq id k then some parent else c.parents k;
}

abbrev is_kept : Field → Bool
is_kept Field.title = true
is_kept Field.domain = true
is_kept Field.flair = true
is_kept f = false

-- What is kept of the record of a post.
abbrev pub stripped : Record → Record
stripped p = record p {
  text = [];
  created = none;
  fields = λ f. if is_kept f then p.fields f else none;
}

abbrev text_bytes : Option Datum → ℕ
text_bytes (some (Datum.text s)) = len s
text_bytes (some Datum.absent) = 0
text_bytes (some Datum.unknown) = 0
text_bytes none = 0

abbrev pub record_bytes : Record → ℕ
record_bytes p =
    text_bytes (p.fields Field.title)
    + text_bytes (p.fields Field.domain)
    + text_bytes (p.fields Field.flair)

unfoldable pub kept_parent : Str → Record → Collection → Flow
unfolding stop
kept_parent name parent c =
    if ltb max_parent_bytes (c.parent_bytes + record_bytes parent)
    then over (stop Notice.parent_bytes_limit false c)
    else going (
        with_parent name (some parent)
          (record c { parent_bytes = c.parent_bytes + record_bytes parent }))

unfoldable pub found_parent : Job → List Str → PublicThing → Collection → Flow
unfolding kept_parent
found_parent j ids (PublicThing.post p t s) c =
    let parent = stripped (record_of j.lib j.to_nanoseconds (PublicThing.post p t s)) in
    if not (contains ids p.name) then going c else kept_parent p.name parent c
found_parent j ids item c = going c

-- The loop over the posts of an answer.
unfoldable pub found_parents : Job → List Str → List PublicThing → Collection → Flow
unfolding found_parent
found_parents j ids [] c = going c
found_parents j ids (x ∷ xs) c = continue (found_parent j ids x c) (λ c'. found_parents j ids xs c')

-- The ids of a call have no parent until one is found.
abbrev pub without_parents : List Str → Collection → Collection
without_parents ids c = record c {
  parents = λ k. if contains ids k then some none else c.parents k;
}

unfoldable pub answered : Job → List Str → Answer → Collection → Flow
unfolding found_parents stop
answered j ids Answer.pending c = cut_off c
answered j ids Answer.failure c = over (stop Notice.parents_failed true (without_parents ids c))
answered j ids (Answer.listing l) c = found_parents j ids l.children (without_parents ids c)

unfoldable pub hydrate_chunk : Job → List Str → Collection → Flow
unfolding answered stop
hydrate_chunk j ids c =
    if leb max_source_calls c.source_calls
    then over (stop Notice.call_limit false c)
    else answered j ids (j.parents c.source_calls ids)
        (record c { source_calls = c.source_calls + 1 })

unfoldable pub hydrate_chunks : Job → List (List Str) → Collection → Flow
unfolding hydrate_chunk
hydrate_chunks j [] c = going c
hydrate_chunks j (ids ∷ rest) c = continue (hydrate_chunk j ids c) (λ c'. hydrate_chunks j rest c')

abbrev pub ended : Flow → Ran (Unit {0})
ended (going c) = done tt c
ended (over c) = done tt c
ended (cut_off c) = given_up c

-- `hydrate`
unfoldable pub hydrate : Job → Request → List PublicThing → Collection → Ran (Unit {0})
unfolding all_wanted chunks hydrate_chunks
hydrate j r batch c =
    let ids = dedup (sort_by str_leb (all_wanted j r c batch)) in
    if c.failed || not (needs_parent c.expr)
    then done tt c
    else ended (hydrate_chunks j (chunks (length ids) ids) c)

abbrev pub earlier : Option F64 → F64 → Bool
earlier none time = false
earlier (some previous) time = lt time previous

abbrev pub later : Option F64 → F64 → Bool
later none time = false
later (some previous) time = lt previous time

-- With New, an older object closes the tie.
unfoldable pub timed : Bool → PublicThing → Collection → Collection
unfolding flush_tie
timed false x c = c
timed true x c =
    let time = created_of x in
    let c' = if earlier c.last_time time then flush_tie c else c in
    record c' { last_time = some time }

unfoldable pub judged : Bool → PublicThing → Truth → Collection → Collection
judged new x Truth.true c =
    if new
    then record c { observed = c.observed + 1; tie = c.tie ++ (x ∷ []) }
    else record c { observed = c.observed + 1; ready = c.ready ++ (x ∷ []) }
judged new x Truth.unknown c = record c { unknown = c.unknown + 1 }
judged new x Truth.false c = c

abbrev pub judged_item : Job → Request → PublicThing → Collection → Collection
judged_item j r x c = let c' = timed (is_new r) x c in judged (is_new r) x (verdict j r c' x) c'

-- The loop of `evaluate`, with its yields.
unfoldable pub judge_all : Job → Request → List PublicThing → Collection → Ran (Unit {0})
unfolding timed judged
judge_all j r [] c = done tt c
judge_all j r (x ∷ xs) c =
    let c' = judged_item j r x c in
    let rest = judge_all j r xs c' in if j.late x then given_up c' else rest

-- `if self.end.is_some() { self.flush_tie(); }`
abbrev pub flushed : Collection → Collection
flushed c = if is_none c.end then c else flush_tie c

unfoldable pub evaluate_batch : Job → Request → List PublicThing → Collection → Ran (Unit {0})
unfolding hydrate judge_all
evaluate_batch j r batch c =
    and_then (hydrate j r batch c)
      (λ u c'. and_then (judge_all j r batch c') (λ v c''. done tt (flushed c'')))

abbrev pub newest_first : PublicThing → PublicThing → Bool
newest_first a b = total_le (created_of b) (created_of a)

abbrev pub has_no_date : Job → PublicThing → Bool
has_no_date j x = is_none (seconds j.to_nanoseconds (created_of x))

-- The first object of the batch is newer than the last of the batch before.
abbrev pub is_disordered : Option F64 → List PublicThing → Bool
is_disordered last [] = false
is_disordered last (x ∷ xs) = later last (created_of x)

-- `evaluate`
unfoldable pub evaluate : Job → Request → List PublicThing → Collection → Ran (Unit {0})
unfolding evaluate_batch stop flush_tie
evaluate j r batch c =
    let sorted = sort_by newest_first batch in
    if not (is_new r)
    then evaluate_batch j r batch c
    else if any (has_no_date j) batch
    then failed (failure_at c) c
    else if is_disordered c.last_time sorted
    then done tt (flush_tie (stop Notice.chronology_changed true c))
    else evaluate_batch j r sorted c
