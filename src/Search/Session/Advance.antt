-- ===== src/Search/Session/Advance.antt =====
-- The next page of a session: `advance` of crates/api/src/search/engine/session.rs.
use neddit.Prelude.{
  ℕ, zero, suc, ◌+◌, ◌-◌, min, max, ◌==◌, Bool, true, false, not, ◌&&◌, ◌||◌, ltb, if◌then◌else◌,
  List, [], ◌∷◌, ◌++◌, take, drop, length, Option, none, some, Str, sort_by,
}
use neddit.Prelude.Int.{leb_ℤ}
use neddit.Search.Syntax.{Mode}
use neddit.Search.Request.{Request, ListingTime, limit_of, sort_of, top_time}
use neddit.Search.Thing.{PublicThing, created_of, score_of}
use neddit.Search.Page.{Notice, Ranking, Continuation, Page}
use neddit.Search.Session.{
  Collection, End, Job, Ran, done, and_then, is_none, is_names, identity_le, max_pages, fetch,
  is_top, is_new,
}
use neddit.Search.Session.Hydrate.{evaluate, flushed}
use neddit.Search.Session.Cursor.{cursor_text}

-- A collection that is fetched whole before it is ordered.
abbrev pub is_complete : Request → Collection → Bool
is_complete r c = is_top r || is_names c.plan

abbrev pub one_if : Bool → ℕ
one_if b = if b then 1 else 0

abbrev pub fetch_limit : Request → Collection → ℕ
fetch_limit r c =
    if is_complete r c
    then 100
    else min (max (limit_of r - length c.ready + one_if (is_new r)) 25) 100

abbrev pub wants_more : Request → Collection → Bool
wants_more r c = is_none c.end && (is_complete r c || ltb (length c.ready) (limit_of r))

-- The loop of `advance`, by the requests that are left, with what is pending.
unfoldable pub rounds : Job → Request → ℕ → List PublicThing → Collection → Ran (List PublicThing)
rounds j r zero pending c = done pending c
rounds j r (suc n) pending c =
    let more = and_then (fetch j r (fetch_limit r c) c) (λ batch c'.
      if is_complete r c'
      then rounds j r n (pending ++ batch) c'
      else and_then (evaluate j r batch c') (λ u c''. rounds j r n pending c'')) in
    if wants_more r c then more else done pending c

abbrev later_first : PublicThing → PublicThing → Bool
later_first a b =
    if not (leb_ℤ (created_of a) (created_of b))
    then true
    else if not (leb_ℤ (created_of b) (created_of a))
    then false
    else identity_le a b

abbrev pub best_first : PublicThing → PublicThing → Bool
best_first a b =
    if not (leb_ℤ (score_of a) (score_of b))
    then true
    else if not (leb_ℤ (score_of b) (score_of a))
    then false
    else later_first a b

abbrev pub ready_order : Bool → PublicThing → PublicThing → Bool
ready_order top a b = if top then best_first a b else identity_le a b

abbrev pub ordered : Request → Collection → Collection
ordered r c = record c { ready = sort_by (ready_order (is_top r)) c.ready }

unfoldable pub judge_pending : Job → Request → List PublicThing → Collection → Ran (Unit {0})
judge_pending j r [] c = done tt c
judge_pending j r (x ∷ xs) c = and_then (evaluate j r (x ∷ xs) c) (λ u c'. done tt (ordered r c'))

abbrev pub is_stopped_end : Option End → Continuation
is_stopped_end none = Continuation.more_results_may_exist
is_stopped_end (some End.exhausted) = Continuation.selected_sources_exhausted
is_stopped_end (some End.stopped) = Continuation.stopped_early

abbrev pub is_empty {ℓ} : {A : Type ℓ} → List A → Bool
is_empty [] = true
is_empty (x ∷ xs) = false

abbrev pub continuation_of : Collection → Continuation
continuation_of c =
    if is_empty c.ready then is_stopped_end c.end else Continuation.buffered_results_remain

abbrev pub has_more : Collection → Bool
has_more c = not (is_empty c.ready) || not (is_empty c.tie) || is_none c.end

abbrev ranking_of : Request → Collection → Ranking
ranking_of r c =
    if is_top r
    then Ranking.collected_top
    else if is_new r
    then Ranking.source_new
    else if is_names c.plan
    then Ranking.exact_name
    else Ranking.reddit (sort_of r)

abbrev is_windowed : Mode → ListingTime → Bool
is_windowed Mode.comments ListingTime.all_time = false
is_windowed Mode.comments t = true
is_windowed m t = false

abbrev when : Bool → Notice → List Notice
when b notice = if b then notice ∷ [] else []

unfoldable pub coverage_of : Request → ℕ → Collection → List Notice
coverage_of r served c =
    c.notices
    ++ (when (is_windowed r.kind (top_time r) && is_top r) Notice.top_window
        ++ (when (not r.include_nsfw) Notice.nsfw_excluded
            ++ (when (ltb 0 c.unknown) (Notice.unresolved c.unknown)
                ++ (when (ltb served (limit_of r) && is_none c.end) Notice.page_budget
                    ++ (when (is_top r) Notice.top_order
                        ++ when (is_new r && not (is_top r)) Notice.new_order)))))

-- The window of a page, and the page of it. `index` counts the pages from 0.
abbrev pub served : Request → Collection → Collection
served r c = record c { ready = drop (limit_of r) c.ready }

unfoldable pub page_of : Request → Str → ℕ → List PublicThing → Collection → Page
unfolding coverage_of
page_of r id index items c = record {
  items = items;
  number = index + 1;
  previous_cursor = if index == 0 then none else some (cursor_text id (index - 1));
  cursor = if has_more c then some (cursor_text id (index + 1)) else none;
  ranking = ranking_of r c;
  continuation = continuation_of c;
  coverage = coverage_of r (length items) c;
  observed_matches = c.observed;
  frozen_at = c.frozen;
}

unfoldable pub finish : Request → Str → ℕ → Collection → Ran Page
unfolding page_of
finish r id index c =
    let c' = flushed c in
    done (page_of r id index (take (limit_of r) c'.ready) (served r c')) (served r c')

-- `advance`
unfoldable pub advance : Job → Request → Str → ℕ → Collection → Ran Page
unfolding rounds judge_pending finish
advance j r id index c =
    and_then (rounds j r max_pages [] c)
      (λ pending c'. and_then (judge_pending j r pending c') (λ u c''. finish r id index c''))
