-- ===== src/Search/Session/Unmoved.antt =====
-- Fetching a page and the parents of its comments leaves the pages, the buffers and the last time
-- of a session: `fetch` and `hydrate` of crates/api/src/search/engine/session.rs.
use neddit.Prelude.{
  ℕ, ◌+◌, Bool, not, ◌&&◌, ◌||◌, ltb, leb, ◌==◌, if_intro, List, [], ◌∷◌, length, Option, none,
  some, Str, contains, sort_by, str_leb,
}
use neddit.Search.Syntax.{Result}
use neddit.Search.Request.{Request, Plan}
use neddit.Search.Scope.{needs_parent, dedup}
use neddit.Search.Record.{Record}
use neddit.Search.Thing.{F64, PublicThing, correct_kind, record_of}
use neddit.Search.Page.{Page, Notice}
use neddit.Search.Session.{
  Collection, Job, Answer, max_candidates, max_session_bytes, max_source_calls, max_parent_bytes,
  is_top, stop, bounded, if_new, marked, counted, settled, followed, is_none, is_names, admit,
  received, called, fetch, is_bad_cursor, page_limit,
}
use neddit.Search.Session.Hydrate.{
  all_wanted, chunks, Flow, going, over, cut_off, continue, kept_parent, found_parent, stripped,
  found_parents, answered, without_parents, record_bytes, hydrate_chunk, hydrate_chunks, ended,
  hydrate,
}
use neddit.Search.Session.Outcome.{Post, Post-and_then, Post-if}

-- What is served and buffered, with the time of the last object and the plan.
pub record Shelf : Type 0 where
  pub pages : List (Result Page)
  pub ready : List PublicThing
  pub tie : List PublicThing
  pub last_time : Option F64
  pub plan : Plan

abbrev pub shelf : Collection → Shelf
shelf c = record {
  pages = c.pages;
  ready = c.ready;
  tie = c.tie;
  last_time = c.last_time;
  plan = c.plan;
}

module _ (j : Job) (r : Request) (P : Shelf → Type 0) where
  abbrev pub Holds : Collection → Type 0
  Holds c = P (shelf c)

  abbrev pub HoldsAfter : {A : Type 0} → A → Collection → Type 0
  HoldsAfter x c = Holds c

  pub stop-Holds :
      (notice : Notice) (fails : Bool) (c : Collection) → Holds c → Holds (stop notice fails c)
  unfolding stop
  stop-Holds notice fails c h = h

  admit-Holds :
      (xs batch : List PublicThing) (c : Collection)
      → Holds c
      → Post HoldsAfter Holds (admit j r xs batch c)
  unfolding admit stop
  admit-Holds [] batch c h = h
  admit-Holds (x ∷ xs) batch c h =
      let c' = counted j x c in
      Post-if HoldsAfter Holds (not (correct_kind x r.kind)) _ _ (λ e. h)
        (λ e.
          Post-if HoldsAfter Holds (c.candidates == max_candidates) _ _ (λ full. h)
            (λ room.
              Post-if HoldsAfter Holds (ltb max_session_bytes c'.bytes) _ _ (λ e. h)
                (λ fits. admit-Holds xs (if_new x c' batch) (marked x c') h)))

  settled-Holds : (after : Option Str) (c : Collection) → Holds c → Holds (settled after c)
  unfolding settled followed stop
  settled-Holds after c h = if_intro Holds (is_none c.end) _ _ (λ e. followed-Holds after) (λ e. h)
    where
      followed-Holds : (after : Option Str) → Holds (followed after c)
      followed-Holds none = h
      followed-Holds (some cursor) =
          if_intro Holds (is_names c.plan) _ _ (λ e. h)
            (λ e. if_intro Holds (contains c.cursors cursor) _ _ (λ e. h) (λ e. h))

  bounded-Holds : (top : Bool) (c : Collection) → Holds c → Holds (bounded top c)
  unfolding bounded stop
  bounded-Holds top c h =
      if_intro Holds
        (is_none c.end
          && (leb (page_limit top) c.source_pages
              || leb max_candidates c.candidates
              || leb max_source_calls c.source_calls))
        _ _ (λ e. h) (λ e. h)

  pub fetch-Holds :
      (limit : ℕ) (c : Collection) → Holds c → Post HoldsAfter Holds (fetch j r limit c)
  unfolding fetch received stop
  fetch-Holds limit c h = received-Holds (j.page c.source_calls c.plan r c.after limit) (called c) h
    where
      received-Holds :
          (a : Answer) (c : Collection) → Holds c → Post HoldsAfter Holds (received j r a c)
      received-Holds Answer.pending c h = h
      received-Holds Answer.failure c h =
          Post-if HoldsAfter Holds (length c.seen == 0) _ _ (λ e. h) (λ e. h)
      received-Holds (Answer.listing l) c h =
          Post-if HoldsAfter Holds (ltb 100 (length l.children) || is_bad_cursor l.after) _ _
            (λ e. h)
            (λ e.
              Post-and_then HoldsAfter HoldsAfter Holds (admit j r l.children [] c) _
                (admit-Holds l.children [] c h)
                (λ batch c' h'.
                  bounded-Holds (is_top r) (settled l.after c') (settled-Holds l.after c' h')))

  abbrev Flows : Flow → Type 0
  Flows (going c) = Holds c
  Flows (over c) = Holds c
  Flows (cut_off c) = Holds c

  Flows-continue :
      (f : Flow) (k : Collection → Flow)
      → Flows f
      → ((c : Collection) → Holds c → Flows (k c))
      → Flows (continue f k)
  Flows-continue (going c) k h next = next c h
  Flows-continue (over c) k h next = h
  Flows-continue (cut_off c) k h next = h

  kept_parent-Flows :
      (name : Str) (p : Record) (c : Collection) → Holds c → Flows (kept_parent name p c)
  unfolding kept_parent stop
  kept_parent-Flows name p c h =
      if_intro Flows (ltb max_parent_bytes (c.parent_bytes + record_bytes p)) _ _ (λ e. h) (λ e. h)

  found_parent-Flows :
      (ids : List Str) (x : PublicThing) (c : Collection) → Holds c → Flows (found_parent j ids x c)
  unfolding found_parent
  found_parent-Flows ids (PublicThing.post p t s) c h =
      if_intro Flows (not (contains ids p.name)) _ _ (λ e. h)
        (λ e.
          kept_parent-Flows p.name
            (stripped (record_of j.lib j.to_nanoseconds (PublicThing.post p t s))) c h)
  found_parent-Flows ids (PublicThing.comment m) c h = h
  found_parent-Flows ids (PublicThing.subreddit s) c h = h
  found_parent-Flows ids (PublicThing.user name) c h = h

  found_parents-Flows :
      (ids : List Str) (xs : List PublicThing) (c : Collection)
      → Holds c
      → Flows (found_parents j ids xs c)
  unfolding found_parents
  found_parents-Flows ids [] c h = h
  found_parents-Flows ids (x ∷ xs) c h =
      Flows-continue (found_parent j ids x c) _ (found_parent-Flows ids x c h)
        (λ c' h'. found_parents-Flows ids xs c' h')

  answered-Flows :
      (ids : List Str) (a : Answer) (c : Collection) → Holds c → Flows (answered j ids a c)
  unfolding answered stop
  answered-Flows ids Answer.pending c h = h
  answered-Flows ids Answer.failure c h = h
  answered-Flows ids (Answer.listing l) c h =
      found_parents-Flows ids l.children (without_parents ids c) h

  hydrate_chunks-Flows :
      (l : List (List Str)) (c : Collection) → Holds c → Flows (hydrate_chunks j l c)
  unfolding hydrate_chunks hydrate_chunk stop
  hydrate_chunks-Flows [] c h = h
  hydrate_chunks-Flows (ids ∷ l) c h =
      Flows-continue (hydrate_chunk j ids c) _
        (if_intro Flows (leb max_source_calls c.source_calls) _ _ (λ full. h)
          (λ free.
            answered-Flows ids (j.parents c.source_calls ids)
              (record c { source_calls = c.source_calls + 1 }) h))
        (λ c' h'. hydrate_chunks-Flows l c' h')

  ended-Post : (f : Flow) → Flows f → Post HoldsAfter Holds (ended f)
  ended-Post (going c) h = h
  ended-Post (over c) h = h
  ended-Post (cut_off c) h = h

  pub hydrate-Holds :
      (batch : List PublicThing) (c : Collection)
      → Holds c
      → Post HoldsAfter Holds (hydrate j r batch c)
  unfolding hydrate
  hydrate-Holds batch c h =
      let ids = dedup (sort_by str_leb (all_wanted j r c batch)) in
      Post-if HoldsAfter Holds (c.failed || not (needs_parent c.expr)) _ _ (λ e. h)
        (λ e.
          ended-Post (hydrate_chunks j (chunks (length ids) ids) c)
            (hydrate_chunks-Flows (chunks (length ids) ids) c h))
