-- ===== src/Search/Page.antt =====
-- The pages of a search: `Page` of crates/api/src/search/engine.rs, with the notices that
-- crates/api/src/search/engine/session.rs gives. A notice is its place in the source, not its text.
use neddit.Prelude.{ℕ, Bool, ◌==◌, List, Option, Str}
use neddit.Prelude.Int.{ℤ}
use neddit.Search.Thing.{PublicThing}

pub data Notice : Type 0 where
  bounded_discovery contradiction omitted_matches recent_history : Notice
  budget_reached source_stopped candidate_limit byte_budget repeated_cursor : Notice
  call_limit parent_bytes_limit parents_failed chronology_changed : Notice
  top_window nsfw_excluded page_budget top_order new_order : Notice
  unresolved : (count : ℕ) → Notice

abbrev tag : Notice → ℕ
tag bounded_discovery = 0
tag contradiction = 1
tag omitted_matches = 2
tag recent_history = 3
tag budget_reached = 4
tag source_stopped = 5
tag candidate_limit = 6
tag byte_budget = 7
tag repeated_cursor = 8
tag call_limit = 9
tag parent_bytes_limit = 10
tag parents_failed = 11
tag chronology_changed = 12
tag top_window = 13
tag nsfw_excluded = 14
tag (unresolved count) = 15
tag page_budget = 16
tag top_order = 17
tag new_order = 18

-- `==` on the texts of notices
abbrev pub notice_eq : Notice → Notice → Bool
notice_eq m n = tag m == tag n

-- `Page.ranking`
pub data Ranking : Type 0 where
  collected_top source_new exact_name : Ranking
  reddit : Str → Ranking

-- `Page.continuation`
pub data Continuation : Type 0 where
  buffered_results_remain more_results_may_exist : Continuation
  selected_sources_exhausted stopped_early : Continuation

-- A cursor is the id of the session and the index of a page.
pub record Page : Type 0 where
  pub items : List PublicThing
  pub number : ℕ
  pub previous_cursor : Option Str
  pub cursor : Option Str
  pub ranking : Ranking
  pub continuation : Continuation
  pub coverage : List Notice
  pub observed_matches : ℕ
  pub frozen_at : ℤ
