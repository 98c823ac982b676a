-- ===== src/Search/Session/Store.antt =====
-- The table of sessions: `Sessions::execute_before` of crates/api/src/search/engine/session.rs. A
-- call is one step on the table. The lock of a session orders its calls, so a session stands in
-- its entry; the permits and the deadline are arguments.
use neddit.Prelude.{
  ℕ, ◌-◌, ◌*◌, ◌==◌, Bool, true, false, not, ◌&&◌, ◌||◌, ltb, leb, if◌then◌else◌, List, [], ◌∷◌,
  ◌++◌, get_elem?, length, Option, none, some, Str, str_eq, len,
}
use neddit.Prelude.Int.{ℤ}
use neddit.Search.Syntax.{
  Mode, Expr, Diagnostic, diagnostic, Result, ok, err, invalid_cursor, execution_timeout,
  execution_busy,
}
use neddit.Search.Request.{Request, ListingTime, Plan, limit_of, binding}
use neddit.Search.Scope.{contradictory}
use neddit.Search.Page.{Notice, Page}
use neddit.Search.Session.{Collection, End, Job, Ran, done, failed, given_up, is_none}
use neddit.Search.Session.Advance.{advance}
use neddit.Search.Session.Cursor.{parse_usize, split_dot}

abbrev pub when : Bool → Notice → List Notice
when b notice = if b then notice ∷ [] else []

abbrev is_search : Plan → Bool
is_search (Plan.posts q) = true
is_search (Plan.communities q) = true
is_search p = false

abbrev is_history : Plan → Bool
is_history (Plan.comments f v) = true
is_history p = false

-- `Collection::new`
unfoldable pub new : Expr → Plan → ℤ → Collection
new expr plan frozen = record {
  expr = expr;
  plan = plan;
  frozen = frozen;
  pages = [];
  ready = [];
  tie = [];
  last_time = none;
  after = none;
  cursors = [];
  seen = [];
  parents = λ k. none;
  parent_bytes = 0;
  source_pages = 0;
  source_calls = 0;
  candidates = 0;
  bytes = 0;
  observed = 0;
  unknown = 0;
  end = none;
  failed = false;
  in_flight = false;
  notices =
      Notice.bounded_discovery
      ∷ (when (contradictory expr) Notice.contradiction
          ++ (when (is_search plan) Notice.omitted_matches
              ++ when (is_history plan) Notice.recent_history));
}

-- The time to live, in nanoseconds.
abbrev pub ttl : ℕ
ttl = 900 * 1_000_000_000

abbrev pub max_entries : ℕ
max_entries = 32

pub record Entry : Type 0 where
  pub id : Str
  pub binding : Request
  pub created : ℕ
  pub state : Collection

-- What a call finds: the readings of the clock when the entry is looked up, when its lock is held,
-- and when a new entry is stored; whether the lock is free before the deadline, whether a permit
-- is free, and whether a request that is given up was dropped or has met its deadline.
pub record Call : Type 0 where
  pub request : Request
  pub expr : Expr
  pub plan : Plan
  pub fresh_id : Str
  pub frozen : ℤ
  pub looked_up : ℕ
  pub locked : ℕ
  pub stored : ℕ
  pub in_time : Bool
  pub permit : Bool
  pub dropped : Bool

abbrev pub expired : Diagnostic
expired = diagnostic invalid_cursor (0, 0)

abbrev pub has_cursor : Result Page → Bool
has_cursor (ok p) = not (is_none p.cursor)
has_cursor (err d) = false

abbrev pub ends_with_cursor : List (Result Page) → Bool
ends_with_cursor [] = false
ends_with_cursor (p ∷ []) = has_cursor p
ends_with_cursor (p ∷ q ∷ l) = ends_with_cursor (q ∷ l)

-- The end of an attempt: the result becomes a page, and an error ends the session.
abbrev pub cleared : Result Page → Collection → Collection
cleared (ok p) c = record c { in_flight = false }
cleared (err d) c = record c { in_flight = false; end = some End.stopped; ready = []; tie = [] }

abbrev pub pushed : Result Page → Collection → Option (Result Page) × Collection
pushed result c = (some result, record (cleared result c) { pages = c.pages ++ (result ∷ []) })

unfoldable pub concluded : Bool → Ran Page → Option (Result Page) × Collection
concluded dropped (done p c) = pushed (ok p) c
concluded dropped (failed d c) = pushed (err d) c
concluded dropped (given_up c) =
    if dropped then (none, c) else pushed (err (diagnostic execution_timeout (0, 0))) c

abbrev pub needs_io : Request → Collection → Bool
needs_io r c = is_none c.end && ltb (length c.ready) (limit_of r)

abbrev pub is_next : ℕ → Collection → Bool
is_next index c = index == length c.pages && (index == 0 || ends_with_cursor c.pages)

abbrev pub flying : Collection → Collection
flying c = record c { in_flight = true }

-- The page of an index that is not there yet.
unfoldable pub next_page : Job → Call → Str → ℕ → Collection → Option (Result Page) × Collection
unfolding concluded
next_page j call id index c =
    if not (is_next index c)
    then (some (err expired), c)
    else if c.in_flight
    then pushed (err expired) c
    else if needs_io call.request c && not call.permit
    then (some (err (diagnostic execution_busy (0, 0))), c)
    else concluded call.dropped (advance j call.request id index (flying c))

-- The page of a session that is locked.
unfoldable pub page_at : Job → Call → Str → ℕ → ℕ → Collection → Option (Result Page) × Collection
unfolding next_page
page_at j call id index created c =
    if not call.in_time
    then (some (err (diagnostic execution_timeout (0, 0))), c)
    else if leb ttl (call.locked - created)
    then (some (err expired), c)
    else elim (get_elem? c.pages index) [
      | some page ↦ (some page, c)
      | none ↦ next_page j call id index c
    ]

abbrev pub mode_tag : Mode → ℕ
mode_tag Mode.posts = 0
mode_tag Mode.comments = 1
mode_tag Mode.communities = 2

abbrev pub time_tag : ListingTime → ℕ
time_tag ListingTime.hour = 0
time_tag ListingTime.day = 1
time_tag ListingTime.week = 2
time_tag ListingTime.month = 3
time_tag ListingTime.year = 4
time_tag ListingTime.all_time = 5

abbrev pub option_eq : {A : Type 0} → (A → A → Bool) → Option A → Option A → Bool
option_eq eq none none = true
option_eq eq none (some y) = false
option_eq eq (some x) none = false
option_eq eq (some x) (some y) = eq x y

-- `==` on requests
unfoldable pub request_eq : Request → Request → Bool
request_eq r s =
    str_eq r.q s.q
    && mode_tag r.kind == mode_tag s.kind
    && option_eq str_eq r.sort s.sort
    && option_eq (λ t u. time_tag t == time_tag u) r.t s.t
    && option_eq (λ m n. m == n) r.limit s.limit
    && (if r.include_nsfw then s.include_nsfw else not s.include_nsfw)
    && option_eq str_eq r.cursor s.cursor

-- The entry that a cursor names.
unfoldable pub is_entry : Str → Call → Entry → Bool
unfolding request_eq
is_entry id call e =
    str_eq e.id id
    && request_eq e.binding (binding call.request)
    && ltb (call.looked_up - e.created) ttl

abbrev pub step_entry :
    Entry → Option (Result Page) × List Entry → Option (Result Page) × List Entry
step_entry e (result, entries) = (result, e ∷ entries)

abbrev pub with_state :
    Entry → List Entry → Option (Result Page) × Collection → Option (Result Page) × List Entry
with_state e entries (result, c) = (result, record e { state = c } ∷ entries)

module _ (parse_uuid : Str → Option Str) (j : Job) where
  unfoldable pub resume : Call → Str → ℕ → List Entry → Option (Result Page) × List Entry
  unfolding page_at is_entry
  resume call id index [] = (some (err expired), [])
  resume call id index (e ∷ entries) =
      let rest = step_entry e (resume call id index entries) in
      if is_entry id call e
      then with_state e entries (page_at j call id index e.created e.state)
      else rest

  -- `entries.retain(|e| e.created.elapsed() < TTL)`
  abbrev pub retain : ℕ → List Entry → List Entry
  retain now [] = []
  retain now (e ∷ entries) =
      let rest = retain now entries in if ltb (now - e.created) ttl then e ∷ rest else rest

  abbrev pub pop_front : List Entry → List Entry
  pop_front [] = []
  pop_front (e ∷ entries) = entries

  abbrev pub room : List Entry → List Entry
  room entries = if leb max_entries (length entries) then pop_front entries else entries

  abbrev pub entry_of : Call → Collection → Entry
  entry_of call c = record {
    id = call.fresh_id;
    binding = binding call.request;
    created = call.looked_up;
    state = c;
  }

  unfoldable pub kept :
      Call → List Entry → Option (Result Page) × Collection → Option (Result Page) × List Entry
  kept call entries (none, c) = (none, entries)
  kept call entries (some result, c) =
      if has_cursor result
      then (some result, room (retain call.stored entries) ++ (entry_of call c ∷ []))
      else (some result, entries)

  unfoldable pub resume_index :
      Call → List Entry → Str → Option ℕ → Option (Result Page) × List Entry
  unfolding resume
  resume_index call entries id none = (some (err expired), entries)
  resume_index call entries id (some index) = resume call id index entries

  unfoldable pub resume_id :
      Call → List Entry → Str → Option Str → Option (Result Page) × List Entry
  unfolding resume_index
  resume_id call entries index none = (some (err expired), entries)
  resume_id call entries index (some id) = resume_index call entries id (parse_usize index)

  unfoldable pub resume_at :
      Call → List Entry → Option (Str × Str) → Option (Result Page) × List Entry
  unfolding resume_id
  resume_at call entries none = (some (err expired), entries)
  resume_at call entries (some (id, index)) = resume_id call entries index (parse_uuid id)

  unfoldable pub started : Call → List Entry → Option Str → Option (Result Page) × List Entry
  unfolding kept resume_at page_at
  started call entries none =
      kept call entries
        (page_at j call call.fresh_id 0 call.looked_up (new call.expr call.plan call.frozen))
  started call entries (some cursor) =
      if ltb 64 (len cursor)
      then (some (err expired), entries)
      else resume_at call entries (split_dot cursor)

  -- `Sessions::execute_before`; there is no result if the request was dropped.
  unfoldable pub execute : Call → List Entry → Option (Result Page) × List Entry
  unfolding started
  execute call entries = started call entries call.request.cursor
