-- ===== src/Search/Session.antt =====
-- The state of a search session: `Collection` of crates/api/src/search/engine/session.rs, with
-- `fetch` and what it calls. What the service answers is an argument, by the number of the call,
-- and so is the moment at which a request is given up. The sets of cursors and of objects that
-- were seen are lists.
pub mod Judge
pub mod Hydrate
pub mod Advance
pub mod Cursor
pub mod Store
pub mod Outcome
pub mod Kept
pub mod Fetching
pub mod Hydrating
pub mod Judging
pub mod Advancing
pub mod Sound
pub mod Binding
pub mod Failing
pub mod Replies
pub mod Table
pub mod Replay
pub mod Newest
pub mod Unmoved
pub mod Ordering
pub mod Chronology
pub mod Budgets
pub mod Published
mod Examples
use neddit.Prelude.{
  ℕ, zero, suc, ◌+◌, ◌*◌, Bool, true, false, ◌&&◌, ◌||◌, ◌==◌, ltb, leb, if◌then◌else◌, List, [],
  ◌∷◌, ◌++◌, any, length, Option, none, some, Str, contains, len, str_leb, sort_by, not, str_eq,
  codes,
}
use neddit.Prelude.Int.{ℤ}
use neddit.Crates.{Crates}
use neddit.Search.Syntax.{Expr, span, Diagnostic, diagnostic, Result, ok, err, source_failed}
use neddit.Search.Record.{Record}
use neddit.Search.Request.{Request, Plan, sort_of}
use neddit.Search.Thing.{F64, PublicThing, Listing, correct_kind, identity}
use neddit.Search.Page.{Notice, notice_eq, Page}

abbrev pub max_pages : ℕ
max_pages = 4

abbrev pub max_session_bytes : ℕ
max_session_bytes = 2 * 1024 * 1024

abbrev pub max_candidates : ℕ
max_candidates = 400

abbrev pub max_source_pages : ℕ
max_source_pages = 16

abbrev pub max_source_calls : ℕ
max_source_calls = 32

abbrev pub max_parent_bytes : ℕ
max_parent_bytes = 512 * 1024

pub data End : Type 0 where
  exhausted stopped : End

pub record Collection : Type 0 where
  pub expr : Expr
  pub plan : Plan
  pub frozen : ℤ
  pub pages : List (Result Page)
  pub ready : List PublicThing
  pub tie : List PublicThing
  pub last_time : Option F64
  pub after : Option Str
  pub cursors : List Str
  pub seen : List Str
  pub parents : Str → Option (Option Record)
  pub parent_bytes : ℕ
  pub source_pages : ℕ
  pub source_calls : ℕ
  pub candidates : ℕ
  pub bytes : ℕ
  pub observed : ℕ
  pub unknown : ℕ
  pub end : Option End
  pub failed : Bool
  pub in_flight : Bool
  pub notices : List Notice

-- What the service answers; `pending` is no answer before the request is given up.
pub data Answer : Type 0 where
  listing : Listing → Answer
  failure pending : Answer

-- What a session calls and does not change. `page` and `parents` take the number of the call, and
-- `late` tells whether the request is given up at the yield after an object.
pub record Job : Type 0 where
  pub lib : Crates
  pub to_nanoseconds : F64 → ℤ
  pub size : PublicThing → Option ℕ
  pub page : ℕ → Plan → Request → Option Str → ℕ → Answer
  pub parents : ℕ → List Str → Answer
  pub late : PublicThing → Bool

-- An operation returns, returns an error, or is given up at an `await`.
pub data Ran {ℓ} (A : Type ℓ) : Type ℓ where
  done : A → Collection → Ran A
  failed : Diagnostic → Collection → Ran A
  given_up : Collection → Ran A

abbrev pub and_then {ℓ κ} : {A : Type ℓ} {B : Type κ} → Ran A → (A → Collection → Ran B) → Ran B
and_then (done x c) k = k x c
and_then (failed d c) k = failed d c
and_then (given_up c) k = given_up c

abbrev pub is_none {ℓ} : {A : Type ℓ} → Option A → Bool
is_none none = true
is_none (some x) = false

abbrev pub is_names : Plan → Bool
is_names (Plan.names l) = true
is_names p = false

abbrev pub failure_at : Collection → Diagnostic
failure_at c = diagnostic source_failed (span c.expr)

-- `stop`
unfoldable pub stop : Notice → Bool → Collection → Collection
stop notice fails c = record c {
  end = some End.stopped;
  failed = c.failed || fails;
  notices = if any (notice_eq notice) c.notices then c.notices else c.notices ++ (notice ∷ []);
}

abbrev pub page_limit : Bool → ℕ
page_limit top = if top then max_pages else max_source_pages

-- `bounded`
unfoldable pub bounded : Bool → Collection → Collection
unfolding stop
bounded top c =
    if is_none c.end
      && (leb (page_limit top) c.source_pages
          || leb max_candidates c.candidates
          || leb max_source_calls c.source_calls)
    then stop Notice.budget_reached false c
    else c

abbrev pub identity_le : PublicThing → PublicThing → Bool
identity_le a b = str_leb (identity a) (identity b)

-- `flush_tie`
unfoldable pub flush_tie : Collection → Collection
flush_tie c = record c { ready = c.ready ++ sort_by identity_le c.tie; tie = [] }

-- The length of the JSON text, or what is beyond the limit if there is none.
abbrev pub bytes_of : Option ℕ → ℕ
bytes_of none = max_session_bytes + 1
bytes_of (some n) = n

-- `seen.insert(identity)`, and the object in the batch if it is new
abbrev pub marked : PublicThing → Collection → Collection
marked x c = record c {
  seen = if contains c.seen (identity x) then c.seen else identity x ∷ c.seen;
}

abbrev pub if_new : PublicThing → Collection → List PublicThing → List PublicThing
if_new x c batch = if contains c.seen (identity x) then batch else batch ++ (x ∷ [])

abbrev pub counted : Job → PublicThing → Collection → Collection
counted j x c = record c { candidates = c.candidates + 1; bytes = c.bytes + bytes_of (j.size x) }

-- The loop of `fetch` over the objects of a page.
unfoldable pub admit :
    Job → Request → List PublicThing → List PublicThing → Collection → Ran (List PublicThing)
unfolding stop
admit j r [] batch c = done batch c
admit j r (x ∷ xs) batch c =
    let c' = counted j x c in
    if not (correct_kind x r.kind)
    then failed (failure_at c) c
    else if c.candidates == max_candidates
    then done batch (stop Notice.candidate_limit false c)
    else if ltb max_session_bytes c'.bytes
    then done batch (stop Notice.byte_budget false c')
    else admit j r xs (if_new x c' batch) (marked x c')

-- The cursor of the next page, when the session has not ended.
followed : Option Str → Collection → Collection
unfolding stop
followed none c = record c { after = none; end = some End.exhausted }
followed (some cursor) c =
    let c' = record c { after = some cursor } in
    if is_names c.plan
    then record c' { end = some End.exhausted }
    else if contains c.cursors cursor
    then stop Notice.repeated_cursor true c'
    else record c' { cursors = cursor ∷ c.cursors }

unfoldable pub settled : Option Str → Collection → Collection
unfolding followed
settled after c = if is_none c.end then followed after c else c

-- `after.as_ref().is_some_and(|c| c.is_empty() || c.len() > 128)`
abbrev pub is_bad_cursor : Option Str → Bool
is_bad_cursor none = false
is_bad_cursor (some cursor) = len cursor == 0 || ltb 128 (len cursor)

abbrev pub is_top : Request → Bool
is_top r = str_eq (sort_of r) (codes "top")

abbrev pub is_new : Request → Bool
is_new r = str_eq (sort_of r) (codes "new")

unfoldable pub received : Job → Request → Answer → Collection → Ran (List PublicThing)
unfolding stop settled bounded
received j r Answer.pending c = given_up c
received j r Answer.failure c =
    let c' = stop Notice.source_stopped true c in
    if length c.seen == 0 then failed (failure_at c) c' else done [] c'
received j r (Answer.listing l) c =
    if ltb 100 (length l.children) || is_bad_cursor l.after
    then failed (failure_at c) c
    else and_then (admit j r l.children [] c)
        (λ batch c'. done batch (bounded (is_top r) (settled l.after c')))

abbrev pub called : Collection → Collection
called c = record c { source_pages = c.source_pages + 1; source_calls = c.source_calls + 1 }

-- `fetch`
unfoldable pub fetch : Job → Request → ℕ → Collection → Ran (List PublicThing)
unfolding received
fetch j r limit c = received j r (j.page c.source_calls c.plan r c.after limit) (called c)
