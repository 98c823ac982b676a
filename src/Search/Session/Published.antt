-- ===== src/Search/Session/Published.antt =====
-- The order of New in an entry of the table: `Sessions::execute_before` of
-- crates/api/src/search/engine/session.rs.
use neddit.Prelude.{ℕ, ◌≡◌, true, false, if◌then◌else◌, if_intro, List, [], ◌++◌, Str}
use neddit.Search.Request.{Request, binding}
use neddit.Search.Thing.{PublicThing}
use neddit.Search.Session.{Collection, Job, is_new, is_names}
use neddit.Search.Session.Store.{Call, Entry, new, page_at}
use neddit.Search.Session.Unmoved.{shelf}
use neddit.Search.Session.Newest.{NewestFirst}
use neddit.Search.Session.Ordering.{all_items, IsOrdered}
use neddit.Search.Session.Chronology.{page_at-IsOrdered}

-- A session of New is in order.
abbrev pub NewInOrder : Request → Collection → Type 0
NewInOrder r c = is_new r ≡ true → IsOrdered (shelf c)

pub new-InOrder :
    (call : Call)
    → (is_new call.request ≡ true → is_names call.plan ≡ false)
    → NewInOrder (binding call.request) (new call.expr call.plan call.frozen)
unfolding new binding
new-InOrder call fits e = record {
  newest_first = tt;
  before = tt;
  tied = tt;
  date = tt;
  not_names = fits e;
}

pub page_at-InOrder :
    (job : Job) (call : Call) (key : Str) (index created : ℕ) (c : Collection)
    → NewInOrder (binding call.request) c
    → NewInOrder (binding call.request) (page_at job call key index created c).1
unfolding binding
page_at-InOrder job call key index created c h e =
    page_at-IsOrdered job call e key index created c (h e)

-- What a session of New has served, one page after another, and what is ready to be served.
abbrev pub new_items : Entry → List PublicThing
new_items e = if is_new e.binding then all_items e.state.pages ++ e.state.ready else []

pub entry-NewestFirst : (e : Entry) → NewInOrder e.binding e.state → NewestFirst (new_items e)
entry-NewestFirst e h =
    if_intro NewestFirst (is_new e.binding) _ _ (λ new. (h new).newest_first) (λ other. tt)
