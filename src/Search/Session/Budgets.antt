-- ===== src/Search/Session/Budgets.antt =====
-- The budgets of the sessions of a table, through a sequence of calls: `Sessions::execute_before`
-- of crates/api/src/search/engine/session.rs.
use neddit.Prelude.{
  ℕ, ◌≡◌, refl, sym, ◌∙◌, List, [], ◌∷◌, Option, Str, arith, Bool-cases, inl, inr, All, All-weaken,
}
use neddit.Prelude.Int.{ℤ}
use neddit.Search.Syntax.{Expr, Result}
use neddit.Search.Request.{Request, Plan, binding}
use neddit.Search.Thing.{F64, PublicThing}
use neddit.Search.Page.{Page}
use neddit.Search.Session.{Collection, Job, is_top}
use neddit.Search.Session.Judge.{comment_window}
use neddit.Search.Session.Store.{Call, Entry, new, page_at}
use neddit.Search.Session.Outcome.{occ}
use neddit.Search.Session.Kept.{AllowedAt, PageAllowedAt}
use neddit.Search.Session.Sound.{IsSound, page_at-Sound}
use neddit.Search.Session.Table.{timed_by, run, Tabled, run-Tabled}

window_binding :
    (ns : F64 → ℤ) (r : Request) (x : PublicThing) (z : ℤ)
    → comment_window ns (binding r) x z ≡ comment_window ns r x z
unfolding comment_window binding
window_binding ns r x z = elim (Bool-cases (is_top r)) [
  | inl top ↦ rw top refl
  | inr other ↦ rw other refl
]

module _ (ns : F64 → ℤ) (r : Request) (z : ℤ) where
  allowed_binding : (x : PublicThing) → AllowedAt ns (binding r) z x → AllowedAt ns r z x
  unfolding binding
  allowed_binding x h = (h.0, sym (window_binding ns r x z) ∙ h.1)

  binding_allowed : (x : PublicThing) → AllowedAt ns r z x → AllowedAt ns (binding r) z x
  unfolding binding
  binding_allowed x h = (h.0, window_binding ns r x z ∙ h.1)

  served_binding : (p : Result Page) → PageAllowedAt ns (binding r) z p → PageAllowedAt ns r z p
  served_binding (Result.ok p) h =
      All-weaken (AllowedAt ns (binding r) z) (AllowedAt ns r z) p.items allowed_binding h
  served_binding (Result.err d) h = h

  binding_served : (p : Result Page) → PageAllowedAt ns r z p → PageAllowedAt ns (binding r) z p
  binding_served (Result.ok p) h =
      All-weaken (AllowedAt ns r z) (AllowedAt ns (binding r) z) p.items binding_allowed h
  binding_served (Result.err d) h = h

module _ (ns : F64 → ℤ) (r : Request) (c : Collection) where
  pub Sound-unbound : IsSound ns (binding r) c → IsSound ns r c
  unfolding binding
  Sound-unbound s = record {
    candidates = s.candidates;
    pages = s.pages;
    calls = s.calls;
    bytes = s.bytes;
    parents = s.parents;
    seen = s.seen;
    once = s.once;
    ready =
        All-weaken (AllowedAt ns (binding r) c.frozen) (AllowedAt ns r c.frozen) c.ready
          (allowed_binding ns r c.frozen) s.ready;
    tie =
        All-weaken (AllowedAt ns (binding r) c.frozen) (AllowedAt ns r c.frozen) c.tie
          (allowed_binding ns r c.frozen) s.tie;
    served =
        All-weaken (PageAllowedAt ns (binding r) c.frozen) (PageAllowedAt ns r c.frozen) c.pages
          (served_binding ns r c.frozen) s.served;
    may_fetch = s.may_fetch;
  }

  Sound-bound : IsSound ns r c → IsSound ns (binding r) c
  unfolding binding
  Sound-bound s = record {
    candidates = s.candidates;
    pages = s.pages;
    calls = s.calls;
    bytes = s.bytes;
    parents = s.parents;
    seen = s.seen;
    once = s.once;
    ready =
        All-weaken (AllowedAt ns r c.frozen) (AllowedAt ns (binding r) c.frozen) c.ready
          (binding_allowed ns r c.frozen) s.ready;
    tie =
        All-weaken (AllowedAt ns r c.frozen) (AllowedAt ns (binding r) c.frozen) c.tie
          (binding_allowed ns r c.frozen) s.tie;
    served =
        All-weaken (PageAllowedAt ns r c.frozen) (PageAllowedAt ns (binding r) c.frozen) c.pages
          (binding_served ns r c.frozen) s.served;
    may_fetch = s.may_fetch;
  }

pub new-Sound :
    (ns : F64 → ℤ) (r : Request) (expr : Expr) (plan : Plan) (frozen : ℤ)
    → IsSound ns r (new expr plan frozen)
unfolding new occ
new-Sound ns r expr plan frozen = record {
  candidates = omega arith;
  pages = omega arith;
  calls = omega arith;
  bytes = ground arith;
  parents = omega arith;
  seen = omega arith;
  once = λ id. omega arith;
  ready = tt;
  tie = tt;
  served = tt;
  may_fetch = λ f e. ground arith;
}

-- The sessions are sound and at most 32.
abbrev pub SoundTable : (F64 → ℤ) → List Entry → Type 0
SoundTable ns = Tabled (IsSound ns)

-- A call leaves a session sound, as its binding has it.
pub page_at-bound :
    (job : Job) (call : Call) (key : Str) (index created : ℕ) (c : Collection)
    → IsSound job.to_nanoseconds (binding call.request) c
    → IsSound job.to_nanoseconds (binding call.request) (page_at job call key index created c).1
page_at-bound job call key index created c s =
    Sound-bound job.to_nanoseconds call.request (page_at job call key index created c).1 (
      page_at-Sound job call key index created c
        (Sound-unbound job.to_nanoseconds call.request c s))

all_fit : (calls : List (Job × Call)) → All (λ (jc : Job × Call). Unit {0}) calls
all_fit [] = tt
all_fit (jc ∷ calls) = (tt, all_fit calls)

-- Whatever is searched, resumed, given up or dropped, and whatever the service answers, from the
-- empty table on there are at most 32 sessions, and in each of them: at most 400 candidates, and
-- at most 16 pages, 4 for Top, were fetched, with at most two calls a page; the JSON texts of the
-- candidates are within 2 MiB unless the session has ended, so it fetches no more beyond that; the
-- cached posts are within 512 KiB; no object is twice in what was served and what is buffered; and
-- all of it is visible to the request and within its time window.
pub run-Sound :
    (ns : F64 → ℤ) (parse_uuid : Str → Option Str) (calls : List (Job × Call))
    → SoundTable ns (run ns parse_uuid calls [])
run-Sound ns parse_uuid calls =
    run-Tabled ns parse_uuid (IsSound ns) (λ call. Unit {0})
      (λ call fits. new-Sound ns (binding call.request) call.expr call.plan call.frozen)
      (λ job call key index created c. page_at-bound (timed_by ns job) call key index created c)
      calls (all_fit calls)
