-- ===== src/Search/Service/Served.antt =====
-- The sessions of the service: `RedditService::search_ql` of crates/api/src/search/engine.rs,
-- through a sequence of calls.
use neddit.Prelude.{
  ℕ, ◌≡◌, refl, Bool, false, not, ◌&&◌, if_intro, List, [], ◌∷◌, Option, Str, All, All-append,
  All-weaken, Bool-cases, inl, inr,
}
use neddit.Prelude.Int.{ℤ}
use neddit.Crates.{Crates}
use neddit.Search.Syntax.{Expr, Result, ok, err}
use neddit.Search.Truth.{Truth}
use neddit.Search.Request.{Request, Plan, binding}
use neddit.Search.Parser.{parse}
use neddit.Search.Scope.{plan}
use neddit.Search.Scope.Discovered.{IsDiscovered, plan-IsDiscovered}
use neddit.Search.Thing.{F64, PublicThing}
use neddit.Search.Page.{Page}
use neddit.Search.Session.{Collection, Job, is_names}
use neddit.Search.Session.Judge.{visibility}
use neddit.Search.Session.Store.{Call, Entry, new, page_at}
use neddit.Search.Session.Kept.{PageAllowedAt}
use neddit.Search.Session.Sound.{IsSound}
use neddit.Search.Session.Table.{timed_by, Tabled, execute-Tabled}
use neddit.Search.Session.Budgets.{new-Sound, page_at-bound}
use neddit.Search.Session.Newest.{NewestFirst}
use neddit.Search.Session.Ordering.{all_items}
use neddit.Search.Session.Published.{
  NewInOrder, new-InOrder, page_at-InOrder, new_items, entry-NewestFirst,
}
use neddit.Search.Service.{restricted, planned, parsed, search_ql}

discovered : (p : Plan) → IsDiscovered p → is_names p ≡ false
discovered (Plan.posts q) h = refl
discovered (Plan.comments f v) h = refl
discovered (Plan.communities q) h = refl
discovered (Plan.names vs) h = absurd h

module _ (lib : Crates) (ns : F64 → ℤ) (parse_uuid : Str → Option Str) (allows_nsfw : Bool) where
  -- A session of the service is sound, in the order of New, and as the policy has it.
  pub record IsServed (r : Request) (c : Collection) : Type 0 where
    pub sound : IsSound ns r c
    pub in_order : NewInOrder r c
    pub policy : allows_nsfw ≡ false → r.include_nsfw ≡ false

  -- What the guards of `search_ql` let through.
  pub record IsPlanned (call : Call) : Type 0 where
    pub planned : plan call.request call.expr ≡ ok call.plan
    pub policy : allows_nsfw ≡ false → call.request.include_nsfw ≡ false

  pub fresh :
      (call : Call)
      → IsPlanned call
      → IsServed (binding call.request) (new call.expr call.plan call.frozen)
  unfolding binding
  fresh call f = record {
    sound = new-Sound ns (binding call.request) call.expr call.plan call.frozen;
    in_order = new-InOrder call (λ e.
        discovered call.plan (plan-IsDiscovered call.request e call.expr call.plan f.planned));
    policy = f.policy;
  }

  pub keeps :
      (job : Job) (call : Call) (key : Str) (index created : ℕ) (c : Collection)
      → IsServed (binding call.request) c
      → IsServed (binding call.request) (page_at (timed_by ns job) call key index created c).1
  keeps job call key index created c s = record {
    sound = page_at-bound (timed_by ns job) call key index created c s.sound;
    in_order = page_at-InOrder (timed_by ns job) call key index created c s.in_order;
    policy = s.policy;
  }

  abbrev Leaves : Option (Result Page) × List Entry → Type 0
  Leaves q = Tabled IsServed q.1

  module _ (job : Job) (entries : List Entry) (t : Tabled IsServed entries) where
    planned-Tabled :
        (call : Call) (e : Expr) (m : Result Plan)
        → plan call.request e ≡ m
        → (allows_nsfw ≡ false → call.request.include_nsfw ≡ false)
        → Leaves (planned lib parse_uuid (timed_by ns job) call entries e m)
    unfolding planned
    planned-Tabled call e (err d) made policy = t
    planned-Tabled call e (ok p) made policy =
        execute-Tabled ns parse_uuid IsServed IsPlanned fresh keeps job
          (record call { expr = e; plan = p }) entries (record { planned = made; policy = policy })
          t

    parsed-Tabled :
        (call : Call) (m : Result Expr)
        → (allows_nsfw ≡ false → call.request.include_nsfw ≡ false)
        → Leaves (parsed lib parse_uuid (timed_by ns job) call entries m)
    unfolding parsed
    parsed-Tabled call (err d) policy = t
    parsed-Tabled call (ok e) policy = planned-Tabled call e (plan call.request e) refl policy

    search_ql-Tabled :
        (call : Call) → Leaves (search_ql lib parse_uuid (timed_by ns job) allows_nsfw call entries)
    unfolding search_ql
    search_ql-Tabled call =
        let r = restricted allows_nsfw call.request in
        if_intro Leaves (not allows_nsfw && call.request.include_nsfw) _ _ (λ blocked. t)
          (λ e.
            parsed-Tabled (record call { request = r }) (parse lib r.q r.kind)
              (λ refused. rw refused refl))

  -- The table after a sequence of searches; the service may answer each as it likes.
  pub searches : List (Job × Call) → List Entry → List Entry
  searches [] entries = entries
  searches ((job, call) ∷ calls) entries =
      searches calls (search_ql lib parse_uuid (timed_by ns job) allows_nsfw call entries).1

  pub searches-Tabled :
      (calls : List (Job × Call)) (entries : List Entry)
      → Tabled IsServed entries
      → Tabled IsServed (searches calls entries)
  unfolding searches
  searches-Tabled [] entries t = t
  searches-Tabled ((job, call) ∷ calls) entries t =
      searches-Tabled calls (search_ql lib parse_uuid (timed_by ns job) allows_nsfw call entries).1
        (search_ql-Tabled job entries t call)

  -- The policy of the server lets an object be seen.
  abbrev pub IsVisible : PublicThing → Type 0
  IsVisible x = visibility x allows_nsfw ≡ Truth.true

  see :
      (r : Request) (x : PublicThing)
      → (allows_nsfw ≡ false → r.include_nsfw ≡ false)
      → visibility x r.include_nsfw ≡ Truth.true
      → IsVisible x
  see r x policy h = elim (Bool-cases allows_nsfw) [
    | inl free ↦ rw free (unfold visibility in refl)
    | inr refused ↦ rw (refused, ← policy refused) h
  ]

  pub pages-IsVisible :
      (r : Request) (frozen : ℤ) (l : List (Result Page))
      → (allows_nsfw ≡ false → r.include_nsfw ≡ false)
      → All (PageAllowedAt ns r frozen) l
      → All IsVisible (all_items l)
  pages-IsVisible r frozen [] policy h = tt
  pages-IsVisible r frozen (ok p ∷ l) policy h =
      All-append IsVisible p.items (all_items l)
        (All-weaken _ IsVisible p.items (λ x a. see r x policy a.0) h.0)
        (pages-IsVisible r frozen l policy h.1)
  pages-IsVisible r frozen (err d ∷ l) policy h = pages-IsVisible r frozen l policy h.1

  -- What a session of New has served, one page after another, and what is ready, is newest first,
  -- and the policy lets all be seen that was served.
  abbrev pub Serves : Entry → Type 0
  Serves e = NewestFirst (new_items e) × All IsVisible (all_items e.state.pages)

  pub IsServed-Serves : (e : Entry) → IsServed e.binding e.state → Serves e
  IsServed-Serves e s = (
    entry-NewestFirst e s.in_order,
    pages-IsVisible e.binding e.state.frozen e.state.pages s.policy s.sound.served,
  )
