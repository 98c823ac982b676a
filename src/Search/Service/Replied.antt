-- ===== src/Search/Service/Replied.antt =====
-- What searches are answered: `RedditService::search_ql` of crates/api/src/search/engine.rs, after
-- a sequence of calls.
use neddit.Prelude.{
  ℕ, ◌≤◌, ◌≡◌, refl, subst, ◌⊎◌, inl, inr, Bool, true, false, not, ◌&&◌, if_intro, List, [], length,
  Option, none, some, Str, All, All-weaken, arith,
}
use neddit.Prelude.Int.{ℤ}
use neddit.Crates.{Crates}
use neddit.Search.Syntax.{Expr, diagnostic, content_blocked, Result, ok, err}
use neddit.Search.Request.{Request, Plan, binding}
use neddit.Search.Parser.{parse}
use neddit.Search.Scope.{plan}
use neddit.Search.Thing.{F64}
use neddit.Search.Page.{Page}
use neddit.Search.Session.{Collection, Job, is_none}
use neddit.Search.Session.Binding.{request_eq→eq}
use neddit.Search.Session.Store.{Call, Entry, new, page_at, is_entry, max_entries}
use neddit.Search.Session.Table.{timed_by, Tabled}
use neddit.Search.Session.Replies.{
  IsExcuse, IsExcused, first-IsExcused, page_at-IsExcused, execute-Replied,
}
use neddit.Search.Service.{restricted, planned, parsed, search_ql}
use neddit.Search.Service.Shown
use neddit.Search.Service.Shown.{page_at-Shows}
use neddit.Search.Service.Served.{
  IsServed, fresh, searches, searches-Tabled, Serves, IsServed-Serves,
}

module _ (lib : Crates) (ns : F64 → ℤ) (parse_uuid : Str → Option Str) (allows_nsfw : Bool) where
  abbrev Served : Request → Collection → Type 0
  Served = IsServed lib ns parse_uuid allows_nsfw

  abbrev Shows : Request → Option (Result Page) → Type 0
  Shows = Shown.Shows lib ns parse_uuid allows_nsfw

  -- The reply to a search. A page shows what the policy lets be seen, newest first with New. An
  -- error is the refusal of NSFW, that of the parser or of the plan, or one of `IsExcuse`. There
  -- is no reply to a request that was dropped.
  abbrev pub Replies : Call → Option (Result Page) → Type 0
  Replies call none = call.dropped ≡ true
  Replies call (some (ok p)) = Shows (restricted allows_nsfw call.request) (some (ok p))
  Replies call (some (err d)) =
      let r = restricted allows_nsfw call.request in
      ((d ≡ diagnostic content_blocked (0, 0))
        × (allows_nsfw ≡ false)
        × (call.request.include_nsfw ≡ true))
      ⊎ (parse lib r.q r.kind ≡ err d)
      ⊎ ((e : Expr) × (parse lib r.q r.kind ≡ ok e) × (plan r e ≡ err d))
      ⊎ IsExcuse (record call { request = r }) d

  module _ (job : Job) (call : Call) (entries : List Entry) (t : Tabled Served entries) where
    abbrev r : Request
    r = restricted allows_nsfw call.request

    abbrev Replied : Option (Result Page) × List Entry → Type 0
    Replied q = Replies call q.0

    both :
        (o : Option (Result Page))
        → Shows r o
        → IsExcused (record call { request = r }) o
        → Replies call o
    both none h e = e
    both (some (ok p)) h e = h
    both (some (err d)) h e = inr (inr (inr e))

    module _ (e : Expr) (p : Plan) (made : plan r e ≡ ok p)
        (policy : allows_nsfw ≡ false → r.include_nsfw ≡ false) where
      abbrev planned_call : Call
      planned_call = record call { request = r; expr = e; plan = p }

      entry-Replies :
          is_none r.cursor ≡ false
          → (id : Str) (index : ℕ) (entry : Entry) → is_entry id planned_call entry ≡ true
          → Served entry.binding entry.state
          → Replies call
              (page_at (timed_by ns job) planned_call id index entry.created entry.state).0
      unfolding is_entry
      entry-Replies continues id index entry found s =
          let same : entry.binding ≡ binding r =
            request_eq→eq entry.binding (binding r) (ground arith) in
          both (page_at (timed_by ns job) planned_call id index entry.created entry.state).0
            (page_at-Shows lib ns parse_uuid allows_nsfw job planned_call id index entry.created
              entry.state (subst (λ b. Served b entry.state) same s))
            (page_at-IsExcused (timed_by ns job) planned_call continues id index entry.created
              entry.state)

      first-Replies :
          Replies call
            (page_at
              (timed_by ns job)
              planned_call
              call.fresh_id
              0
              call.looked_up
              (new e p call.frozen)).0
      first-Replies =
          both
            (page_at (timed_by ns job) planned_call call.fresh_id 0 call.looked_up
              (new e p call.frozen)).0
            (page_at-Shows lib ns parse_uuid allows_nsfw job planned_call call.fresh_id 0
              call.looked_up (new e p call.frozen)
              (fresh lib ns parse_uuid allows_nsfw planned_call
                (record { planned = made; policy = policy })))
            (first-IsExcused (timed_by ns job) planned_call)

    planned-Replied :
        (e : Expr) (m : Result Plan)
        → parse lib r.q r.kind ≡ ok e
        → plan r e ≡ m
        → (allows_nsfw ≡ false → r.include_nsfw ≡ false)
        → Replied
            (planned lib parse_uuid (timed_by ns job) (record call { request = r }) entries e m)
    unfolding planned
    planned-Replied e (err d) read made policy = inr (inr (inl (e, read, made)))
    planned-Replied e (ok p) read made policy =
        execute-Replied parse_uuid (timed_by ns job) (planned_call e p made policy) (Replies call)
          (λ entry. Served entry.binding entry.state) (first-Replies e p made policy)
          (λ continues. inr (inr (inr (inr (inr (inr (inr continues)))))))
          (entry-Replies e p made policy) entries t.0

    parsed-Replied :
        (m : Result Expr)
        → parse lib r.q r.kind ≡ m
        → (allows_nsfw ≡ false → r.include_nsfw ≡ false)
        → Replied (parsed lib parse_uuid (timed_by ns job) (record call { request = r }) entries m)
    unfolding parsed
    parsed-Replied (err d) read policy = inr (inl read)
    parsed-Replied (ok e) read policy = planned-Replied e (plan r e) read refl policy

    search_ql-Replied :
        Replied (search_ql lib parse_uuid (timed_by ns job) allows_nsfw call entries)
    unfolding search_ql
    search_ql-Replied =
        if_intro Replied (not allows_nsfw && call.request.include_nsfw) _ _
          (λ blocked. inl (refl, ground arith, ground arith))
          (λ e. parsed-Replied (parse lib r.q r.kind) refl (λ refused. rw refused refl))

  -- Through every sequence of searches and continuations, whatever Reddit answers, the service has
  -- at most 32 sessions, each with the order of New and the policy kept over all that it has
  -- served. And whatever it is asked next: a page that it replies has no object that is NSFW, or
  -- of which this is not known, where the policy refuses NSFW, and is newest first with New. An
  -- error that it replies is that of NSFW where the policy refuses it, of the parser or of the plan,
  -- of a source that failed, of a deadline, of a permit that is not free, of a session that is too
  -- old when it is locked, or it answers a continuation. There is no reply only where the request
  -- was dropped.
  pub searches-Serves :
      (calls : List (Job × Call)) (job : Job) (call : Call)
      → All (Serves lib ns parse_uuid allows_nsfw) (searches lib ns parse_uuid allows_nsfw calls [])
        × (length (searches lib ns parse_uuid allows_nsfw calls []) ≤ max_entries)
        × Replies call
            (search_ql lib parse_uuid
              (timed_by ns job)
              allows_nsfw
              call
              (searches lib ns parse_uuid allows_nsfw calls [])).0
  searches-Serves calls job call =
      let entries = searches lib ns parse_uuid allows_nsfw calls [] in
      let t = searches-Tabled lib ns parse_uuid allows_nsfw calls [] (tt, omega arith) in
      (
        All-weaken (λ e. Served e.binding e.state) (Serves lib ns parse_uuid allows_nsfw) entries
            (IsServed-Serves lib ns parse_uuid allows_nsfw) t.0,
        t.1,
        search_ql-Replied job call entries t,
      )
