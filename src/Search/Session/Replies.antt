-- ===== src/Search/Session/Replies.antt =====
-- What a call on the table of sessions is answered: `Sessions::execute_before` of
-- crates/api/src/search/engine/session.rs.
use neddit.Prelude.{
  ℕ, ◌-◌, ◌≡◌, refl, ap, ◌⊎◌, inl, inr, Bool, true, false, not, ◌&&◌, leb, ltb, if_intro, List, [],
  ◌∷◌, Option, none, some, Str, len, arith, get_elem?, Option-cases, All,
}
use neddit.Search.Syntax.{
  Diagnostic, diagnostic, Result, ok, err, source_failed, execution_timeout, execution_busy,
}
use neddit.Search.Page.{Page}
use neddit.Search.Session.{Collection, Job, Ran, done, failed, given_up, is_none}
use neddit.Search.Session.Advance.{advance}
use neddit.Search.Session.Cursor.{split_dot, parse_usize}
use neddit.Search.Session.Store.{
  Call, Entry, new, is_entry, page_at, next_page, is_next, needs_io, flying, concluded, expired,
  ttl, resume, kept, resume_index, resume_id, resume_at, started, execute, has_cursor,
}
use neddit.Search.Session.Failing.{Failing, advance-Failing}

-- Why a planned search is not served: the source failed, time is over, no permit is free, the new
-- session is too old when it is locked, or the call continues a session.
abbrev pub IsExcuse : Call → Diagnostic → Type 0
IsExcuse call d =
    (d.code ≡ source_failed)
    ⊎ (d.code ≡ execution_timeout)
    ⊎ ((d.code ≡ execution_busy) × (call.permit ≡ false))
    ⊎ ((d ≡ expired) × (leb ttl (call.locked - call.looked_up) ≡ true))
    ⊎ (is_none call.request.cursor ≡ false)

-- A reply that is missing is of a request that was dropped.
abbrev pub IsExcused : Call → Option (Result Page) → Type 0
IsExcused call none = call.dropped ≡ true
IsExcused call (some (ok p)) = Unit
IsExcused call (some (err d)) = IsExcuse call d

module _ (j : Job) (call : Call) where
  abbrev Excused : Option (Result Page) × Collection → Type 0
  Excused q = IsExcused call q.0

  concluded-IsExcused : (m : Ran Page) → Failing m → Excused (concluded call.dropped m)
  unfolding concluded
  concluded-IsExcused (done p c) h = tt
  concluded-IsExcused (failed d c) h = inl h
  concluded-IsExcused (given_up c) h =
      if_intro Excused call.dropped _ _ (λ dropped. dropped) (λ late. inr (inl refl))

  permitted-IsExcused :
      (key : Str) (index : ℕ) (c : Collection)
      → Excused (concluded call.dropped (advance j call.request key index (flying c)))
  permitted-IsExcused key index c =
      concluded-IsExcused (advance j call.request key index (flying c))
        (advance-Failing j call.request key index (flying c))

  busy-IsExcuse :
      (io : Bool)
      → (io && not call.permit) ≡ true
      → IsExcuse call (diagnostic execution_busy (0, 0))
  busy-IsExcuse io e = inr (inr (inl (refl, ground arith)))

  -- The first page of a search.
  pub first-IsExcused :
      Excused (page_at j call call.fresh_id 0 call.looked_up (new call.expr call.plan call.frozen))
  unfolding page_at next_page new
  first-IsExcused =
      let c = new call.expr call.plan call.frozen in
      if_intro Excused (not call.in_time) _ _ (λ late. inr (inl refl))
        (λ in_time.
          if_intro Excused (leb ttl (call.locked - call.looked_up)) _ _
            (λ old. inr (inr (inr (inl (refl, old)))))
            (λ young.
              if_intro Excused (needs_io call.request c && not call.permit) _ _
                (λ full. busy-IsExcuse (needs_io call.request c) full)
                (λ permitted. permitted-IsExcused call.fresh_id 0 c)))

  module _ (continues : is_none call.request.cursor ≡ false) where
    continued : (d : Diagnostic) → IsExcuse call d
    continued d = inr (inr (inr (inr continues)))

    stored-IsExcused : (p : Result Page) → IsExcused call (some p)
    stored-IsExcused (ok p) = tt
    stored-IsExcused (err d) = continued d

    next_page-IsExcused :
        (key : Str) (index : ℕ) (c : Collection) → Excused (next_page j call key index c)
    unfolding next_page
    next_page-IsExcused key index c =
        if_intro Excused (not (is_next index c)) _ _ (λ e. continued expired)
          (λ next.
            if_intro Excused c.in_flight _ _ (λ busy. continued expired)
              (λ free.
                if_intro Excused (needs_io call.request c && not call.permit) _ _
                  (λ full. busy-IsExcuse (needs_io call.request c) full)
                  (λ permitted. permitted-IsExcused key index c)))

    -- A page of a session that is there.
    pub page_at-IsExcused :
        (key : Str) (index created : ℕ) (c : Collection)
        → Excused (page_at j call key index created c)
    unfolding page_at
    page_at-IsExcused key index created c =
        if_intro Excused (not call.in_time) _ _ (λ late. inr (inl refl))
          (λ in_time.
            if_intro Excused (leb ttl (call.locked - created)) _ _ (λ old. continued expired)
              (λ young. elim (Option-cases (get_elem? c.pages index)) [
                | inl missing ↦ rw missing (next_page-IsExcused key index c)
                | inr (page, found) ↦ rw found (stored-IsExcused page)
              ]))

-- What holds of the pages of the sessions, and of the refusals of a continuation, holds of replies.
module _ (parse_uuid : Str → Option Str) (j : Job) (call : Call) (R : Option (Result Page) → Type 0)
    (P : Entry → Type 0)
    (first : R
      (page_at j call call.fresh_id 0 call.looked_up (new call.expr call.plan call.frozen)).0)
    (over : is_none call.request.cursor ≡ false → R (some (err expired)))
    (gives : is_none call.request.cursor ≡ false
      → (id : Str) (index : ℕ) (e : Entry) → is_entry id call e ≡ true
      → P e
      → R (page_at j call id index e.created e.state).0) where
  abbrev Replied : Option (Result Page) × List Entry → Type 0
  Replied q = R q.0

  kept-Replied :
      (entries : List Entry) (q : Option (Result Page) × Collection)
      → R q.0
      → Replied (kept parse_uuid j call entries q)
  unfolding kept
  kept-Replied entries (none, c) h = h
  kept-Replied entries (some p, c) h = if_intro Replied (has_cursor p) _ _ (λ more. h) (λ last. h)

  module _ (continues : is_none call.request.cursor ≡ false) where
    resume-Replied :
        (id : Str) (index : ℕ) (entries : List Entry)
        → All P entries
        → Replied (resume parse_uuid j call id index entries)
    unfolding resume
    resume-Replied id index [] h = over continues
    resume-Replied id index (e ∷ entries) h =
        let rest = resume-Replied id index entries h.1 in
        if_intro Replied (is_entry id call e) _ _ (λ found. gives continues id index e found h.0)
          (λ other. rest)

    resume_id-Replied :
        (entries : List Entry) (id : Str) (index : Option ℕ)
        → All P entries
        → Replied (resume_index parse_uuid j call entries id index)
    unfolding resume_index
    resume_id-Replied entries id none h = over continues
    resume_id-Replied entries id (some index) h = resume-Replied id index entries h

    resume_at-Replied :
        (entries : List Entry) (o : Option (Str × Str))
        → All P entries
        → Replied (resume_at parse_uuid j call entries o)
    unfolding resume_at resume_id
    resume_at-Replied entries none h = over continues
    resume_at-Replied entries (some (id, index)) h = elim (Option-cases (parse_uuid id)) [
      | inl bad ↦ rw bad (over continues)
      | inr (uuid, good) ↦ rw good (resume_id-Replied entries uuid (parse_usize index) h)
    ]

  started-Replied :
      (entries : List Entry) (o : Option Str)
      → call.request.cursor ≡ o
      → All P entries
      → Replied (started parse_uuid j call entries o)
  unfolding started
  started-Replied entries none e h =
      kept-Replied entries
        (page_at j call call.fresh_id 0 call.looked_up (new call.expr call.plan call.frozen)) first
  started-Replied entries (some cursor) e h =
      let continues : is_none call.request.cursor ≡ false = ap is_none e in
      if_intro Replied (ltb 64 (len cursor)) _ _ (λ long. over continues)
        (λ short. resume_at-Replied continues entries (split_dot cursor) h)

  pub execute-Replied :
      (entries : List Entry) → All P entries → Replied (execute parse_uuid j call entries)
  unfolding execute
  execute-Replied entries h = started-Replied entries call.request.cursor refl h
