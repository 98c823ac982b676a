-- ===== src/Search/Session/Table.antt =====
-- The table of sessions through a sequence of calls: what every call keeps of a session, the
-- table keeps of all. This is `Sessions::execute_before` of
-- crates/api/src/search/engine/session.rs.
use neddit.Prelude.{
  ℕ, suc, ◌-◌, ◌≤◌, ◌<◌, ◌≡◌, refl, sym, ap, subst, true, ltb, leb, if_intro, List, [], ◌∷◌, length,
  length-append, Option, none, some, Str, arith, Option-cases, inl, inr, All, All-append, len,
}
use neddit.Prelude.Int.{ℤ}
use neddit.Search.Syntax.{Result}
use neddit.Search.Request.{Request, binding}
use neddit.Search.Thing.{F64}
use neddit.Search.Page.{Page}
use neddit.Search.Session.{Collection, Job}
use neddit.Search.Session.Cursor.{split_dot, parse_usize}
use neddit.Search.Session.Store.{
  Call, Entry, new, is_entry, page_at, resume, retain, room, pop_front, entry_of, kept,
  resume_index, resume_id, resume_at, started, execute, max_entries, has_cursor,
}
use neddit.Search.Session.Binding.{request_eq→eq}

-- A job whose service may answer differently, with the same conversion of times.
abbrev pub timed_by : (F64 → ℤ) → Job → Job
timed_by ns j = record j { to_nanoseconds = ns }

module _ (ns : F64 → ℤ) (parse_uuid : Str → Option Str) where
  -- The table after a sequence of calls; the service may answer each as it likes.
  pub run : List (Job × Call) → List Entry → List Entry
  run [] entries = entries
  run ((job, call) ∷ calls) entries =
      run calls (execute parse_uuid (timed_by ns job) call entries).1

-- What holds of every session of a table, which has at most 32.
abbrev pub Tabled : (Request → Collection → Type 0) → List Entry → Type 0
Tabled P entries = All (λ e. P e.binding e.state) entries × (length entries ≤ max_entries)

-- What holds of a new session of a call that fits, and is kept by every call.
module _ (ns : F64 → ℤ) (parse_uuid : Str → Option Str) (P : Request → Collection → Type 0)
    (Fits : Call → Type 0)
    (fresh : (call : Call)
      → Fits call
      → P (binding call.request) (new call.expr call.plan call.frozen))
    (keeps : (job : Job) (call : Call) (key : Str) (index created : ℕ) (c : Collection)
      → P (binding call.request) c
      → P (binding call.request) (page_at (timed_by ns job) call key index created c).1) where
  abbrev Holding : Entry → Type 0
  Holding e = P e.binding e.state

  module _ (job : Job) (call : Call) where
    abbrev j : Job
    j = timed_by ns job

    resumed_entry :
        (id : Str) (index : ℕ) (e : Entry)
        → is_entry id call e ≡ true
        → Holding e
        → P e.binding (page_at j call id index e.created e.state).1
    unfolding is_entry
    resumed_entry id index e found s =
        let same : e.binding ≡ binding call.request =
          request_eq→eq e.binding (binding call.request) (ground arith) in
        subst (λ b. P b (page_at j call id index e.created e.state).1) (sym same)
          (keeps job call id index e.created e.state (subst (λ b. P b e.state) same s))

    resume-Tabled :
        (id : Str) (index : ℕ) (entries : List Entry)
        → All Holding entries
        → All Holding (resume parse_uuid j call id index entries).1
          × (length (resume parse_uuid j call id index entries).1 ≡ length entries)
    unfolding resume
    resume-Tabled id index [] h = (tt, refl)
    resume-Tabled id index (e ∷ entries) h =
        let rest = resume-Tabled id index entries h.1 in
        if_intro
          (λ (q : Option (Result Page) × List Entry).
            All Holding q.1 × (length q.1 ≡ suc (length entries)))
          (is_entry id call e) _ _ (λ found. ((resumed_entry id index e found h.0, h.1), refl))
          (λ other. ((h.0, rest.0), ap suc rest.1))

    retain-Tabled :
        (now : ℕ) (entries : List Entry)
        → All Holding entries
        → All Holding (retain parse_uuid j now entries)
    retain-Tabled now [] h = tt
    retain-Tabled now (e ∷ entries) h = ground (arith, retain-Tabled now entries h.1)

    pop_front-Tabled :
        (entries : List Entry) → All Holding entries → All Holding (pop_front parse_uuid j entries)
    pop_front-Tabled [] h = tt
    pop_front-Tabled (e ∷ entries) h = h.1

    length-pop_front :
        (entries : List Entry) → length (pop_front parse_uuid j entries) ≡ length entries - 1
    length-pop_front [] = omega arith
    length-pop_front (e ∷ entries) = omega arith

    length-retain :
        (now : ℕ) (entries : List Entry) → length (retain parse_uuid j now entries) ≤ length entries
    length-retain now [] = omega arith
    length-retain now (e ∷ entries) = ground (arith, length-retain now entries)

    length-room :
        (entries : List Entry)
        → length entries ≤ max_entries
        → length (room parse_uuid j entries) < max_entries
    length-room entries le = ground (arith, length-pop_front entries)

    room-Tabled :
        (entries : List Entry) → All Holding entries → All Holding (room parse_uuid j entries)
    room-Tabled entries h =
        if_intro (All Holding) (leb max_entries (length entries)) _ _
          (λ full. pop_front-Tabled entries h) (λ e. h)

    kept-Tabled :
        (entries : List Entry) (q : Option (Result Page) × Collection)
        → Tabled P entries
        → P (binding call.request) q.1
        → Tabled P (kept parse_uuid j call entries q).1
    unfolding kept
    kept-Tabled entries (none, c) h s = h
    kept-Tabled entries (some result, c) h s =
        let retained = retain parse_uuid j call.stored entries in
        let entry = entry_of parse_uuid j call c in
        if_intro (λ (q : Option (Result Page) × List Entry). Tabled P q.1) (has_cursor result) _ _
          (λ more. (
            All-append Holding (room parse_uuid j retained) (entry ∷ [])
                (room-Tabled retained (retain-Tabled call.stored entries h.0)) (s, tt),
            omega (
              arith,
              length-append (room parse_uuid j retained) (entry ∷ []),
              length-room retained (omega (arith, length-retain call.stored entries, h.1)),
            ),
          ))
          (λ last. h)

    resumed-Tabled :
        (id : Str) (index : ℕ) (entries : List Entry)
        → Tabled P entries
        → Tabled P (resume parse_uuid j call id index entries).1
    resumed-Tabled id index entries h =
        let s = resume-Tabled id index entries h.0 in (s.0, omega (arith, s.1, h.1))

    resume_index-Tabled :
        (entries : List Entry) (id : Str) (o : Option ℕ)
        → Tabled P entries
        → Tabled P (resume_index parse_uuid j call entries id o).1
    unfolding resume_index
    resume_index-Tabled entries id none h = h
    resume_index-Tabled entries id (some index) h = resumed-Tabled id index entries h

    resume_at-Tabled :
        (entries : List Entry) (o : Option (Str × Str))
        → Tabled P entries
        → Tabled P (resume_at parse_uuid j call entries o).1
    unfolding resume_at resume_id
    resume_at-Tabled entries none h = h
    resume_at-Tabled entries (some (id, index)) h = elim (Option-cases (parse_uuid id)) [
      | inl bad ↦ rw bad h
      | inr (uuid, good) ↦ rw good (resume_index-Tabled entries uuid (parse_usize index) h)
    ]

    started-Tabled :
        (entries : List Entry) (o : Option Str)
        → Fits call
        → Tabled P entries
        → Tabled P (started parse_uuid j call entries o).1
    unfolding started
    started-Tabled entries none fits h =
        let c = new call.expr call.plan call.frozen in
        kept-Tabled entries (page_at j call call.fresh_id 0 call.looked_up c) h
          (keeps job call call.fresh_id 0 call.looked_up c (fresh call fits))
    started-Tabled entries (some cursor) fits h =
        if_intro (λ (q : Option (Result Page) × List Entry). Tabled P q.1) (ltb 64 (len cursor)) _ _
          (λ long. h) (λ short. resume_at-Tabled entries (split_dot cursor) h)

    pub execute-Tabled :
        (entries : List Entry)
        → Fits call
        → Tabled P entries
        → Tabled P (execute parse_uuid j call entries).1
    unfolding execute
    execute-Tabled entries fits h = started-Tabled entries call.request.cursor fits h

  run-from :
      (calls : List (Job × Call)) (entries : List Entry)
      → All (λ (jc : Job × Call). Fits jc.1) calls
      → Tabled P entries
      → Tabled P (run ns parse_uuid calls entries)
  unfolding run
  run-from [] entries fits h = h
  run-from ((job, call) ∷ calls) entries fits h =
      run-from calls (execute parse_uuid (timed_by ns job) call entries).1 fits.1
        (execute-Tabled job call entries fits.0 h)

  pub run-Tabled :
      (calls : List (Job × Call))
      → All (λ (jc : Job × Call). Fits jc.1) calls
      → Tabled P (run ns parse_uuid calls [])
  run-Tabled calls fits = run-from calls [] fits (tt, omega arith)
