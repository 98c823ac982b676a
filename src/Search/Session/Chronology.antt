-- ===== src/Search/Session/Chronology.antt =====
-- With New, a call on a session leaves it in order: `evaluate`, `advance` and
-- `Sessions::execute_before` of crates/api/src/search/engine/session.rs.
use neddit.Prelude.{
  ℕ, zero, suc, ◌≡◌, refl, sym, ap, ◌∙◌, subst, Bool, true, false, not, ◌&&◌, if_intro, List, [],
  ◌∷◌, ◌++◌, any, take, drop, Option, some, Str, str_eq, str_eq→eq, arith, All, All-append, sort_by,
  inl, inr, codes, get_elem?, leb, ◌-◌, Option-cases,
}
use neddit.Search.Syntax.{Result, ok, err, Diagnostic, diagnostic, execution_timeout}
use neddit.Search.Truth.{Truth}
use neddit.Search.Request.{Request, limit_of, sort_of}
use neddit.Search.Thing.{PublicThing, created_of}
use neddit.Search.Page.{Page, Notice}
use neddit.Search.Session.{
  Collection, Job, Ran, done, failed, given_up, is_top, is_new, fetch, stop, max_pages,
}
use neddit.Search.Session.Judge.{verdict}
use neddit.Search.Session.Hydrate.{
  hydrate, timed, judged, judged_item, judge_all, flushed, evaluate_batch, newest_first,
  has_no_date, is_disordered, evaluate,
}
use neddit.Search.Session.Advance.{
  is_complete, fetch_limit, wants_more, rounds, judge_pending, page_of, finish, advance, served,
}
use neddit.Search.Session.Store.{
  Call, expired, pushed, concluded, needs_io, is_next, flying, next_page, page_at, ttl,
}
use neddit.Search.Session.Outcome.{Post, Post-and_then, Post-if}
use neddit.Search.Session.Newest.{
  Older-refl, NewestFirst, All-front, NewestFirst-front, Below, IsDate, Descends, sorted-Descends,
}
use neddit.Search.Session.Unmoved.{Shelf, shelf, Holds, HoldsAfter, fetch-Holds, hydrate-Holds}
use neddit.Search.Session.Ordering.{
  all_items, NotBelow, At, IsOrdered, append_assoc, append_nil, take-drop, all_items-append,
  flush_tie-IsOrdered, flushed-IsOrdered, timed-IsOrdered,
}

module _ (j : Job) (r : Request) (new : is_new r ≡ true) where
  abbrev InOrder : Collection → Type 0
  InOrder = Holds j r IsOrdered

  abbrev AfterInOrder : {A : Type 0} → A → Collection → Type 0
  AfterInOrder x c = InOrder c

  judged-IsOrdered :
      (x : PublicThing) (t : Truth) (c : Collection)
      → c.last_time ≡ some (created_of x)
      → IsOrdered (shelf c)
      → IsOrdered (shelf (judged true x t c))
        × ((judged true x t c).last_time ≡ some (created_of x))
  unfolding judged
  judged-IsOrdered x Truth.true c e h =
      let at : At c.last_time x = rw e (Older-refl (created_of x), Older-refl (created_of x)) in
      (
        record {
          newest_first = h.newest_first;
          before = h.before;
          tied = All-append (At c.last_time) c.tie (x ∷ []) h.tied (at, tt);
          date = h.date;
          not_names = h.not_names;
        },
        e,
      )
  judged-IsOrdered x Truth.unknown c e h = (h, e)
  judged-IsOrdered x Truth.false c e h = (h, e)

  item-IsOrdered :
      (x : PublicThing) (c : Collection)
      → IsDate x
      → Below c.last_time x
      → IsOrdered (shelf c)
      → IsOrdered (shelf (judged_item j r x c))
        × ((judged_item j r x c).last_time ≡ some (created_of x))
  item-IsOrdered x c d below h =
      let (h', e) = timed-IsOrdered x c d below h in
      rw new (judged-IsOrdered x (verdict j r (timed true x c) x) (timed true x c) e h')

  judge_all-IsOrdered :
      (xs : List PublicThing) (c : Collection)
      → Descends c.last_time xs
      → InOrder c
      → Post AfterInOrder InOrder (judge_all j r xs c)
  unfolding judge_all
  judge_all-IsOrdered [] c d h = h
  judge_all-IsOrdered (x ∷ xs) c d h =
      let c' = judged_item j r x c in
      let (h', e) = item-IsOrdered x c d.1 d.0 h in
      Post-if AfterInOrder InOrder (j.late x) _ _ (λ late. h')
        (λ on. judge_all-IsOrdered xs c' (rw e d.2) h')

  evaluate_batch-IsOrdered :
      (batch : List PublicThing) (c : Collection)
      → Descends c.last_time batch
      → InOrder c
      → Post AfterInOrder InOrder (evaluate_batch j r batch c)
  unfolding evaluate_batch
  evaluate_batch-IsOrdered batch c d h =
      let Going = λ (s : Shelf). IsOrdered s × Descends s.last_time batch in
      Post-and_then (HoldsAfter j r Going) AfterInOrder InOrder (hydrate j r batch c) _
        (weaken (hydrate j r batch c) (hydrate-Holds j r Going batch c (h, d)))
        (λ u c' g.
          Post-and_then AfterInOrder AfterInOrder InOrder (judge_all j r batch c') _
            (judge_all-IsOrdered batch c' g.1 g.0) (λ v c'' h''. flushed-IsOrdered c'' h''))
    where
      weaken :
          (m : Ran (Unit {0}))
          → Post
              (HoldsAfter j r (λ s. IsOrdered s × Descends s.last_time batch))
              (Holds j r (λ s. IsOrdered s × Descends s.last_time batch))
              m
          → Post (HoldsAfter j r (λ s. IsOrdered s × Descends s.last_time batch)) InOrder m
      weaken (done u c) g = g
      weaken (failed e c) g = g.0
      weaken (given_up c) g = g.0

  evaluate-IsOrdered :
      (batch : List PublicThing) (c : Collection)
      → InOrder c
      → Post AfterInOrder InOrder (evaluate j r batch c)
  unfolding evaluate stop
  evaluate-IsOrdered batch c h =
      let sorted = sort_by newest_first batch in
      Post-if AfterInOrder InOrder (not (is_new r)) _ _ (λ e. absurd (ground arith))
        (λ e.
          Post-if AfterInOrder InOrder (any (has_no_date j) batch) _ _ (λ e. h)
            (λ dated.
              Post-if AfterInOrder InOrder (is_disordered c.last_time sorted) _ _
                (λ e. flush_tie-IsOrdered (stop Notice.chronology_changed true c) h)
                (λ ordered.
                  evaluate_batch-IsOrdered sorted c
                    (sorted-Descends j c.last_time batch h.date dated ordered) h)))

  not_top : is_top r ≡ false
  not_top = rw (str_eq→eq (sort_of r) (codes "new") new) (unfold str_eq in refl)

  rounds-IsOrdered :
      (n : ℕ) (c : Collection)
      → InOrder c
      → Post (λ pending c'. (pending ≡ []) × InOrder c') InOrder (rounds j r n [] c)
  unfolding rounds
  rounds-IsOrdered zero c h = (refl, h)
  rounds-IsOrdered (suc n) c h =
      let Q = λ (pending : List PublicThing) (c' : Collection). (pending ≡ []) × InOrder c' in
      Post-if Q InOrder (wants_more r c) _ _
        (λ e.
          Post-and_then AfterInOrder Q InOrder (fetch j r (fetch_limit r c) c) _
            (fetch-Holds j r IsOrdered (fetch_limit r c) c h)
            (λ batch c' h'.
              Post-if Q InOrder (is_complete r c') _ _
                (λ whole. absurd (let names = h'.not_names in let top = not_top in ground arith))
                (λ split.
                  Post-and_then AfterInOrder Q InOrder (evaluate j r batch c') _
                    (evaluate-IsOrdered batch c' h') (λ u c'' h''. rounds-IsOrdered n c'' h''))))
        (λ e. (refl, h))

  -- A page that joins the pages leaves the session in order.
  abbrev Joins : Page → Collection → Type 0
  Joins p c = IsOrdered (shelf (pushed (ok p) c).1)

  finish-Joins :
      (key : Str) (index : ℕ) (c : Collection)
      → InOrder c
      → Post Joins InOrder (finish r key index c)
  unfolding finish page_of
  finish-Joins key index c h =
      let c' = flushed c in
      let f = flushed-IsOrdered c h in
      let n = limit_of r in
      let p = page_of r key index (take n c'.ready) (served r c') in
      let same : all_items c'.pages ++ c'.ready
          ≡ all_items (c'.pages ++ (ok p ∷ [])) ++ drop n c'.ready =
        ap (λ t. all_items c'.pages ++ t) (sym (take-drop n c'.ready))
        ∙ (sym (append_assoc (all_items c'.pages) (take n c'.ready) (drop n c'.ready))
            ∙ ap (λ t. t ++ drop n c'.ready) (sym (all_items-append c'.pages (ok p)))) in
      record {
        newest_first = subst NewestFirst same f.newest_first;
        before = subst (All (NotBelow c'.last_time)) same f.before;
        tied = f.tied;
        date = f.date;
        not_names = f.not_names;
      }

  advance-Joins :
      (key : Str) (index : ℕ) (c : Collection)
      → InOrder c
      → Post Joins InOrder (advance j r key index c)
  unfolding advance judge_pending
  advance-Joins key index c h =
      Post-and_then (λ pending c'. (pending ≡ []) × InOrder c') Joins InOrder
        (rounds j r max_pages [] c) _ (rounds-IsOrdered max_pages c h)
        (λ pending c' q. rw q.0 (finish-Joins key index c' q.1))

  -- An error serves nothing, and ends the session.
  failed-IsOrdered : (d : Diagnostic) (c : Collection) → InOrder c → InOrder (pushed (err d) c).1
  failed-IsOrdered d c h =
      let same : all_items c.pages ≡ all_items (c.pages ++ (err d ∷ [])) ++ [] =
        sym (append_nil (all_items c.pages))
        ∙ (sym (append_nil (all_items c.pages ++ []))
            ∙ ap (λ t. t ++ []) (sym (all_items-append c.pages (err d)))) in
      record {
        newest_first =
            subst NewestFirst same (NewestFirst-front (all_items c.pages) c.ready h.newest_first);
        before =
            subst (All (NotBelow c.last_time)) same
              (All-front (NotBelow c.last_time) (all_items c.pages) c.ready h.before);
        tied = tt;
        date = h.date;
        not_names = h.not_names;
      }

  concluded-IsOrdered :
      (dropped : Bool) (m : Ran Page) → Post Joins InOrder m → InOrder (concluded dropped m).1
  unfolding concluded
  concluded-IsOrdered dropped (done p c) h = h
  concluded-IsOrdered dropped (failed d c) h = failed-IsOrdered d c h
  concluded-IsOrdered true (given_up c) h = h
  concluded-IsOrdered false (given_up c) h =
      failed-IsOrdered (diagnostic execution_timeout (0, 0)) c h

module _ (j : Job) (call : Call) (new : is_new call.request ≡ true) (key : Str) (index : ℕ) where
  abbrev Leaves : Option (Result Page) × Collection → Type 0
  Leaves q = IsOrdered (shelf q.1)

  next_page-IsOrdered :
      (c : Collection) → IsOrdered (shelf c) → Leaves (next_page j call key index c)
  unfolding next_page
  next_page-IsOrdered c h =
      if_intro Leaves (not (is_next index c)) _ _ (λ e. h)
        (λ next.
          if_intro Leaves c.in_flight _ _ (λ busy. failed-IsOrdered j call.request new expired c h)
            (λ free.
              if_intro Leaves (needs_io call.request c && not call.permit) _ _ (λ full. h)
                (λ permitted.
                  concluded-IsOrdered j call.request new call.dropped
                    (advance j call.request key index (flying c))
                    (advance-Joins j call.request new key index (flying c) h))))

  pub page_at-IsOrdered :
      (created : ℕ) (c : Collection)
      → IsOrdered (shelf c)
      → Leaves (page_at j call key index created c)
  unfolding page_at
  page_at-IsOrdered created c h =
      if_intro Leaves (not call.in_time) _ _ (λ late. h)
        (λ in_time.
          if_intro Leaves (leb ttl (call.locked - created)) _ _ (λ old. h)
            (λ young. elim (Option-cases (get_elem? c.pages index)) [
              | inl missing ↦ rw missing (next_page-IsOrdered c h)
              | inr (page, found) ↦ rw found h
            ]))
