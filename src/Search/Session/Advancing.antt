-- ===== src/Search/Session/Advancing.antt =====
-- Advancing a session keeps what a session keeps, and the page it gives joins the pages served.
use neddit.Prelude.{
  ℕ, zero, suc, ◌+◌, ◌*◌, ◌≤◌, ◌≡◌, true, List, [], ◌∷◌, ◌++◌, length, length-append, length-take,
  none, Str, arith, sort_by-All, All,
}
use neddit.Search.Request.{Request, limit_of}
use neddit.Search.Thing.{PublicThing}
use neddit.Search.Page.{Page}
use neddit.Search.Session.{Collection, Job, max_pages, is_top, fetch}
use neddit.Search.Session.Hydrate.{evaluate, flushed}
use neddit.Search.Session.Advance.{
  is_complete, fetch_limit, wants_more, rounds, ready_order, ordered, judge_pending, page_of,
  finish, advance,
}
use neddit.Search.Session.Outcome.{
  Post, Post-and_then, Post-if, occ, occ-append, occ-sort_by, occ-take-drop, All-take, All-drop,
}
use neddit.Search.Session.Kept.{Kept, Allowed}
use neddit.Search.Session.Fetching.{Fetched, fetch-Fetched}
use neddit.Search.Session.Judging.{evaluate-Live, flushed-Live}
use neddit.Search.Session.Hydrating.{Live}

module _ (j : Job) (r : Request) (start : Collection) (id : Str) where
  abbrev Rest : Collection → Type 0
  Rest = Kept j r start id 0 0

  -- What is pending, with the calls that it may still need.
  abbrev Pending : List PublicThing → Collection → Type 0
  Pending pending c =
      (owed : ℕ) × (length pending ≤ 100 * owed) × Live j r start id owed (occ id pending) c

  wants_more-open : (c : Collection) → wants_more r c ≡ true → c.end ≡ none
  wants_more-open c e = ground arith

  rounds-Pending :
      (n : ℕ) (pending : List PublicThing) (c : Collection)
      → Pending pending c
      → Post Pending Rest (rounds j r n pending c)
  unfolding rounds
  rounds-Pending zero pending c h = h
  rounds-Pending (suc n) pending c (owed, le, h) =
      Post-if Pending Rest (wants_more r c) _ _
        (λ e.
          Post-and_then (Fetched j r start id owed (occ id pending)) Pending Rest
            (fetch j r (fetch_limit r c) c) _
            (fetch-Fetched j r start id owed (occ id pending) (fetch_limit r c) c h.1
              (wants_more-open c e) h.0)
            (λ batch c' f.
              Post-if Pending Rest (is_complete r c') _ _
                (λ whole. rounds-Pending n (pending ++ batch) c' (
                  owed + 1,
                  omega (arith, le, f.0.0, length-append pending batch),
                  (rw (occ-append id pending batch) f.0.1, f.1),
                ))
                (λ split.
                  Post-and_then (λ (u : Unit {0}) c''. Live j r start id owed (occ id pending) c'')
                    Pending Rest (evaluate j r batch c') _
                    (evaluate-Live j r start id owed (occ id pending) 1 batch c'
                      (omega (arith, f.0.0)) (f.0.1, f.1))
                    (λ u c'' h''. rounds-Pending n pending c'' (owed, le, h'')))))
        (λ e. (owed, le, h))

  ordered-Live :
      (owed held : ℕ) (c : Collection)
      → Live j r start id owed held c
      → Live j r start id owed held (ordered r c)
  ordered-Live owed held c h =
      let le = ready_order (is_top r) in
      ground
        (arith, occ-sort_by id le c.ready, sort_by-All le (Allowed j r start) c.ready h.0.ready)

  judge_pending-Live :
      (pending : List PublicThing) (c : Collection)
      → Pending pending c
      → Post (λ u c'. Live j r start id 0 0 c') Rest (judge_pending j r pending c)
  unfolding judge_pending occ
  judge_pending-Live [] c (owed, le, h) = ground arith
  judge_pending-Live (x ∷ xs) c (owed, le, h) =
      Post-and_then (λ u c'. Live j r start id 0 0 c') (λ u c'. Live j r start id 0 0 c') Rest
        (evaluate j r (x ∷ xs) c) _
        (evaluate-Live j r start id 0 0 owed (x ∷ xs) c le (ground arith))
        (λ u c' h'. ordered-Live 0 0 c' h')

  -- A page that has left the buffer: its objects are held until it joins the pages.
  abbrev pub Given : Page → Collection → Type 0
  Given p c =
      Live j r start id 0 (occ id p.items) c
      × All (Allowed j r start) p.items
      × (length p.items ≤ limit_of r)

  finish-Given :
      (key : Str) (index : ℕ) (c : Collection)
      → Live j r start id 0 0 c
      → Post Given Rest (finish r key index c)
  unfolding finish page_of
  finish-Given key index c h =
      let c' = flushed c in
      let k = flushed-Live j r start id 0 0 c h in
      let n = limit_of r in
      (
        ground
            (arith, occ-take-drop id n c'.ready, All-drop (Allowed j r start) n c'.ready k.0.ready),
        All-take (Allowed j r start) n c'.ready k.0.ready,
        omega (arith, length-take n c'.ready),
      )

  pub advance-Given :
      (key : Str) (index : ℕ) (c : Collection)
      → Live j r start id 0 0 c
      → Post Given Rest (advance j r key index c)
  unfolding advance occ
  advance-Given key index c h =
      Post-and_then Pending Given Rest (rounds j r max_pages [] c) _
        (rounds-Pending max_pages [] c (0, omega arith, h))
        (λ pending c' p.
          Post-and_then (λ u c''. Live j r start id 0 0 c'') Given Rest
            (judge_pending j r pending c') _ (judge_pending-Live pending c' p)
            (λ u c'' h''. finish-Given key index c'' h''))
