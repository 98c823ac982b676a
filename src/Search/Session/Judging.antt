-- ===== src/Search/Session/Judging.antt =====
-- Judging a batch keeps what a session keeps: an object that is served was judged true.
use neddit.Prelude.{
  ℕ, ◌+◌, ◌*◌, ◌≤◌, ◌≡◌, refl, Bool, true, false, not, List, [], ◌∷◌, length, length-sort_by, any,
  Str, arith, Bool-cases, inl, inr, sort_by, All-append,
}
use neddit.Search.Truth
use neddit.Search.Truth.{Truth}
use neddit.Search.Request.{Request}
use neddit.Search.Thing.{PublicThing}
use neddit.Search.Page.{Notice}
use neddit.Search.Session.{Collection, Job, stop, flush_tie, is_none, is_new}
use neddit.Search.Session.Judge.{visibility, comment_window, judge, verdict}
use neddit.Search.Session.Hydrate.{
  hydrate, timed, judged, judged_item, judge_all, flushed, evaluate_batch, newest_first,
  has_no_date, is_disordered, evaluate,
}
use neddit.Search.Session.Outcome.{Post, Post-and_then, Post-if, occ, occ-append, occ-sort_by}
use neddit.Search.Session.Kept.{Kept, Kept-rest, Allowed, flush_tie-Kept}
use neddit.Search.Session.Hydrating.{Live, Rest, hydrate-Live}

module _ (j : Job) (r : Request) (start : Collection) (id : Str) where
  module _ (owed held : ℕ) where
    and-true :
        (a b t : Truth)
        → Truth.and (Truth.and a b) t ≡ Truth.true
        → (b ≡ Truth.true) × (t ≡ Truth.true)
    and-true Truth.true Truth.true Truth.true e = (refl, refl)
    and-true Truth.true Truth.true Truth.false e = cc
    and-true Truth.true Truth.true Truth.unknown e = cc
    and-true Truth.true Truth.false t e = cc
    and-true Truth.true Truth.unknown Truth.true e = cc
    and-true Truth.true Truth.unknown Truth.false e = cc
    and-true Truth.true Truth.unknown Truth.unknown e = cc
    and-true Truth.false b t e = cc
    and-true Truth.unknown Truth.true Truth.true e = cc
    and-true Truth.unknown Truth.true Truth.false e = cc
    and-true Truth.unknown Truth.true Truth.unknown e = cc
    and-true Truth.unknown Truth.false t e = cc
    and-true Truth.unknown Truth.unknown Truth.true e = cc
    and-true Truth.unknown Truth.unknown Truth.false e = cc
    and-true Truth.unknown Truth.unknown Truth.unknown e = cc

    verdict-Allowed :
        (c : Collection) (x : PublicThing)
        → c.frozen ≡ start.frozen
        → verdict j r c x ≡ Truth.true
        → Allowed j r start x
    unfolding verdict
    verdict-Allowed c x e h =
        let both =
          and-true (judge j c x) (visibility x r.include_nsfw)
            (comment_window j.to_nanoseconds r x c.frozen) h in
        (both.0, rw (← e) both.1)

    timed-Live :
        (new : Bool) (x : PublicThing) (c : Collection)
        → Live j r start id owed held c
        → Live j r start id owed held (timed new x c)
    unfolding timed
    timed-Live false x c h = h
    timed-Live true x c h = ground (arith, flush_tie-Kept j r start id owed held c)

  module _ (owed held : ℕ) where
    judged-Live :
        (new : Bool) (x : PublicThing) (t : Truth) (xs : List PublicThing) (c : Collection)
        → (t ≡ Truth.true → Allowed j r start x)
        → Live j r start id owed (held + occ id (x ∷ xs)) c
        → Live j r start id owed (held + occ id xs) (judged new x t c)
    unfolding judged occ
    judged-Live true x Truth.true xs c f h =
        let allowed = f refl in
        ground (
          arith,
          occ-append id c.tie (x ∷ []),
          All-append (Allowed j r start) c.tie (x ∷ []) h.0.tie (allowed, tt),
        )
    judged-Live false x Truth.true xs c f h =
        let allowed = f refl in
        ground (
          arith,
          occ-append id c.ready (x ∷ []),
          All-append (Allowed j r start) c.ready (x ∷ []) h.0.ready (allowed, tt),
        )
    judged-Live new x Truth.unknown xs c f h = ground arith
    judged-Live new x Truth.false xs c f h = ground arith

    judge_all-Live :
        (xs : List PublicThing) (c : Collection)
        → Live j r start id owed (held + occ id xs) c
        → Post (λ u c'. Live j r start id owed held c') (Rest j r start id) (judge_all j r xs c)
    unfolding judge_all
    judge_all-Live [] c h = (ground arith)
    judge_all-Live (x ∷ xs) c h =
        let c' = timed (is_new r) x c in
        let h' = timed-Live owed (held + occ id (x ∷ xs)) (is_new r) x c h in
        let h'' : Live j r start id owed (held + occ id xs) (judged_item j r x c) =
          judged-Live (is_new r) x (verdict j r c' x) xs c'
            (verdict-Allowed owed held c' x h'.0.frozen_at) h' in
        Post-if (λ (u : Unit {0}) c'. Live j r start id owed held c') (Rest j r start id) (j.late x)
          _ _ (λ e. Kept-rest j r start id owed (held + occ id xs) (judged_item j r x c) h''.0)
          (λ e. judge_all-Live xs (judged_item j r x c) h'')

    flush_tie-Live :
        (c : Collection) → Live j r start id owed held c → Live j r start id owed held (flush_tie c)
    unfolding flush_tie
    flush_tie-Live c h = (flush_tie-Kept j r start id owed held c h.0, h.1)

    -- A stopped session fetches no more, so what it may still call and hold is forgotten.
    stopped-Live :
        (n m : ℕ) (c : Collection)
        → Live j r start id (owed + n) (held + m) c
        → Live j r start id owed held (flush_tie (stop Notice.chronology_changed true c))
    unfolding stop
    stopped-Live n m c h =
        let c' = stop Notice.chronology_changed true c in
        let k : Kept j r start id owed held c' = ground arith in
        flush_tie-Live c' (k, λ e. absurd (cc))

    pub flushed-Live :
        (c : Collection) → Live j r start id owed held c → Live j r start id owed held (flushed c)
    flushed-Live c h = elim (Bool-cases (is_none c.end)) [
      | inl open_still ↦ rw open_still h
      | inr closed ↦ rw closed (flush_tie-Live c h)
    ]

    evaluate_batch-Live :
        (n : ℕ) (batch : List PublicThing) (c : Collection)
        → length batch ≤ 100 * n
        → Live j r start id (owed + n) (held + occ id batch) c
        → Post
            (λ u c'. Live j r start id owed held c')
            (Rest j r start id)
            (evaluate_batch j r batch c)
    unfolding evaluate_batch
    evaluate_batch-Live n batch c le h =
        Post-and_then (λ u c'. Live j r start id owed (held + occ id batch) c')
          (λ u c'. Live j r start id owed held c') (Rest j r start id) (hydrate j r batch c) _
          (hydrate-Live j r start id owed (held + occ id batch) n batch c le h)
          (λ u c' h'.
            Post-and_then (λ u c'. Live j r start id owed held c')
              (λ u c'. Live j r start id owed held c') (Rest j r start id) (judge_all j r batch c')
              _ (judge_all-Live batch c' h') (λ v c'' h''. flushed-Live c'' h''))

    pub evaluate-Live :
        (n : ℕ) (batch : List PublicThing) (c : Collection)
        → length batch ≤ 100 * n
        → Live j r start id (owed + n) (held + occ id batch) c
        → Post (λ u c'. Live j r start id owed held c') (Rest j r start id) (evaluate j r batch c)
    unfolding evaluate
    evaluate-Live n batch c le h =
        let sorted = sort_by newest_first batch in
        Post-if (λ (u : Unit {0}) c'. Live j r start id owed held c') (Rest j r start id)
          (not (is_new r)) _ _ (λ e. evaluate_batch-Live n batch c le h)
          (λ e.
            Post-if (λ (u : Unit {0}) c'. Live j r start id owed held c') (Rest j r start id)
              (any (has_no_date j) batch) _ _
              (λ e. Kept-rest j r start id (owed + n) (held + occ id batch) c h.0)
              (λ e.
                Post-if (λ (u : Unit {0}) c'. Live j r start id owed held c') (Rest j r start id)
                  (is_disordered c.last_time sorted) _ _ (λ e. stopped-Live n (occ id batch) c h)
                  (λ e.
                    evaluate_batch-Live n sorted c
                      (omega (arith, le, length-sort_by newest_first batch))
                      (rw (occ-sort_by id newest_first batch) h))))
