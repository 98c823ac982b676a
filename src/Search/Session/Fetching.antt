-- ===== src/Search/Session/Fetching.antt =====
-- Fetching a page keeps what a session keeps, and the batch has at most 100 objects.
use neddit.Prelude.{
  ℕ, ◌+◌, ◌≤◌, ◌<◌, ◌≡◌, Bool, true, false, not, ◌||◌, ltb, ◌==◌, List, [], ◌∷◌, length,
  length-append, none, Str, arith,
}
use neddit.Search.Request.{Request}
use neddit.Search.Thing.{PublicThing, correct_kind}
use neddit.Search.Page.{Notice}
use neddit.Search.Session.{
  Collection, Job, Answer, max_candidates, max_session_bytes, is_top, stop, bounded, if_new, marked,
  counted, settled, admit, received, called, fetch, is_bad_cursor, page_limit,
}
use neddit.Search.Session.Outcome.{Post, Post-and_then, Post-if, occ}
use neddit.Search.Session.Kept.{
  Kept, Kept-rest, IsOpen, stop-Kept, marked-Kept, settled-Kept, bounded-Kept,
}

module _ (j : Job) (r : Request) (start : Collection) (id : Str) where
  -- What holds of a batch whose objects are held.
  abbrev pub Batch : ℕ → ℕ → ℕ → List PublicThing → Collection → Type 0
  Batch n owed held batch c = (length batch ≤ n) × Kept j r start id owed (held + occ id batch) c

  abbrev pub Rest : Collection → Type 0
  Rest = Kept j r start id 0 0

  module _ (owed held : ℕ) where
    length-if_new :
        (x : PublicThing) (c : Collection) (batch : List PublicThing)
        → length (if_new x c batch) ≤ length batch + 1
    length-if_new x c batch = ground (arith, length-append batch (x ∷ []))

    -- A limit ends the loop over the objects.
    limit-Batch :
        (n : ℕ) (notice : Notice) (batch : List PublicThing) (c : Collection)
        → Batch n owed held batch c
        → Batch n owed held batch (stop notice false c)
    limit-Batch n notice batch c h =
        (h.0, stop-Kept j r start id owed (held + occ id batch) notice false c h.1)

    admit-Batch :
        (n : ℕ) (xs batch : List PublicThing) (c : Collection)
        → length batch + length xs ≤ n
        → Kept j r start id owed (held + occ id batch) c
        → Post (Batch n owed held) Rest (admit j r xs batch c)
    unfolding admit occ stop
    admit-Batch n [] batch c le k = (omega (arith, le), k)
    admit-Batch n (x ∷ xs) batch c le k =
        let c' = counted j x c in
        Post-if (Batch n owed held) Rest (not (correct_kind x r.kind)) _ _
          (λ e. Kept-rest j r start id owed (held + occ id batch) c k)
          (λ e.
            Post-if (Batch n owed held) Rest (c.candidates == max_candidates) _ _
              (λ full. limit-Batch n Notice.candidate_limit batch c (omega (arith, le), k))
              (λ room.
                Post-if (Batch n owed held) Rest (ltb max_session_bytes c'.bytes) _ _
                  (λ e. (omega (arith, le), ground arith))
                  (λ fits.
                    admit-Batch n xs (if_new x c' batch) (marked x c')
                      (omega (arith, length-if_new x c' batch))
                      (marked-Kept j r start id owed held x batch c (ground arith) (ground arith)
                        k))))

    -- A page that may be fetched.
    called-Kept :
        (c : Collection)
        → IsOpen j r start c
        → c.end ≡ none
        → Kept j r start id owed held c
        → Kept j r start id (owed + 1) held (called c)
    called-Kept c o e k = let lt = o e in ground arith

bounded_open :
    (top : Bool) (c : Collection)
    → (bounded top c).end ≡ none
    → (bounded top c).source_pages < page_limit top
unfolding bounded stop
bounded_open top c e = ground arith

module _ (j : Job) (r : Request) (start : Collection) (id : Str) (owed held : ℕ) where
  abbrev pub Fetched : List PublicThing → Collection → Type 0
  Fetched batch c = Batch j r start id 100 (owed + 1) held batch c × IsOpen j r start c

  pub fetch-Fetched :
      (limit : ℕ) (c : Collection)
      → IsOpen j r start c
      → c.end ≡ none
      → Kept j r start id owed held c
      → Post Fetched (Rest j r start id) (fetch j r limit c)
  unfolding fetch received occ stop
  fetch-Fetched limit c o e k =
      received-Fetched (j.page c.source_calls c.plan r c.after limit) (called c)
        (called-Kept j r start id owed held c o e k)
    where
      closed :
          (batch : List PublicThing) (c c' : Collection)
          → Kept j r start id (owed + 1) (held + occ id batch) c'
          → length batch ≤ 100
          → Fetched batch (bounded (is_top r) c')
      closed batch c c' k le = (
        (le, bounded-Kept j r start id (owed + 1) (held + occ id batch) (is_top r) c' k),
        bounded_open (is_top r) c',
      )

      received-Fetched :
          (answer : Answer) (c : Collection)
          → Kept j r start id (owed + 1) held c
          → Post Fetched (Rest j r start id) (received j r answer c)
      received-Fetched Answer.pending c k = Kept-rest j r start id (owed + 1) held c k
      received-Fetched Answer.failure c k =
          let c' = stop Notice.source_stopped true c in
          let k' : Kept j r start id (owed + 1) held c' =
            stop-Kept j r start id (owed + 1) held Notice.source_stopped true c k in
          Post-if Fetched (Rest j r start id) (length c.seen == 0) _ _
            (λ e. Kept-rest j r start id (owed + 1) held c' k')
            (λ e. ((omega arith, ground arith), ground arith))
      received-Fetched (Answer.listing l) c k =
          Post-if Fetched (Rest j r start id) (ltb 100 (length l.children) || is_bad_cursor l.after)
            _ _ (λ e. Kept-rest j r start id (owed + 1) held c k)
            (λ e.
              Post-and_then (Batch j r start id 100 (owed + 1) held) Fetched (Rest j r start id)
                (admit j r l.children [] c) _
                (admit-Batch j r start id (owed + 1) held 100 l.children [] c (ground arith)
                  (ground arith))
                (λ batch c' b.
                  closed batch c' (settled l.after c')
                    (settled-Kept j r start id (owed + 1) (held + occ id batch) l.after c' b.1)
                    b.0))
