-- ===== src/Search/Session/Hydrating.antt =====
-- Fetching the posts of the comments of a batch keeps what a session keeps, and takes no more calls
-- than the pages allow.
use neddit.Prelude.{
  ℕ, zero, suc, ◌+◌, ◌*◌, ◌≤◌, false, not, ◌||◌, leb, List, [], ◌∷◌, length, length-drop,
  length-sort_by, drop, Str, arith, Bool-cases, inl, inr, sort_by, str_leb,
}
use neddit.Search.Request.{Request}
use neddit.Search.Scope.{needs_parent, dedup, put_distinct}
use neddit.Search.Thing.{PublicThing}
use neddit.Search.Page.{Notice}
use neddit.Search.Session.{Collection, Job, Answer, stop, max_source_calls}
use neddit.Search.Session.Hydrate.{
  all_wanted, chunks, Flow, going, over, cut_off, continue, kept_parent, found_parent,
  found_parents, answered, without_parents, hydrate_chunk, hydrate_chunks, ended, hydrate,
}
use neddit.Search.Session.Outcome.{Post, Post-if}
use neddit.Search.Session.Kept.{Kept, IsOpen}

abbrev HasChunks : ℕ → List Str → Type 0
HasChunks k ids = length ids ≤ 100 * k

length-chunks : (fuel k : ℕ) (ids : List Str) → HasChunks k ids → length (chunks fuel ids) ≤ k
unfolding chunks
length-chunks zero k ids h = omega arith
length-chunks (suc fuel) k [] h = omega arith
length-chunks (suc fuel) zero (s ∷ ids) h = absurd (omega (arith, h))
length-chunks (suc fuel) (suc k) (s ∷ ids) h =
    omega (
      arith,
      length-chunks fuel k (drop 100 (s ∷ ids)) (omega (arith, length-drop 100 (s ∷ ids), h)),
    )

length-put_distinct : (s : Str) (l : List Str) → length (put_distinct s l) ≤ suc (length l)
length-put_distinct s [] = omega arith
length-put_distinct s (t ∷ l) = ground arith

length-dedup : (l : List Str) → length (dedup l) ≤ length l
unfolding dedup
length-dedup [] = omega arith
length-dedup (s ∷ l) = omega (arith, length-put_distinct s (dedup l), length-dedup l)

length-all_wanted :
    (j : Job) (r : Request) (c : Collection) (xs : List PublicThing)
    → length (all_wanted j r c xs) ≤ length xs
unfolding all_wanted
length-all_wanted j r c [] = omega arith
length-all_wanted j r c (x ∷ xs) = ground (arith, length-all_wanted j r c xs)

module _ (j : Job) (r : Request) (start : Collection) (id : Str) where
  -- A session in which an operation may go on.
  abbrev pub Live : ℕ → ℕ → Collection → Type 0
  Live owed held c = Kept j r start id owed held c × IsOpen j r start c

  abbrev pub Rest : Collection → Type 0
  Rest = Kept j r start id 0 0

  module _ (owed held : ℕ) where
    abbrev Flows : ℕ → Flow → Type 0
    Flows n (going c) = Live (owed + n) held c
    Flows n (over c) = Live owed held c
    Flows n (cut_off c) = Rest c

    Flows-continue :
        (n m : ℕ) (f : Flow) (k : Collection → Flow)
        → Flows n f
        → ((c : Collection) → Live (owed + n) held c → Flows m (k c))
        → Flows m (continue f k)
    Flows-continue n m (going c) k h next = next c h
    Flows-continue n m (over c) k h next = h
    Flows-continue n m (cut_off c) k h next = h

    found_parent-Flows :
        (n : ℕ) (ids : List Str) (x : PublicThing) (c : Collection)
        → Live (owed + n) held c
        → Flows n (found_parent j ids x c)
    unfolding found_parent kept_parent stop
    found_parent-Flows n ids (PublicThing.post p t s) c h = ground arith
    found_parent-Flows n ids (PublicThing.comment m) c h = h
    found_parent-Flows n ids (PublicThing.subreddit s) c h = h
    found_parent-Flows n ids (PublicThing.user name) c h = h

    found_parents-Flows :
        (n : ℕ) (ids : List Str) (xs : List PublicThing) (c : Collection)
        → Live (owed + n) held c
        → Flows n (found_parents j ids xs c)
    unfolding found_parents
    found_parents-Flows n ids [] c h = h
    found_parents-Flows n ids (x ∷ xs) c h =
        Flows-continue n n (found_parent j ids x c) _ (found_parent-Flows n ids x c h)
          (λ c' h'. found_parents-Flows n ids xs c' h')

    answered-Flows :
        (n : ℕ) (ids : List Str) (a : Answer) (c : Collection)
        → Live (owed + n) held c
        → Flows n (answered j ids a c)
    unfolding answered stop
    answered-Flows n ids Answer.pending c h = ground arith
    answered-Flows n ids Answer.failure c h = ground arith
    answered-Flows n ids (Answer.listing l) c h =
        found_parents-Flows n ids l.children (without_parents ids c) (ground arith)

    limited :
        (n : ℕ) (c : Collection)
        → Live (owed + suc n) held c
        → Live owed held (stop Notice.call_limit false c)
    unfolding stop
    limited n c h = ground arith

    hydrate_chunk-Flows :
        (n : ℕ) (ids : List Str) (c : Collection)
        → Live (owed + suc n) held c
        → Flows n (hydrate_chunk j ids c)
    unfolding hydrate_chunk
    hydrate_chunk-Flows n ids c h = elim (Bool-cases (leb max_source_calls c.source_calls)) [
      | inl full ↦ rw full (limited n c h)
      | inr free ↦ rw free (
          answered-Flows n ids (j.parents c.source_calls ids)
            (record c { source_calls = c.source_calls + 1 }) (ground arith))
    ]

    hydrate_chunks-Flows :
        (n : ℕ) (l : List (List Str)) (c : Collection)
        → length l ≤ n
        → Live (owed + n) held c
        → Flows 0 (hydrate_chunks j l c)
    unfolding hydrate_chunks
    hydrate_chunks-Flows n [] c le h = ground arith
    hydrate_chunks-Flows zero (ids ∷ l) c le h = absurd (omega (arith, le))
    hydrate_chunks-Flows (suc n) (ids ∷ l) c le h =
        Flows-continue n 0 (hydrate_chunk j ids c) _ (hydrate_chunk-Flows n ids c h)
          (λ c' h'. hydrate_chunks-Flows n l c' (omega (arith, le)) h')

    ended-Post : (f : Flow) → Flows 0 f → Post (λ u c. Live owed held c) Rest (ended f)
    ended-Post (going c) h = ground arith
    ended-Post (over c) h = h
    ended-Post (cut_off c) h = h

    pub hydrate-Live :
        (n : ℕ) (batch : List PublicThing) (c : Collection)
        → length batch ≤ 100 * n
        → Live (owed + n) held c
        → Post (λ u c. Live owed held c) Rest (hydrate j r batch c)
    unfolding hydrate
    hydrate-Live n batch c le h =
        let ids = dedup (sort_by str_leb (all_wanted j r c batch)) in
        Post-if (λ (u : Unit {0}) c. Live owed held c) Rest (c.failed || not (needs_parent c.expr))
          _ _ (λ e. ground arith)
          (λ e. ended-Post (hydrate_chunks j (chunks (length ids) ids) c) (
            hydrate_chunks-Flows n (chunks (length ids) ids) c
              (length-chunks (length ids) n ids (
                omega (
                  arith,
                  le,
                  length-dedup (sort_by str_leb (all_wanted j r c batch)),
                  length-sort_by str_leb (all_wanted j r c batch),
                  length-all_wanted j r c batch,
                )))
              h))
