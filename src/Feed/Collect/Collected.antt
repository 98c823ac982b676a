-- ===== src/Feed/Collect/Collected.antt =====
-- The loops of `collect` of crates/api/src/feed/mod.rs over the pages of a source and over the
-- sources: they end, and what they collect is as it should be.
use neddit.Prelude.{
  ℕ, zero, suc, ◌+◌, ◌-◌, min, ◌≤◌, ◌<◌, ◌≡◌, refl, false, ◌||◌, ◌==◌, ltb, List, [], ◌∷◌, take,
  length, length-take, Option, none, some, arith, Str, contains, len, Bool-cases, inl, inr,
}
use neddit.Search.Syntax.{Result, ok, err, source_failed}
use neddit.Feed.Sources.{Source}
use neddit.Feed.Collect.{
  Listing, Collection, Flow, go, full, Job, scan, Turn, next_source, finished, failed, name,
  advance, scanned, failure, received, pages, then_sources, over_sources, empty, div_ceil, collect,
  max_candidates,
}
use neddit.Feed.Collect.Visited.{IsCollected, Held, scan-Held, cut-IsCollected}

-- A loop over a source ends with a good collection or with the error of a source.
abbrev Turned : Job → Turn → Type 0
Turned j (next_source calls c) = IsCollected j c
Turned j (finished c) = IsCollected j c
Turned j (failed d) = d.code ≡ source_failed

module _ (j : Job) (source : Source) where
  advance-Turned :
      (calls count : ℕ) (seen : List Str) (after : Option Str) (c : Collection) (more : Str → Turn)
      → IsCollected j c
      → ((cursor : Str) → (count == 0) ≡ false → Turned j (more cursor))
      → Turned j (advance (failure j source) calls count seen after c more)
  advance-Turned calls count seen none c more h k = h
  advance-Turned calls count seen (some cursor) c more h k = elim (Bool-cases (count == 0)) [
    | inl e ↦ rw e h
    | inr e ↦ elim (Bool-cases (ltb 128 (len cursor) || contains seen cursor)) [
      | inl bad ↦ rw (e, bad) refl
      | inr good ↦ rw (e, good) (k cursor e)
    ]
  ]

  scanned-Turned :
      (n : ℕ) (f : Flow) (k : Collection → Turn)
      → Held j n f
      → ((c : Collection) → IsCollected j c → c.inspected ≡ n → Turned j (k c))
      → Turned j (scanned f k)
  scanned-Turned n (go c) k h next = next c h.0 h.1
  scanned-Turned n (full c) k h next = h

  received-Turned :
      (remaining calls : ℕ) (seen : List Str) (rank : ℕ) (c : Collection)
      (more : Str → ℕ → Collection → Turn) (answer : Option Listing)
      → IsCollected j c
      → 0 < remaining
      → c.inspected + remaining ≤ max_candidates
      → ((cursor : Str) (rank' : ℕ) (c' : Collection)
          → rank < rank'
          → IsCollected j c'
          → Turned j (more cursor rank' c'))
      → Turned j (received j source remaining calls seen rank c more answer)
  received-Turned remaining calls seen rank c more none h pos le k = refl
  received-Turned remaining calls seen rank c more (some l) h pos le k =
      let window = take remaining l.children in
      let count = length-take remaining l.children in
      elim (Bool-cases (ltb 100 (length l.children))) [
        | inl big ↦ rw big refl
        | inr small ↦ rw small (
            scanned-Turned (c.inspected + length window) (scan j (name source) rank window c)
              (λ c'.
                advance (failure j source) calls (length l.children) seen l.after c'
                  (λ cursor. more cursor (rank + length window) c'))
              (scan-Held j (name source) window rank c h (omega arith))
              (λ c' h' e.
                advance-Turned calls (length l.children) seen l.after c'
                  (λ cursor. more cursor (rank + length window) c') h'
                  (λ cursor some_left. k cursor (rank + length window) c' (ground arith) h')))
      ]

  pages-Turned :
      (fuel quota calls : ℕ) (after : Option Str) (seen : List Str) (rank : ℕ) (c : Collection)
      → quota - rank < fuel
      → IsCollected j c
      → Turned j (pages j source fuel quota calls after seen rank c)
  unfolding pages
  pages-Turned zero quota calls after seen rank c lt h = absurd (omega arith)
  pages-Turned (suc fuel) quota calls after seen rank c lt h =
      let remaining = min quota (max_candidates - c.inspected) - rank in
      elim (Bool-cases (remaining == 0)) [
        | inl e ↦ rw e (cut-IsCollected j (name source) c h)
        | inr e ↦
            let some_left : 0 < quota - rank = ground arith in
            rw e (
              received-Turned remaining (suc calls) seen rank c
                (λ cursor rank' c'.
                  pages j source fuel quota (suc calls) (some cursor) (cursor ∷ seen) rank' c')
                (j.page calls source after (min remaining 100)) h (ground arith)
                (omega (arith, h.inspected))
                (λ cursor rank' c' up h'.
                  pages-Turned fuel quota (suc calls) (some cursor) (cursor ∷ seen) rank' c'
                    (omega arith) h'))
      ]

abbrev pub Good : Job → Result Collection → Type 0
Good j (ok c) = IsCollected j c
Good j (err d) = d.code ≡ source_failed

then_sources-Good :
    (j : Job) (t : Turn) (k : ℕ → Collection → Result Collection)
    → Turned j t
    → ((calls : ℕ) (c : Collection) → IsCollected j c → Good j (k calls c))
    → Good j (then_sources t k)
then_sources-Good j (next_source calls c) k h next = next calls c h
then_sources-Good j (finished c) k h next = h
then_sources-Good j (failed d) k h next = h

over_sources-Good :
    (j : Job) (quota : ℕ) (ss : List Source) (calls : ℕ) (c : Collection)
    → IsCollected j c
    → Good j (over_sources j quota ss calls c)
unfolding over_sources
over_sources-Good j quota [] calls c h = h
over_sources-Good j quota (s ∷ ss) calls c h =
    then_sources-Good j (pages j s (suc quota) quota calls none [] 0 c)
      (λ calls' c'. over_sources j quota ss calls' c')
      (pages-Turned j s (suc quota) quota calls none [] 0 c (omega arith) h)
      (λ calls' c' h'. over_sources-Good j quota ss calls' c' h')

-- Whatever the service answers, collecting the candidates ends, with the error of a source or with
-- a collection: at most 400 posts are inspected, the posts that are kept and those of unknown
-- verdict are not more than those, no two kept posts have one name, each of them matches the
-- expression and is allowed by the choice on NSFW posts, their bytes are at most 2 MiB, and the
-- window is marked as bounded exactly if the sources are marked as not exhausted.
pub collect-Good : (j : Job) (ss : List Source) → Good j (collect j ss)
unfolding collect
collect-Good j ss = over_sources-Good j (div_ceil max_candidates (length ss)) ss 0 empty (record {
  inspected = omega arith;
  found = omega arith;
  distinct = tt;
  wanted = tt;
  bytes = refl;
  small = omega arith;
  flags = refl;
})
