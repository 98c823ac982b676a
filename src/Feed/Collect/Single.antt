-- ===== src/Feed/Collect/Single.antt =====
-- The number of posts that `collect` of crates/api/src/feed/mod.rs inspects in a feed of one source.
use neddit.Prelude.{
  ℕ, zero, suc, ◌+◌, ◌-◌, min, ◌≤◌, ◌≡◌, refl, sym, subst, not, ◌&&◌, ◌||◌, ◌==◌, ltb, List, [],
  ◌∷◌, take, length, length-take, Option, none, some, arith, Str, contains, len, Bool-cases, inl,
  inr,
}
use neddit.Search.Truth.{Truth}
use neddit.Search.Syntax.{ok}
use neddit.Search.Record.{Post}
use neddit.Feed.Sources.{Source}
use neddit.Feed.Collect.{
  Listing, Collection, Flow, go, full, keep, judged, Job, verdict, visit, continue, scan, Turn,
  next_source, finished, failed, name, advance, scanned, failure, received, pages, then_sources,
  over_sources, empty, div_ceil, collect, max_candidates,
}

-- How many posts are inspected, when a loop goes on and when it is left.
abbrev Counts : ℕ → Flow → Type 0
Counts n (go c) = c.inspected ≡ n
Counts n (full c) = c.inspected ≤ n

keep-Counts :
    (size : Post → Option ℕ) (source : Str) (rank : ℕ) (p : Post) (c : Collection)
    → Counts c.inspected (keep size source rank p c)
unfolding keep
keep-Counts size source rank p c = ground arith

judged-Counts :
    (t : Truth) (flow : Flow) (c : Collection)
    → Counts c.inspected flow
    → Counts c.inspected (judged t flow c)
judged-Counts Truth.true flow c h = h
judged-Counts Truth.false flow c h = refl
judged-Counts Truth.unknown flow c h = refl

visit-Counts :
    (j : Job) (source : Str) (rank : ℕ) (p : Post) (c : Collection)
    → Counts (c.inspected + 1) (visit j source rank p c)
unfolding visit
visit-Counts j source rank p c =
    let c' = record c { inspected = c.inspected + 1 } in
    elim (Bool-cases (not j.include_nsfw && p.over_18)) [
      | inl hidden ↦ rw hidden refl
      | inr shown ↦ rw shown (
          judged-Counts (verdict j p) (keep j.size source rank p c') c'
            (keep-Counts j.size source rank p c'))
    ]

continue-Counts :
    (n m : ℕ) (f : Flow) (k : Collection → Flow)
    → Counts n f
    → n ≤ m
    → ((c : Collection) → c.inspected ≡ n → Counts m (k c))
    → Counts m (continue f k)
continue-Counts n m (go c) k h le next = next c h
continue-Counts n m (full c) k h le next = omega arith

scan-Counts :
    (j : Job) (source : Str) (ps : List Post) (rank : ℕ) (c : Collection)
    → Counts (c.inspected + length ps) (scan j source rank ps c)
unfolding scan
scan-Counts j source [] rank c = omega arith
scan-Counts j source (p ∷ ps) rank c =
    continue-Counts (c.inspected + 1) (c.inspected + suc (length ps))
      (visit j source (suc rank) p c) (λ c'. scan j source (suc rank) ps c')
      (visit-Counts j source (suc rank) p c) (omega arith)
      (λ c' e.
        let same : c'.inspected + length ps ≡ c.inspected + suc (length ps) = omega arith in
        subst (λ n. Counts n (scan j source (suc rank) ps c')) same
          (scan-Counts j source ps (suc rank) c'))

abbrev Ends : Turn → Type 0
Ends (next_source calls c) = c.inspected ≤ 250
Ends (finished c) = c.inspected ≤ 250
Ends (failed d) = Unit

module _ (j : Job) (source : Source) where
  advance-Ends :
      (calls count : ℕ) (seen : List Str) (after : Option Str) (c : Collection) (more : Str → Turn)
      → c.inspected ≤ 250
      → ((cursor : Str) → Ends (more cursor))
      → Ends (advance (failure j source) calls count seen after c more)
  advance-Ends calls count seen none c more h k = h
  advance-Ends calls count seen (some cursor) c more h k = elim (Bool-cases (count == 0)) [
    | inl e ↦ rw e h
    | inr e ↦ elim (Bool-cases (ltb 128 (len cursor) || contains seen cursor)) [
      | inl bad ↦ rw (e, bad) tt
      | inr good ↦ rw (e, good) (k cursor)
    ]
  ]

  scanned-Ends :
      (n : ℕ) (f : Flow) (k : Collection → Turn)
      → Counts n f
      → n ≤ 250
      → ((c : Collection) → c.inspected ≡ n → Ends (k c))
      → Ends (scanned f k)
  scanned-Ends n (go c) k h le next = next c h
  scanned-Ends n (full c) k h le next = omega arith

  received-Ends :
      (remaining calls : ℕ) (seen : List Str) (rank : ℕ) (c : Collection)
      (more : Str → ℕ → Collection → Turn) (answer : Option Listing)
      → c.inspected ≡ rank
      → rank + rank + remaining ≤ 400
      → ((cursor : Str) (rank' : ℕ) (c' : Collection)
          → c'.inspected ≡ rank'
          → rank' ≤ 250
          → Ends (more cursor rank' c'))
      → Ends (received j source remaining calls seen rank c more answer)
  received-Ends remaining calls seen rank c more none h le k = tt
  received-Ends remaining calls seen rank c more (some l) h le k =
      let window = take remaining l.children in
      let count = length-take remaining l.children in
      elim (Bool-cases (ltb 100 (length l.children))) [
        | inl big ↦ rw big tt
        | inr small ↦
            let few : rank + length window ≤ 250 = ground arith in
            rw small (
              scanned-Ends (c.inspected + length window) (scan j (name source) rank window c)
                (λ c'.
                  advance (failure j source) calls (length l.children) seen l.after c'
                    (λ cursor. more cursor (rank + length window) c'))
                (scan-Counts j (name source) window rank c) (omega arith)
                (λ c' e.
                  advance-Ends calls (length l.children) seen l.after c'
                    (λ cursor. more cursor (rank + length window) c') (omega arith)
                    (λ cursor. k cursor (rank + length window) c' (omega arith) few)))
      ]

  pages-Ends :
      (fuel quota calls : ℕ) (after : Option Str) (seen : List Str) (rank : ℕ) (c : Collection)
      → c.inspected ≡ rank
      → rank ≤ 250
      → Ends (pages j source fuel quota calls after seen rank c)
  unfolding pages
  pages-Ends zero quota calls after seen rank c h le = tt
  pages-Ends (suc fuel) quota calls after seen rank c h le =
      let remaining = min quota (max_candidates - c.inspected) - rank in
      elim (Bool-cases (remaining == 0)) [
        | inl e ↦ rw e (omega arith)
        | inr e ↦
            let twice : rank + rank + remaining ≤ 400 = ground arith in
            rw e (
              received-Ends remaining (suc calls) seen rank c
                (λ cursor rank' c'.
                  pages j source fuel quota (suc calls) (some cursor) (cursor ∷ seen) rank' c')
                (j.page calls source after (min remaining 100)) h twice
                (λ cursor rank' c' e' le'.
                  pages-Ends fuel quota (suc calls) (some cursor) (cursor ∷ seen) rank' c' e' le'))
      ]

  ok_inj : {x y : Collection} → ok x ≡ ok y → x ≡ y
  ok_inj e = cc

  ended :
      (t : Turn) (c : Collection)
      → Ends t
      → then_sources t (λ calls c'. ok c') ≡ ok c
      → c.inspected ≤ 250
  ended (next_source calls d) c h e = let same : d ≡ c = ok_inj e in rw (sym same) h
  ended (finished d) c h e = let same : d ≡ c = ok_inj e in rw (sym same) h
  ended (failed d) c h e = absurd (cc)

  -- When the candidates of one source are collected without an error, at most 250 posts are
  -- inspected, whatever the service answers.
  pub collect_single : (c : Collection) → collect j (source ∷ []) ≡ ok c → c.inspected ≤ 250
  unfolding collect over_sources
  collect_single c e =
      let quota = div_ceil max_candidates 1 in
      ended (pages j source (suc quota) quota 0 none [] 0 empty) c
        (pages-Ends (suc quota) quota 0 none [] 0 empty refl (omega arith)) e
