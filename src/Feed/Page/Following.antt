-- ===== src/Feed/Page/Following.antt =====
-- A client that follows the pages of a snapshot: `cached_feed` of crates/api/src/feed/mod.rs.
use neddit.Prelude.{
  ℕ, zero, suc, ◌+◌, ◌-◌, ◌*◌, ◌≤◌, ◌<◌, ◌≡◌, refl, sym, ap, ◌∙◌, true, false, not, ◌&&◌, ltb,
  if◌then◌else◌, List, [], ◌∷◌, ◌++◌, take, drop, length, take-append-drop, length-drop, Option,
  none, some, arith, Bool-cases, inl, inr, Str,
}
use native.Mathlib.Nat.{suc-mul}
use neddit.Crates.{Crates}
use neddit.Search.Syntax.{ok, err}
use neddit.Search.Request.{get_or}
use neddit.Feed.Collect.{Candidate, max_candidates}
use neddit.Feed.Ranking.{Floats}
use neddit.Feed.Definition.{Request, Definition, definition}
use neddit.Feed.Page.{
  Snapshot, first_item, slice_page, expired_cursor, is_cursor, World, fresh, cached_feed, turned_to,
  joined, follow,
}

first_item-ok :
    (page limit : ℕ)
    → 0 < page
    → (page - 1) * limit < max_candidates
    → first_item page limit ≡ ok ((page - 1) * limit)
unfolding first_item
first_item-ok page limit pos lt = ground arith

drop-drop : (n m : ℕ) (items : List Candidate) → drop n (drop m items) ≡ drop (m + n) items
drop-drop n zero items = let e : 0 + n ≡ n = omega arith in rw e refl
drop-drop zero (suc m) [] = let e : suc m + 0 ≡ suc m = omega arith in rw e refl
drop-drop (suc n) (suc m) [] = let e : suc m + suc n ≡ suc (m + suc n) = omega arith in rw e refl
drop-drop n (suc m) (x ∷ items) =
    let e : suc m + n ≡ suc (m + n) = omega arith in rw e (drop-drop n m items)

next_start : (page limit : ℕ) → 0 < page → (page + 1 - 1) * limit ≡ (page - 1) * limit + limit
next_start zero limit p = absurd (omega arith)
next_start (suc q) limit p =
    let e : suc q + 1 - 1 ≡ suc q = omega arith in
    let e' : suc q - 1 ≡ q = omega arith in rw (e, e') (suc-mul q limit)

take_all : (n : ℕ) (items : List Candidate) → length items ≤ n → take n items ≡ items
take_all zero [] h = refl
take_all zero (x ∷ items) h = absurd (omega arith)
take_all (suc n) [] h = refl
take_all (suc n) (x ∷ items) h = ap (λ t. x ∷ t) (take_all n items (omega arith))

limit_positive :
    {F : Type 0} (f : Floats F) (lib : Crates) (r : Request) (d : Definition)
    → definition f lib r ≡ ok d
    → 0 < get_or r.limit 25
unfolding definition
limit_positive f lib r d h = ground arith

module _ {F : Type 0} (f : Floats F) (lib : Crates) (w : World) (r : Request) (d : Definition)
    (c : Str) (items : List Candidate) (allowed : (not w.allows_nsfw && r.include_nsfw) ≡ false)
    (defined : definition f lib r ≡ ok d)
    (kept : w.snapshot d c ≡ some (record { items = items; cursor = some c }))
    (few : length items ≤ max_candidates) where
  abbrev limit : ℕ
  limit = get_or r.limit 25

  abbrev snapshot : Snapshot
  snapshot = record { items = items; cursor = some c }

  -- The page and the cursor are no part of the definition.
  page_defined :
      (cursor : Option Str) (page : ℕ) → definition f lib (turned_to r cursor page) ≡ ok d
  unfolding definition neddit.Feed.Definition.pool_of
  page_defined cursor page = defined

  served :
      (page : ℕ)
      → 0 < page
      → (page - 1) * limit < max_candidates
      → is_cursor c ≡ true
      → cached_feed w f lib (turned_to r (some c) page)
        ≡ ok (slice_page snapshot page limit ((page - 1) * limit))
  unfolding cached_feed
  served page pos lt good =
      rw (allowed, page_defined (some c) page, first_item-ok page limit pos lt, good, kept) refl

  follow_rest :
      (fuel page : ℕ)
      → is_cursor c ≡ true
      → 0 < page
      → (page - 1) * limit < length items
      → length items - (page - 1) * limit < fuel
      → follow f lib w r fuel (some c) page ≡ some (ok (drop ((page - 1) * limit) items))
  unfolding follow slice_page
  follow_rest zero page good p l h = absurd (omega arith)
  follow_rest (suc fuel) page good p l h =
      let start = (page - 1) * limit in
      let positive = limit_positive f lib r d defined in
      let here = served page p (omega (arith, few)) good in
      elim (Bool-cases (ltb (start + limit) (length items))) [
        | inl more ↦
            let e = next_start page limit p in
            let ih = follow_rest fuel (page + 1) good (omega arith) (ground arith) (ground arith) in
            rw (here, more, ih, e)
              (ap (λ t. some (ok t))
                (ap (λ t. take limit (drop start items) ++ t) (sym (drop-drop limit start items))
                  ∙ take-append-drop limit (drop start items)))
        | inr last ↦
            rw (here, last)
              (ap (λ t. some (ok t))
                (take_all limit (drop start items) (ground (arith, length-drop start items))))
      ]

  first_served :
      fresh w d (turned_to r none 1) ≡ ok snapshot
      → cached_feed w f lib (turned_to r none 1) ≡ ok (slice_page snapshot 1 limit 0)
  unfolding cached_feed
  first_served made =
      let e : (1 - 1) * limit ≡ 0 = omega arith in
      let start = rw e at (first_item-ok 1 limit (omega arith) (omega arith)) in
      rw (allowed, page_defined none 1, start, made) refl

  -- A cursor that is refused.
  refused :
      (fuel page : ℕ)
      → is_cursor c ≡ false
      → 0 < page
      → (page - 1) * limit < max_candidates
      → follow f lib w r (suc fuel) (some c) page ≡ some (err expired_cursor)
  unfolding follow cached_feed
  refused fuel page bad pos lt =
      rw (allowed, page_defined (some c) page, first_item-ok page limit pos lt, bad) refl

  -- For a request that the policy allows and that has a definition, whose first page, from the
  -- snapshot of the head or from a new one, is of a snapshot with a cursor and at most 400 items
  -- that the cache still has: the first page and those that `next_page` leads to end, and together
  -- they have the items of the snapshot, each once and in order, if the cursor is 24 letters and
  -- digits or the items fit one page. Otherwise the second page is refused as expired.
  pub follow_all :
      fresh w d (turned_to r none 1) ≡ ok (record { items = items; cursor = some c })
      → follow f lib w r (suc (length items)) none 1
        ≡ some (
            if ltb (get_or r.limit 25) (length items) && not (is_cursor c)
            then err expired_cursor
            else ok items)
  unfolding follow slice_page
  follow_all made =
      let positive = limit_positive f lib r d defined in
      let first = first_served made in
      let z : 0 + limit ≡ limit = omega arith in
      let e : (2 - 1) * limit ≡ limit = omega arith in
      elim (Bool-cases (ltb limit (length items))) [
        | inr last ↦
            rw (first, z, last) (ap (λ t. some (ok t)) (take_all limit items (ground arith)))
        | inl more ↦ elim (Bool-cases (is_cursor c)) [
          | inl good ↦
              let rest =
                follow_rest (length items) 2 good (omega arith) (ground (arith, e))
                  (ground (arith, e)) in
              rw (first, z, more, good, rest, e)
                (ap (λ t. some (ok t)) (take-append-drop limit items))
          | inr bad ↦ rw (first, z, more, bad) (then_refused more bad)
        ]
      ]
    where
      then_refused :
          ltb limit (length items) ≡ true
          → is_cursor c ≡ false
          → joined (take limit items) (follow f lib w r (length items) (some c) 2)
            ≡ some (err expired_cursor)
      then_refused more bad = go (length items) refl
        where
          go :
              (n : ℕ)
              → n ≡ length items
              → joined (take limit items) (follow f lib w r n (some c) 2)
                ≡ some (err expired_cursor)
          go zero same = absurd (ground arith)
          go (suc n) same = rw (refused n 2 bad (omega arith) (ground (arith, few))) refl
