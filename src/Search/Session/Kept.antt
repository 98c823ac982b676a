-- ===== src/Search/Session/Kept.antt =====
-- What a session keeps through an operation that finds it at `start`, whatever the service
-- answers: the pages, the budgets, that no object stands twice in what was or will be served, and that all of it may be served.
use neddit.Prelude.{
  ℕ, ◌+◌, ◌*◌, ◌≤◌, ◌<◌, ◌≡◌, Bool, true, not, ◌||◌, leb, List, [], ◌∷◌, All, All-append, sort_by,
  sort_by-All, length, Option, none, some, Str, str_eq→eq, contains, arith, Bool-cases, inl, inr,
}
use neddit.Prelude.Int.{ℤ}
use neddit.Search.Syntax.{Result, ok, err}
use neddit.Search.Truth.{Truth}
use neddit.Search.Request.{Request}
use neddit.Search.Thing.{F64, PublicThing, identity}
use neddit.Search.Page.{Page, Notice}
use neddit.Search.Session.{
  Collection, Job, max_candidates, max_parent_bytes, page_limit, is_top, stop, bounded, flush_tie,
  identity_le, marked, is_none, bytes_of, if_new, counted, settled,
}
use neddit.Search.Session.Judge.{visibility, comment_window}
use neddit.Search.Session.Outcome.{one, occ, occ-append, occ-sort_by}

-- What a page serves of an object; an error serves nothing.
abbrev pub in_page : Str → Result Page → ℕ
in_page id (ok p) = occ id p.items
in_page id (err d) = 0

abbrev pub in_pages : Str → List (Result Page) → ℕ
in_pages id [] = 0
in_pages id (p ∷ l) = in_page id p + in_pages id l

-- An object that a request allows, in a session of that time.
abbrev pub AllowedAt : (F64 → ℤ) → Request → ℤ → PublicThing → Type 0
AllowedAt ns r frozen x =
    (visibility x r.include_nsfw ≡ Truth.true) × (comment_window ns r x frozen ≡ Truth.true)

abbrev pub PageAllowedAt : (F64 → ℤ) → Request → ℤ → Result Page → Type 0
PageAllowedAt ns r frozen (ok p) = All (AllowedAt ns r frozen) p.items
PageAllowedAt ns r frozen (err d) = Unit

module _ (j : Job) (r : Request) (start : Collection) where
  abbrev pub Allowed : PublicThing → Type 0
  Allowed = AllowedAt j.to_nanoseconds r start.frozen

  abbrev pub PageAllowed : Result Page → Type 0
  PageAllowed = PageAllowedAt j.to_nanoseconds r start.frozen

  module _ (id : Str) where
    -- `owed` is the number of calls that may still be made for the pages fetched so far, and `held`
    -- how often the object stands in a batch that is not judged yet.
    pub record Kept (owed held : ℕ) (c : Collection) : Type 0 where
      pub candidates : c.candidates ≤ max_candidates
      pub pages : c.source_pages ≤ page_limit (is_top r)
      pub calls : c.source_calls + owed ≤ 2 * c.source_pages
      pub bytes : (leb c.bytes (2 * 1024 * 1024) || not (is_none c.end)) ≡ true
      pub parents : c.parent_bytes ≤ max_parent_bytes
      pub seen : length c.seen ≤ c.candidates
      pub once :
          in_pages id c.pages + occ id c.ready + occ id c.tie + held ≤ one (contains c.seen id)
      pub frozen_at : c.frozen ≡ start.frozen
      pub flight : c.in_flight ≡ start.in_flight
      pub same_pages : c.pages ≡ start.pages
      pub ready : All Allowed c.ready
      pub tie : All Allowed c.tie
      pub served : All PageAllowed c.pages

    module _ (owed held : ℕ) where
      pub stop-Kept :
          (notice : Notice) (fails : Bool) (c : Collection)
          → Kept owed held c
          → Kept owed held (stop notice fails c)
      unfolding stop
      stop-Kept notice fails c k = ground arith

      pub flush_tie-Kept : (c : Collection) → Kept owed held c → Kept owed held (flush_tie c)
      unfolding flush_tie occ
      flush_tie-Kept c k = record {
        candidates = k.candidates;
        pages = k.pages;
        calls = k.calls;
        bytes = k.bytes;
        parents = k.parents;
        seen = k.seen;
        once = omega (
          arith,
          k.once,
          occ-append id c.ready (sort_by identity_le c.tie),
          occ-sort_by id identity_le c.tie,
        );
        frozen_at = k.frozen_at;
        flight = k.flight;
        same_pages = k.same_pages;
        ready =
            All-append Allowed c.ready (sort_by identity_le c.tie) k.ready
              (sort_by-All identity_le Allowed c.tie k.tie);
        tie = tt;
        served = k.served;
      }

      -- An object that is new joins the batch.
      pub marked-Kept :
          (x : PublicThing) (batch : List PublicThing) (c : Collection)
          → c.candidates < max_candidates
          → c.bytes + bytes_of (j.size x) ≤ 2 * 1024 * 1024
          → Kept owed (held + occ id batch) c
          → Kept owed (held + occ id (if_new x (counted j x c) batch)) (marked x (counted j x c))
      unfolding occ
      marked-Kept x batch c lt fits k = elim (Bool-cases (contains c.seen (identity x))) [
        | inl old ↦ rw old (ground arith)
        | inr new ↦ rw new (ground (arith, occ-append id batch (x ∷ []), str_eq→eq (identity x) id))
      ]

      pub settled-Kept :
          (after : Option Str) (c : Collection)
          → Kept owed held c
          → Kept owed held (settled after c)
      unfolding settled stop
      settled-Kept none c k = ground arith
      settled-Kept (some cursor) c k = ground arith

      pub bounded-Kept :
          (top : Bool) (c : Collection) → Kept owed held c → Kept owed held (bounded top c)
      unfolding bounded
      bounded-Kept top c k = ground arith

    pub Kept-rest : (owed held : ℕ) (c : Collection) → Kept owed held c → Kept 0 0 c
    Kept-rest owed held c k = ground arith

  -- A session that has not ended may fetch a page.
  abbrev pub IsOpen : Collection → Type 0
  IsOpen c = c.end ≡ none → c.source_pages < page_limit (is_top r)
