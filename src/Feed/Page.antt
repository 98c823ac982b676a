-- ===== src/Feed/Page.antt =====
-- The pages of a custom feed: `cached_feed` and `slice_page` of crates/api/src/feed/mod.rs. What
-- the cache has, and what a build of the feed gives, are arguments.
pub mod Following
use neddit.Prelude.{
  ℕ, zero, suc, ◌+◌, ◌-◌, ◌*◌, ◌^◌, ◌≤◌, ◌<◌, ◌≡◌, refl, sym, ap, ◌∙◌, Bool, true, false, not, ◌&&◌,
  ◌==◌, ltb, if◌then◌else◌, List, [], ◌∷◌, ◌++◌, take, drop, length, take-append-drop, length-drop,
  Option, none, some, arith, Bool-cases, inl, inr, Str, len, all, is_ascii_alphanumeric,
}
use native.Mathlib.Nat.{suc-mul}
use neddit.Crates.{Crates}
use neddit.Search.Syntax.{
  Diagnostic, diagnostic, Result, ok, err, ◌>>=◌, invalid_value, invalid_cursor, content_blocked,
  execution_busy,
}
use neddit.Search.Request.{get_or}
use neddit.Feed.Collect.{Candidate, max_candidates}
use neddit.Feed.Ranking.{Floats}
use neddit.Feed.Definition.{Request, Definition, definition}

-- The parts of a `FeedPage` that a snapshot keeps and `slice_page` reads.
pub record Snapshot : Type 0 where
  pub items : List Candidate
  pub cursor : Option Str

-- The index of the first item of a page, in `cached_feed`. The product is a `u32`.
unfoldable pub first_item : ℕ → ℕ → Result ℕ
first_item page limit =
    let start = (page - 1) * limit in
    if page == 0
    then err (diagnostic invalid_value (0, 0))
    else if ltb start (2 ^ 32) && ltb start max_candidates
    then ok start
    else err (diagnostic invalid_value (0, 0))

-- The parts of a `FeedPage` that `slice_page` sets, and its cursor.
pub record FeedPage : Type 0 where
  pub items : List Candidate
  pub number : ℕ
  pub previous_page : Option ℕ
  pub next_page : Option ℕ
  pub cursor : Option Str

-- `b.then(|| n)`
abbrev then_some : Bool → ℕ → Option ℕ
then_some true n = some n
then_some false n = none

abbrev is_some : Option Str → Bool
is_some none = false
is_some (some c) = true

-- `slice_page`
unfoldable pub slice_page : Snapshot → (page limit start : ℕ) → FeedPage
slice_page s page limit start = record {
  items = take limit (drop start s.items);
  number = page;
  previous_page = then_some (ltb 1 page && is_some s.cursor) (page - 1);
  next_page = then_some (ltb (start + limit) (length s.items) && is_some s.cursor) (page + 1);
  cursor = s.cursor;
}

-- `expired_cursor`
abbrev pub expired_cursor : Diagnostic
expired_cursor = diagnostic invalid_cursor (0, 0)

-- What a cursor of a request must be.
abbrev pub is_cursor : Str → Bool
is_cursor c = len c == 24 && all is_ascii_alphanumeric c

-- What `cached_feed` finds: the policy, the snapshot and the head of a definition that the cache
-- has and that can be decoded, whether the gate gives a permit, what `build_feed` gives, and the
-- cursor under which the cache keeps the items, if it does.
pub record World : Type 0 where
  pub allows_nsfw : Bool
  pub snapshot : Definition → Str → Option Snapshot
  pub head : Definition → Option Str
  pub permit : Bool
  pub build : Request → Result (List Candidate)
  pub store : Definition → List Candidate → Result (Option Str)

-- `ok_or_else`
abbrev ok_or : Option Snapshot → Diagnostic → Result Snapshot
ok_or none d = err d
ok_or (some s) d = ok s

module _ (w : World) where
  -- A feed that is built and stored.
  abbrev built : Definition → Request → Result Snapshot
  built d r =
      if not w.permit
      then err (diagnostic execution_busy (0, 0))
      else w.build r >>= (λ items.
        w.store d items >>= (λ cursor. ok (record { items = items; cursor = cursor })))

  or_built : Definition → Request → Option Snapshot → Result Snapshot
  or_built d r none = built d r
  or_built d r (some s) = ok s

  headed : Definition → Request → Option Str → Result Snapshot
  unfolding or_built
  headed d r none = built d r
  headed d r (some cursor) = or_built d r (w.snapshot d cursor)

  -- The snapshot of a request without a cursor: that of the head, or a new one.
  unfoldable pub fresh : Definition → Request → Result Snapshot
  unfolding headed
  fresh d r = headed d r (w.head d)

  -- The snapshot that a page is taken from.
  abbrev found : Definition → Request → Option Str → ℕ → Result Snapshot
  found d r (some cursor) page =
      if not (is_cursor cursor)
      then err expired_cursor
      else ok_or (w.snapshot d cursor) expired_cursor
  found d r none page = if not (page == 1) then err expired_cursor else fresh d r

  module _ {F : Type 0} (f : Floats F) (lib : Crates) where
    -- `cached_feed`
    unfoldable pub cached_feed : Request → Result FeedPage
    unfolding fresh slice_page
    cached_feed r =
        let page = get_or r.page 1 in
        let limit = get_or r.limit 25 in
        if not w.allows_nsfw && r.include_nsfw
        then err (diagnostic content_blocked (0, 0))
        else definition f lib r >>= (λ d.
          first_item page limit
          >>= (λ start. found d r r.cursor page >>= (λ s. ok (slice_page s page limit start))))

-- The request for a page of a snapshot.
abbrev pub turned_to : Request → Option Str → ℕ → Request
turned_to r cursor page = record r { page = some page; cursor = cursor }

-- The items of pages, one after another, or the first error; `none` means that fuel ran out.
abbrev pub Items : Type 0
Items = Option (Result (List Candidate))

abbrev pub joined : List Candidate → Items → Items
joined here none = none
joined here (some (err d)) = some (err d)
joined here (some (ok there)) = some (ok (here ++ there))

abbrev turned : (Option Str → ℕ → Items) → FeedPage → Option ℕ → Items
turned k p none = some (ok p.items)
turned k p (some n) = joined p.items (k p.cursor n)

abbrev followed : (Option Str → ℕ → Items) → Result FeedPage → Items
followed k (err d) = some (err d)
followed k (ok p) = turned k p p.next_page

module _ {F : Type 0} (f : Floats F) (lib : Crates) (w : World) (r : Request) where
  -- The items of a page and of those that `next_page` leads to, each asked for with the cursor of
  -- the page before.
  unfoldable pub follow : ℕ → Option Str → ℕ → Items
  follow zero cursor page = none
  follow (suc fuel) cursor page =
      followed (follow fuel) (cached_feed w f lib (turned_to r cursor page))
