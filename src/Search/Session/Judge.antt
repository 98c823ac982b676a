-- ===== src/Search/Session/Judge.antt =====
-- What is known of an object before it is served: `comment_window`, `visibility` and
-- `evaluated_record` of crates/api/src/search/engine/session.rs.
use neddit.Prelude.{ℕ, ◌*◌, Bool, true, false, not, ◌&&◌, ◌||◌, if◌then◌else◌, Option, none, some}
use neddit.Prelude.Int.{ℤ, pos, ◌-ℤ◌, leb_ℤ}
use neddit.Search.Syntax.{Mode, Field}
use neddit.Search.Truth
use neddit.Search.Truth.{Truth}
use neddit.Search.Record.{Record, insert, field_or_unknown}
use neddit.Search.Eval.{evaluate}
use neddit.Search.Request.{Request, ListingTime, top_time}
use neddit.Search.Thing.{F64, PublicThing, seconds, created_of, record_of}
use neddit.Search.Session.{Collection, Job, is_top}

-- The length of a window in seconds; there is none for all times.
abbrev seconds_back : ListingTime → Option ℕ
seconds_back ListingTime.hour = some 3600
seconds_back ListingTime.day = some 86400
seconds_back ListingTime.week = some (7 * 86400)
seconds_back ListingTime.month = some (30 * 86400)
seconds_back ListingTime.year = some (365 * 86400)
seconds_back ListingTime.all_time = none

abbrev within : ℤ → ℕ → Option ℤ → Truth
within frozen back none = Truth.unknown
within frozen back (some created) =
    Truth.boolean (leb_ℤ (frozen -ℤ pos (back * 1_000_000_000)) created && leb_ℤ created frozen)

is_comments : Mode → Bool
is_comments Mode.comments = true
is_comments m = false

-- `comment_window`
unfoldable pub comment_window : (F64 → ℤ) → Request → PublicThing → ℤ → Truth
unfolding is_comments
comment_window to_nanoseconds r item frozen =
    if not (is_comments r.kind) || not (is_top r)
    then Truth.true
    else elim (seconds_back (top_time r)) [
      | none ↦ Truth.true
      | some back ↦ within frozen back (seconds to_nanoseconds (created_of item))
    ]

adult : PublicThing → Option Bool
adult (PublicThing.post p t s) = some p.over_18
adult (PublicThing.comment c) = c.over_18
adult (PublicThing.subreddit s) = s.over18
adult (PublicThing.user name) = none

abbrev known_safe : Option Bool → Truth
known_safe none = Truth.unknown
known_safe (some b) = Truth.boolean (not b)

-- `visibility`
unfoldable pub visibility : PublicThing → Bool → Truth
unfolding adult
visibility item include_nsfw = if include_nsfw then Truth.true else known_safe (adult item)

-- `r.fields.insert(to, parent.fields.get(&from).cloned().unwrap_or(Datum::Unknown))`
abbrev inherit : Record → Field → Field → Record → Record
inherit parent from to r = insert to (field_or_unknown parent from) r

with_parent : Option (Option Record) → Record → Record
with_parent (some (some parent)) r =
    inherit parent Field.flair Field.post_flair (
      inherit parent Field.domain Field.post_domain (inherit parent Field.title Field.post_title r))
with_parent (some none) r = r
with_parent none r = r

-- `evaluated_record`
unfoldable pub evaluated_record : Job → Collection → PublicThing → Record
unfolding with_parent
evaluated_record j c (PublicThing.comment m) =
    with_parent (c.parents m.link_id) (record_of j.lib j.to_nanoseconds (PublicThing.comment m))
evaluated_record j c item = record_of j.lib j.to_nanoseconds item

-- What the expression says of an object, and what the session says of it.
unfoldable pub judge : Job → Collection → PublicThing → Truth
judge j c item = evaluate j.lib c.expr (evaluated_record j c item) c.frozen

unfoldable pub verdict : Job → Request → Collection → PublicThing → Truth
verdict j r c item =
    Truth.and (Truth.and (judge j c item) (visibility item r.include_nsfw))
      (comment_window j.to_nanoseconds r item c.frozen)
