-- ===== src/Search/Request.antt =====
-- crates/api/src/search/engine.rs: the request of a search, and what it is compiled to.
use neddit.Prelude.{ℕ, Bool, if◌then◌else◌, List, [], ◌∷◌, Option, none, some, Str, codes, str_eq}
use neddit.Search.Syntax.{Mode, Field}

-- `ListingTime`
pub data ListingTime : Type 0 where
  hour day week month year all_time : ListingTime

pub record Request : Type 0 where
  pub q : Str
  pub kind : Mode
  pub sort : Option Str
  pub t : Option ListingTime
  pub limit : Option ℕ
  pub include_nsfw : Bool
  pub cursor : Option Str

abbrev pub get_or {ℓ} : {A : Type ℓ} → Option A → A → A
get_or none d = d
get_or (some x) d = x

abbrev pub sort_of : Request → Str
sort_of r = get_or r.sort (codes "relevance")

abbrev pub limit_of : Request → ℕ
limit_of r = get_or r.limit 25

abbrev pub top_time : Request → ListingTime
top_time r = get_or r.t ListingTime.all_time

-- `Mode::sorts`
abbrev pub sorts : Mode → List Str
sorts Mode.posts = codes "relevance" ∷ codes "new" ∷ codes "top" ∷ codes "hot" ∷ []
sorts Mode.comments = codes "new" ∷ codes "top" ∷ []
sorts Mode.communities = codes "relevance" ∷ codes "activity" ∷ []

-- `Request::binding`: what a cursor is bound to
unfoldable pub binding : Request → Request
binding r = record r {
  cursor = none;
  limit = some (limit_of r);
  sort = some (sort_of r);
  t = if str_eq (sort_of r) (codes "top") then some (top_time r) else r.t;
}

pub data Plan : Type 0 where
  posts : Str → Plan
  comments : Field → Str → Plan
  communities : Str → Plan
  names : List Str → Plan
