-- ===== src/Search/Thing.antt =====
-- The objects of a listing as crates/api/src/search/engine.rs reads them: `identity`,
-- `order_fields`, `correct_kind` and `record`, with the models that they read.
use neddit.Prelude.{
  ℕ, zero, suc, Bool, true, false, not, ◌&&◌, ◌==◌, ltb, if◌then◌else◌, List, [], ◌∷◌, Option, none,
  some, Str,
}
use neddit.Prelude.Int.{ℤ, pos, negsuc, leb_ℤ}
use neddit.Crates.{Crates}
use neddit.Search.Syntax.{Mode, Field}
use neddit.Search.Record.{
  Datum, Record, Json, Post, empty, insert, body, author, optional, post_record,
}

-- An `f64` by its place in the order of `f64::total_cmp`, which is the integer that its bits make:
-- zero is 0 and the zero with a sign is -1.
abbrev pub F64 : Type 0
F64 = ℤ

abbrev infinity : ℕ
infinity = 0x7ff0_0000_0000_0000

-- `a.total_cmp(&b)` is not `Greater`.
abbrev pub total_le : F64 → F64 → Bool
total_le = leb_ℤ

abbrev pub is_nan : F64 → Bool
is_nan (pos n) = ltb infinity n
is_nan (negsuc n) = ltb infinity n

-- The two zeros are one.
abbrev pub unsigned_zero : F64 → F64
unsigned_zero (pos n) = pos n
unsigned_zero (negsuc zero) = pos 0
unsigned_zero (negsuc (suc n)) = negsuc (suc n)

-- `a < b`
unfoldable pub lt : F64 → F64 → Bool
lt a b = not (is_nan a) && not (is_nan b) && not (leb_ℤ (unsigned_zero b) (unsigned_zero a))

-- The place of 253402300800.0, and whether `(0.0..253402300800.0).contains(&value)`.
abbrev pub is_date : F64 → Bool
is_date (pos n) = ltb n 0x424d_7ffa_20c0_0000
is_date (negsuc n) = n == 0

-- `seconds`, with the product and its rounding as an argument.
unfoldable pub seconds : (F64 → ℤ) → F64 → Option ℤ
seconds to_nanoseconds value = if is_date value then some (to_nanoseconds value) else none

-- A comment; `subreddit` and `over_18` are what `extra` gives for these keys.
pub record Comment : Type 0 where
  pub name : Str
  pub author : Str
  pub body : Str
  pub link_id : Str
  pub created_utc : F64
  pub score : ℤ
  pub subreddit : Option Json
  pub over_18 : Option Bool

pub record Subreddit : Type 0 where
  pub name : Str
  pub display_name : Str
  pub title : Str
  pub public_description : Str
  pub over18 : Option Bool

-- `PublicThing`. A post has its `created_utc` and its `score` beside it.
pub data PublicThing : Type 0 where
  post : Post → F64 → ℤ → PublicThing
  comment : Comment → PublicThing
  subreddit : Subreddit → PublicThing
  user : (name : Str) → PublicThing

-- `Listing<PublicThing>`, as far as it is read
pub record Listing : Type 0 where
  pub children : List PublicThing
  pub after : Option Str

-- `correct_kind`
unfoldable pub correct_kind : PublicThing → Mode → Bool
correct_kind (PublicThing.post p t s) Mode.posts = true
correct_kind (PublicThing.comment c) Mode.comments = true
correct_kind (PublicThing.subreddit s) Mode.communities = true
correct_kind _ _ = false

-- `identity`
unfoldable pub identity : PublicThing → Str
identity (PublicThing.post p t s) = p.name
identity (PublicThing.comment c) = c.name
identity (PublicThing.subreddit s) = s.name
identity (PublicThing.user name) = name

-- The two parts of `order_fields`
unfoldable pub created_of : PublicThing → F64
created_of (PublicThing.post p t s) = t
created_of (PublicThing.comment c) = c.created_utc
created_of (PublicThing.subreddit s) = pos 0
created_of (PublicThing.user name) = pos 0

unfoldable pub score_of : PublicThing → ℤ
score_of (PublicThing.post p t s) = s
score_of (PublicThing.comment c) = c.score
score_of (PublicThing.subreddit s) = pos 0
score_of (PublicThing.user name) = pos 0

comment_record : (F64 → ℤ) → Comment → Record
unfolding seconds
comment_record ns c =
    let r =
      insert Field.subreddit (optional c.subreddit) (insert Field.author (author c.author) empty) in
    record r { text = body c.body ∷ []; created = seconds ns c.created_utc }

community_record : Subreddit → Record
community_record s =
    let r = insert Field.name (Datum.text s.display_name) empty in
    let r' = insert Field.title (Datum.text s.title) r in
    let r'' = insert Field.description (Datum.text s.public_description) r' in
    record r'' {
      text = Datum.text s.display_name ∷ Datum.text s.title ∷ Datum.text s.public_description ∷ [];
    }

-- `record`
unfoldable pub record_of : Crates → (F64 → ℤ) → PublicThing → Record
unfolding comment_record community_record
record_of lib ns (PublicThing.post p t s) = post_record lib (record p { created = seconds ns t })
record_of lib ns (PublicThing.comment c) = comment_record ns c
record_of lib ns (PublicThing.subreddit s) = community_record s
record_of lib ns (PublicThing.user name) = empty
