-- ===== src/Search/Record.antt =====
-- What a predicate is evaluated against: `Datum` and `Record` of crates/api/src/search/mod.rs.
-- The map of fields is a function. The constructor is `Datum.text`, of a text.
pub mod Trim
use neddit.Prelude.{
  Bool, ◌||◌, List, [], ◌∷◌, Option, none, some, Str, codes, str_eq, to_ascii_lowercase,
  is_whitespace, if◌then◌else◌,
}
use neddit.Prelude.Int.{ℤ}
use neddit.Crates.{Crates}
use neddit.Search.Syntax.{Field, field_eq}

pub data Datum : Type 0 where
  text : Str → Datum
  absent : Datum
  unknown : Datum

pub record Record : Type 0 where
  pub fields : Field → Option Datum
  pub text : List Datum
  pub created : Option ℤ

-- `Record::default()`
abbrev pub empty : Record
empty = record { fields = λ f. none; text = []; created = none }

-- `record.fields.insert(f, v)`
abbrev pub insert : Field → Datum → Record → Record
insert f v r = record r { fields = λ g. if field_eq f g then some v else r.fields g }

-- `record.fields.get(&f).unwrap_or(&Datum::Unknown)`
abbrev pub field_or_unknown : Record → Field → Datum
field_or_unknown r f = elim (r.fields f) [ some d ↦ d | none ↦ Datum.unknown ]

trim_start : Str → Str
trim_start [] = []
trim_start (c ∷ s) = let rest = trim_start s in if is_whitespace c then rest else c ∷ s

-- Without the white space at its end; a text that is all white space is empty.
trim_end : Str → Str
trim_end [] = []
trim_end (c ∷ s) = elim (trim_end s) [
  | [] ↦ if is_whitespace c then [] else c ∷ []
  | d ∷ t ↦ c ∷ d ∷ t
]

-- `str::trim`
unfoldable pub trim : Str → Str
unfolding trim_start trim_end
trim s = trim_end (trim_start s)

-- `body`: a text that was deleted or removed is not known.
unfoldable pub body : Str → Datum
body value =
    let v = to_ascii_lowercase (trim value) in
    if str_eq v (codes "[deleted]")
      || str_eq v (codes "[removed]")
      || str_eq v (codes "[removed by reddit]")
      || str_eq v (codes "[ removed by moderator ]")
    then Datum.unknown
    else Datum.text value

-- `author`
unfoldable pub author : Str → Datum
author value =
    if str_eq value (codes "[deleted]")
    then Datum.absent
    else if str_eq value []
    then Datum.unknown
    else Datum.text value

-- A value of `extra`, as far as `optional` looks: JSON null, a string, or another value.
pub data Json : Type 0 where
  null : Json
  string : Str → Json
  other : Json

-- `optional(extra, key)`, from what `extra.get(key)` gives
unfoldable pub optional : Option Json → Datum
optional none = Datum.unknown
optional (some Json.null) = Datum.absent
optional (some (Json.string s)) = Datum.text s
optional (some Json.other) = Datum.unknown

-- The fields of a `Post` that its record reads. `created` is `seconds(created_utc)`, which the
-- source computes in floating point.
pub record Post : Type 0 where
  pub name : Str
  pub title : Str
  pub selftext : Str
  pub subreddit : Str
  pub author : Str
  pub link_flair_text : Option Json
  pub url : Str
  pub created : Option ℤ
  pub over_18 : Bool

-- `map_or(Datum::Unknown, Datum::Text)`
abbrev known_or : Option Str → Datum
known_or none = Datum.unknown
known_or (some s) = Datum.text s

-- `post_record`
unfoldable pub post_record : Crates → Post → Record
unfolding body author optional
post_record lib p =
    let r = insert Field.title (body p.title) empty in
    let r' = insert Field.subreddit (Datum.text p.subreddit) r in
    let r'' = insert Field.author (author p.author) r' in
    let r3 = insert Field.flair (optional p.link_flair_text) r'' in
    let r4 = insert Field.domain (known_or (lib.url_host p.url)) r3 in
    record r4 { text = body p.title ∷ body p.selftext ∷ []; created = p.created }
