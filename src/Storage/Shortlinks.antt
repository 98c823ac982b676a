-- ===== src/Storage/Shortlinks.antt =====
-- The shortlinks of crates/api/src/storage.rs: `ShortlinkConfig::validate`, `Shortlinks::url`,
-- `save_with` and `get`. The table `definitions` is a list of rows. `url::Url::parse` and
-- `Sha256` are arguments, and so are the ids that the generator gives, by the attempt, and each
-- reading of the clock.
pub mod Save
pub mod Lookup
use neddit.Prelude.{
  ℕ, zero, suc, ◌+◌, Bool, true, false, not, ◌&&◌, ◌||◌, ◌==◌, ltb, leb, if◌then◌else◌, List, [],
  ◌∷◌, ◌++◌, Option, none, some, Str, codes, str_eq, len, contains, length, map, all,
  is_ascii_alphanumeric,
}
use neddit.Storage.Rows.{Error, unavailable, capacity, rate_limited, sql, Result, ok, err, keep}

-- A row of `definitions`.
pub record Link : Type 0 where
  pub id : Str
  pub fingerprint : Str
  pub definition : Str
  pub created : ℕ

-- The parts of a URL that `validate` asks for; a password or a host may be missing.
pub record Url : Type 0 where
  pub scheme : Str
  pub host_str : Option Str
  pub username : Str
  pub password : Option Str
  pub path : Str
  pub query : Option Str
  pub fragment : Option Str

pub record ShortlinkConfig : Type 0 where
  pub enabled : Bool
  pub path : Str
  pub base_url : Option Str
  pub id_length : ℕ
  pub max_definitions : ℕ
  pub creations_per_minute : ℕ

-- The messages of `validate`.
pub data Invalid : Type 0 where
  id_length_range not_positive not_a_url not_an_origin : Invalid

pub data Checked : Type 0 where
  valid : Checked
  invalid : Invalid → Checked

abbrev is_some : Option Str → Bool
is_some none = false
is_some (some s) = true

-- `(10..=32).contains(&n)`
abbrev pub in_range : ℕ → Bool
in_range n = leb 10 n && leb n 32

abbrev is_origin : Url → Bool
is_origin u =
    (str_eq u.scheme (codes "http") || str_eq u.scheme (codes "https"))
    && is_some u.host_str
    && str_eq u.username []
    && not (is_some u.password)
    && str_eq u.path (codes "/")
    && not (is_some u.query)
    && not (is_some u.fragment)

abbrev check_parsed : Option Url → Checked
check_parsed none = invalid not_a_url
check_parsed (some u) = if is_origin u then valid else invalid not_an_origin

abbrev check_base : (Str → Option Url) → Option Str → Checked
check_base parse none = valid
check_base parse (some base) = check_parsed (parse base)

-- `ShortlinkConfig::validate`
unfoldable pub validate : (Str → Option Url) → ShortlinkConfig → Checked
validate parse config =
    if not (in_range config.id_length)
    then invalid id_length_range
    else if config.max_definitions == 0 || config.creations_per_minute == 0
    then invalid not_positive
    else check_base parse config.base_url

abbrev pub ids : List Link → List Str
ids = map (λ r. r.id)

abbrev pub fingerprints : List Link → List Str
fingerprints = map (λ r. r.fingerprint)

-- SELECT id FROM definitions WHERE fingerprint=?1
unfoldable pub id_of : Str → List Link → Option Str
id_of print [] = none
id_of print (r ∷ rs) = if str_eq r.fingerprint print then some r.id else id_of print rs

-- SELECT definition FROM definitions WHERE id=?1
unfoldable pub definition_of : Str → List Link → Option Str
definition_of id [] = none
definition_of id (r ∷ rs) = if str_eq r.id id then some r.definition else definition_of id rs

-- SELECT count(*) FROM definitions WHERE created>?1, where ?1 is 60 seconds ago
abbrev pub recent : ℕ → List Link → ℕ
recent now rs = length (keep (λ r. ltb now (r.created + 60)) rs)

-- The loop over the attempts that are left. On a clash of ids nothing is inserted.
unfoldable pub attempts :
    ℕ → ℕ → (ℕ → Str) → (ℕ → ℕ) → Str → Str → List Link → Result (Str × List Link)
attempts zero i generate clock print definition rows = err unavailable
attempts (suc n) i generate clock print definition rows =
    let rest = attempts n (suc i) generate clock print definition rows in
    let id = generate i in
    if contains (ids rows) id
    then rest
    else if contains (fingerprints rows) print
    then err sql
    else ok (
      id,
      record { id = id; fingerprint = print; definition = definition; created = clock i } ∷ rows,
    )

-- The transaction, given the row that has the fingerprint.
unfoldable pub create :
    ShortlinkConfig
    → ℕ
    → Option Str
    → Result (Str × List Link)
    → List Link
    → Result (Str × List Link)
create config now (some id) made rows = ok (id, rows)
create config now none made rows =
    if leb config.max_definitions (length rows)
    then err capacity
    else if leb config.creations_per_minute (recent now rows)
    then err rate_limited
    else made

-- `Shortlinks::save_with`. On an error the transaction is rolled back.
unfoldable pub save_with :
    (Str → Str)
    → ShortlinkConfig
    → (ℕ → Str)
    → ℕ
    → (ℕ → ℕ)
    → Str
    → List Link
    → Result (Str × List Link)
save_with digest config generate now clock definition rows =
    let print = digest definition in
    create config now (id_of print rows) (attempts 8 0 generate clock print definition rows) rows

-- The ids that `get` looks up.
abbrev pub is_id : Str → Bool
is_id id = in_range (len id) && all is_ascii_alphanumeric id

-- `Shortlinks::get`
unfoldable pub get : Str → List Link → Option Str
get id rows = if is_id id then definition_of id rows else none
