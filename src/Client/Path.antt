-- ===== src/Client/Path.antt =====
-- Paths, queries and the values of headers: crates/api/src/client.rs.
pub mod Raw
pub mod Key
use neddit.Prelude.{
  ℕ, zero, suc, ◌+◌, ◌-◌, ◌*◌, ◌^◌, min, Bool, true, false, not, ◌&&◌, ◌||◌, ◌==◌, ltb,
  if◌then◌else◌, List, [], ◌∷◌, ◌++◌, map, Option, none, some, Str, codes, str_eq, str_leb, sort_by,
  starts_with, strip_prefix, contains, length,
}
use neddit.Prelude.Int.{ℤ, pos, negsuc}
use neddit.Search.Thing.{F64, lt, is_nan}
use neddit.Search.Session.Cursor.{show, parse_usize}
use neddit.Client.{Libs}

-- `path.split_once('?').unwrap_or((path, ""))`
unfoldable pub split_query : Str → Str × Str
split_query [] = ([], [])
split_query (c ∷ s) =
    let (base, query) = split_query s in if c == b'?' then ([], s) else (c ∷ base, query)

abbrev pub raw_json : Str
raw_json = codes "raw_json"

-- The pairs of a query without `raw_json`
unfoldable pub without_raw : List (Str × Str) → List (Str × Str)
without_raw [] = []
without_raw ((key, v) ∷ pairs) =
    let rest = without_raw pairs in if str_eq key raw_json then rest else (key, v) ∷ rest

-- `with_raw_json`
unfoldable pub with_raw_json : Libs → Str → Str
unfolding split_query without_raw
with_raw_json lib path =
    let (base, query) = split_query path in
    base
    ++ (b'?'
        ∷ lib.form_serialize (without_raw (lib.form_parse query) ++ ((raw_json, codes "1") ∷ [])))

abbrev pub key_le : Str × Str → Str × Str → Bool
key_le (a, v) (b, w) = str_leb a b

-- `cache_key`
unfoldable pub cache_key : Libs → Str → Str
unfolding split_query
cache_key lib path =
    let (base, query) = split_query path in
    let sorted = sort_by key_le (lib.form_parse query) in
    codes "reddit-json-v1:" ++ lib.fingerprint (base ++ (b'?' ∷ lib.form_serialize sorted))

-- `str::contains` and `str::ends_with`
unfoldable pub contains_text : Str → Str → Bool
contains_text t [] = starts_with t []
contains_text t (c ∷ s) = starts_with t (c ∷ s) || contains_text t s

unfoldable pub ends_with_text : Str → Str → Bool
ends_with_text t [] = str_eq [] t
ends_with_text t (c ∷ s) = str_eq (c ∷ s) t || ends_with_text t s

-- `cache_ttl`
unfoldable pub cache_ttl : Str → ℕ
unfolding split_query contains_text ends_with_text
cache_ttl path =
    let base = (split_query path).0 in
    if contains_text (codes "/wiki/") base || ends_with_text (codes "/about/rules") base
    then 600
    else if ends_with_text (codes "/about") base
    then 120
    else if contains_text (codes "/comments/") base
        || starts_with (codes "/comments/") base
        || starts_with (codes "/by_id/") base
    then 60
    else 30

abbrev pub external_range_chunk : ℕ
external_range_chunk = 8 * 1024 * 1024

abbrev pub u64_max : ℕ
u64_max = 2 ^ 64 - 1

-- `value.strip_suffix('-')`
unfoldable pub strip_dash : Str → Option Str
strip_dash [] = none
strip_dash (c ∷ []) = if c == b'-' then some [] else none
strip_dash (c ∷ d ∷ s) = elim (strip_dash (d ∷ s)) [ none ↦ none | some t ↦ some (c ∷ t) ]

abbrev pub range_text : ℕ → ℕ → Str
range_text start end = codes "bytes=" ++ (show start ++ (b'-' ∷ show end))

abbrev pub range_end : ℕ → ℕ
range_end start = min (start + (external_range_chunk - 1)) u64_max

unfoldable pub range_from : Option ℕ → Option Str
range_from none = none
range_from (some start) = some (range_text start (range_end start))

unfoldable pub range_start : Option Str → Option Str
range_start none = none
range_start (some start) =
    if str_eq start [] || contains_text (codes ",") start
    then none
    else range_from (parse_usize start)

unfoldable pub range_value : Option Str → Option Str
range_value none = none
range_value (some v) = range_start (strip_dash v)

unfoldable pub range_bytes : Option Str → Option Str
range_bytes none = none
range_bytes (some v) = range_value (strip_prefix (codes "bytes=") v)

-- `bounded_range`
unfoldable pub bounded_range : Option Str → Option Str
unfolding range_bytes range_value range_start range_from
bounded_range = range_bytes

abbrev pub is_finite : F64 → Bool
is_finite (pos n) = ltb n 0x7ff0_0000_0000_0000
is_finite (negsuc n) = ltb n 0x7ff0_0000_0000_0000

-- The place of 65535.0.
abbrev pub largest : F64
largest = pos 0x40ef_ffe0_0000_0000

unfoldable pub floored : Libs → Option F64 → Option ℕ
unfolding lt
floored lib none = none
floored lib (some v) =
    if not (is_finite v) || lt v (pos 0)
    then none
    else some (lib.to_u16 (if lt largest v then largest else v))

-- `parse_rate_limit_remaining`
unfoldable pub parse_rate_limit_remaining : Libs → Str → Option ℕ
unfolding floored
parse_rate_limit_remaining lib text = floored lib (lib.parse_floor text)

-- `is_safe_proxy_header`
unfoldable pub is_safe_proxy_header : Str → Bool
is_safe_proxy_header = contains (
    codes "accept-ranges"
    ∷ codes "cache-control"
    ∷ codes "content-disposition"
    ∷ codes "content-encoding"
    ∷ codes "content-language"
    ∷ codes "content-length"
    ∷ codes "content-range"
    ∷ codes "content-type"
    ∷ codes "expires"
    ∷ codes "last-modified"
    ∷ codes "location"
    ∷ [])
