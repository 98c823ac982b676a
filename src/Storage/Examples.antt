-- ===== src/Storage/Examples.antt =====
-- The theorems on crates/api/src/storage.rs, at small tables.
use neddit.Prelude.{
  ℕ, zero, suc, ◌≤◌, ◌<◌, ◌≡◌, refl, ◌⊎◌, true, false, List, [], ◌∷◌, Option, none, some, arith,
  Str, codes, str_eq, length,
}
use neddit.Storage.Rows.{ok, err, capacity}
use neddit.Storage.Cache.{Row, Db, Clock, put, get, maintain, charge_of, max_entry_bytes}
use neddit.Storage.Cache.Sound.{IsSound}
use neddit.Storage.Cache.Put.{Stored, put_correct}
use neddit.Storage.Cache.Json.{Answer, decoded, json, json_fetches_once}
use neddit.Storage.Cache.Maintenance.{get-maintain}
use neddit.Storage.Shortlinks.{Link, ShortlinkConfig, save_with, is_id}
use neddit.Storage.Shortlinks
use neddit.Storage.Shortlinks.Save.{Outcome, save_with-Outcome}
use neddit.Storage.Shortlinks.Lookup.{get_saved}

abbrev old_row : Row
old_row = record { key = codes "a"; payload = 1 ∷ []; created = 0; expires = 10; bytes = 130 }

abbrev table : Db
table = record { entries = old_row ∷ []; size = 130 }

table-IsSound : IsSound table
table-IsSound = record { size = refl; distinct = (tt, tt) }

abbrev clock : Clock
clock = record { cleared = 5; created = 5; expires = 5 }

abbrev payload : List ℕ
payload = 7 ∷ []

abbrev key : Str
key = codes "b"

-- The table has room for one row, so the old one is evicted.
put_example :
    (length payload ≤ max_entry_bytes
      → charge_of key payload ≤ 200
      → (db' : Db) × (put (λ rs. rs) 200 clock key payload 30 table ≡ ok db')
        × Stored 200 clock key payload 30 table db')
    × ((max_entry_bytes < length payload) ⊎ (200 < charge_of key payload)
        → put (λ rs. rs) 200 clock key payload 30 table ≡ err capacity)
put_example = put_correct (λ rs. rs) 200 clock key payload 30 table table-IsSound

get-maintain_example : get (codes "a") 6 (maintain (λ rs. rs) 5 table) ≡ get (codes "a") 6 table
get-maintain_example =
    get-maintain (λ rs. rs) 5 6 (codes "a") table (λ P rs h. h) table-IsSound (omega arith)

abbrev from_slice : List ℕ → Option ℕ
from_slice [] = none
from_slice (n ∷ rest) = some n

abbrev to_vec : ℕ → Option (List ℕ)
to_vec n = some (n ∷ [])

abbrev fetch : Answer Str ℕ
fetch = Answer.value 7

json_example :
    ((e : Str)
      → json from_slice to_vec (λ rs. rs) 200 5 clock key 30 (Answer.failure e) table
        ≡ (Answer.failure e, table))
    × ((v : ℕ) (bytes : List ℕ)
        → to_vec v ≡ some bytes
        → from_slice bytes ≡ some v
        → length bytes ≤ max_entry_bytes
        → charge_of key bytes ≤ 200
        → (db' : Db) × (json {E = Str} from_slice to_vec
              (λ rs. rs)
              200
              5
              clock
              key
              30
              (Answer.value v)
              table
            ≡ (Answer.value v, db'))
          × IsSound db'
          × ((later : ℕ) (clock' : Clock) (ttl' : ℕ) (fetch : Answer Str ℕ)
              → later < 35
              → json from_slice to_vec (λ rs. rs) 200 later clock' key ttl' fetch db'
                ≡ (Answer.value v, db')))
unfolding decoded get str_eq
json_example =
    json_fetches_once from_slice to_vec (λ rs. rs) 200 5 clock key 30 table table-IsSound refl

abbrev config : ShortlinkConfig
config = record {
  enabled = true;
  path = codes "data/feeds.sqlite";
  base_url = none;
  id_length = 10;
  max_definitions = 2;
  creations_per_minute = 2;
}

abbrev link : Link
link = record {
  id = codes "aaaaaaaaaa";
  fingerprint = codes "x";
  definition = codes "x";
  created = 0;
}

-- The first generated id is taken, and the next has a dash.
abbrev generate : ℕ → Str
generate zero = codes "aaaaaaaaaa"
generate (suc n) = codes "bbbbb-bbbb"

abbrev saved_link : Link
saved_link = record {
  id = codes "bbbbb-bbbb";
  fingerprint = codes "y";
  definition = codes "y";
  created = 100;
}

save_example :
    Outcome
      (λ s. s)
      (codes "y")
      config
      generate
      100
      (link ∷ [])
      (save_with (λ s. s) config generate 100 (λ n. 100) (codes "y") (link ∷ []))
save_example =
    save_with-Outcome (λ s. s) (codes "y") config generate 100 (λ n. 100) (link ∷ [])
      (refl, refl, refl, tt)

get_saved_example :
    (is_id saved_link.id ≡ true
      → (d : Str) × (Shortlinks.get saved_link.id (saved_link ∷ link ∷ []) ≡ some d)
        × (d ≡ codes "y"))
    × (is_id saved_link.id ≡ false → Shortlinks.get saved_link.id (saved_link ∷ link ∷ []) ≡ none)
unfolding save_with Shortlinks.create Shortlinks.id_of str_eq Shortlinks.attempts
get_saved_example =
    get_saved (λ s. s) config generate 100 (λ n. 100) (codes "y") (link ∷ []) saved_link.id
      (saved_link ∷ link ∷ []) (refl, refl, refl, tt) refl
