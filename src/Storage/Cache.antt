-- ===== src/Storage/Cache.antt =====
-- The response cache of crates/api/src/storage.rs: `Cache::get`, `put`, `json` and the periodic
-- maintenance. The table `entries` is a list of rows, and `size` is the row of `cache_size` that
-- the triggers keep. Where a statement has a LIMIT and no order, the rows come in the order of
-- `scan`. Each `now()` that a job reads is an argument.
pub mod Sound
pub mod Eviction
pub mod Put
pub mod Maintenance
pub mod Json
use neddit.Prelude.{
  ℕ, zero, suc, ◌+◌, ◌-◌, ◌*◌, Bool, true, false, not, ◌&&◌, ◌||◌, ◌==◌, ltb, leb, if◌then◌else◌,
  List, [], ◌∷◌, Option, none, some, Str, str_eq, len, contains, length, map, take, sort_by,
  str_leb,
}
use neddit.Storage.Rows.{Error, capacity, sql, out_of_fuel, Result, ok, err, keep}

pub record Row : Type 0 where
  pub key : Str
  pub payload : List ℕ
  pub created : ℕ
  pub expires : ℕ
  pub bytes : ℕ

pub record Db : Type 0 where
  pub entries : List Row
  pub size : ℕ

abbrev pub total : List Row → ℕ
total [] = 0
total (r ∷ rs) = r.bytes + total rs

-- DELETE, with the trigger `cache_delete` for each row.
abbrev pub delete : (Row → Bool) → Db → Db
delete p db = record {
  entries = keep (λ r. not (p r)) db.entries;
  size = db.size - total (keep p db.entries);
}

-- INSERT, with the trigger `cache_insert`; the key is the primary key.
abbrev pub insert : Row → Db → Result Db
insert r db =
    if contains (map (λ s. s.key) db.entries) r.key
    then err sql
    else ok (record { entries = r ∷ db.entries; size = db.size + r.bytes })

abbrev pub max_entry_bytes : ℕ
max_entry_bytes = 4 * 1024 * 1024

-- ORDER BY created, key
abbrev pub older : Row → Row → Bool
older r s = ltb r.created s.created || (r.created == s.created && str_leb r.key s.key)

-- The keys of expired rows, at most 256 of them.
pub expired_keys : (List Row → List Row) → ℕ → List Row → List Str
expired_keys scan now rows = map (λ r. r.key) (take 256 (keep (λ r. leb r.expires now) (scan rows)))

-- DELETE FROM entries WHERE key=?1 OR key IN (expired)
pub clear : (List Row → List Row) → ℕ → Str → Db → Db
clear scan now key db =
    let gone = expired_keys scan now db.entries in
    delete (λ r. str_eq r.key key || contains gone r.key) db

-- The statement of the maintenance task.
unfoldable pub maintain : (List Row → List Row) → ℕ → Db → Db
unfolding expired_keys
maintain scan now db =
    let gone = expired_keys scan now db.entries in delete (λ r. contains gone r.key) db

-- The keys of the 64 oldest rows.
pub oldest_keys : List Row → List Str
oldest_keys rows = map (λ r. r.key) (take 64 (sort_by older rows))

pub evict_batch : Db → Db
unfolding oldest_keys
evict_batch db = let gone = oldest_keys db.entries in delete (λ r. contains gone r.key) db

-- The loop that makes room. `none` means that the fuel ran out.
pub evict : ℕ → ℕ → ℕ → Db → Option Db
unfolding evict_batch
evict zero max charge db = none
evict (suc fuel) max charge db =
    let rest = evict fuel max charge (evict_batch db) in
    if ltb max (db.size + charge) then rest else some db

-- The end of the transaction: the insertion and the commit.
store : Row → Option Db → Result Db
store r none = err out_of_fuel
store r (some db) = insert r db

abbrev pub charge_of : Str → List ℕ → ℕ
charge_of key payload = length payload + len key + 128

-- The readings of the clock in one `put`.
pub record Clock : Type 0 where
  pub cleared : ℕ
  pub created : ℕ
  pub expires : ℕ

-- `Cache::put`. On an error the transaction is rolled back, so the database is as it was.
unfoldable pub put : (List Row → List Row) → ℕ → Clock → Str → List ℕ → ℕ → Db → Result Db
unfolding expired_keys clear evict store
put scan max clock key payload ttl db =
    let charge = charge_of key payload in
    let cleared = clear scan clock.cleared key db in
    if ltb max_entry_bytes (length payload) || ltb max charge
    then err capacity
    else store
        (record {
          key = key;
          payload = payload;
          created = clock.created;
          expires = clock.expires + ttl;
          bytes = charge;
        })
        (evict (suc (length cleared.entries)) max charge cleared)

-- SELECT payload FROM entries WHERE key=?1 AND expires>?2
abbrev pub select : Str → ℕ → List Row → Option (List ℕ)
select key now [] = none
select key now (r ∷ rs) =
    if str_eq r.key key && ltb now r.expires then some r.payload else select key now rs

-- `Cache::get`
unfoldable pub get : Str → ℕ → Db → Option (List ℕ)
get key now db = select key now db.entries

-- The database after a job.
abbrev pub after : Db → Result Db → Db
after db (ok db') = db'
after db (err e) = db
