-- ===== src/Storage/Cache/Json.antt =====
-- `Cache::json` of crates/api/src/storage.rs: a value is fetched once and then served from the
-- table. The lock of the key orders the calls, so a call is one step on the database. The answer
-- of `fetch` is an argument, and so are serde's `from_slice` and `to_vec`.
use neddit.Prelude.{ℕ, ◌+◌, ◌≤◌, ◌<◌, ◌≡◌, List, Option, none, some, Str, length}
use neddit.Storage.Cache.{Row, Db, Clock, put, get, charge_of, max_entry_bytes, after}
use neddit.Storage.Cache.Sound.{IsSound}
use neddit.Storage.Cache.Put.{put_correct}

pub data Answer {ℓ} (E V : Type ℓ) : Type ℓ where
  value : V → Answer E V
  failure : E → Answer E V

unfoldable pub decoded : {V : Type 0} → (List ℕ → Option V) → Option (List ℕ) → Option V
decoded from_slice none = none
decoded from_slice (some bytes) = from_slice bytes

-- The database after the value is written; a failed write is only logged.
pub written : (List Row → List Row) → ℕ → Clock → Str → ℕ → Option (List ℕ) → Db → Db
written scan max clock key ttl none db = db
written scan max clock key ttl (some bytes) db = after db (put scan max clock key bytes ttl db)

module _ {E V : Type 0} where
  answered : (E → Db) → (V → Db) → Answer E V → Answer E V × Db
  answered failed done (failure e) = (failure e, failed e)
  answered failed done (value v) = (value v, done v)

  served : Db → Option V → Answer E V × Db → Answer E V × Db
  served db none miss = miss
  served db (some v) miss = (value v, db)

  module _ (from_slice : List ℕ → Option V) (to_vec : V → Option (List ℕ))
      (scan : List Row → List Row) (max : ℕ) where
    -- `now` is the time of the lookup, `clock` the times of the write.
    unfoldable pub json : ℕ → Clock → Str → ℕ → Answer E V → Db → Answer E V × Db
    unfolding answered served
    json now clock key ttl fetch db =
        served db (decoded from_slice (get key now db))
          (answered (λ e. db) (λ v. written scan max clock key ttl (to_vec v) db) fetch)

    -- A call that has to fetch passes a failure on and leaves the table as it was. A value that it
    -- fetches is returned, and if it is within the limits and its bytes decode to it, then every
    -- call until its time is over returns it, whatever a fetch would give, and changes nothing.
    pub json_fetches_once :
        (now : ℕ) (clock : Clock) (key : Str) (ttl : ℕ) (db : Db)
        → IsSound db
        → decoded from_slice (get key now db) ≡ none
        → ((e : E) → json now clock key ttl (failure e) db ≡ (failure e, db))
          × ((v : V) (bytes : List ℕ)
              → to_vec v ≡ some bytes
              → from_slice bytes ≡ some v
              → length bytes ≤ max_entry_bytes
              → charge_of key bytes ≤ max
              → (db' : Db) × (json now clock key ttl (value v) db ≡ (value v, db'))
                × IsSound db'
                × ((later : ℕ) (clock' : Clock) (ttl' : ℕ) (fetch : Answer E V)
                    → later < clock.expires + ttl
                    → json later clock' key ttl' fetch db' ≡ (value v, db')))
    unfolding json decoded written
    json_fetches_once now clock key ttl db h missed = (
      λ e. rw missed,
      λ v bytes enc dec small fits.
          let (db', e, s) = (put_correct scan max clock key bytes ttl db h).0 small fits in
          (
            db',
            rw (missed, enc, e),
            s.sound,
            λ later clock' ttl' fetch lt. rw (s.own later lt, dec),
          ),
    )
