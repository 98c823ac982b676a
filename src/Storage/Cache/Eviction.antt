-- ===== src/Storage/Cache/Eviction.antt =====
-- The loop of `Cache::put` in crates/api/src/storage.rs that deletes the oldest rows until there
-- is room. It ends: a round deletes a row, and an empty table has room.
use neddit.Prelude.{
  ℕ, zero, suc, ◌+◌, ◌≤◌, ◌<◌, ◌≡◌, refl, ap, ◌∙◌, Bool, true, not, ◌&&◌, ltb, List, [], ◌∷◌, some,
  arith, Str, str_eq, str_eq→eq, str_eq_refl, contains, length, All, All-weaken, map, take, sort_by,
  sort_by-All, length-sort_by, Bool-cases, inl, inr,
}
use neddit.Storage.Rows.{keep, length-keep-le}
use neddit.Storage.Cache.{Row, Db, total, older, oldest_keys, evict_batch, evict}
use neddit.Storage.Cache.Sound.{IsSound, delete-IsSound}

abbrev keys : List Row → List Str
keys = map (λ r. r.key)

keep_fewer :
    (gone : List Str) (k : Str) (rs : List Row)
    → contains gone k ≡ true
    → contains (keys rs) k ≡ true
    → length (keep (λ r. not (contains gone r.key)) rs) < length rs
keep_fewer gone k [] g h = cc
keep_fewer gone k (r ∷ rs) g h = elim (Bool-cases (str_eq r.key k)) [
  | inl e ↦
      let same = str_eq→eq r.key k e in
      let out : contains gone r.key ≡ true = rw same g in
      rw out (omega (arith, length-keep-le (λ (s : Row). not (contains gone s.key)) rs))
  | inr e ↦ ground (arith, keep_fewer gone k rs g)
]

-- The keys of all rows of one table are keys of the other.
abbrev Within : List Row → List Row → Type 0
Within rs ss = All (λ r. contains (keys rs) r.key ≡ true) ss

keys_self : (rs : List Row) → Within rs rs
keys_self [] = tt
keys_self (r ∷ rs) = (
  ground (arith, str_eq_refl r.key),
  All-weaken (λ s. contains (keys rs) s.key ≡ true) (λ s. contains (keys (r ∷ rs)) s.key ≡ true) rs
      (λ s h. ground arith) (keys_self rs),
)

fewer :
    (rs ss : List Row)
    → Within rs ss
    → 0 < length ss
    → length (keep (λ r. not (contains (keys (take 64 ss)) r.key)) rs) < length rs
fewer rs [] h n = absurd (omega arith)
fewer rs (x ∷ xs) h n =
    keep_fewer (keys (take 64 (x ∷ xs))) x.key rs (ground (arith, str_eq_refl x.key)) h.0

evict_batch_fewer :
    (db : Db) → 0 < length db.entries → length (evict_batch db).entries < length db.entries
unfolding evict_batch oldest_keys
evict_batch_fewer db h =
    fewer db.entries (sort_by older db.entries)
      (sort_by-All older (λ r. contains (keys db.entries) r.key ≡ true) db.entries
        (keys_self db.entries))
      (omega (arith, length-sort_by older db.entries))

evict_batch-IsSound : (db : Db) → IsSound db → IsSound (evict_batch db)
unfolding evict_batch
evict_batch-IsSound db h = delete-IsSound (λ r. contains (oldest_keys db.entries) r.key) db h

-- The rows that are left are rows that were there.
pub record Shrinks (db db' : Db) : Type 0 where
  pub chosen : Row → Bool
  pub entries : db'.entries ≡ keep chosen db.entries

keep-keep : (p q : Row → Bool) (rs : List Row) → keep q (keep p rs) ≡ keep (λ r. p r && q r) rs
keep-keep p q [] = refl
keep-keep p q (r ∷ rs) = ground (arith, keep-keep p q rs)

keep_all : (rs : List Row) → rs ≡ keep (λ r. true) rs
keep_all [] = refl
keep_all (r ∷ rs) = ap (λ t. r ∷ t) (keep_all rs)

pub Shrinks-trans : (a b c : Db) → Shrinks a b → Shrinks b c → Shrinks a c
Shrinks-trans a b c h k = record {
  chosen = λ r. h.chosen r && k.chosen r;
  entries = k.entries ∙ (ap (keep k.chosen) h.entries ∙ keep-keep h.chosen k.chosen a.entries);
}

evict_batch-Shrinks : (db : Db) → Shrinks db (evict_batch db)
unfolding evict_batch
evict_batch-Shrinks db = record {
  chosen = λ r. not (contains (oldest_keys db.entries) r.key);
  entries = refl;
}

-- A table that is full has a row.
has_row :
    (db : Db) (max charge : ℕ)
    → IsSound db
    → charge ≤ max
    → ltb max (db.size + charge) ≡ true
    → 0 < length db.entries
has_row db max charge s c h = go db.entries s.size
  where
    go : (rs : List Row) → db.size ≡ total rs → 0 < length rs
    go [] e = absurd (ground arith)
    go (r ∷ rs) e = omega arith

-- A table that the loop leaves has room, and is sound if it was.
pub record MadeRoom (max charge : ℕ) (db db' : Db) : Type 0 where
  pub room : db'.size + charge ≤ max
  pub sound : IsSound db'
  pub shrinks : Shrinks db db'

pub evict-MadeRoom :
    (fuel max charge : ℕ) (db : Db)
    → length db.entries < fuel
    → charge ≤ max
    → IsSound db
    → (db' : Db) × (evict fuel max charge db ≡ some db') × MadeRoom max charge db db'
unfolding evict
evict-MadeRoom zero max charge db f c s = absurd (omega arith)
evict-MadeRoom (suc fuel) max charge db f c s = elim (Bool-cases (ltb max (db.size + charge))) [
  | inr roomy ↦ (
    db,
    rw roomy,
    record {
      room = ground arith;
      sound = s;
      shrinks = record { chosen = λ r. true; entries = keep_all db.entries };
    },
  )
  | inl full ↦
      let some_row = has_row db max charge s c full in
      let (db', e, m) =
        evict-MadeRoom fuel max charge (evict_batch db)
          (omega (arith, evict_batch_fewer db some_row)) c (evict_batch-IsSound db s) in
      (
        db',
        rw full e,
        record {
          room = m.room;
          sound = m.sound;
          shrinks = Shrinks-trans db (evict_batch db) db' (evict_batch-Shrinks db) m.shrinks;
        },
      )
]
