-- ===== src/Storage/Cache/Put.antt =====
-- `Cache::put` and `Cache::get` of crates/api/src/storage.rs: an entry that fits is stored and
-- read back, the budget is kept, and no other entry is made up.
use neddit.Prelude.{
  ℕ, suc, ◌+◌, ◌≤◌, ◌<◌, ◌≡◌, refl, ◌⊎◌, sym, subst, ◌∙◌, Bool, true, false, not, ◌||◌, List, [],
  ◌∷◌, none, some, arith, Str, str_eq, str_eq→eq, str_eq_refl, contains, length, All, map,
  Bool-cases, inl, inr,
}
use neddit.Storage.Rows.{ok, err, capacity, keep}
use neddit.Storage.Cache.{
  Row, Db, Clock, insert, clear, expired_keys, put, get, select, charge_of, max_entry_bytes,
}
use neddit.Storage.Cache.Sound.{IsSound, Distinct, delete-IsSound}
use neddit.Storage.Cache.Eviction.{Shrinks, Shrinks-trans, MadeRoom, evict-MadeRoom}

abbrev pub keys : List Row → List Str
keys = map (λ r. r.key)

pub keys-keep :
    (p : Row → Bool) (k : Str) (rs : List Row)
    → contains (keys rs) k ≡ false
    → contains (keys (keep p rs)) k ≡ false
keys-keep p k [] h = h
keys-keep p k (r ∷ rs) h = ground (arith, keys-keep p k rs)

keys_cleared :
    (k : Str) (gone : List Str) (rs : List Row)
    → contains (keys (keep (λ r. not (str_eq r.key k || contains gone r.key)) rs)) k ≡ false
keys_cleared k gone [] = refl
keys_cleared k gone (r ∷ rs) = ground (arith, keys_cleared k gone rs)

distinct_of_keys :
    (k : Str) (rs : List Row) → contains (keys rs) k ≡ false → All (λ s. str_eq s.key k ≡ false) rs
distinct_of_keys k [] h = tt
distinct_of_keys k (r ∷ rs) h = (ground arith, distinct_of_keys k rs (ground arith))

pub select_absent :
    (k : Str) (t : ℕ) (rs : List Row) → contains (keys rs) k ≡ false → select k t rs ≡ none
select_absent k t [] h = refl
select_absent k t (r ∷ rs) h = ground (arith, select_absent k t rs)

pub contains_of_distinct :
    (k j : Str) (rs : List Row)
    → All (λ s. str_eq s.key j ≡ false) rs
    → str_eq j k ≡ true
    → contains (keys rs) k ≡ false
contains_of_distinct k j [] h e = refl
contains_of_distinct k j (r ∷ rs) h e =
    let same = str_eq→eq j k e in let head = h.0 in ground (arith, contains_of_distinct k j rs h.1)

-- A lookup in some rows of a sound table finds what the table has.
pub select-keep :
    (p : Row → Bool) (k : Str) (t : ℕ) (v : List ℕ) (rs : List Row)
    → Distinct rs
    → select k t (keep p rs) ≡ some v
    → select k t rs ≡ some v
select-keep p k t v [] d h = h
select-keep p k t v (r ∷ rs) d h = elim (Bool-cases (p r)) [
  | inl kept ↦ ground (arith, select-keep p k t v rs d.1)
  | inr gone ↦ elim (Bool-cases (str_eq r.key k)) [
    | inl e ↦
        let absent =
          select_absent k t (keep p rs)
            (keys-keep p k rs (contains_of_distinct k r.key rs d.0 e)) in
        absurd (none_some (sym absent ∙ (rw gone at h)))
    | inr e ↦ ground (arith, select-keep p k t v rs d.1)
  ]
]
  where
    none_some : {v : List ℕ} → none ≡ some v → ⊥
    none_some e = cc

-- What a stored entry leaves behind.
pub record Stored (max : ℕ) (clock : Clock) (key : Str) (payload : List ℕ) (ttl : ℕ) (db db' : Db)
    : Type 0 where
  pub sound : IsSound db'
  pub budget : db'.size ≤ max
  pub own : (t : ℕ) → t < clock.expires + ttl → get key t db' ≡ some payload
  pub gone : (t : ℕ) → clock.expires + ttl ≤ t → get key t db' ≡ none
  pub others :
      (k : Str) (t : ℕ) (v : List ℕ)
      → str_eq key k ≡ false
      → get k t db' ≡ some v
      → get k t db ≡ some v

module _ (scan : List Row → List Row) (max : ℕ) (clock : Clock) (key : Str) (payload : List ℕ)
    (ttl : ℕ) where
  abbrev row : Row
  row = record {
    key = key;
    payload = payload;
    created = clock.created;
    expires = clock.expires + ttl;
    bytes = charge_of key payload;
  }

  stored :
      (db cleared db' : Db)
      → Shrinks db cleared
      → IsSound db
      → contains (keys cleared.entries) key ≡ false
      → MadeRoom max (charge_of key payload) cleared db'
      → (new : Db) × (insert row db' ≡ ok new) × Stored max clock key payload ttl db new
  unfolding get
  stored db cleared db' s h free m =
      let absent : contains (keys db'.entries) key ≡ false =
        subst (λ rs. contains (keys rs) key ≡ false) (sym m.shrinks.entries)
          (keys-keep m.shrinks.chosen key cleared.entries free) in
      let new : Db = record {
        entries = row ∷ db'.entries;
        size = db'.size + charge_of key payload;
      } in
      let all_shrinks = Shrinks-trans db cleared db' s m.shrinks in
      (
        new,
        rw absent,
        record {
          sound = record {
            size = omega (arith, m.sound.size);
            distinct = (distinct_of_keys key db'.entries absent, m.sound.distinct);
          };
          budget = m.room;
          own = λ t lt. ground (arith, str_eq_refl key);
          gone = λ t le. ground (arith, select_absent key t db'.entries absent);
          others = λ k t v ne found.
              select-keep all_shrinks.chosen k t v db.entries h.distinct
                (subst (λ rs. select k t rs ≡ some v) all_shrinks.entries (ground arith));
        },
      )

  -- For a sound table, and whatever order an unordered LIMIT meets the rows in: an entry that is
  -- within the two limits is stored; the table is sound again and within its budget, the entry
  -- is read back until its time is over and not from then on, and what is read under another key
  -- was there before. An entry beyond a limit is refused with the error for capacity.
  pub put_correct :
      (db : Db)
      → IsSound db
      → (length payload ≤ max_entry_bytes
          → charge_of key payload ≤ max
          → (db' : Db) × (put scan max clock key payload ttl db ≡ ok db')
            × Stored max clock key payload ttl db db')
        × ((max_entry_bytes < length payload) ⊎ (max < charge_of key payload)
            → put scan max clock key payload ttl db ≡ err capacity)
  unfolding put
  put_correct db h =
      let gone = expired_keys scan clock.cleared db.entries in
      let cleared = clear scan clock.cleared key db in
      let sound : IsSound cleared =
        delete-IsSound (λ r. str_eq r.key key || contains gone r.key) db h in
      let shrinks : Shrinks db cleared = record {
        chosen = λ r. not (str_eq r.key key || contains gone r.key);
        entries = refl;
      } in
      (
        λ p c.
            let (roomy, e, m) =
              evict-MadeRoom (suc (length cleared.entries)) max (charge_of key payload) cleared
                (omega arith) c sound in
            let (new, e', done) =
              stored db cleared roomy shrinks h (keys_cleared key gone db.entries) m in
            (new, ground arith, done),
        λ over. ground arith,
      )
