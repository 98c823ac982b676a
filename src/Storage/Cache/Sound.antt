-- ===== src/Storage/Cache/Sound.antt =====
-- The invariant of the cache's table, of crates/api/src/storage.rs.
use neddit.Prelude.{
  ◌+◌, ◌≤◌, ◌≡◌, refl, Bool, true, false, not, if◌then◌else◌, List, [], ◌∷◌, arith, str_eq, All,
}
use neddit.Storage.Rows.{keep, keep-All}
use neddit.Storage.Cache.{Row, Db, total, delete}

-- No two rows have one key.
abbrev pub Distinct : List Row → Type 0
Distinct [] = Unit
Distinct (r ∷ rs) = All (λ s. str_eq s.key r.key ≡ false) rs × Distinct rs

-- The size is the sum of the rows, and the primary key holds.
pub record IsSound (db : Db) : Type 0 where
  pub size : db.size ≡ total db.entries
  pub distinct : Distinct db.entries

keep-Distinct : (p : Row → Bool) (rs : List Row) → Distinct rs → Distinct (keep p rs)
keep-Distinct p [] h = tt
keep-Distinct p (r ∷ rs) h =
    elim (p r) as (λ b. Distinct (if b then r ∷ keep p rs else keep p rs)) [
      | true ↦ (keep-All (λ s. str_eq s.key r.key ≡ false) p rs h.0, keep-Distinct p rs h.1)
      | false ↦ keep-Distinct p rs h.1
    ]

total-keep :
    (p : Row → Bool) (rs : List Row)
    → total (keep p rs) + total (keep (λ r. not (p r)) rs) ≡ total rs
total-keep p [] = refl
total-keep p (r ∷ rs) = ground (arith, total-keep p rs)

pub delete-IsSound : (p : Row → Bool) (db : Db) → IsSound db → IsSound (delete p db)
delete-IsSound p db h = record {
  size = omega (arith, total-keep p db.entries);
  distinct = keep-Distinct (λ r. not (p r)) db.entries h.distinct;
}

pub delete-size-le : (p : Row → Bool) (db : Db) → (delete p db).size ≤ db.size
delete-size-le p db = omega arith
