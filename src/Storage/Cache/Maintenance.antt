-- ===== src/Storage/Cache/Maintenance.antt =====
-- The maintenance task of `Cache::open` in crates/api/src/storage.rs, as clients see it.
use neddit.Prelude.{
  ℕ, zero, suc, ◌≤◌, ◌≡◌, refl, sym, ◌∙◌, Bool, true, false, not, leb, List, [], ◌∷◌, none, some,
  arith, Str, str_eq, str_eq→eq, contains, All, take, Bool-cases, Option-cases, inl, inr,
}
use neddit.Storage.Rows.{keep}
use neddit.Storage.Cache.{Row, Db, expired_keys, maintain, get, select}
use neddit.Storage.Cache.Sound.{IsSound, Distinct}
use neddit.Storage.Cache.Put.{keys, select-keep, select_absent, contains_of_distinct}

-- No row with the key is expired.
abbrev IsLive : Str → ℕ → Row → Type 0
IsLive k now r = str_eq r.key k ≡ true → leb r.expires now ≡ false

IsLive-of_absent :
    (k : Str) (now : ℕ) (rs : List Row) → contains (keys rs) k ≡ false → All (IsLive k now) rs
IsLive-of_absent k now [] h = tt
IsLive-of_absent k now (r ∷ rs) h = (λ e. ground arith, IsLive-of_absent k now rs (ground arith))

select-IsLive :
    (k : Str) (now t : ℕ) (v : List ℕ) (rs : List Row)
    → Distinct rs
    → now ≤ t
    → select k t rs ≡ some v
    → All (IsLive k now) rs
select-IsLive k now t v [] d le h = tt
select-IsLive k now t v (r ∷ rs) d le h = elim (Bool-cases (str_eq r.key k)) [
  | inl e ↦
      let absent = contains_of_distinct k r.key rs d.0 e in
      let none_left = select_absent k t rs absent in
      (λ _. ground arith, IsLive-of_absent k now rs absent)
  | inr e ↦ (λ e'. ground arith, select-IsLive k now t v rs d.1 le (ground arith))
]

contains-take :
    (k : Str) (n : ℕ) (rs : List Row)
    → contains (keys rs) k ≡ false
    → contains (keys (take n rs)) k ≡ false
contains-take k zero rs h = refl
contains-take k (suc n) [] h = refl
contains-take k (suc n) (r ∷ rs) h = ground (arith, contains-take k n rs)

not_expired :
    (k : Str) (now : ℕ) (rs : List Row)
    → All (IsLive k now) rs
    → contains (keys (keep (λ r. leb r.expires now) rs)) k ≡ false
not_expired k now [] h = refl
not_expired k now (r ∷ rs) h = let head = h.0 in ground (arith, not_expired k now rs h.1)

select-survives :
    (gone : List Str) (k : Str) (t : ℕ) (v : List ℕ) (rs : List Row)
    → contains gone k ≡ false
    → select k t rs ≡ some v
    → select k t (keep (λ r. not (contains gone r.key)) rs) ≡ some v
select-survives gone k t v [] g h = h
select-survives gone k t v (r ∷ rs) g h = elim (Bool-cases (str_eq r.key k)) [
  | inl e ↦
      let same = str_eq→eq r.key k e in
      let out : contains gone r.key ≡ false = rw same g in
      ground (arith, select-survives gone k t v rs g)
  | inr e ↦ ground (arith, select-survives gone k t v rs g)
]

-- Maintenance at a time is not seen by a lookup then or later: it finds what it would have found
-- without it, for a sound table. The rows that the unordered LIMIT meets are rows of the table.
pub get-maintain :
    (scan : List Row → List Row) (now t : ℕ) (k : Str) (db : Db)
    → ((P : Row → Type 0) (rs : List Row) → All P rs → All P (scan rs))
    → IsSound db
    → now ≤ t
    → get k t (maintain scan now db) ≡ get k t db
unfolding maintain get expired_keys
get-maintain scan now t k db within h le =
    let gone = expired_keys scan now db.entries in
    let p : Row → Bool = λ r. not (contains gone r.key) in
    elim (Option-cases (select k t db.entries)) [
      | inl e ↦ elim (Option-cases (select k t (keep p db.entries))) [
        | inl e' ↦ e' ∙ sym e
        | inr (v, e') ↦ absurd (none_some (sym e ∙ select-keep p k t v db.entries h.distinct e'))
      ]
      | inr (v, e) ↦
          let live = select-IsLive k now t v db.entries h.distinct le e in
          let kept =
            contains-take k 256 (keep (λ r. leb r.expires now) (scan db.entries))
              (not_expired k now (scan db.entries) (within (IsLive k now) db.entries live)) in
          select-survives gone k t v db.entries kept e ∙ sym e
    ]
  where
    none_some : {v : List ℕ} → none ≡ some v → ⊥
    none_some e = cc
