-- ===== src/Client/Path/Key.antt =====
-- The key of the cache does not depend on the order of the parameters: `cache_key` of
-- crates/api/src/client.rs.
use neddit.Prelude.{
  ◌≡◌, ◌≢◌, refl, sym, ap, true, false, List, [], ◌∷◌, ◌++◌, Str, str_leb, insert_by, sort_by,
  arith, Bool-cases, inl, inr,
}
use neddit.Client.{Libs}
use neddit.Client.Path.{split_query, key_le, cache_key}

str_leb_total : (s t : Str) → str_leb s t ≡ false → str_leb t s ≡ true
unfolding str_leb
str_leb_total [] t h = cc
str_leb_total (c ∷ s) [] h = refl
str_leb_total (c ∷ s) (d ∷ t) h = ground (arith, str_leb_total s t)

str_leb_trans : (s t u : Str) → str_leb s t ≡ true → str_leb t u ≡ true → str_leb s u ≡ true
unfolding str_leb
str_leb_trans [] t u h k = refl
str_leb_trans (c ∷ s) [] u h k = cc
str_leb_trans (c ∷ s) (d ∷ t) [] h k = cc
str_leb_trans (c ∷ s) (d ∷ t) (e ∷ u) h k = ground (arith, str_leb_trans s t u)

str_leb_antisym : (s t : Str) → str_leb s t ≡ true → str_leb t s ≡ true → s ≡ t
unfolding str_leb
str_leb_antisym [] [] h k = refl
str_leb_antisym [] (d ∷ t) h k = cc
str_leb_antisym (c ∷ s) [] h k = cc
str_leb_antisym (c ∷ s) (d ∷ t) h k = ground (arith, str_leb_antisym s t)

abbrev Pair : Type 0
Pair = Str × Str

insert_swap :
    (a b : Pair) (l : List Pair)
    → key_le a b ≡ true
    → key_le b a ≡ false
    → insert_by key_le a (insert_by key_le b l) ≡ insert_by key_le b (insert_by key_le a l)
unfolding insert_by
insert_swap a b [] h k = ground arith
insert_swap a b (y ∷ l) h k =
    ground (arith, insert_swap a b l h k, str_leb_total a.0 y.0, str_leb_trans b.0 y.0 a.0)

insert_comm :
    (a b : Pair) (l : List Pair)
    → a.0 ≢ b.0
    → insert_by key_le a (insert_by key_le b l) ≡ insert_by key_le b (insert_by key_le a l)
insert_comm a b l ne = elim (Bool-cases (str_leb a.0 b.0)) [
  | inl le ↦ elim (Bool-cases (str_leb b.0 a.0)) [
    | inl ge ↦ absurd (ne (str_leb_antisym a.0 b.0 le ge))
    | inr lt ↦ insert_swap a b l le lt
  ]
  | inr gt ↦ sym (insert_swap b a l (str_leb_total a.0 b.0 gt) gt)
]

sort_swap :
    (a b : Pair) (front back : List Pair)
    → a.0 ≢ b.0
    → sort_by key_le (front ++ (a ∷ b ∷ back)) ≡ sort_by key_le (front ++ (b ∷ a ∷ back))
unfolding sort_by
sort_swap a b [] back ne = insert_comm a b (sort_by key_le back) ne
sort_swap a b (x ∷ front) back ne = ap (insert_by key_le x) (sort_swap a b front back ne)

-- Two paths with the same base, whose queries differ by the order of two neighbours with different
-- keys, have the same key in the cache. So any order of the keys gives the same key, where the
-- values of each key keep their order.
pub cache_key_swap :
    (lib : Libs) (p q : Str) (a b : Str × Str) (front back : List (Str × Str))
    → (split_query p).0 ≡ (split_query q).0
    → lib.form_parse (split_query p).1 ≡ front ++ (a ∷ b ∷ back)
    → lib.form_parse (split_query q).1 ≡ front ++ (b ∷ a ∷ back)
    → a.0 ≢ b.0
    → cache_key lib p ≡ cache_key lib q
unfolding cache_key
cache_key_swap lib p q a b front back base hp hq ne =
    rw (base, hp, hq, sort_swap a b front back ne) refl
