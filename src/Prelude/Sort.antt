-- ===== src/Prelude/Sort.antt =====
-- Stable sorting as Rust's `sort` and `sort_by` do it, the order of texts, and ordered sets.
use mathlib.Core.Path.{◌≡◌, refl}
use mathlib.Core.Bool.{Bool, true, false, ◌&&◌, ◌||◌}
use mathlib.Core.List.{List, [], ◌∷◌}
use Prim.Native.Nat.{suc, ◌≤◌}
use native.Mathlib.Omega.{arith}
use neddit.Prelude.Tests.{ltb, ◌==◌, if◌then◌else◌}
use neddit.Prelude.Lists.{length, All}
use neddit.Prelude.Text.{Str, str_eq, str_eq→eq}

module _ {ℓ} {A : Type ℓ} (le : A → A → Bool) where
  unfoldable pub insert_by : A → List A → List A
  insert_by x [] = x ∷ []
  insert_by x (y ∷ ys) = let rest = insert_by x ys in if le x y then x ∷ y ∷ ys else y ∷ rest

  unfoldable pub sort_by : List A → List A
  unfolding insert_by
  sort_by [] = []
  sort_by (x ∷ xs) = insert_by x (sort_by xs)

  pub length-insert_by : (x : A) (ys : List A) → length (insert_by x ys) ≡ suc (length ys)
  unfolding insert_by
  length-insert_by x [] = refl
  length-insert_by x (y ∷ ys) = ground (arith, length-insert_by x ys)

  pub length-sort_by : (xs : List A) → length (sort_by xs) ≡ length xs
  unfolding sort_by
  length-sort_by [] = refl
  length-sort_by (x ∷ xs) = omega (arith, length-insert_by x (sort_by xs), length-sort_by xs)

  pub insert_by-All {κ} :
      (P : A → Type κ) (x : A) (ys : List A) → P x → All P ys → All P (insert_by x ys)
  unfolding insert_by
  insert_by-All P x [] px h = (px, tt)
  insert_by-All P x (y ∷ ys) px h =
      elim (le x y) as (λ b. All P (if b then x ∷ y ∷ ys else y ∷ insert_by x ys)) [
        | true ↦ (px, h)
        | false ↦ (h.0, insert_by-All P x ys px h.1)
      ]

  pub sort_by-All {κ} : (P : A → Type κ) (xs : List A) → All P xs → All P (sort_by xs)
  unfolding sort_by
  sort_by-All P [] h = tt
  sort_by-All P (x ∷ xs) h = insert_by-All P x (sort_by xs) h.0 (sort_by-All P xs h.1)

-- The order of texts: by bytes in UTF-8, which is by code points.
unfoldable pub str_leb : Str → Str → Bool
str_leb [] t = true
str_leb (c ∷ s) [] = false
str_leb (c ∷ s) (d ∷ t) = ltb c d || (c == d && str_leb s t)

-- `contains` and `insert` of a set of texts that is kept as an ordered list.
unfoldable pub set_contains : List Str → Str → Bool
set_contains [] t = false
set_contains (s ∷ l) t = str_eq s t || set_contains l t

unfoldable pub set_insert : Str → List Str → List Str
unfolding str_leb
set_insert t [] = t ∷ []
set_insert t (s ∷ l) =
    let rest = set_insert t l in
    if str_eq s t then s ∷ l else if str_leb t s then t ∷ s ∷ l else s ∷ rest

-- `extend`
unfoldable pub set_union : List Str → List Str → List Str
unfolding set_insert
set_union l [] = l
set_union l (t ∷ ts) = set_union (set_insert t l) ts

pub set_contains-set_insert :
    (s t : Str) (l : List Str) → set_contains (set_insert t l) s ≡ (str_eq t s || set_contains l s)
unfolding set_contains set_insert
set_contains-set_insert s t [] = refl
set_contains-set_insert s t (u ∷ l) = ground (arith, set_contains-set_insert s t l, str_eq→eq u t)

pub set_contains-set_union :
    (s : Str) (l ts : List Str)
    → set_contains (set_union l ts) s ≡ (set_contains l s || set_contains ts s)
unfolding set_contains set_union
set_contains-set_union s l [] = ground arith
set_contains-set_union s l (t ∷ ts) =
    ground (arith, set_contains-set_union s (set_insert t l) ts, set_contains-set_insert s t l)

pub length-set_insert : (t : Str) (l : List Str) → length (set_insert t l) ≤ suc (length l)
unfolding set_insert
length-set_insert t [] = omega arith
length-set_insert t (s ∷ l) = ground (arith, length-set_insert t l)
