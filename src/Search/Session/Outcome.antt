-- ===== src/Search/Session/Outcome.antt =====
-- Postconditions of the operations of a session, with one for the states in which an operation
-- fails or is given up; and how often an object stands in a list.
use neddit.Prelude.{
  ℕ, suc, ◌+◌, ◌≡◌, refl, Bool, true, false, if◌then◌else◌, List, [], ◌∷◌, ◌++◌, take, drop, zero,
  Str, str_eq, sort_by, insert_by, arith, All,
}
use neddit.Search.Thing.{PublicThing, identity}
use neddit.Search.Session.{Collection, Ran, done, failed, given_up, and_then}

abbrev pub Post {ℓ} :
    {A : Type ℓ} → (A → Collection → Type 0) → (Collection → Type 0) → Ran A → Type 0
Post Q P (done x c) = Q x c
Post Q P (failed d c) = P c
Post Q P (given_up c) = P c

pub Post-and_then {ℓ κ} :
    {A : Type ℓ} {B : Type κ} (Q : A → Collection → Type 0) (R : B → Collection → Type 0)
    (P : Collection → Type 0) (m : Ran A) (k : A → Collection → Ran B)
    → Post Q P m
    → ((x : A) (c : Collection) → Q x c → Post R P (k x c))
    → Post R P (and_then m k)
Post-and_then Q R P (done x c) k h f = f x c h
Post-and_then Q R P (failed d c) k h f = h
Post-and_then Q R P (given_up c) k h f = h

pub Post-if {ℓ} :
    {A : Type ℓ} (Q : A → Collection → Type 0) (P : Collection → Type 0) (b : Bool) (m n : Ran A)
    → (b ≡ true → Post Q P m)
    → (b ≡ false → Post Q P n)
    → Post Q P (if b then m else n)
Post-if Q P true m n h k = h refl
Post-if Q P false m n h k = k refl

abbrev pub one : Bool → ℕ
one b = if b then 1 else 0

module _ (id : Str) where
  -- How often the object stands in a list.
  unfoldable pub occ : List PublicThing → ℕ
  occ [] = 0
  occ (x ∷ xs) = one (str_eq (identity x) id) + occ xs

  pub occ-append : (xs ys : List PublicThing) → occ (xs ++ ys) ≡ occ xs + occ ys
  unfolding occ
  occ-append [] ys = omega arith
  occ-append (x ∷ xs) ys = omega (arith, occ-append xs ys)

  pub occ-take-drop : (n : ℕ) (xs : List PublicThing) → occ (take n xs) + occ (drop n xs) ≡ occ xs
  unfolding occ
  occ-take-drop zero xs = omega arith
  occ-take-drop (suc n) [] = omega arith
  occ-take-drop (suc n) (x ∷ xs) = omega (arith, occ-take-drop n xs)

  module _ (le : PublicThing → PublicThing → Bool) where
    occ-insert_by :
        (x : PublicThing) (ys : List PublicThing)
        → occ (insert_by le x ys) ≡ one (str_eq (identity x) id) + occ ys
    unfolding occ insert_by
    occ-insert_by x [] = refl
    occ-insert_by x (y ∷ ys) = ground (arith, occ-insert_by x ys)

    pub occ-sort_by : (xs : List PublicThing) → occ (sort_by le xs) ≡ occ xs
    unfolding occ sort_by
    occ-sort_by [] = refl
    occ-sort_by (x ∷ xs) = omega (arith, occ-insert_by x (sort_by le xs), occ-sort_by xs)

pub All-take {ℓ κ} :
    {A : Type ℓ} (P : A → Type κ) (n : ℕ) (xs : List A) → All P xs → All P (take n xs)
All-take P zero xs h = tt
All-take P (suc n) [] h = tt
All-take P (suc n) (x ∷ xs) h = (h.0, All-take P n xs h.1)

pub All-drop {ℓ κ} :
    {A : Type ℓ} (P : A → Type κ) (n : ℕ) (xs : List A) → All P xs → All P (drop n xs)
All-drop P zero xs h = h
All-drop P (suc n) [] h = tt
All-drop P (suc n) (x ∷ xs) h = All-drop P n xs h.1
