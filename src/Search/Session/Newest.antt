-- ===== src/Search/Session/Newest.antt =====
-- Lists with the newest object first, and that the sort of `evaluate` in
-- crates/api/src/search/engine/session.rs makes them.
use neddit.Prelude.{
  zero, suc, ◌≡◌, true, false, List, [], ◌∷◌, ◌++◌, any, Option, none, some, arith, All, All-append,
  sort_by, insert_by, sort_by-All, Bool-cases, inl, inr,
}
use neddit.Prelude.Int.{pos, negsuc, leb_ℤ}
use neddit.Search.Thing.{F64, PublicThing, created_of, lt, is_nan, is_date, seconds, unsigned_zero}
use neddit.Search.Session.{Job}
use neddit.Search.Session.Hydrate.{newest_first, has_no_date, is_disordered, later}

-- A time is at most another; the two zeros are one time.
abbrev pub Older : F64 → F64 → Type 0
Older a b = leb_ℤ (unsigned_zero a) (unsigned_zero b) ≡ true

pub Older-trans : (a b c : F64) → Older a b → Older b c → Older a c
Older-trans a b c h k = ground arith

pub Older-refl : (a : F64) → Older a a
Older-refl a = ground arith

total-Older : (a b : F64) → leb_ℤ a b ≡ true → Older a b
total-Older (pos m) (pos n) h = h
total-Older (pos m) (negsuc n) h = absurd (ground arith)
total-Older (negsuc zero) (pos n) h = ground arith
total-Older (negsuc (suc m)) (pos n) h = ground arith
total-Older (negsuc zero) (negsuc zero) h = ground arith
total-Older (negsuc zero) (negsuc (suc n)) h = absurd (ground arith)
total-Older (negsuc (suc m)) (negsuc zero) h = ground arith
total-Older (negsuc (suc m)) (negsuc (suc n)) h = h

is_date-number : (t : F64) → is_date t ≡ true → is_nan t ≡ false
is_date-number (pos n) h = ground arith
is_date-number (negsuc n) h = ground arith

-- Dates of which the first is not before the second.
pub lt-Older : (a b : F64) → is_date a ≡ true → is_date b ≡ true → lt a b ≡ false → Older b a
unfolding lt
lt-Older a b h k e = ground (arith, is_date-number a h, is_date-number b k)

-- No object is newer than one before it.
abbrev pub NewestFirst : List PublicThing → Type 0
NewestFirst [] = Unit
NewestFirst (x ∷ xs) = All (λ y. Older (created_of y) (created_of x)) xs × NewestFirst xs

pub NewestFirst-append :
    (xs ys : List PublicThing)
    → NewestFirst xs
    → NewestFirst ys
    → All (λ x. All (λ y. Older (created_of y) (created_of x)) ys) xs
    → NewestFirst (xs ++ ys)
NewestFirst-append [] ys h k across = k
NewestFirst-append (x ∷ xs) ys h k across = (
  All-append (λ y. Older (created_of y) (created_of x)) xs ys h.0 across.0,
  NewestFirst-append xs ys h.1 k across.1,
)

pub All-front {ℓ κ} : {A : Type ℓ} (P : A → Type κ) (xs ys : List A) → All P (xs ++ ys) → All P xs
All-front P [] ys h = tt
All-front P (x ∷ xs) ys h = (h.0, All-front P xs ys h.1)

pub NewestFirst-front : (xs ys : List PublicThing) → NewestFirst (xs ++ ys) → NewestFirst xs
NewestFirst-front [] ys h = tt
NewestFirst-front (x ∷ xs) ys h =
    (All-front (λ y. Older (created_of y) (created_of x)) xs ys h.0, NewestFirst-front xs ys h.1)

-- A chain of dates from a time down.
abbrev Upper : Option F64 → PublicThing → Type 0
Upper none x = Unit
Upper (some p) x = leb_ℤ (created_of x) p ≡ true

abbrev Chain : Option F64 → List PublicThing → Type 0
Chain p [] = Unit
Chain p (x ∷ xs) = Upper p x × Chain (some (created_of x)) xs

insert_by-Chain :
    (p : Option F64) (x : PublicThing) (ys : List PublicThing)
    → Upper p x
    → Chain p ys
    → Chain p (insert_by newest_first x ys)
unfolding insert_by
insert_by-Chain p x [] h k = (h, tt)
insert_by-Chain p x (y ∷ ys) h k = elim (Bool-cases (newest_first x y)) [
  | inl first ↦ rw first (h, (first, k.1))
  | inr second ↦ rw second (k.0, insert_by-Chain (some (created_of y)) x ys (ground arith) k.1)
]

sort_by-Chain : (xs : List PublicThing) → Chain none (sort_by newest_first xs)
unfolding sort_by
sort_by-Chain [] = tt
sort_by-Chain (x ∷ xs) = insert_by-Chain none x (sort_by newest_first xs) tt (sort_by-Chain xs)

abbrev pub Below : Option F64 → PublicThing → Type 0
Below none x = Unit
Below (some p) x = Older (created_of x) p

abbrev pub IsDate : PublicThing → Type 0
IsDate x = is_date (created_of x) ≡ true

-- Dates from a time down, with the two zeros as one.
abbrev pub Descends : Option F64 → List PublicThing → Type 0
Descends p [] = Unit
Descends p (x ∷ xs) = Below p x × IsDate x × Descends (some (created_of x)) xs

Chain-Descends :
    (p : F64) (xs : List PublicThing) → All IsDate xs → Chain (some p) xs → Descends (some p) xs
Chain-Descends p [] h k = tt
Chain-Descends p (x ∷ xs) h k =
    (total-Older (created_of x) p k.0, h.0, Chain-Descends (created_of x) xs h.1 k.1)

abbrev pub IsDateOption : Option F64 → Type 0
IsDateOption none = Unit
IsDateOption (some p) = is_date p ≡ true

first-Below :
    (last : Option F64) (x : PublicThing)
    → IsDateOption last
    → IsDate x
    → later last (created_of x) ≡ false
    → Below last x
first-Below none x h k e = tt
first-Below (some p) x h k e = lt-Older p (created_of x) h k e

have_dates : (j : Job) (xs : List PublicThing) → any (has_no_date j) xs ≡ false → All IsDate xs
unfolding seconds
have_dates j [] h = tt
have_dates j (x ∷ xs) h = (ground arith, have_dates j xs (ground arith))

-- A batch that `evaluate` goes on with goes down from the last time.
pub sorted-Descends :
    (j : Job) (last : Option F64) (xs : List PublicThing)
    → IsDateOption last
    → any (has_no_date j) xs ≡ false
    → is_disordered last (sort_by newest_first xs) ≡ false
    → Descends last (sort_by newest_first xs)
sorted-Descends j last xs date dated ordered =
    from (sort_by newest_first xs) (sort_by-All newest_first IsDate xs (have_dates j xs dated))
      (sort_by-Chain xs) ordered
  where
    from :
        (l : List PublicThing)
        → All IsDate l
        → Chain none l
        → is_disordered last l ≡ false
        → Descends last l
    from [] h k e = tt
    from (x ∷ l) h k e =
        (first-Below last x date h.0 e, h.0, Chain-Descends (created_of x) l h.1 k.1)
