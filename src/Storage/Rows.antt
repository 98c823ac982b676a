-- ===== src/Storage/Rows.antt =====
-- Tables as lists of rows, for the statements of crates/api/src/storage.rs, and its errors.
use neddit.Prelude.{◌≤◌, Bool, true, false, if◌then◌else◌, List, [], ◌∷◌, arith, length, All}

-- `storage::Error`. The last one is the model's own: a loop that ran out of fuel.
pub data Error : Type 0 where
  unavailable capacity rate_limited schema sql io out_of_fuel : Error

pub data Result {ℓ} (A : Type ℓ) : Type ℓ where
  ok : A → Result A
  err : Error → Result A

module _ {ℓ} {A : Type ℓ} where
  -- The rows with the property.
  abbrev pub keep : (A → Bool) → List A → List A
  keep p [] = []
  keep p (x ∷ xs) = let rest = keep p xs in if p x then x ∷ rest else rest

  pub length-keep-le : (p : A → Bool) (xs : List A) → length (keep p xs) ≤ length xs
  length-keep-le p [] = omega arith
  length-keep-le p (x ∷ xs) = ground (arith, length-keep-le p xs)

  pub keep-All {κ} : (P : A → Type κ) (p : A → Bool) (xs : List A) → All P xs → All P (keep p xs)
  keep-All P p [] h = tt
  keep-All P p (x ∷ xs) h = elim (p x) as (λ b. All P (if b then x ∷ keep p xs else keep p xs)) [
    | true ↦ (h.0, keep-All P p xs h.1)
    | false ↦ keep-All P p xs h.1
  ]
