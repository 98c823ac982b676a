-- ===== src/Search/Scope/Guards.antt =====
-- The guards of `plan` in crates/api/src/search/engine.rs.
use neddit.Prelude.{
  ℕ, ◌≡◌, refl, Bool, true, false, not, ◌&&◌, Option, none, some, arith, codes, str_eq, contains,
  inl, inr, ◌⊎◌,
}
use neddit.Search.Syntax.{Expr, ok, if_err, >>=-eq-ok}
use neddit.Search.Request.{Request, ListingTime, Plan, sort_of, limit_of, sorts}
use neddit.Search.Scope.{plan_kind, check_query, plan, is_page_size, has_window_time}

-- What the guards of `plan` let through.
abbrev pub IsAccepted : Request → Type 0
IsAccepted q =
    ((limit_of q ≡ 25) ⊎ ((limit_of q ≡ 50) ⊎ (limit_of q ≡ 100)))
    × ((q.t ≡ none) ⊎ (str_eq (sort_of q) (codes "top") ≡ true))
    × (contains (sorts q.kind) (sort_of q) ≡ true)

page_size_cases : (n : ℕ) → is_page_size n ≡ true → (n ≡ 25) ⊎ ((n ≡ 50) ⊎ (n ≡ 100))
page_size_cases n h = ground arith

window_cases :
    (o : Option ListingTime) (b : Bool)
    → (has_window_time o && not b) ≡ false
    → (o ≡ none) ⊎ (b ≡ true)
window_cases none b h = inl refl
window_cases (some t) b h = inr (ground arith)

-- An accepted request, and its plan before the last check.
pub plan_inversion :
    (q : Request) (e : Expr) (p : Plan)
    → plan q e ≡ ok p
    → IsAccepted q × ((p' : Plan) × (plan_kind q.kind q e ≡ ok p') × (check_query e p' ≡ ok p))
unfolding plan
plan_inversion q e p h =
    let accepted = contains (sorts q.kind) (sort_of q) in
    let misused = has_window_time q.t && not (str_eq (sort_of q) (codes "top")) in
    let (a, ha) = if_err (not (is_page_size (limit_of q))) _ _ h in
    let (b, hb) = if_err misused _ _ ha in
    let (c, hc) = if_err (not accepted) _ _ hb in
    let (p', hk, hq) = >>=-eq-ok (plan_kind q.kind q e) (check_query e) hc in
    (
      (
        page_size_cases (limit_of q) (ground arith),
        window_cases q.t (str_eq (sort_of q) (codes "top")) b,
        ground arith,
      ),
      (p', hk, hq),
    )
