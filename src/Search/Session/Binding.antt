-- ===== src/Search/Session/Binding.antt =====
-- Equality of requests decides whether a cursor belongs to a search: `Request` of
-- crates/api/src/search/engine.rs.
use neddit.Prelude.{
  ◌≡◌, refl, sym, ap, Bool, true, false, not, ◌==◌, if◌then◌else◌, Option, none, some, str_eq,
  str_eq→eq, arith, &&-true, ==_iff,
}
use neddit.Search.Syntax.{Mode}
use neddit.Search.Request.{Request, ListingTime}
use neddit.Search.Session.Store.{mode_tag, time_tag, option_eq, request_eq}

option_eq→eq :
    {A : Type 0} (eq : A → A → Bool)
    → ((x y : A) → eq x y ≡ true → x ≡ y)
    → (o p : Option A) → option_eq eq o p ≡ true
    → o ≡ p
option_eq→eq eq f none none h = refl
option_eq→eq eq f none (some y) h = cc
option_eq→eq eq f (some x) none h = cc
option_eq→eq eq f (some x) (some y) h = ap some (f x y h)

mode_tag→eq : (m n : Mode) → (mode_tag m == mode_tag n) ≡ true → m ≡ n
mode_tag→eq m n h = ground arith

time_tag→eq : (t u : ListingTime) → (time_tag t == time_tag u) ≡ true → t ≡ u
time_tag→eq t u h = ground arith

same_bool : (b c : Bool) → (if b then c else not c) ≡ true → b ≡ c
same_bool true c h = sym h
same_bool false true h = cc
same_bool false false h = refl

pub request_eq→eq : (r s : Request) → request_eq r s ≡ true → r ≡ s
unfolding request_eq
request_eq→eq r s h =
    let (h6, same_cursor) = &&-true _ _ h in
    let (h5, same_nsfw) = &&-true _ _ h6 in
    let (h4, same_limit) = &&-true _ _ h5 in
    let (h3, same_time) = &&-true _ _ h4 in
    let (h2, same_sort) = &&-true _ _ h3 in
    let (same_q, same_kind) = &&-true _ _ h2 in
    λ i. record {
      q = str_eq→eq r.q s.q same_q i;
      kind = mode_tag→eq r.kind s.kind same_kind i;
      sort = option_eq→eq str_eq str_eq→eq r.sort s.sort same_sort i;
      t = option_eq→eq (λ t u. time_tag t == time_tag u) time_tag→eq r.t s.t same_time i;
      limit = option_eq→eq (λ m n. m == n) (λ m n. (==_iff m n).0) r.limit s.limit same_limit i;
      include_nsfw = same_bool r.include_nsfw s.include_nsfw same_nsfw i;
      cursor = option_eq→eq str_eq str_eq→eq r.cursor s.cursor same_cursor i;
    }
