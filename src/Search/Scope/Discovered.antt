-- ===== src/Search/Scope/Discovered.antt =====
-- A search by New is not planned as a list of names: `plan` of crates/api/src/search/engine.rs.
use neddit.Prelude.{
  ◌≡◌, refl, true, false, not, List, Option, none, some, Str, str_eq, str_eq→eq, codes, arith, ltb,
  length, sort_by, str_leb,
}
use neddit.Search.Syntax.{Mode, Expr, ok, span, if_err, >>=-eq-ok}
use neddit.Search.Request.{Request, Plan, sort_of}
use neddit.Search.Scope.{
  plan, plan_kind, plan_communities, check_query, comment_scope, community_text, names, cover,
  ok_or, dedup,
}
use neddit.Search.Scope.Guards.{plan_inversion}

abbrev pub IsDiscovered : Plan → Type 0
IsDiscovered (Plan.names vs) = ⊥
IsDiscovered _ = Unit

module _ (r : Request) (new : str_eq (sort_of r) (codes "new") ≡ true) where
  not_relevance : str_eq (sort_of r) (codes "relevance") ≡ false
  not_relevance = rw (str_eq→eq (sort_of r) (codes "new") new) (unfold str_eq in refl)

  communities-IsDiscovered :
      (e : Expr) (o : Option (List Str)) (p : Plan) → plan_communities r e o ≡ ok p → IsDiscovered p
  unfolding plan_communities
  communities-IsDiscovered e (some vs) p h =
      let (a, ha) = if_err (ltb 100 (length (dedup (sort_by str_leb vs)))) _ _ h in
      let (b, hb) = if_err (not (str_eq (sort_of r) (codes "relevance"))) _ _ ha in
      absurd (let other = not_relevance in ground arith)
  communities-IsDiscovered e none p h =
      let (text, found, done) = >>=-eq-ok (ok_or (community_text e) _ (span e)) _ h in
      let is : p ≡ Plan.communities text = ground arith in rw is tt

  kind-IsDiscovered : (k : Mode) (e : Expr) (p : Plan) → plan_kind k r e ≡ ok p → IsDiscovered p
  unfolding plan_kind
  kind-IsDiscovered Mode.posts e p h =
      let (text, found, done) = >>=-eq-ok (ok_or (cover e false) _ (span e)) _ h in
      let is : p ≡ Plan.posts text = ground arith in rw is tt
  kind-IsDiscovered Mode.comments e p h =
      let (scope, found, done) = >>=-eq-ok (ok_or (comment_scope e) _ (span e)) _ h in
      let is : p ≡ Plan.comments scope.0 scope.1 = ground arith in rw is tt
  kind-IsDiscovered Mode.communities e p h = communities-IsDiscovered e (names e) p h

  checked-IsDiscovered :
      (e : Expr) (p' p : Plan) → IsDiscovered p' → check_query e p' ≡ ok p → IsDiscovered p
  unfolding check_query
  checked-IsDiscovered e (Plan.posts u) p f h = let is : p ≡ Plan.posts u = ground arith in rw is tt
  checked-IsDiscovered e (Plan.communities u) p f h =
      let is : p ≡ Plan.communities u = ground arith in rw is tt
  checked-IsDiscovered e (Plan.comments g v) p f h =
      let is : p ≡ Plan.comments g v = ground arith in rw is tt
  checked-IsDiscovered e (Plan.names vs) p f h = absurd f

  pub plan-IsDiscovered : (e : Expr) (p : Plan) → plan r e ≡ ok p → IsDiscovered p
  plan-IsDiscovered e p h =
      let (accepted, (p', hk, hq)) = plan_inversion r e p h in
      checked-IsDiscovered e p' p (kind-IsDiscovered r.kind e p' hk) hq
